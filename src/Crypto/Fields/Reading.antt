-- ===== src/Crypto/Fields/Reading.antt =====
-- What a reader gives when the bytes that a writer wrote lie ahead of it.
use asli.Prelude.{
  ℕ, ◌+◌, ◌^◌, ◌<◌, ◌≤◌, All, ◌≡◌, refl, ap, ◌∙◌, arith, ltb, false, List, [], ◌∷◌, ◌++◌, length,
  length-append, take, drop, le→ltb, ==_self,
}
use asli.Prelude.Bytes.{
  to_be, slice, byte_at, length-to_be, from_be-to_be, take-append_of, drop-append_of, drop-drop,
}
use asli.Prelude.Utf8.{IsScalar, as_bytes, from_utf8-as_bytes}
use asli.Crypto.Error.{ok}
use asli.Crypto.Fields.{
  Reader, reader, read_bytes, read_u8, read_be, read_text, read_blob, max_text_bytes, done, version,
}

-- The bytes from the reader's position to the end.
pub record Ahead (r : Reader) (xs : List ℕ) : Type 0 where
  pub rest : drop r.at r.buf ≡ xs
  pub ends : r.at + length xs ≡ length r.buf

abbrev pub advance : Reader → ℕ → Reader
advance r n = record r { at = r.at + n }

pub reader-Ahead : (buf : List ℕ) → Ahead (reader buf) buf
reader-Ahead buf = record { rest = refl; ends = omega arith }

pub advance-Ahead :
    (r : Reader) (n : ℕ) (xs ys : List ℕ)
    → length xs ≡ n
    → Ahead r (xs ++ ys)
    → Ahead (advance r n) ys
advance-Ahead r n xs ys h a = record {
  rest = drop-drop r.at n r.buf ∙ ap (drop n) a.rest ∙ drop-append_of n xs ys h;
  ends = omega (arith, a.ends, length-append xs ys, h);
}

pub read_bytes-Ahead :
    (r : Reader) (n : ℕ) (xs ys : List ℕ)
    → length xs ≡ n
    → Ahead r (xs ++ ys)
    → read_bytes r n ≡ ok (xs, advance r n)
unfolding read_bytes slice
read_bytes-Ahead r n xs ys h a =
    let fits : ltb (length r.buf) (r.at + n) ≡ false =
      le→ltb _ _ (omega (arith, a.ends, length-append xs ys, h)) in
    let taken : take n (drop r.at r.buf) ≡ xs = ap (take n) a.rest ∙ take-append_of n xs ys h in
    rw (fits, taken) refl

pub read_u8-Ahead :
    (r : Reader) (b : ℕ) (ys : List ℕ) → Ahead r (b ∷ ys) → read_u8 r ≡ ok (b, advance r 1)
unfolding read_u8 byte_at
read_u8-Ahead r b ys a = rw (read_bytes-Ahead r 1 (b ∷ []) ys refl a) refl

pub read_be-Ahead :
    (r : Reader) (n v : ℕ) (ys : List ℕ)
    → v < 256 ^ n
    → Ahead r (to_be n v ++ ys)
    → read_be n r ≡ ok (v, advance r n)
unfolding read_be
read_be-Ahead r n v ys h a =
    rw (read_bytes-Ahead r n (to_be n v) ys (length-to_be n v) a, from_be-to_be n v h) refl

pub version-Ahead : (r : Reader) (ys : List ℕ) → Ahead r (1 ∷ ys) → version r ≡ ok (advance r 1)
unfolding version
version-Ahead r ys a = rw (read_u8-Ahead r 1 ys a) refl

pub done-Ahead : (r : Reader) → Ahead r [] → done r ≡ ok tt
unfolding done
done-Ahead r a = let e : r.at ≡ length r.buf = omega (arith, a.ends) in rw (e, ==_self) refl

pub read_text-Ahead :
    (r : Reader) (text ys : List ℕ)
    → All IsScalar text
    → length (as_bytes text) ≤ max_text_bytes
    → Ahead r (length (as_bytes text) ∷ as_bytes text ++ ys)
    → read_text r ≡ ok (text, advance (advance r 1) (length (as_bytes text)))
unfolding read_text
read_text-Ahead r text ys scalars short a =
    let bytes = as_bytes text in
    let fits : ltb max_text_bytes (length bytes) ≡ false = le→ltb _ _ short in
    let a1 = advance-Ahead r 1 (length bytes ∷ []) (bytes ++ ys) refl a in
    rw
      (
        read_u8-Ahead r (length bytes) (bytes ++ ys) a,
        fits,
        read_bytes-Ahead (advance r 1) (length bytes) bytes ys refl a1,
        from_utf8-as_bytes text scalars,
      )
      refl

pub read_blob-Ahead :
    (r : Reader) (bytes ys : List ℕ)
    → length bytes < 256 ^ 4
    → Ahead r (to_be 4 (length bytes) ++ (bytes ++ ys))
    → read_blob r ≡ ok (bytes, advance (advance r 4) (length bytes))
unfolding read_blob
read_blob-Ahead r bytes ys fits a =
    let a1 = advance-Ahead r 4 (to_be 4 (length bytes)) (bytes ++ ys) (length-to_be 4 _) a in
    rw
      (
        read_be-Ahead r 4 (length bytes) (bytes ++ ys) fits a,
        read_bytes-Ahead (advance r 4) (length bytes) bytes ys refl a1,
      )
      refl
