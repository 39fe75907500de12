-- ===== src/Crypto/Offer/Addresses.antt =====
-- crates/asli-crypto/src/file.rs: the addresses of an offer.
use asli.Prelude.{
  ℕ, ◌≡◌, ◌≤◌, refl, ap, ◌∙◌, subst, arith, ltb, ◌==◌, false, Bool, List, [], ◌∷◌, ◌++◌, length,
  All, append_assoc, Option, none, some, u32_max,
}
use asli.Prelude.Bytes.{to_be, length-to_be}
use asli.Prelude.Utf8.{IsScalar}
use asli.Crypto.Error.{ok, >>=-ok, refuse_if, refuse_if_ok, announce_field}
use asli.Crypto.Fields.{Reader, write_texts}
use asli.Crypto.Fields.Reading.{Ahead, advance-Ahead, read_u8-Ahead, read_blob-Ahead}
use asli.Crypto.Offer.{Direct, write_direct, read_direct, is_wrong_count, max_direct_addrs}
use asli.Crypto.Fields.Writing.{
  all_counted, IsShort, write_texts-ok, write_blob-ok, read_texts-Ahead,
}

-- How the addresses are laid out.
unfoldable pub direct_bytes : Option Direct → List ℕ
unfolding all_counted
direct_bytes none = 0 ∷ []
direct_bytes (some d) =
    length d.addrs ∷ all_counted d.addrs ++ (to_be 4 (length d.sealed_key) ++ d.sealed_key)

-- What the writer checked, and what the type of a text says.
unfoldable pub IsDirect : Option Direct → Type 0
IsDirect none = Unit {0}
IsDirect (some d) =
    (is_wrong_count (length d.addrs) ≡ false)
    × (All IsShort d.addrs)
    × (length d.sealed_key ≤ u32_max)

unfoldable pub HasScalars : Option Direct → Type 0
HasScalars none = Unit {0}
HasScalars (some d) = All (λ t. All IsScalar t) d.addrs

pub write_direct-ok :
    (out : List ℕ) (direct : Option Direct) (written : List ℕ)
    → write_direct out direct ≡ ok written
    → (written ≡ out ++ direct_bytes direct) × IsDirect direct
unfolding write_direct direct_bytes IsDirect
write_direct-ok out none written e = (ground arith, tt)
write_direct-ok out (some d) written e =
    let wrong : Bool = is_wrong_count (length d.addrs) in
    let (passed, tested, more) = >>=-ok (refuse_if wrong announce_field) _ e in
    let (texts, wrote, last) = >>=-ok (write_texts (out ++ (length d.addrs ∷ [])) d.addrs) _ more in
    let (shape, shorts) = write_texts-ok _ d.addrs texts wrote in
    let (end, fits) = write_blob-ok texts d.sealed_key written last in
    let size = to_be 4 (length d.sealed_key) in
    let parts : ((out ++ (length d.addrs ∷ [])) ++ all_counted d.addrs) ++ (size ++ d.sealed_key)
        ≡ out ++ direct_bytes (some d) =
      simp append_assoc in
    (
      end ∙ ap (λ x. x ++ (size ++ d.sealed_key)) shape ∙ parts,
      (refuse_if_ok wrong announce_field (ground arith), shorts, fits),
    )

pub read_direct-Ahead :
    (r : Reader) (direct : Option Direct) (ys : List ℕ)
    → IsDirect direct
    → HasScalars direct
    → Ahead r (direct_bytes direct ++ ys)
    → (s : Reader) × ((read_direct r ≡ ok (direct, s)) × Ahead s ys)
unfolding read_direct direct_bytes IsDirect HasScalars
read_direct-Ahead r none ys v t a =
    (_, (rw (read_u8-Ahead r 0 ys a) refl, advance-Ahead r 1 (0 ∷ []) ys refl a))
read_direct-Ahead r (some d) ys (count, shorts, fits) t a =
    let size = to_be 4 (length d.sealed_key) in
    let parts : direct_bytes (some d) ++ ys
        ≡ length d.addrs ∷ (all_counted d.addrs ++ (size ++ (d.sealed_key ++ ys))) =
      simp append_assoc in
    let b = subst (Ahead r) parts a in
    let b1 = advance-Ahead r 1 (length d.addrs ∷ []) _ refl b in
    let (s, (read, rest)) = read_texts-Ahead d.addrs _ _ t shorts b1 in
    let c1 = advance-Ahead s 4 size _ (length-to_be 4 _) rest in
    let c2 = advance-Ahead _ (length d.sealed_key) d.sealed_key ys refl c1 in
    let some_addrs : (length d.addrs == 0) ≡ false = ground (arith, count) in
    let few : ltb max_direct_addrs (length d.addrs) ≡ false = ground (arith, count) in
    (
      _,
      (
        rw
            (
              read_u8-Ahead r (length d.addrs) _ b,
              few,
              some_addrs,
              read,
              read_blob-Ahead s d.sealed_key ys (omega (arith, fits)) rest,
            )
            refl,
        c2,
      ),
    )
