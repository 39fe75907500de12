-- ===== src/Crypto/Fields/Writing.antt =====
-- crates/asli-crypto/src/msg.rs: what a writer of fields leaves, when it succeeds.
use asli.Prelude.{
  ℕ, ◌≡◌, ◌≤◌, refl, sym, ap, ◌∙◌, subst, arith, List, [], ◌∷◌, ◌++◌, length, All, append_assoc,
  append-nil, u32_max,
}
use asli.Prelude.Bytes.{to_be}
use asli.Prelude.Utf8.{IsScalar, as_bytes}
use asli.Crypto.Error.{ok, >>=-ok}
use asli.Crypto.Fields.{Reader, write_text, write_texts, write_blob, read_texts, max_text_bytes}
use asli.Crypto.Fields.Reading.{Ahead, advance-Ahead, read_text-Ahead}

abbrev pub counted : List ℕ → List ℕ
counted text = length (as_bytes text) ∷ as_bytes text

unfoldable pub all_counted : List (List ℕ) → List ℕ
all_counted [] = []
all_counted (text ∷ texts) = counted text ++ all_counted texts

abbrev pub IsShort : List ℕ → Type 0
IsShort text = length (as_bytes text) ≤ max_text_bytes

pub write_text-ok :
    (out text written : List ℕ)
    → write_text out text ≡ ok written
    → (written ≡ out ++ counted text) × IsShort text
unfolding write_text
write_text-ok out text written e = ground arith

pub write_texts-ok :
    (out : List ℕ) (texts : List (List ℕ)) (written : List ℕ)
    → write_texts out texts ≡ ok written
    → (written ≡ out ++ all_counted texts) × All IsShort texts
unfolding write_texts all_counted
write_texts-ok out [] written e =
    let same : out ≡ written = ground arith in (sym same ∙ sym (append-nil out), tt)
write_texts-ok out (text ∷ texts) written e =
    let (first, wrote, more) = >>=-ok (write_text out text) _ e in
    let (shape, short) = write_text-ok out text first wrote in
    let (shapes, shorts) = write_texts-ok first texts written more in
    (
      shapes
          ∙ ap (λ x. x ++ all_counted texts) shape
          ∙ append_assoc out (counted text) (all_counted texts),
      (short, shorts),
    )

pub read_texts-Ahead :
    (texts : List (List ℕ)) (r : Reader) (ys : List ℕ)
    → All (λ t. All IsScalar t) texts
    → All IsShort texts
    → Ahead r (all_counted texts ++ ys)
    → (s : Reader) × ((read_texts (length texts) r ≡ ok (texts, s)) × Ahead s ys)
unfolding read_texts all_counted
read_texts-Ahead [] r ys v short a = (r, (refl, a))
read_texts-Ahead (text ∷ texts) r ys (v, vs) (short, shorts) a =
    let b = subst (Ahead r) (append_assoc (counted text) (all_counted texts) ys) a in
    let b1 = advance-Ahead r 1 (length (as_bytes text) ∷ []) _ refl b in
    let b2 = advance-Ahead _ (length (as_bytes text)) (as_bytes text) _ refl b1 in
    let (s, (read, rest)) = read_texts-Ahead texts _ ys vs shorts b2 in
    (s, (rw (read_text-Ahead r text _ v short b, read) refl, rest))

pub write_blob-ok :
    (out bytes written : List ℕ)
    → write_blob out bytes ≡ ok written
    → (written ≡ out ++ (to_be 4 (length bytes) ++ bytes)) × (length bytes ≤ u32_max)
unfolding write_blob
write_blob-ok out bytes written e = ground arith
