-- ===== src/Crypto/Fields/Steps.antt =====
-- crates/asli-crypto/src/msg.rs: what a reader gave, when a sequence of readings succeeds.
use asli.Prelude.{ℕ, ◌≡◌, sym, ◌∙◌, ap, subst, arith, List, inl, inr}
use asli.Prelude.Bytes.{slice}
use asli.Crypto.Error.{Result, ok, >>=-ok, ◌>>=◌, Result-cases}
use asli.Crypto.Fields.{Reader, version, read_bytes, read_u8}
use asli.Crypto.Fields.Reading.{advance}

pub read_bytes-ok :
    (r : Reader) (n : ℕ) (got : List ℕ × Reader)
    → read_bytes r n ≡ ok got
    → got ≡ (slice r.at n r.buf, advance r n)
unfolding read_bytes
read_bytes-ok r n got e = ground arith

-- A sequence that succeeds goes on with what the reader gave.
pub read_bytes-step {ℓ} :
    {W : Type ℓ} (r : Reader) (n : ℕ) (f : List ℕ × Reader → Result W) (w : W)
    → (read_bytes r n >>= f) ≡ ok w
    → f (slice r.at n r.buf, advance r n) ≡ ok w
read_bytes-step r n f w e =
    let (got, here, more) = >>=-ok (read_bytes r n) f e in
    subst (λ read. f read ≡ ok w) (read_bytes-ok r n got here) more

pub version-ok : (r s : Reader) → version r ≡ ok s → s ≡ advance r 1
unfolding version read_u8
version-ok r s e = elim (Result-cases (read_bytes r 1)) [
  | inr (failure, broken) ↦ cc (rw (broken) at e)
  | inl (read, here) ↦
      let same = read_bytes-ok r 1 read here in
      let next : read.1 ≡ s = ground (arith, rw here at e) in sym next ∙ ap (λ p. p.1) same
]

pub version-step {ℓ} :
    {W : Type ℓ} (r : Reader) (f : Reader → Result W) (w : W)
    → (version r >>= f) ≡ ok w
    → f (advance r 1) ≡ ok w
version-step r f w e =
    let (got, here, more) = >>=-ok (version r) f e in
    subst (λ s. f s ≡ ok w) (version-ok r got here) more
