-- ===== src/History/Rounds.antt =====
-- crates/asli-history/src/lib.rs: the loop of `decode_all` ends.
use asli.Prelude.{
  ℕ, zero, suc, ◌+◌, ◌≤◌, ◌≡◌, refl, List, length, take, drop, ltb, true, inl, inr, Bool-cases,
  tests, arith, length-drop,
}
use asli.Prelude.Bytes.{from_be}
use asli.Crypto.Primitives.{Primitives}
use asli.History.File.{decode_records}

module _ (crypto : Primitives) (key : List ℕ) where
  -- The loop needs no more rounds than there are bytes left: with more of them it returns the same,
  -- because a record that is not refused takes bytes away.
  pub decode_records_enough :
      (n k : ℕ) (rest : List ℕ)
      → length rest ≤ n
      → decode_records crypto (n + k) key rest ≡ decode_records crypto n key rest
  unfolding decode_records
  decode_records_enough zero zero rest h = refl
  decode_records_enough zero (suc k) rest h =
      let short : ltb (length rest) 4 ≡ true = omega (arith, tests) in
      let more : 0 + suc k ≡ suc k = omega arith in rw (more, decode_records, short) refl
  decode_records_enough (suc n) k rest h = elim (Bool-cases (ltb (length rest) 4)) [
    | inl short ↦
        let more : suc n + k ≡ suc (n + k) = omega arith in rw (more, decode_records, short) refl
    | inr long ↦
        let size = from_be (take 4 rest) in
        let left = drop size (drop 4 rest) in
        let fewer : length left ≤ n =
          omega (arith, tests, long, h, length-drop size (drop 4 rest), length-drop 4 rest) in
        let later = decode_records_enough n k left fewer in
        let more : suc n + k ≡ suc (n + k) = omega arith in rw (more, decode_records, later) refl
  ]
