-- ===== src/Crypto/Base32/RoundTrip.antt =====
-- Decoding an encoded byte string gives it back.
use asli.Prelude.{
  ℕ, zero, suc, ◌+◌, ◌-◌, ◌*◌, ◌/◌, ◌%◌, ◌^◌, ◌≤◌, ◌<◌, ◌==◌, ◌≡◌, refl, ap, ap₂, ◌∙◌, arith, Bool,
  true, false, not, ◌&&◌, List, [], ◌∷◌, All, IsByte, ==→eq, ==→ne, Bool-cases, inl, inr,
}
use asli.Crypto.Error.{Result, ok, err}
use asli.Crypto.Base32.{symbol, symbol_value, drain, encode_from, encode, decode_from, decode, dash}

-- The table of the alphabet, checked symbol by symbol.
is_value : ℕ → Result ℕ → Bool
is_value i (ok v) = v == i
is_value i (err e) = false

table_below : ℕ → Bool
unfolding is_value symbol symbol_value
table_below zero = true
table_below (suc n) =
    (is_value n (symbol_value (symbol n)) && not (symbol n == dash)) && table_below n

is_value-ok : (i : ℕ) (r : Result ℕ) → is_value i r ≡ true → r ≡ ok i
unfolding is_value
is_value-ok i (ok v) h = ap ok (==→eq v i h)
is_value-ok i (err e) h = cc

and_parts : (a b c : Bool) → ((a && not b) && c) ≡ true → (a ≡ true) × (b ≡ false) × (c ≡ true)
and_parts true false true h = (refl, refl, refl)
and_parts true false false h = cc
and_parts true true c h = cc
and_parts false b c h = cc

table_sound :
    (n i : ℕ)
    → table_below n ≡ true
    → i < n
    → (is_value i (symbol_value (symbol i)) ≡ true) × ((symbol i == dash) ≡ false)
unfolding table_below
table_sound zero i h k = absurd (omega arith)
table_sound (suc n) i h k =
    let (v, d, t) =
      and_parts (is_value n (symbol_value (symbol n))) (symbol n == dash) (table_below n) h in
    elim (Bool-cases (i == n)) [
      | inl e ↦ rw (==→eq i n e) (v, d)
      | inr e ↦ table_sound n i t (omega (arith, ==→ne i n e))
    ]

table : table_below 32 ≡ true
unfolding table_below
table = refl

symbol_known : (i : ℕ) → i < 32 → (symbol_value (symbol i) ≡ ok i) × ((symbol i == dash) ≡ false)
symbol_known i h =
    let (v, d) = table_sound 32 i table h in (is_value-ok i (symbol_value (symbol i)) v, d)

-- One symbol of the alphabet read by the decoder, with a byte completed or not.
decode_whole :
    (buffer bits i : ℕ) (rest out : List ℕ)
    → i < 32
    → 3 ≤ bits
    → decode_from ((buffer * 32 + i) % 65536) (bits + 5 - 8) rest ≡ ok out
    → decode_from buffer bits (symbol i ∷ rest)
      ≡ ok (((buffer * 32 + i) % 65536 / 2 ^ (bits + 5 - 8) % 256) ∷ out)
unfolding decode_from
decode_whole buffer bits i rest out h k e = let (v, d) = symbol_known i h in ground (arith, v, d, e)

decode_part :
    (buffer bits i : ℕ) (rest out : List ℕ)
    → i < 32
    → bits < 3
    → decode_from ((buffer * 32 + i) % 65536) (bits + 5) rest ≡ ok out
    → decode_from buffer bits (symbol i ∷ rest) ≡ ok out
unfolding decode_from
decode_part buffer bits i rest out h k e = let (v, d) = symbol_known i h in ground (arith, v, d, e)

-- With `left` bits not yet written, the decoder has the bits of the byte they belong to that come
-- before them.
Reads : ℕ → List ℕ → Type 0
Reads left bs =
    (buffer before : ℕ)
    → decode_from before (8 - left) (encode_from buffer left bs)
      ≡ ok ((before % 2 ^ (8 - left) * 2 ^ left + buffer % 2 ^ left) ∷ bs)

ReadsAll : List ℕ → Type 0
ReadsAll bs =
    ((buffer before : ℕ) → decode_from before 0 (encode_from buffer 0 bs) ≡ ok bs)
    × Reads 1 bs
    × Reads 2 bs
    × Reads 3 bs
    × Reads 4 bs

decode_end : (buffer bits : ℕ) → buffer % 2 ^ bits ≡ 0 → decode_from buffer bits [] ≡ ok []
unfolding decode_from
decode_end buffer bits h = ground (arith, h)

one : (x y : ℕ) (out : List ℕ) (r : Result (List ℕ)) → r ≡ ok (x ∷ out) → x ≡ y → r ≡ ok (y ∷ out)
one x y out r e h = e ∙ ap (λ z. ok (z ∷ out)) h

two :
    (x y u v : ℕ) (out : List ℕ) (r : Result (List ℕ))
    → r ≡ ok (x ∷ u ∷ out)
    → x ≡ y
    → u ≡ v
    → r ≡ ok (y ∷ v ∷ out)
two x y u v out r e h k = e ∙ ap₂ (λ z w. ok (z ∷ w ∷ out)) h k

-- A byte more, by the number of bits that wait.
step_0 :
    (b : ℕ) (bs : List ℕ)
    → b < 256
    → Reads 3 bs
    → (buffer before : ℕ) → decode_from before 0 (encode_from buffer 0 (b ∷ bs)) ≡ ok (b ∷ bs)
unfolding Reads encode_from drain
step_0 b bs h next buffer before =
    let e =
      decode_part before 0 ((buffer * 256 + b) % 65536 / 8 % 32) _ _ (omega arith) (omega arith)
        (next _ _) in
    one _ _ _ _ e (omega arith)

step_3 : (b : ℕ) (bs : List ℕ) → b < 256 → Reads 1 bs → Reads 3 (b ∷ bs)
unfolding Reads encode_from drain
step_3 b bs h next buffer before =
    let e =
      decode_whole before 5 ((buffer * 256 + b) % 65536 / 64 % 32) _ _ (omega arith) (omega arith) (
        decode_part _ 2 ((buffer * 256 + b) % 65536 / 2 % 32) _ _ (omega arith) (omega arith)
          (next _ _)) in
    two _ _ _ _ _ _ e (omega arith) (omega arith)

step_1 : (b : ℕ) (bs : List ℕ) → b < 256 → Reads 4 bs → Reads 1 (b ∷ bs)
unfolding Reads encode_from drain
step_1 b bs h next buffer before =
    let e =
      decode_whole before 7 ((buffer * 256 + b) % 65536 / 16 % 32) _ _ (omega arith) (omega arith)
        (next _ _) in
    two _ _ _ _ _ _ e (omega arith) (omega arith)

step_4 : (b : ℕ) (bs : List ℕ) → b < 256 → Reads 2 bs → Reads 4 (b ∷ bs)
unfolding Reads encode_from drain
step_4 b bs h next buffer before =
    let e =
      decode_whole before 4 ((buffer * 256 + b) % 65536 / 128 % 32) _ _ (omega arith) (omega arith)
        (decode_part _ 1 ((buffer * 256 + b) % 65536 / 4 % 32) _ _ (omega arith) (omega arith)
          (next _ _)) in
    two _ _ _ _ _ _ e (omega arith) (omega arith)

step_2 :
    (b : ℕ) (bs : List ℕ)
    → b < 256
    → ((buffer before : ℕ) → decode_from before 0 (encode_from buffer 0 bs) ≡ ok bs)
    → Reads 2 (b ∷ bs)
unfolding Reads encode_from drain
step_2 b bs h next buffer before =
    let e =
      decode_whole before 6 ((buffer * 256 + b) % 65536 / 32 % 32) _ _ (omega arith) (omega arith) (
        decode_whole _ 3 ((buffer * 256 + b) % 65536 / 1 % 32) _ _ (omega arith) (omega arith)
          (next _ _)) in
    two _ _ _ _ _ _ e (omega arith) (omega arith)

end_1 : Reads 1 []
unfolding Reads encode_from
end_1 buffer before =
    let e =
      decode_whole before 7 (buffer * 16 % 65536 % 32) _ _ (omega arith) (omega arith)
        (decode_end _ 4 (omega arith)) in
    one _ _ _ _ e (omega arith)

end_2 : Reads 2 []
unfolding Reads encode_from
end_2 buffer before =
    let e =
      decode_whole before 6 (buffer * 8 % 65536 % 32) _ _ (omega arith) (omega arith)
        (decode_end _ 3 (omega arith)) in
    one _ _ _ _ e (omega arith)

end_3 : Reads 3 []
unfolding Reads encode_from
end_3 buffer before =
    let e =
      decode_whole before 5 (buffer * 4 % 65536 % 32) _ _ (omega arith) (omega arith)
        (decode_end _ 2 (omega arith)) in
    one _ _ _ _ e (omega arith)

end_4 : Reads 4 []
unfolding Reads encode_from
end_4 buffer before =
    let e =
      decode_whole before 4 (buffer * 2 % 65536 % 32) _ _ (omega arith) (omega arith)
        (decode_end _ 1 (omega arith)) in
    one _ _ _ _ e (omega arith)

reads : (bs : List ℕ) → All IsByte bs → ReadsAll bs
unfolding ReadsAll encode_from
reads [] h = (λ buffer before. decode_end before 0 (omega arith), end_1, end_2, end_3, end_4)
reads (b ∷ bs) (h, hs) =
    let (r0, r1, r2, r3, r4) = reads bs hs in
    (step_0 b bs h r3, step_1 b bs h r4, step_2 b bs h r0, step_3 b bs h r1, step_4 b bs h r2)

-- Any string of bytes encodes to a text that decodes to it.
pub decode-encode : (input : List ℕ) → All IsByte input → decode (encode input) ≡ ok input
unfolding decode encode ReadsAll
decode-encode input h = (reads input h).0 0 0
