-- ===== src/Crypto/Chunk/Assembling.antt =====
-- The bookkeeping of an assembly on any sequence of chunks.
use asli.Prelude.{
  ℕ, zero, suc, ◌+◌, ◌≤◌, ◌<◌, ◌==◌, ◌≡◌, ◌≢◌, ◌↔◌, refl, ap, ◌∙◌, arith, ltb, false, ◌||◌, List,
  [], ◌∷◌, ◌++◌, length, length-set, length-replicate, replicate, get_elem?, set, Option, none,
  some, u64_max, sat_add, Bool-cases, inl, inr, ==→eq,
}
use asli.Crypto.Error.{Result, ok, err, chunk_mismatch, chunk_incomplete}
use asli.Crypto.Clip.Layout.{decode_inner-ne-incomplete}
use asli.Crypto.Chunk.{
  Assembly, new, accept, store, mismatched, is_complete, join, finish, max_chunks,
}

abbrev pub Slots : Type 0
Slots = List (Option (List ℕ))

abbrev pub filled : Slots → ℕ
filled [] = 0
filled (none ∷ ss) = filled ss
filled (some p ∷ ss) = suc (filled ss)

abbrev pub held_bytes : Slots → ℕ
held_bytes [] = 0
held_bytes (none ∷ ss) = held_bytes ss
held_bytes (some p ∷ ss) = length p + held_bytes ss

-- The counters agree with the slots, and the caps are kept.
pub record IsValid (a : Assembly) : Type 0 where
  pub slots : length a.pieces ≡ a.chunk_count
  pub counted : filled a.pieces ≡ a.received
  pub measured : held_bytes a.pieces ≡ a.bytes
  pub capped : a.bytes ≤ a.max_bytes
  pub few : a.chunk_count ≤ max_chunks
  pub some_chunk : 0 < a.chunk_count

pub filled-set :
    (ss : Slots) (i : ℕ) (p : List ℕ)
    → get_elem? ss i ≡ some none
    → filled (set ss i (some p)) ≡ suc (filled ss)
filled-set [] i p e = absurd (ground arith)
filled-set (none ∷ ss) zero p e = refl
filled-set (some q ∷ ss) zero p e = absurd (ground arith)
filled-set (none ∷ ss) (suc i) p e = filled-set ss i p e
filled-set (some q ∷ ss) (suc i) p e = ap suc (filled-set ss i p e)

pub held_bytes-set :
    (ss : Slots) (i : ℕ) (p : List ℕ)
    → get_elem? ss i ≡ some none
    → held_bytes (set ss i (some p)) ≡ held_bytes ss + length p
held_bytes-set [] i p e = absurd (ground arith)
held_bytes-set (none ∷ ss) zero p e = omega arith
held_bytes-set (some q ∷ ss) zero p e = absurd (ground arith)
held_bytes-set (none ∷ ss) (suc i) p e = held_bytes-set ss i p e
held_bytes-set (some q ∷ ss) (suc i) p e = omega (arith, held_bytes-set ss i p e)

pub filled-replicate : (n : ℕ) → filled (replicate n none) ≡ 0
filled-replicate zero = refl
filled-replicate (suc n) = filled-replicate n

held_bytes-replicate : (n : ℕ) → held_bytes (replicate n none) ≡ 0
held_bytes-replicate zero = refl
held_bytes-replicate (suc n) = held_bytes-replicate n

-- What `new` returns when it does not refuse the count.
abbrev pub fresh : List ℕ → ℕ → ℕ → ℕ → Assembly
fresh msg epoch count cap = record {
  msg_id = msg;
  epoch = epoch;
  chunk_count = count;
  pieces = replicate count none;
  received = 0;
  bytes = 0;
  max_bytes = cap;
}

pub new-fresh :
    (msg : List ℕ) (epoch count cap : ℕ) (a : Assembly)
    → new msg epoch count cap ≡ ok a
    → a ≡ fresh msg epoch count cap
unfolding new
new-fresh msg epoch count cap a e = ground arith

pub new-IsValid :
    (msg : List ℕ) (epoch count cap : ℕ) (a : Assembly) → new msg epoch count cap ≡ ok a → IsValid a
unfolding new
new-IsValid msg epoch count cap a e = elim (Bool-cases (count == 0 || ltb max_chunks count)) [
  | inl bad ↦ absurd (ground arith)
  | inr good ↦ rw (new-fresh msg epoch count cap a e) (record {
    slots = length-replicate count none;
    counted = filled-replicate count;
    measured = held_bytes-replicate count;
    capped = omega arith;
    few = ground arith;
    some_chunk = ground arith;
  })
]

store-IsValid :
    (a : Assembly) (idx : ℕ) (piece : List ℕ)
    → IsValid a
    → a.max_bytes < u64_max
    → get_elem? a.pieces idx ≡ some none
    → IsValid (store a idx piece).0
unfolding store
store-IsValid a idx piece v wide e =
    elim (Bool-cases (ltb a.max_bytes (sat_add a.bytes (length piece)))) [
      | inl over ↦ rw over v
      | inr fits ↦ rw fits (record {
        slots = length-set a.pieces idx (some piece) ∙ v.slots;
        counted = omega (arith, filled-set a.pieces idx piece e, v.counted);
        measured = ground (arith, held_bytes-set a.pieces idx piece e, v.measured, wide);
        capped = ground (arith, wide);
        few = v.few;
        some_chunk = v.some_chunk;
      })
    ]

accept_cases {ℓ} :
    (P : Assembly × Result (Unit {0}) → Type ℓ) (a : Assembly) (msg : List ℕ) (epoch idx count : ℕ)
    (piece : List ℕ)
    → P (a, err chunk_mismatch)
    → (mismatched a msg epoch count ≡ false
        → get_elem? a.pieces idx ≡ some none
        → P (store a idx piece))
    → P (accept a msg epoch idx count piece)
unfolding accept
accept_cases P a msg epoch idx count piece refused free =
    elim (Bool-cases (mismatched a msg epoch count)) [
      | inl bad ↦ rw bad refused
      | inr good ↦ rw good (go good (get_elem? a.pieces idx) refl)
    ]
  where
    go :
        mismatched a msg epoch count ≡ false
        → (slot : Option (Option (List ℕ))) → get_elem? a.pieces idx ≡ slot
        → P (elim slot [
          | none ↦ (a, err chunk_mismatch)
          | some (some held) ↦ (a, err chunk_mismatch)
          | some none ↦ store a idx piece
        ])
    go good none e = refused
    go good (some none) e = free good e
    go good (some (some held)) e = refused

-- Whatever chunk arrives, the counters of a valid assembly go on agreeing with its slots, and its
-- bytes stay within its cap, for a cap below the largest u64.
pub accept-IsValid :
    (a : Assembly) (msg : List ℕ) (epoch idx count : ℕ) (piece : List ℕ)
    → IsValid a
    → a.max_bytes < u64_max
    → IsValid (accept a msg epoch idx count piece).0
accept-IsValid a msg epoch idx count piece v wide =
    accept_cases (λ r. IsValid r.0) a msg epoch idx count piece v
      λ _ e. store-IsValid a idx piece v wide e

pub accept-max_bytes :
    (a : Assembly) (msg : List ℕ) (epoch idx count : ℕ) (piece : List ℕ)
    → (accept a msg epoch idx count piece).0.max_bytes ≡ a.max_bytes
unfolding accept store
accept-max_bytes a msg epoch idx count piece = ground arith

-- A chunk that is refused, for any reason, leaves the assembly as it was.
pub accept_refused :
    (a : Assembly) (msg : List ℕ) (epoch idx count : ℕ) (piece : List ℕ)
    → (accept a msg epoch idx count piece).1 ≢ ok tt
    → (accept a msg epoch idx count piece).0 ≡ a
accept_refused a msg epoch idx count piece =
    accept_cases (λ r. r.1 ≢ ok tt → r.0 ≡ a) a msg epoch idx count piece (λ h. refl)
      λ _ e h. unfold store in ground arith

filled-le-length : (ss : Slots) → filled ss ≤ length ss
filled-le-length [] = omega arith
filled-le-length (none ∷ ss) = omega (arith, filled-le-length ss)
filled-le-length (some p ∷ ss) = omega (arith, filled-le-length ss)

pub join_full : (ss : Slots) → filled ss ≡ length ss → (joined : List ℕ) × (join ss ≡ ok joined)
unfolding join
join_full [] h = ([], refl)
join_full (none ∷ ss) h = absurd (omega (arith, filled-le-length ss))
join_full (some p ∷ ss) h = let (joined, e) = join_full ss (omega arith) in (p ++ joined, rw e refl)

-- On a valid assembly `finish` complains of a missing chunk exactly when not every chunk has been
-- received: with all of them counted no slot can be empty.
pub finish_incomplete :
    (a : Assembly) → IsValid a → (finish a ≡ err chunk_incomplete) ↔ (is_complete a ≡ false)
unfolding finish
finish_incomplete a v = elim (Bool-cases (a.received == a.chunk_count)) [
  | inl all_here ↦
      let (joined, e) =
        join_full a.pieces (omega (arith, v.counted, v.slots, ==→eq _ _ all_here)) in
      rw (all_here, e) ((λ p. absurd (ground (arith, decode_inner-ne-incomplete joined))), λ p. cc)
  | inr missing ↦ rw missing ((λ p. refl), λ p. refl)
]
