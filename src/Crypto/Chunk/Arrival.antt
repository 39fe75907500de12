-- ===== src/Crypto/Chunk/Arrival.antt =====
-- The chunks of one message may arrive in any order.
use asli.Prelude.{
  ℕ, zero, suc, ◌+◌, ◌≤◌, ◌<◌, ◌==◌, ◌≡◌, ◌≢◌, refl, ap, ◌∙◌, arith, ltb, true, false, List, [],
  ◌∷◌, ◌++◌, length, replicate, get_elem?, get_elem?-set_ne, set, Option, none, some, u64_max,
  ==_self, le→ltb, All,
}
use asli.Prelude.Bytes.{same_bytes_self}
use asli.Crypto.Error.{ok}
use asli.Crypto.Clip.{decode_inner, inner_header_len}
use asli.Crypto.Chunk.{Assembly, new, accept, store, is_complete, join, finish}
use asli.Crypto.Chunk.Pieces.{concat}
use asli.Crypto.Chunk.Assembling.{Slots, filled, filled-set, fresh, new-fresh, filled-replicate}

-- A piece with its index.
abbrev pub Arrival : Type 0
Arrival = ℕ × List ℕ

abbrev pub total_bytes : List Arrival → ℕ
total_bytes [] = 0
total_bytes ((i, p) ∷ rest) = length p + total_bytes rest

abbrev pub indices : List Arrival → List ℕ
indices [] = []
indices ((i, p) ∷ rest) = i ∷ indices rest

abbrev Distinct : List ℕ → Type 0
Distinct [] = Unit {0}
Distinct (i ∷ is) = All (λ j. i ≢ j) is × Distinct is

-- Every piece of the payload, each under its own index, in any order.
pub record IsDelivery (pieces : List (List ℕ)) (arrivals : List Arrival) : Type 0 where
  pub genuine : All (λ a. get_elem? pieces a.0 ≡ some a.1) arrivals
  pub distinct : Distinct (indices arrivals)
  pub whole : length arrivals ≡ length pieces

-- The chunks of the message are handed to the assembly one after the other.
pub accept_all : Assembly → List Arrival → Assembly
accept_all a [] = a
accept_all a ((i, p) ∷ rest) = accept_all (accept a a.msg_id a.epoch i a.chunk_count p).0 rest

-- Each slot is empty or holds the piece of its index.
abbrev Agrees : List (List ℕ) → Slots → Type 0
Agrees [] [] = Unit {0}
Agrees [] (s ∷ ss) = ⊥
Agrees (p ∷ ps) [] = ⊥
Agrees (p ∷ ps) (none ∷ ss) = Agrees ps ss
Agrees (p ∷ ps) (some q ∷ ss) = (q ≡ p) × Agrees ps ss

Agrees-empty : (ps : List (List ℕ)) → Agrees ps (replicate (length ps) none)
Agrees-empty [] = tt
Agrees-empty (p ∷ ps) = Agrees-empty ps

Agrees-set :
    (ps : List (List ℕ)) (ss : Slots) (i : ℕ) (p : List ℕ)
    → Agrees ps ss
    → get_elem? ps i ≡ some p
    → Agrees ps (set ss i (some p))
Agrees-set [] [] i p a e = absurd (ground arith)
Agrees-set [] (s ∷ ss) i p a e = absurd a
Agrees-set (q ∷ ps) [] i p a e = absurd a
Agrees-set (q ∷ ps) (none ∷ ss) zero p a e = (ground arith, a)
Agrees-set (q ∷ ps) (some r ∷ ss) zero p a e = (ground arith, a.1)
Agrees-set (q ∷ ps) (none ∷ ss) (suc i) p a e = Agrees-set ps ss i p a e
Agrees-set (q ∷ ps) (some r ∷ ss) (suc i) p a e = (a.0, Agrees-set ps ss i p a.1 e)

-- Slots that are all filled and agree with the pieces join to the payload.
Agrees-join :
    (ps : List (List ℕ)) (ss : Slots)
    → Agrees ps ss
    → filled ss ≡ length ps
    → join ss ≡ ok (concat ps)
unfolding join
Agrees-join [] [] a h = refl
Agrees-join [] (s ∷ ss) a h = absurd a
Agrees-join (p ∷ ps) [] a h = absurd a
Agrees-join (p ∷ ps) (none ∷ ss) a h = absurd (omega (arith, Agrees-le ps ss a))
  where
    Agrees-le : (qs : List (List ℕ)) (ts : Slots) → Agrees qs ts → filled ts ≤ length qs
    Agrees-le [] [] b = omega arith
    Agrees-le [] (s ∷ ts) b = absurd b
    Agrees-le (q ∷ qs) [] b = absurd b
    Agrees-le (q ∷ qs) (none ∷ ts) b = omega (arith, Agrees-le qs ts b)
    Agrees-le (q ∷ qs) (some r ∷ ts) b = omega (arith, Agrees-le qs ts b.1)
Agrees-join (p ∷ ps) (some q ∷ ss) a h =
    rw (Agrees-join ps ss a.1 (omega arith)) (ap (λ r. ok (r ++ concat ps)) a.0)

-- A genuine piece for an empty slot, within the cap, is stored.
accept_genuine :
    (a : Assembly) (i : ℕ) (p : List ℕ)
    → get_elem? a.pieces i ≡ some none
    → a.bytes + length p ≤ a.max_bytes
    → a.max_bytes < u64_max
    → (accept a a.msg_id a.epoch i a.chunk_count p).0 ≡ record a {
      bytes = a.bytes + length p;
      pieces = set a.pieces i (some p);
      received = a.received + 1;
    }
unfolding accept store
accept_genuine a i p slot fits wide = rw (same_bytes_self, ==_self, slot) (ground arith)

-- What remains to arrive finds its slots empty.
abbrev Awaits : Slots → List Arrival → Type 0
Awaits ss arrivals = All (λ a. get_elem? ss a.0 ≡ some none) arrivals

Awaits-set :
    (ss : Slots) (i : ℕ) (p : List ℕ) (rest : List Arrival)
    → All (λ j. i ≢ j) (indices rest)
    → Awaits ss rest
    → Awaits (set ss i (some p)) rest
Awaits-set ss i p [] d w = tt
Awaits-set ss i p ((j, q) ∷ rest) d w =
    (get_elem?-set_ne ss i j (some p) d.0 ∙ w.0, Awaits-set ss i p rest d.1 w.1)

empty_slot :
    (ps : List (List ℕ)) (k : ℕ) (q : List ℕ)
    → get_elem? ps k ≡ some q
    → get_elem? {A = Option (List ℕ)} (replicate (length ps) none) k ≡ some none
empty_slot [] k q e = absurd (ground arith)
empty_slot (r ∷ ps) zero q e = refl
empty_slot (r ∷ ps) (suc k) q e = empty_slot ps k q e

Awaits-empty :
    (pieces : List (List ℕ)) (arrivals : List Arrival)
    → All (λ a. get_elem? pieces a.0 ≡ some a.1) arrivals
    → Awaits (replicate (length pieces) none) arrivals
Awaits-empty pieces [] g = tt
Awaits-empty pieces ((i, p) ∷ rest) g = (empty_slot pieces i p g.0, Awaits-empty pieces rest g.1)

-- The assembly after all arrivals: nothing but the slots and the counters has changed.
record Assembled (pieces : List (List ℕ)) (a b : Assembly) (more : ℕ) : Type 0 where
  pub same_count : b.chunk_count ≡ a.chunk_count
  pub counted : b.received ≡ a.received + more
  pub agrees : Agrees pieces b.pieces
  pub tallied : filled b.pieces ≡ filled a.pieces + more

accept_all-Assembled :
    (pieces : List (List ℕ)) (arrivals : List Arrival) (a : Assembly)
    → All (λ x. get_elem? pieces x.0 ≡ some x.1) arrivals
    → Distinct (indices arrivals)
    → Awaits a.pieces arrivals
    → Agrees pieces a.pieces
    → a.bytes + total_bytes arrivals ≤ a.max_bytes
    → a.max_bytes < u64_max
    → Assembled pieces a (accept_all a arrivals) (length arrivals)
unfolding accept_all
accept_all-Assembled pieces [] a g d w m fits wide = record {
  same_count = refl;
  counted = omega arith;
  agrees = m;
  tallied = omega arith;
}
accept_all-Assembled pieces ((i, p) ∷ rest) a g d w m fits wide =
    let next : Assembly = record a {
      bytes = a.bytes + length p;
      pieces = set a.pieces i (some p);
      received = a.received + 1;
    } in
    let step : (accept a a.msg_id a.epoch i a.chunk_count p).0 ≡ next =
      accept_genuine a i p w.0 (omega arith) wide in
    let done =
      accept_all-Assembled pieces rest next g.1 d.1 (Awaits-set a.pieces i p rest d.0 w.1)
        (Agrees-set pieces a.pieces i p m g.0) (omega arith) wide in
    rw step (record {
      same_count = done.same_count;
      counted = omega (arith, done.counted);
      agrees = done.agrees;
      tallied = omega (arith, done.tallied, filled-set a.pieces i p w.0);
    })

-- A payload of 1 to 4096 pieces whose size is within the receiver's limit is reassembled from its
-- chunks whatever the order in which they arrive, each once: the assembly is then complete, and
-- `finish` decodes exactly the payload.
pub finish-accept_all :
    (msg : List ℕ) (epoch limit : ℕ) (pieces : List (List ℕ)) (arrivals : List Arrival)
    (a : Assembly)
    → new msg epoch (length pieces) limit ≡ ok a
    → IsDelivery pieces arrivals
    → total_bytes arrivals ≤ limit
    → limit < u64_max
    → inner_header_len ≤ length (concat pieces)
    → finish (accept_all a arrivals) ≡ decode_inner (concat pieces)
unfolding finish is_complete
finish-accept_all msg epoch limit pieces arrivals a e d fits wide long =
    let start = fresh msg epoch (length pieces) limit in
    let z =
      accept_all-Assembled pieces arrivals start d.genuine d.distinct
        (Awaits-empty pieces arrivals d.genuine) (Agrees-empty pieces) (omega arith) wide in
    let joined =
      Agrees-join pieces (accept_all start arrivals).pieces z.agrees
        (omega (arith, z.tallied, filled-replicate (length pieces), d.whole)) in
    let done : ((accept_all start arrivals).received == (accept_all start arrivals).chunk_count)
        ≡ true =
      ground (arith, z.counted, z.same_count, d.whole) in
    let enough : ltb (length (concat pieces)) inner_header_len ≡ false = le→ltb _ _ long in
    rw (new-fresh msg epoch (length pieces) limit a e, done, joined, enough) refl
