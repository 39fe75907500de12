-- ===== src/Core/Replay/RoundTrip.antt =====
-- A fresh guard that restores what another one saved.
use asli.Prelude.{
  ℕ, suc, ◌+◌, ◌≤◌, ◌==◌, if◌then◌else◌, ◌≡◌, refl, sym, ap, ◌∙◌, ◌≢◌, false, List, [], ◌∷◌, ◌++◌,
  some, length, length-append, arith, append-nil, append_assoc,
}
use asli.Core.Replay.Table.{lookup, insert, keys, Absent, Distinct, Absent-lookup, length-keys}
use asli.Core.Replay.{
  ReplayGuard, new, memory, restore, sort, sort_insert, restore_devices, restore_seen, contains,
  push_seen, default_msg_id_capacity, default_device_capacity,
}
use asli.Core.Replay.Invariant.{IsValid}
use asli.Core.Replay.Restart.{restore_device_new}

-- Sorting a table with distinct keys changes no lookup, no length and no key.
lookup-sort_insert :
    (k d s : ℕ) (t : List (ℕ × ℕ))
    → Absent d (keys t)
    → lookup k (sort_insert (d, s) t) ≡ (if d == k then some s else lookup k t)
unfolding lookup sort_insert
lookup-sort_insert k d s [] a = refl
lookup-sort_insert k d s ((e, v) ∷ t) a = ground (arith, lookup-sort_insert k d s t a.1)

Absent-sort_insert :
    (k d s : ℕ) (t : List (ℕ × ℕ))
    → d ≢ k
    → Absent k (keys t)
    → Absent k (keys (sort_insert (d, s) t))
unfolding sort_insert
Absent-sort_insert k d s [] h a = (h, tt)
Absent-sort_insert k d s ((e, v) ∷ t) h a = ground (arith, Absent-sort_insert k d s t h a.1)

Distinct-sort_insert :
    (d s : ℕ) (t : List (ℕ × ℕ))
    → Absent d (keys t)
    → Distinct (keys t)
    → Distinct (keys (sort_insert (d, s) t))
unfolding sort_insert
Distinct-sort_insert d s [] a h = (tt, tt)
Distinct-sort_insert d s ((e, v) ∷ t) a h =
    ground
      (arith, Distinct-sort_insert d s t a.1 h.1, Absent-sort_insert e d s t (λ q. a.0 (sym q)) h.0)

length-sort_insert : (p : ℕ × ℕ) (t : List (ℕ × ℕ)) → length (sort_insert p t) ≡ suc (length t)
unfolding sort_insert
length-sort_insert p [] = refl
length-sort_insert (d, s) ((e, v) ∷ t) = ground (arith, length-sort_insert (d, s) t)

Absent-sort : (k : ℕ) (t : List (ℕ × ℕ)) → Absent k (keys t) → Absent k (keys (sort t))
unfolding sort
Absent-sort k [] a = tt
Absent-sort k ((d, s) ∷ t) a = Absent-sort_insert k d s (sort t) a.0 (Absent-sort k t a.1)

Distinct-sort : (t : List (ℕ × ℕ)) → Distinct (keys t) → Distinct (keys (sort t))
unfolding sort
Distinct-sort [] h = tt
Distinct-sort ((d, s) ∷ t) h =
    Distinct-sort_insert d s (sort t) (Absent-sort d t h.0) (Distinct-sort t h.1)

length-sort : (t : List (ℕ × ℕ)) → length (sort t) ≡ length t
unfolding sort
length-sort [] = refl
length-sort ((d, s) ∷ t) = length-sort_insert (d, s) (sort t) ∙ ap suc (length-sort t)

lookup-sort : (k : ℕ) (t : List (ℕ × ℕ)) → Distinct (keys t) → lookup k (sort t) ≡ lookup k t
unfolding sort
lookup-sort k [] h = refl
lookup-sort k ((d, s) ∷ t) h =
    lookup-sort_insert k d s (sort t) (Absent-sort d t h.0)
    ∙ rw (lookup-sort k t h.1) (unfold lookup in refl)

Absent-append :
    (k : ℕ) (xs : List ℕ) (y : ℕ) (ys : List ℕ) → Distinct (xs ++ (y ∷ ys)) → Absent y xs
Absent-append k [] y ys h = tt
Absent-append k (x ∷ xs) y ys h = (sep xs h.0, Absent-append k xs y ys h.1)
  where
    sep : (zs : List ℕ) → Absent x (zs ++ (y ∷ ys)) → x ≢ y
    sep [] a = λ e. a.0 (sym e)
    sep (z ∷ zs) a = sep zs a.1

insert-Absent : (d s : ℕ) (t : List (ℕ × ℕ)) → Absent d (keys t) → insert d s t ≡ t ++ ((d, s) ∷ [])
unfolding insert
insert-Absent d s [] a = refl
insert-Absent d s ((e, v) ∷ t) a = ground (arith, insert-Absent d s t a.1)

keys-append : (t u : List (ℕ × ℕ)) → keys (t ++ u) ≡ keys t ++ keys u
keys-append [] u = refl
keys-append ((k, v) ∷ t) u = ap (◌∷◌ k) (keys-append t u)

restore_devices-append :
    (cap : ℕ) (ps t : List (ℕ × ℕ))
    → Distinct (keys t ++ keys ps)
    → length t + length ps ≤ cap
    → restore_devices cap ps (keys t, t) ≡ (keys (t ++ ps), t ++ ps)
unfolding restore_devices
restore_devices-append cap [] t h n = rw (append-nil t)
restore_devices-append cap ((d, s) ∷ ps) t h n =
    let a = Absent-append d (keys t) d (keys ps) h in
    let step = restore_device_new cap d s (keys t) t (Absent-lookup d t a) (omega arith) in
    let grown = insert-Absent d s t a in
    let ks = keys-append t ((d, s) ∷ []) in
    rw (step, grown, ← ks)
      (rw
        (restore_devices-append cap ps (t ++ ((d, s) ∷ [])) (rw (ks, append_assoc) h)
          (omega (arith, length-append t ((d, s) ∷ []))))
        (rw append_assoc))

contains-append : (xs : List ℕ) (y : ℕ) → Absent y xs → contains xs y ≡ false
unfolding contains
contains-append [] y a = refl
contains-append (x ∷ xs) y a = ground (arith, contains-append xs y a.1)

restore_seen-append :
    (cap : ℕ) (ids seen : List ℕ)
    → Distinct (seen ++ ids)
    → length seen + length ids ≤ cap
    → restore_seen cap ids seen ≡ seen ++ ids
unfolding restore_seen push_seen
restore_seen-append cap [] seen h n = sym (append-nil seen)
restore_seen-append cap (id ∷ ids) seen h n =
    let unseen = contains-append seen id (Absent-append id seen id ids h) in
    let room : (length seen == cap) ≡ false = ground arith in
    rw (unseen, room)
      (restore_seen-append cap ids (seen ++ (id ∷ [])) (rw append_assoc h)
          (omega (arith, length-append seen (id ∷ [])))
        ∙ append_assoc seen (id ∷ []) ids)

-- A new guard that restores the memory of a valid one, whose capacities are no larger than the
-- defaults, remembers the same message ids in the same order and the same mark for every device.
pub restore-memory :
    (g : ReplayGuard) (own retained_age d : ℕ)
    → IsValid g
    → g.capacity ≤ default_msg_id_capacity
    → g.device_capacity ≤ default_device_capacity
    → ((restore (new own retained_age) (memory g)).seen ≡ g.seen)
      × (lookup d (restore (new own retained_age) (memory g)).highest_seq ≡ lookup d g.highest_seq)
unfolding restore memory new
restore-memory g own retained_age d v small few =
    let h : Distinct (keys g.highest_seq) = rw v.mirrored v.distinct in
    let t = sort g.highest_seq in
    let back = restore_devices-append default_device_capacity t [] (Distinct-sort g.highest_seq h) (
      omega (
        arith,
        length-sort g.highest_seq,
        v.tracked,
        ap length v.mirrored,
        length-keys g.highest_seq,
      )) in
    (
      restore_seen-append default_msg_id_capacity g.seen [] v.fresh (omega (arith, v.ring)),
      rw back (lookup-sort d g.highest_seq h),
    )
