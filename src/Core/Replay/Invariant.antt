-- ===== src/Core/Replay/Invariant.antt =====
-- The state of the replay guard stays bounded and consistent under `check`.
use asli.Prelude.{
  ℕ, zero, suc, ◌-◌, ◌≤◌, ◌<◌, ltb, ◌≡◌, refl, ap, inl, inr, true, false, List, [], ◌∷◌, ◌++◌,
  length, length-append, length-drop, drop, arith, Bool-cases,
}
use asli.Core.Replay.Table.{
  insert, contains_key, keys, Absent, Distinct, keys-insert_known, keys-insert_new,
  contains_key-Absent, keys-remove_first, length-keys, Distinct-push,
}
use asli.Core.Replay.{
  Incoming, ReplayGuard, new, contains, pop_front, push_seen, evict, note_device, remember, verdict,
  check, is_accept,
}

-- The order holds the table's keys, each once; both collections stay within their capacities.
pub record IsValid (g : ReplayGuard) : Type 0 where
  pub mirrored : keys g.highest_seq ≡ g.device_order
  pub distinct : Distinct g.device_order
  pub tracked : length g.device_order ≤ g.device_capacity
  pub ring : length g.seen ≤ g.capacity
  pub fresh : Distinct g.seen
  pub room : 0 < g.capacity

unfoldable pub drop_overfull : ℕ → List (ℕ × ℕ) → List (ℕ × ℕ)
drop_overfull cap t = drop (length t - cap) t

-- Eviction drops the oldest devices from both collections until they fit.
pub evict-keys :
    (cap : ℕ) (t : List (ℕ × ℕ))
    → evict cap (keys t) t ≡ (keys (drop_overfull cap t), drop_overfull cap t)
unfolding evict drop_overfull
evict-keys cap [] = let e : 0 - cap ≡ 0 = omega arith in rw e
evict-keys cap ((k, v) ∷ t) = elim (Bool-cases (ltb cap (length (k ∷ keys t)))) [
  | inl over ↦
      let e : length ((k, v) ∷ t) - cap ≡ suc (length t - cap) = ground (arith, length-keys t) in
      rw (over, keys-remove_first k v t, e) (evict-keys cap t)
  | inr fits ↦ let e : length ((k, v) ∷ t) - cap ≡ 0 = ground (arith, length-keys t) in rw (fits, e)
]

Absent-drop : (k n : ℕ) (t : List (ℕ × ℕ)) → Absent k (keys t) → Absent k (keys (drop n t))
Absent-drop k zero t a = a
Absent-drop k (suc n) [] a = tt
Absent-drop k (suc n) (p ∷ t) a = Absent-drop k n t a.1

Distinct-drop : (n : ℕ) (t : List (ℕ × ℕ)) → Distinct (keys t) → Distinct (keys (drop n t))
Distinct-drop zero t d = d
Distinct-drop (suc n) [] d = tt
Distinct-drop (suc n) (p ∷ t) d = Distinct-drop n t d.1

pub contains-Absent : (xs : List ℕ) (x : ℕ) → contains xs x ≡ false → Absent x xs
unfolding contains
contains-Absent [] x h = tt
contains-Absent (y ∷ xs) x h = (ground arith, contains-Absent xs x (ground arith))

pub contains-push : (xs : List ℕ) (x : ℕ) → contains (xs ++ (x ∷ [])) x ≡ true
unfolding contains
contains-push [] x = ground arith
contains-push (y ∷ xs) x = ground (arith, contains-push xs x)

pub push_seen-bounds :
    (cap id : ℕ) (seen : List ℕ)
    → 0 < cap
    → length seen ≤ cap
    → length (push_seen cap seen id) ≤ cap
unfolding push_seen pop_front
push_seen-bounds cap id [] h k = ground arith
push_seen-bounds cap id (x ∷ xs) h k =
    ground (arith, length-append xs (id ∷ []), length-append (x ∷ xs) (id ∷ []))

pub push_seen-Distinct :
    (cap id : ℕ) (seen : List ℕ) → Absent id seen → Distinct seen → Distinct (push_seen cap seen id)
unfolding push_seen pop_front
push_seen-Distinct cap id [] a d = ground arith
push_seen-Distinct cap id (x ∷ xs) a d =
    ground (arith, Distinct-push id xs d.1 a.1, Distinct-push id (x ∷ xs) d a)

pub drop_overfull-fits : (cap : ℕ) (t : List (ℕ × ℕ)) → length t ≤ cap → drop_overfull cap t ≡ t
unfolding drop_overfull
drop_overfull-fits cap t h = let e : length t - cap ≡ 0 = omega arith in rw e

pub table_fits : (g : ReplayGuard) → IsValid g → length g.highest_seq ≤ g.device_capacity
table_fits g v = omega (arith, v.tracked, ap length v.mirrored, length-keys g.highest_seq)

length-insert_known :
    (k v : ℕ) (t : List (ℕ × ℕ)) → contains_key k t ≡ true → length (insert k v t) ≡ length t
length-insert_known k v t h =
    omega (arith, ap length (keys-insert_known k v t h), length-keys t, length-keys (insert k v t))

-- What `note_device` leaves: the table with the new mark, cut to the capacity.
pub note_device-keys :
    (g : ReplayGuard) (m : Incoming)
    → IsValid g
    → let t = drop_overfull g.device_capacity (insert m.device_id m.seq g.highest_seq) in
      note_device g m ≡ (keys t, t)
unfolding note_device
note_device-keys g m v = elim (Bool-cases (contains_key m.device_id g.highest_seq)) [
  | inl known ↦
      let e = keys-insert_known m.device_id m.seq g.highest_seq known in
      let n = length-insert_known m.device_id m.seq g.highest_seq known in
      let fits =
        drop_overfull-fits g.device_capacity (insert m.device_id m.seq g.highest_seq)
          (omega (arith, n, table_fits g v)) in
      rw (known, fits, e, v.mirrored)
  | inr new_one ↦
      let e = keys-insert_new m.device_id m.seq g.highest_seq new_one in
      rw (new_one, ← v.mirrored, ← e)
        (evict-keys g.device_capacity (insert m.device_id m.seq g.highest_seq))
]

Distinct-insert : (k v : ℕ) (t : List (ℕ × ℕ)) → Distinct (keys t) → Distinct (keys (insert k v t))
Distinct-insert k v t d = elim (Bool-cases (contains_key k t)) [
  | inl known ↦ rw (keys-insert_known k v t known) d
  | inr new_one ↦
      rw (keys-insert_new k v t new_one)
        (Distinct-push k (keys t) d (contains_key-Absent k t new_one))
]

remember-IsValid :
    (g : ReplayGuard) (m : Incoming)
    → IsValid g
    → contains g.seen m.msg_id ≡ false
    → IsValid (remember g m)
unfolding remember
remember-IsValid g m v unseen =
    let t = insert m.device_id m.seq g.highest_seq in
    let e = note_device-keys g m v in
    record {
      mirrored = rw e refl;
      distinct = rw e (
          unfold drop_overfull in
          Distinct-drop (length t - g.device_capacity) t
            (Distinct-insert m.device_id m.seq g.highest_seq (rw v.mirrored v.distinct)));
      tracked = rw e (
          unfold drop_overfull in
          omega (
            arith,
            length-keys (drop_overfull g.device_capacity t),
            length-drop (length t - g.device_capacity) t,
          ));
      ring = push_seen-bounds g.capacity m.msg_id g.seen v.room v.ring;
      fresh =
          push_seen-Distinct g.capacity m.msg_id g.seen (contains-Absent g.seen m.msg_id unseen)
            v.fresh;
      room = v.room;
    }

-- The verdict `accept` needs an id that the ring does not hold.
pub verdict-unseen :
    (g : ReplayGuard) (m : Incoming) (now : ℕ)
    → is_accept (verdict g m now) ≡ true
    → contains g.seen m.msg_id ≡ false
unfolding verdict is_accept
verdict-unseen g m now h = ground arith

-- A guard starts valid.
pub new-IsValid : (own retained_age : ℕ) → IsValid (new own retained_age)
unfolding new
new-IsValid own retained_age = record {
  mirrored = refl;
  distinct = tt;
  tracked = omega arith;
  ring = omega arith;
  fresh = tt;
  room = omega arith;
}

-- `check` keeps the guard valid whatever message arrives: the order holds the table's keys, each
-- once, and neither the table nor the ring of ids outgrows its capacity.
pub check-IsValid :
    (g : ReplayGuard) (m : Incoming) (now : ℕ) → IsValid g → IsValid (check g m now).0
unfolding check
check-IsValid g m now v = elim (Bool-cases (is_accept (verdict g m now))) [
  | inl taken ↦ rw taken (remember-IsValid g m v (verdict-unseen g m now taken))
  | inr refused ↦ rw refused v
]
