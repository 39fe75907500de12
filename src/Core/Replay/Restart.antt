-- ===== src/Core/Replay/Restart.antt =====
-- `memory` and `restore`: what a guard carries over a restart.
use asli.Prelude.{
  ℕ, ◌≤◌, ◌<◌, ◌==◌, ltb, ◌≡◌, refl, ap, ◌∙◌, inl, inr, true, List, [], ◌∷◌, ◌++◌, none, some,
  length, length-append, arith, Bool-cases, Option-cases, max, ==→eq,
}
use asli.Core.Replay.Table.{
  lookup, insert, keys, lookup-insert, contains_key, Distinct, keys-insert_known, keys-insert_new,
  contains_key-Absent, contains_key-lookup, lookup-contains_key, length-keys, Distinct-push,
}
use asli.Core.Replay.{
  ReplayGuard, Memory, restore, restore_device, restore_devices, restore_seen, contains,
}
use asli.Core.Replay.Invariant.{IsValid, contains-Absent, push_seen-bounds, push_seen-Distinct}
use asli.Core.Replay.History.{Marked}

-- The order and the table of a guard, as `restore` passes them through its loop.
record IsMirrored (cap : ℕ) (s : List ℕ × List (ℕ × ℕ)) : Type 0 where
  pub mirrored : keys s.1 ≡ s.0
  pub distinct : Distinct s.0
  pub tracked : length s.0 ≤ cap

lookup-contains_key-some :
    (d h : ℕ) (t : List (ℕ × ℕ)) → lookup d t ≡ some h → contains_key d t ≡ true
lookup-contains_key-some d h t e = ground (arith, contains_key-lookup d t)

-- The three outcomes of a round: a known device, a new one, and a new one when the table is full.
restore_device_known :
    (cap d seq h : ℕ) (order : List ℕ) (t : List (ℕ × ℕ))
    → lookup d t ≡ some h
    → restore_device cap d seq (order, t) ≡ (order, insert d (max h seq) t)
unfolding restore_device
restore_device_known cap d seq h order t e = ground (arith, lookup-contains_key-some d h t)

pub restore_device_new :
    (cap d seq : ℕ) (order : List ℕ) (t : List (ℕ × ℕ))
    → lookup d t ≡ none
    → length t < cap
    → restore_device cap d seq (order, t) ≡ (order ++ (d ∷ []), insert d seq t)
unfolding restore_device
restore_device_new cap d seq order t e h = ground arith

restore_device_full :
    (cap d seq : ℕ) (order : List ℕ) (t : List (ℕ × ℕ))
    → lookup d t ≡ none
    → cap ≤ length t
    → restore_device cap d seq (order, t) ≡ (order, t)
unfolding restore_device
restore_device_full cap d seq order t e h = ground (arith, lookup-contains_key d t)

-- A property of the pair that the three outcomes keep.
restore_device_cases {ℓ} :
    (P : List ℕ × List (ℕ × ℕ) → Type ℓ) (cap d seq : ℕ) (order : List ℕ) (t : List (ℕ × ℕ))
    → P (order, t)
    → ((h : ℕ) → lookup d t ≡ some h → P (order, insert d (max h seq) t))
    → (lookup d t ≡ none → length t < cap → P (order ++ (d ∷ []), insert d seq t))
    → P (restore_device cap d seq (order, t))
restore_device_cases P cap d seq order t full known fresh = elim (Option-cases (lookup d t)) [
  | inr (h, e) ↦ rw (restore_device_known cap d seq h order t e) (known h e)
  | inl e ↦ elim (Bool-cases (ltb (length t) cap)) [
    | inl room ↦ rw (restore_device_new cap d seq order t e (ground arith)) (fresh e (ground arith))
    | inr none_left ↦ rw (restore_device_full cap d seq order t e (ground arith)) full
  ]
]

restore_device-IsMirrored :
    (cap d seq : ℕ) (s : List ℕ × List (ℕ × ℕ))
    → IsMirrored cap s
    → IsMirrored cap (restore_device cap d seq s)
restore_device-IsMirrored cap d seq (order, t) v =
    restore_device_cases (IsMirrored cap) cap d seq order t v
      (λ h e. record {
        mirrored =
            keys-insert_known d (max h seq) t (lookup-contains_key-some d h t e) ∙ v.mirrored;
        distinct = v.distinct;
        tracked = v.tracked;
      })
      (λ e room. record {
        mirrored =
            keys-insert_new d seq t (lookup-contains_key d t e)
            ∙ ap (λ ks. ks ++ (d ∷ [])) v.mirrored;
        distinct =
            Distinct-push d order v.distinct
              (rw v.mirrored at (contains_key-Absent d t (lookup-contains_key d t e)));
        tracked = omega (arith, length-append order (d ∷ []), ap length v.mirrored, length-keys t);
      })

restore_devices-IsMirrored :
    (cap : ℕ) (ps : List (ℕ × ℕ)) (s : List ℕ × List (ℕ × ℕ))
    → IsMirrored cap s
    → IsMirrored cap (restore_devices cap ps s)
unfolding restore_devices
restore_devices-IsMirrored cap [] s v = v
restore_devices-IsMirrored cap ((d, seq) ∷ ps) s v =
    restore_devices-IsMirrored cap ps (restore_device cap d seq s)
      (restore_device-IsMirrored cap d seq s v)

-- The ring while `restore` fills it.
record IsRing (cap : ℕ) (seen : List ℕ) : Type 0 where
  pub ring : length seen ≤ cap
  pub fresh : Distinct seen

restore_seen-IsRing :
    (cap : ℕ) (ids seen : List ℕ)
    → 0 < cap
    → IsRing cap seen
    → IsRing cap (restore_seen cap ids seen)
unfolding restore_seen
restore_seen-IsRing cap [] seen h v = v
restore_seen-IsRing cap (id ∷ ids) seen h v =
    restore_seen-IsRing cap ids _ h (elim (Bool-cases (contains seen id)) [
      | inl old ↦ rw old v
      | inr unseen ↦ rw unseen (record {
        ring = push_seen-bounds cap id seen h v.ring;
        fresh = push_seen-Distinct cap id seen (contains-Absent seen id unseen) v.fresh;
      })
    ])

-- `restore` keeps a guard valid, whatever the memory holds: one from another device, a stale one
-- or one edited by hand cannot make the collections outgrow their capacities or fall out of step.
pub restore-IsValid : (g : ReplayGuard) (m : Memory) → IsValid g → IsValid (restore g m)
unfolding restore
restore-IsValid g m v =
    let d =
      restore_devices-IsMirrored g.device_capacity m.highest_seq (g.device_order, g.highest_seq)
        (record { mirrored = v.mirrored; distinct = v.distinct; tracked = v.tracked }) in
    let r =
      restore_seen-IsRing g.capacity m.recent g.seen v.room
        (record { ring = v.ring; fresh = v.fresh }) in
    record {
      mirrored = d.mirrored;
      distinct = d.distinct;
      tracked = d.tracked;
      ring = r.ring;
      fresh = r.fresh;
      room = v.room;
    }

-- A mark in a table, as a lower bound.
record Holds (t : List (ℕ × ℕ)) (d h : ℕ) : Type 0 where
  pub mark : ℕ
  pub found : lookup d t ≡ some mark
  pub high : h ≤ mark

restore_device-Holds :
    (cap k seq d h : ℕ) (s : List ℕ × List (ℕ × ℕ))
    → Holds s.1 d h
    → Holds (restore_device cap k seq s).1 d h
restore_device-Holds cap k seq d h (order, t) v =
    restore_device_cases (λ s. Holds s.1 d h) cap k seq order t v
      (λ old e. elim (Bool-cases (k == d)) [
        | inl same ↦ record {
          mark = max old seq;
          found = rw (lookup-insert, same) refl;
          high = ground (arith, v.found, e, v.high, ==→eq k d same);
        }
        | inr other ↦ record {
          mark = v.mark;
          found = rw (lookup-insert, other) v.found;
          high = v.high;
        }
      ])
      (λ e room. elim (Bool-cases (k == d)) [
        | inl same ↦ absurd (ground (arith, v.found, e, ==→eq k d same))
        | inr other ↦ record {
          mark = v.mark;
          found = rw (lookup-insert, other) v.found;
          high = v.high;
        }
      ])

restore_devices-Holds :
    (cap d h : ℕ) (ps : List (ℕ × ℕ)) (s : List ℕ × List (ℕ × ℕ))
    → Holds s.1 d h
    → Holds (restore_devices cap ps s).1 d h
unfolding restore_devices
restore_devices-Holds cap d h [] s v = v
restore_devices-Holds cap d h ((k, seq) ∷ ps) s v =
    restore_devices-Holds cap d h ps (restore_device cap k seq s)
      (restore_device-Holds cap k seq d h s v)

-- `restore` never lowers the mark of a device, nor forgets one.
pub restore-Marked :
    (g : ReplayGuard) (m : Memory) (d h : ℕ) → Marked g d h → Marked (restore g m) d h
unfolding restore
restore-Marked g m d h k =
    let r =
      restore_devices-Holds g.device_capacity d h m.highest_seq (g.device_order, g.highest_seq)
        (record { mark = k.mark; found = k.found; high = k.high }) in
    record { mark = r.mark; found = r.found; high = r.high }
