-- ===== src/Core/Replay/History.antt =====
-- The guard over any sequence of messages.
use asli.Prelude.{
  ℕ, ◌-◌, ◌≤◌, ◌<◌, ◌==◌, ◌≡◌, refl, ap, ◌∙◌, ◌≢◌, inl, inr, List, [], ◌∷◌, some, length, arith,
  Bool-cases, min, length-drop, ==_self, ==→eq, subst,
}
use asli.Core.Replay.Table.{lookup, insert, lookup-insert}
use asli.Core.Replay.{Incoming, ReplayGuard, check, is_accept, accept, known_devices, remember}
use asli.Core.Replay.Invariant.{
  IsValid, check-IsValid, note_device-keys, drop_overfull, drop_overfull-fits, table_fits,
}
use asli.Core.Replay.Verdicts.{
  Acceptable, Advances, check-Acceptable, check_refused, check_accepted,
}

-- Messages with the times at which they are checked.
unfoldable pub run : ReplayGuard → List (Incoming × ℕ) → ReplayGuard
run g [] = g
run g ((m, now) ∷ rest) = run (check g m now).0 rest

-- Whatever messages a valid guard checks, in whatever order, it stays valid: the order of devices
-- holds the keys of the table, each once, and neither the table nor the ring of message ids, which
-- has no repeats, outgrows its capacity.
pub run-IsValid : (g : ReplayGuard) (ms : List (Incoming × ℕ)) → IsValid g → IsValid (run g ms)
unfolding run
run-IsValid g [] v = v
run-IsValid g ((m, now) ∷ rest) v = run-IsValid (check g m now).0 rest (check-IsValid g m now v)

length-insert-le : (k v : ℕ) (t : List (ℕ × ℕ)) → length t ≤ length (insert k v t)
unfolding insert
length-insert-le k v [] = omega arith
length-insert-le k v ((j, w) ∷ t) = ground (arith, length-insert-le k v t)

length-drop_overfull :
    (cap : ℕ) (t : List (ℕ × ℕ)) → length (drop_overfull cap t) ≡ min cap (length t)
unfolding drop_overfull
length-drop_overfull cap t = omega (arith, length-drop (length t - cap) t)

check-device_capacity :
    (g : ReplayGuard) (m : Incoming) (now : ℕ)
    → (check g m now).0.device_capacity ≡ g.device_capacity
unfolding check remember
check-device_capacity g m now = ground arith

-- The table after an accepted message.
remember-table :
    (g : ReplayGuard) (m : Incoming)
    → IsValid g
    → (remember g m).highest_seq
      ≡ drop_overfull g.device_capacity (insert m.device_id m.seq g.highest_seq)
unfolding remember
remember-table g m v = rw (note_device-keys g m v) refl

check_cases {ℓ} :
    (P : ReplayGuard → Type ℓ) (g : ReplayGuard) (m : Incoming) (now : ℕ)
    → P g
    → (Acceptable g m now → P (remember g m))
    → P (check g m now).0
check_cases P g m now kept taken = elim (Bool-cases (is_accept (check g m now).1)) [
  | inl e ↦
      let a : (check g m now).1 ≡ accept = unfold is_accept in ground arith in
      rw (check_accepted g m now a) (taken ((check-Acceptable g m now).0 a))
  | inr e ↦ rw (check_refused g m now (λ a. unfold is_accept in ground arith)) kept
]

check-known_devices :
    (g : ReplayGuard) (m : Incoming) (now : ℕ)
    → IsValid g
    → known_devices g ≤ known_devices (check g m now).0
unfolding known_devices
check-known_devices g m now v =
    check_cases (λ r. length g.highest_seq ≤ length r.highest_seq) g m now (omega arith)
      λ a. rw (remember-table g m v) (
        omega (
          arith,
          length-drop_overfull g.device_capacity (insert m.device_id m.seq g.highest_seq),
          length-insert-le m.device_id m.seq g.highest_seq,
          table_fits g v,
        ))

run-known_devices :
    (g : ReplayGuard) (ms : List (Incoming × ℕ))
    → IsValid g
    → known_devices g ≤ known_devices (run g ms)
unfolding run
run-known_devices g [] v = omega arith
run-known_devices g ((m, now) ∷ rest) v = omega (
  arith,
  check-known_devices g m now v,
  run-known_devices (check g m now).0 rest (check-IsValid g m now v),
)

-- The mark of a device, as a lower bound.
pub record Marked (g : ReplayGuard) (d h : ℕ) : Type 0 where
  pub mark : ℕ
  pub found : lookup d g.highest_seq ≡ some mark
  pub high : h ≤ mark

Advances-lt : (mark seq : ℕ) → Advances (some mark) seq → mark < seq
Advances-lt mark seq p = p.0

Marked-lt :
    (g : ReplayGuard) (m : Incoming) (now d h : ℕ)
    → Acceptable g m now
    → (k : Marked g d h) → m.device_id ≡ d
    → k.mark < m.seq
Marked-lt g m now d h a k same =
    let e : lookup m.device_id g.highest_seq ≡ some k.mark = rw same k.found in
    Advances-lt k.mark m.seq (subst (λ o. Advances o m.seq) e a.advances)

remember-Marked :
    (g : ReplayGuard) (m : Incoming) (now d h : ℕ)
    → IsValid g
    → Acceptable g m now
    → known_devices (remember g m) < g.device_capacity
    → Marked g d h
    → Marked (remember g m) d h
unfolding known_devices
remember-Marked g m now d h v a small k =
    let t = insert m.device_id m.seq g.highest_seq in
    let fits : length t ≤ g.device_capacity =
      omega (arith, ap length (remember-table g m v), length-drop_overfull g.device_capacity t) in
    let table : (remember g m).highest_seq ≡ t =
      remember-table g m v ∙ drop_overfull-fits g.device_capacity t fits in
    elim (Bool-cases (m.device_id == d)) [
      | inl same ↦ record {
        mark = m.seq;
        found = rw (table, lookup-insert, same) refl;
        high = omega (arith, k.high, Marked-lt g m now d h a k (==→eq _ _ same));
      }
      | inr other ↦ record {
        mark = k.mark;
        found = rw (table, lookup-insert, other) k.found;
        high = k.high;
      }
    ]

-- A message that a guard accepts marks its device, unless the table is full.
remember-mark :
    (g : ReplayGuard) (m : Incoming)
    → IsValid g
    → known_devices (remember g m) < g.device_capacity
    → Marked (remember g m) m.device_id m.seq
unfolding known_devices
remember-mark g m v small =
    let t = insert m.device_id m.seq g.highest_seq in
    let fits : length t ≤ g.device_capacity =
      omega (arith, ap length (remember-table g m v), length-drop_overfull g.device_capacity t) in
    let table : (remember g m).highest_seq ≡ t =
      remember-table g m v ∙ drop_overfull-fits g.device_capacity t fits in
    record { mark = m.seq; found = rw (table, lookup-insert, ==_self) refl; high = omega arith }

check-Marked :
    (g : ReplayGuard) (m : Incoming) (now d h : ℕ)
    → IsValid g
    → known_devices (check g m now).0 < g.device_capacity
    → Marked g d h
    → Marked (check g m now).0 d h
check-Marked g m now d h v small k =
    (check_cases (λ r. known_devices r < g.device_capacity → Marked r d h) g m now (λ _. k)
        λ a small'. remember-Marked g m now d h v a small' k)
      small

run-Marked :
    (g : ReplayGuard) (ms : List (Incoming × ℕ)) (d h : ℕ)
    → IsValid g
    → known_devices (run g ms) < g.device_capacity
    → Marked g d h
    → Marked (run g ms) d h
unfolding run
run-Marked g [] d h v small k = k
run-Marked g ((m, now) ∷ rest) d h v small k =
    let g' = (check g m now).0 in
    let v' = check-IsValid g m now v in
    let below = run-known_devices g' rest v' in
    run-Marked g' rest d h v' (omega (arith, check-device_capacity g m now))
      (check-Marked g m now d h v (omega arith) k)

-- Below a mark nothing is accepted.
Marked-refuses :
    (g : ReplayGuard) (m : Incoming) (now h : ℕ)
    → Marked g m.device_id h
    → m.seq ≤ h
    → (check g m now).1 ≢ accept
Marked-refuses g m now h k low e =
    let a = (check-Acceptable g m now).0 e in
    absurd (omega (arith, Marked-lt g m now m.device_id h a k refl, k.high))

-- Once a message is accepted on a valid guard, no later message from its device with the same or a
-- smaller sequence number is accepted, whatever was checked in between, provided that the table of
-- devices has not filled up meanwhile.
pub run_no_rollback :
    (g : ReplayGuard) (m : Incoming) (now : ℕ) (between : List (Incoming × ℕ)) (again : Incoming)
    (later : ℕ)
    → IsValid g
    → (check g m now).1 ≡ accept
    → known_devices (run (check g m now).0 between) < g.device_capacity
    → again.device_id ≡ m.device_id
    → again.seq ≤ m.seq
    → (check (run (check g m now).0 between) again later).1 ≢ accept
run_no_rollback g m now between again later v e small same low =
    let g' = (check g m now).0 in
    let v' = check-IsValid g m now v in
    let taken = check_accepted g m now e in
    let few : known_devices g' < g.device_capacity =
      omega (arith, run-known_devices g' between v') in
    let start : Marked g' m.device_id m.seq = rw taken (remember-mark g m v (rw taken at few)) in
    Marked-refuses (run g' between) again later m.seq
      (rw same (
        run-Marked g' between m.device_id m.seq v' (omega (arith, check-device_capacity g m now))
          start))
      low
