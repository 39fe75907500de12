-- ===== src/Core/Replay/Runs.antt =====
-- Concrete runs of the replay guard, and the theorems at concrete inputs.
use asli.Prelude.{ℕ, ◌≡◌, refl, false, [], ◌∷◌, arith, ◌≢◌, ◌↔◌}
use asli.Core.Replay.Table.{lookup, insert, remove, contains_key}
use asli.Core.Replay.{
  Incoming, ReplayGuard, accept, own_device, duplicate, rollback, seq_jump, new, check, verdict,
  remember, note_device, is_accept, memory, restore, clear, known_devices,
}
use asli.Core.Replay.Invariant.{IsValid, check-IsValid}
use asli.Core.Replay.Verdicts.{Acceptable, check-Acceptable, check_twice}
use asli.Core.Replay.History.{run, run_no_rollback}
use asli.Core.Replay.RoundTrip.{restore-memory}
use asli.Core.Replay.Clearing.{clear_forgets}

abbrev clip : ℕ → ℕ → ℕ → Incoming
clip id device seq = record {
  msg_id = id;
  device_id = device;
  seq = seq;
  ts_ms = 5000;
  retained = false;
}

abbrev fresh_guard : ReplayGuard
fresh_guard = record {
  own_device_id = 1;
  seen = [];
  capacity = 256;
  highest_seq = [];
  device_order = [];
  device_capacity = 64;
  max_age_ms = 86400000;
  retained_max_age_ms = 86400000;
  future_skew_ms = 86400000;
}

-- One device is known, and the table is full with it.
abbrev full_guard : ReplayGuard
full_guard = record fresh_guard {
  seen = 7 ∷ [];
  highest_seq = (2, 5) ∷ [];
  device_order = 2 ∷ [];
  device_capacity = 1;
}

full_guard-IsValid : IsValid full_guard
full_guard-IsValid = record {
  mirrored = refl;
  distinct = (tt, tt);
  tracked = omega arith;
  ring = omega arith;
  fresh = (tt, tt);
  room = omega arith;
}

fresh_guard-IsValid : IsValid fresh_guard
fresh_guard-IsValid = record {
  mirrored = refl;
  distinct = tt;
  tracked = omega arith;
  ring = omega arith;
  fresh = tt;
  room = omega arith;
}

first_clip : (check fresh_guard (clip 7 2 5) 5000).1 ≡ accept
unfolding check verdict lookup
first_clip = refl

own_clip : (check fresh_guard (clip 7 1 5) 5000).1 ≡ own_device
unfolding check verdict
own_clip = refl

jump : (check full_guard (clip 8 2 1000006) 5000).1 ≡ seq_jump
unfolding check verdict lookup
jump = refl

new_device_takes_the_place : (check full_guard (clip 8 3 1) 5000).0.highest_seq ≡ (3, 1) ∷ []
unfolding check verdict lookup is_accept remember note_device insert remove contains_key
new_device_takes_the_place = refl

check-IsValid_example : IsValid (check full_guard (clip 8 3 1) 5000).0
check-IsValid_example = check-IsValid full_guard (clip 8 3 1) 5000 full_guard-IsValid

check-Acceptable_example :
    ((check full_guard (clip 8 2 6) 5000).1 ≡ accept) ↔ Acceptable full_guard (clip 8 2 6) 5000
check-Acceptable_example = check-Acceptable full_guard (clip 8 2 6) 5000

rolled_back : (check full_guard (clip 8 2 5) 5000).1 ≡ rollback
unfolding check verdict lookup
rolled_back = refl

check_twice_example :
    (check (check fresh_guard (clip 7 2 5) 5000).0 (clip 7 3 9) 6000).1 ≡ duplicate
check_twice_example = check_twice fresh_guard (clip 7 2 5) (clip 7 3 9) 5000 6000 first_clip refl

few_devices :
    known_devices (run (check fresh_guard (clip 7 2 5) 5000).0 ((clip 8 3 1, 5000) ∷ [])) ≡ 2
unfolding run check verdict lookup is_accept remember note_device insert remove contains_key
    known_devices
few_devices = refl

run_no_rollback_example :
    (check
      (run (check fresh_guard (clip 7 2 5) 5000).0 ((clip 8 3 1, 5000) ∷ []))
      (clip 9 2 5)
      6000).1
    ≢ accept
run_no_rollback_example =
    run_no_rollback fresh_guard (clip 7 2 5) 5000 ((clip 8 3 1, 5000) ∷ []) (clip 9 2 5) 6000
      fresh_guard-IsValid first_clip (omega (arith, few_devices)) refl (omega arith)

restore-memory_example :
    ((restore (new 9 1000) (memory full_guard)).seen ≡ 7 ∷ [])
    × (lookup 2 (restore (new 9 1000) (memory full_guard)).highest_seq
        ≡ lookup 2 full_guard.highest_seq)
restore-memory_example =
    restore-memory full_guard 9 1000 2 full_guard-IsValid (omega arith) (omega arith)

after_clear : (check (clear full_guard) (clip 8 2 6) 5000).1 ≡ accept
unfolding check verdict lookup clear
after_clear = refl

clear_forgets_example : (check (clear full_guard) (clip 8 2 6) 5000).0.highest_seq ≡ []
clear_forgets_example = clear_forgets full_guard 2 5000 [] (clip 8 2 6) refl refl refl after_clear
