-- ===== src/Core/Replay/Clearing.antt =====
-- `clear` keeps the order of the devices, so it leaves the guard inconsistent.
use asli.Prelude.{ℕ, ◌≡◌, ap, List, [], ◌∷◌, ◌++◌, length, length-append, arith}
use asli.Core.Replay.Table.{insert, remove, contains_key}
use asli.Core.Replay.{Incoming, ReplayGuard, clear, check, evict, note_device, remember, accept}
use asli.Core.Replay.Verdicts.{check_accepted}

evict_first :
    (cap d v : ℕ) (ds : List ℕ) → length ds ≡ cap → evict cap (d ∷ ds) ((d, v) ∷ []) ≡ (ds, [])
unfolding evict remove
evict_first cap d v [] h = ground arith
evict_first cap d v (x ∷ ds) h = ground arith

-- When the order of devices is full and `d` is its oldest device, a clip from `d` that is accepted
-- after `clear` is forgotten at once: the stale entry for `d` is evicted and takes the new mark
-- with it, although no other device is known.
pub clear_forgets :
    (g : ReplayGuard) (d now : ℕ) (ds : List ℕ) (m : Incoming)
    → g.device_order ≡ d ∷ ds
    → length g.device_order ≡ g.device_capacity
    → m.device_id ≡ d
    → (check (clear g) m now).1 ≡ accept
    → (check (clear g) m now).0.highest_seq ≡ []
clear_forgets g d now ds m order full same e =
    let cut =
      evict_first g.device_capacity d m.seq (ds ++ (d ∷ []))
        (omega (arith, full, ap length order, length-append ds (d ∷ []))) in
    rw (check_accepted (clear g) m now e) (
      unfold clear remember note_device insert contains_key in rw (order, same) (ap (λ s. s.1) cut))
