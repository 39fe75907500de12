-- ===== src/Net/Backoff/Floors.antt =====
-- What a refusal of the relay costs: the floor stays until the connection has been stable.
use asli.Prelude.{ℕ, ◌≤◌, ◌==◌, if◌then◌else◌, false, ◌≡◌, ◌≢◌, arith, List, [], ◌∷◌, IsU64, All}
use asli.Net.Backoff.{Backoff, on_close, next_delay_ms, rate_limited_cap_ms, quota_cap_ms}
use asli.Net.Backoff.Bounds.{
  Event, closed, retry_after, authenticated, stable, network_change, delay, step, run,
}

-- The calls that leave a floor in force: any but a reset, a limit's own close code and a bypass.
-- What the relay asks for is a u64.
abbrev pub KeepsFloor : Event → Type 0
KeepsFloor (closed code) = (code ≢ 4007) × (code ≢ 4008)
KeepsFloor (retry_after ms) = IsU64 ms
KeepsFloor (authenticated now) = Unit {0}
KeepsFloor (stable now) = ⊥
KeepsFloor network_change = ⊥
KeepsFloor (delay random) = Unit {0}

-- A floor of at least `lo`, no bypass pending.
record IsHeld (lo : ℕ) (b : Backoff) : Type 0 where
  pub floor : lo ≤ b.floor_ms
  pub fits : IsU64 b.floor_ms
  pub plain : b.bypass_once ≡ false

step-IsHeld : (lo : ℕ) (b : Backoff) (e : Event) → KeepsFloor e → IsHeld lo b → IsHeld lo (step b e)
unfolding step
step-IsHeld lo b (closed code) k h = ground arith
step-IsHeld lo b (retry_after ms) k h = ground arith
step-IsHeld lo b (authenticated now) k h = ground arith
step-IsHeld lo b (stable now) k h = absurd k
step-IsHeld lo b network_change k h = absurd k
step-IsHeld lo b (delay random) k h = ground (arith, h.plain)

run-IsHeld :
    (lo : ℕ) (b : Backoff) (es : List Event)
    → All KeepsFloor es
    → IsHeld lo b
    → IsHeld lo (run b es)
unfolding run
run-IsHeld lo b [] k h = h
run-IsHeld lo b (e ∷ es) k h = run-IsHeld lo (step b e) es k.1 (step-IsHeld lo b e k.0 h)

IsHeld-delay : (lo : ℕ) (b : Backoff) (random : ℕ) → IsHeld lo b → lo ≤ (next_delay_ms b random).1
unfolding next_delay_ms
IsHeld-delay lo b random h = ground (arith, h.plain, h.floor, h.fits)

-- The wait that a close code asks for.
abbrev pub limit_of : ℕ → ℕ
limit_of code =
    if code == 4007 then rate_limited_cap_ms else if code == 4008 then quota_cap_ms else 0

on_close-IsHeld :
    (b : Backoff) (code : ℕ)
    → IsU64 b.floor_ms
    → b.bypass_once ≡ false
    → IsHeld (limit_of code) (on_close b code)
unfolding on_close
on_close-IsHeld b code f h = ground arith

-- After the relay closes with a rate or quota limit, every delay is at least a minute or an hour,
-- through any failures and reconnects, until the connection has been stable, another limit is
-- closed with, or the network changes.
pub run-on_close :
    (b : Backoff) (code random : ℕ) (es : List Event)
    → IsU64 b.floor_ms
    → b.bypass_once ≡ false
    → All KeepsFloor es
    → limit_of code ≤ (next_delay_ms (run (on_close b code) es) random).1
run-on_close b code random es f h k =
    IsHeld-delay (limit_of code) _ random
      (run-IsHeld (limit_of code) (on_close b code) es k (on_close-IsHeld b code f h))
