-- ===== src/Net/Backoff/Bounds.antt =====
-- How long the next delay can be.
use asli.Prelude.{
  ℕ, ◌+◌, ◌*◌, ◌%◌, ◌^◌, ◌≤◌, ◌<◌, ltb, false, ◌≡◌, inl, inr, arith, List, [], ◌∷◌, u64_max,
  u32_max, Bool-cases, min,
}
use asli.Net.Backoff.{
  Backoff, new, on_close, on_retry_after, on_authenticated, note_stable, on_network_change,
  interval, next_delay_ms, base_ms, initial_cap_ms, quota_cap_ms,
}
use native.Mathlib.Nat.{mod-lt, pow-le-pow_right}

-- The calls of one session, with their arguments.
pub data Event : Type 0 where
  closed retry_after authenticated stable : ℕ → Event
  network_change : Event
  delay : ℕ → Event

unfoldable pub step : Backoff → Event → Backoff
unfolding on_close on_retry_after on_authenticated note_stable on_network_change next_delay_ms
step b (closed code) = on_close b code
step b (retry_after ms) = on_retry_after b ms
step b (authenticated now) = on_authenticated b now
step b (stable now) = (note_stable b now).0
step b network_change = on_network_change b
step b (delay random) = (next_delay_ms b random).0

unfoldable pub run : Backoff → List Event → Backoff
run b [] = b
run b (e ∷ es) = run (step b e) es

-- The cap is one of the three that the module names, and the counter stays a u32.
pub record IsValid (b : Backoff) : Type 0 where
  pub low : initial_cap_ms ≤ b.cap_ms
  pub high : b.cap_ms ≤ quota_cap_ms
  pub counted : b.attempt ≤ u32_max

step-IsValid : (b : Backoff) (e : Event) → IsValid b → IsValid (step b e)
unfolding step
step-IsValid b (closed code) v = ground arith
step-IsValid b (retry_after ms) v = ground arith
step-IsValid b (authenticated now) v = ground arith
step-IsValid b (stable now) v = ground arith
step-IsValid b network_change v = ground arith
step-IsValid b (delay random) v = ground arith

run-IsValid : (b : Backoff) (es : List Event) → IsValid b → IsValid (run b es)
unfolding run
run-IsValid b [] v = v
run-IsValid b (e ∷ es) v = run-IsValid (step b e) es (step-IsValid b e v)

-- After any calls on a new pacer, the cap lies between 30 seconds and an hour.
pub run-new : (es : List Event) → IsValid (run new es)
unfolding new
run-new es =
    run-IsValid new es (record { low = omega arith; high = omega arith; counted = omega arith })

interval-le-cap : (b : Backoff) → interval b ≤ b.cap_ms
unfolding interval
interval-le-cap b = ground arith

-- With no bypass pending, the delay is at least the floor and at most the floor plus the cap, for
-- every random number, as long as that sum is a u64.
pub next_delay_ms_bounds :
    (b : Backoff) (random : ℕ)
    → b.bypass_once ≡ false
    → b.floor_ms + b.cap_ms ≤ u64_max
    → (b.floor_ms ≤ (next_delay_ms b random).1)
      × ((next_delay_ms b random).1 ≤ b.floor_ms + b.cap_ms)
unfolding next_delay_ms
next_delay_ms_bounds b random h fits =
    let r : random % (interval b + 1) < interval b + 1 = mod-lt random (omega arith) in
    ground (arith, r, interval-le-cap b, h)

shift_bound : (n : ℕ) → 2 ^ (min n 31) ≤ 2 ^ 31
shift_bound n = pow-le-pow_right (omega arith) {i = min n 31} {j = 31} (omega arith)

-- The interval is half a second, doubled for each attempt up to 31 times, and never above the cap:
-- neither the shift nor the multiplication wraps or saturates, however long the outage.
pub interval-min : (b : Backoff) → interval b ≡ min b.cap_ms (base_ms * 2 ^ (min b.attempt 31))
unfolding interval
interval-min b = elim (Bool-cases (ltb 31 b.attempt)) [
  | inl late ↦ let e : min b.attempt 31 ≡ 31 = ground arith in rw (late, e) (ground arith)
  | inr early ↦
      let e : min b.attempt 31 ≡ b.attempt = ground arith in
      let bound = rw e at (shift_bound b.attempt) in rw (early, e) (ground (arith, bound))
]

-- Each delay that is drawn widens the interval of the next one or keeps it.
pub interval-next_delay_ms :
    (b : Backoff) (random : ℕ) → interval b ≤ interval (next_delay_ms b random).0
interval-next_delay_ms b random =
    let b' = (next_delay_ms b random).0 in
    let more : min b.attempt 31 ≤ min b'.attempt 31 = unfold next_delay_ms in ground arith in
    let same : b'.cap_ms ≡ b.cap_ms = unfold next_delay_ms in ground arith in
    let grown : 2 ^ (min b.attempt 31) ≤ 2 ^ (min b'.attempt 31) =
      pow-le-pow_right (omega arith) more in
    omega (arith, interval-min b, interval-min b', grown, same)
