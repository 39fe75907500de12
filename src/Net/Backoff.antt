-- ===== src/Net/Backoff.antt =====
-- crates/asli-net/src/backoff.rs: the pacing of reconnects. Time and randomness are arguments, as
-- in the source; `next_delay`, which draws the random number, takes the drawn number here.
pub mod Bounds
pub mod Floors
pub mod Runs
use asli.Prelude.{
  ℕ, ◌+◌, ◌-◌, ◌*◌, ◌%◌, ◌^◌, ◌==◌, ltb, leb, if◌then◌else◌, sat_add, sat_mul, sat_inc32, Bool,
  true, false, Option, none, some,
}

abbrev pub base_ms : ℕ
base_ms = 500

abbrev pub initial_cap_ms : ℕ
initial_cap_ms = 30000

abbrev pub rate_limited_cap_ms : ℕ
rate_limited_cap_ms = 60000

abbrev pub quota_cap_ms : ℕ
quota_cap_ms = 3600000

abbrev pub stable_ms : ℕ
stable_ms = 60000

pub record Backoff : Type 0 where
  pub attempt : ℕ
  pub cap_ms : ℕ
  pub floor_ms : ℕ
  pub bypass_once : Bool
  pub authenticated_at_ms : Option ℕ

pub new : Backoff
new = record {
  attempt = 0;
  cap_ms = initial_cap_ms;
  floor_ms = 0;
  bypass_once = false;
  authenticated_at_ms = none;
}

pub on_close : Backoff → ℕ → Backoff
on_close b code =
    if code == 4007
    then record b {
      cap_ms = rate_limited_cap_ms;
      floor_ms = rate_limited_cap_ms;
      authenticated_at_ms = none;
    }
    else if code == 4008
    then record b { cap_ms = quota_cap_ms; floor_ms = quota_cap_ms; authenticated_at_ms = none }
    else record b { authenticated_at_ms = none }

pub on_retry_after : Backoff → ℕ → Backoff
on_retry_after b ms = if ltb b.floor_ms ms then record b { floor_ms = ms } else b

pub on_authenticated : Backoff → ℕ → Backoff
on_authenticated b now_ms = record b { authenticated_at_ms = some now_ms }

pub note_stable : Backoff → ℕ → Backoff × Bool
note_stable b now_ms = elim b.authenticated_at_ms [
  | none ↦ (b, false)
  | some since ↦
      if leb stable_ms (now_ms - since)
      then (record b { attempt = 0; cap_ms = initial_cap_ms; floor_ms = 0 }, true)
      else (b, false)
]

pub on_network_change : Backoff → Backoff
on_network_change b = record b { bypass_once = true }

-- The interval that the delay is drawn from.
pub interval : Backoff → ℕ
interval b =
    let shift = if ltb 31 b.attempt then 31 else b.attempt in
    let exponential = sat_mul base_ms (2 ^ shift) in
    if ltb exponential b.cap_ms then exponential else b.cap_ms

pub next_delay_ms : Backoff → ℕ → Backoff × ℕ
unfolding interval
next_delay_ms b random = if b.bypass_once then (record b { bypass_once = false }, 0) else (
  record b { attempt = sat_inc32 b.attempt },
  sat_add b.floor_ms (random % (interval b + 1)),
)
