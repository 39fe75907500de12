-- ===== src/Net/Backoff/Runs.antt =====
-- Concrete runs of the pacer, and the theorems at concrete inputs.
use asli.Prelude.{◌≡◌, refl, false, [], ◌∷◌, none}
use asli.Net.Backoff.{Backoff, interval}
use asli.Net.Backoff.Bounds.{authenticated, stable, step, run}

abbrev failing : Backoff
failing = record {
  attempt = 3;
  cap_ms = 30000;
  floor_ms = 0;
  bypass_once = false;
  authenticated_at_ms = none;
}

fourth_interval : interval failing ≡ 4000
unfolding interval
fourth_interval = refl

reset_when_stable : (run failing (authenticated 1000 ∷ stable 61000 ∷ [])).attempt ≡ 0
unfolding run step
reset_when_stable = refl
