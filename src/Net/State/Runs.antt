-- ===== src/Net/State/Runs.antt =====
-- Concrete runs of the connection state machine, and the theorems at concrete inputs.
use asli.Prelude.{true, ◌≡◌, ◌↔◌, refl, List, [], ◌∷◌, All, ◌++◌}
use asli.Net.State.{
  Input, next, can_send, wants_connection, disconnected, connecting, synced, rate_limited, dial,
  socket_open, auth_ok, relay_error, resume, rate_limit,
}
use asli.Net.State.Terminal.{run}
use asli.Net.State.Traces.{Keeps, run-can_send, next-dial}

abbrev session : List Input
session = dial ∷ socket_open ∷ auth_ok ∷ resume ∷ []

session_synced : run disconnected session ≡ synced
unfolding run next
session_synced = refl

limited : run synced (relay_error rate_limit ∷ auth_ok ∷ []) ≡ synced
unfolding run next
limited = refl

run-can_send_example :
    (before : List Input) × (after : List Input) × (session ≡ before ++ (auth_ok ∷ after))
    × All Keeps after
run-can_send_example = run-can_send session (unfold run next can_send in refl)

next-dial_example : (next rate_limited dial ≡ connecting) ↔ (wants_connection rate_limited ≡ true)
next-dial_example = next-dial rate_limited (λ e. cc)
