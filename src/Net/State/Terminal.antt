-- ===== src/Net/State/Terminal.antt =====
-- Permanent failures and pauses: states that the relay cannot lead out of.
use asli.Prelude.{ℕ, true, false, ◌≡◌, ◌≢◌, ◌⊎◌, inl, inr, refl, List, [], ◌∷◌, All}
use asli.Net.State.{
  AuthFailCode, Fatal, State, Input, is_permanent, after_auth_fail, after_close, next, can_send,
  wants_connection, disconnected, synced, paused, fatal, dial, socket_open, auth_ok, auth_fail,
  closed, resume, reset,
}

unfoldable pub run : State → List Input → State
run s [] = s
run s (i ∷ is) = run (next s i) is

-- The two ways in which the relay refuses a device for good.
abbrev pub IsRefusal : Input → Type 0
IsRefusal (auth_fail code) = is_permanent code ≡ true
IsRefusal (closed code) = (code ≡ 4002) ⊎ (code ≡ 4003) ⊎ (code ≡ 4004)
IsRefusal _ = ⊥

abbrev pub IsLive : State → Type 0
IsLive paused = ⊥
IsLive (fatal reason) = ⊥
IsLive _ = Unit {0}

next-fatal : (reason : Fatal) (i : Input) → i ≢ reset → next (fatal reason) i ≡ fatal reason
unfolding next
next-fatal reason reset h = absurd (h refl)
next-fatal reason _ h = refl

run-fatal :
    (reason : Fatal) (is : List Input)
    → All (λ i. i ≢ reset) is
    → run (fatal reason) is ≡ fatal reason
unfolding run
run-fatal reason [] h = refl
run-fatal reason (i ∷ is) h = rw (next-fatal reason i h.0) (run-fatal reason is h.1)

after_auth_fail-fatal :
    (code : AuthFailCode)
    → is_permanent code ≡ true
    → (reason : Fatal) × (after_auth_fail code ≡ fatal reason)
unfolding after_auth_fail is_permanent
after_auth_fail-fatal AuthFailCode.unsupported_version h = (Fatal.unsupported_version, refl)
after_auth_fail-fatal AuthFailCode.bad_signature h = (Fatal.bad_signature, refl)
after_auth_fail-fatal AuthFailCode.room_mismatch h = (Fatal.room_mismatch, refl)
after_auth_fail-fatal _ h = cc

after_close-fatal :
    (code : ℕ) → IsRefusal (closed code) → (reason : Fatal) × (after_close code ≡ fatal reason)
unfolding after_close
after_close-fatal code (inl e) = (Fatal.bad_signature, rw e refl)
after_close-fatal code (inr (inl e)) = (Fatal.room_mismatch, rw e refl)
after_close-fatal code (inr (inr e)) = (Fatal.unsupported_version, rw e refl)

next-refusal :
    (s : State) (i : Input) → IsLive s → IsRefusal i → (reason : Fatal) × (next s i ≡ fatal reason)
unfolding next
next-refusal (fatal reason) i l r = absurd l
next-refusal paused i l r = absurd l
next-refusal s (auth_fail code) l r = after_auth_fail-fatal code r
next-refusal s (closed code) l r = after_close-fatal code r
next-refusal s _ l r = absurd r

-- Once the relay refuses a device for good, by the handshake or by a close code, the client neither
-- sends nor dials again, whatever happens, until the user resets it.
pub run-refusal :
    (s : State) (i : Input) (is : List Input)
    → IsLive s
    → IsRefusal i
    → All (λ j. j ≢ reset) is
    → (can_send (run (next s i) is) ≡ false) × (wants_connection (run (next s i) is) ≡ false)
unfolding can_send wants_connection
run-refusal s i is l r h =
    let (reason, e) = next-refusal s i l r in rw (e, run-fatal reason is h) (refl, refl)

next-paused : (i : Input) → i ≢ resume → next paused i ≡ paused
unfolding next
next-paused resume h = absurd (h refl)
next-paused _ h = refl

-- While the user has sync paused, no event of the network starts a connection or lets a clip out.
pub run-paused :
    (is : List Input)
    → All (λ i. i ≢ resume) is
    → (can_send (run paused is) ≡ false) × (wants_connection (run paused is) ≡ false)
unfolding run can_send wants_connection
run-paused [] h = (refl, refl)
run-paused (i ∷ is) h = rw (next-paused i h.0) (run-paused is h.1)

-- A state from which no input leads to a working connection does not exist: after a reset, a resume
-- and the end of the old socket, a new handshake reaches `synced`.
pub run_recovers :
    (s : State) → run s (reset ∷ resume ∷ closed 1000 ∷ dial ∷ socket_open ∷ auth_ok ∷ []) ≡ synced
unfolding run next
run_recovers disconnected = refl
run_recovers _ = refl
