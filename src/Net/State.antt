-- ===== src/Net/State.antt =====
-- crates/asli-net/src/state.rs: the connection state machine, with the codes of
-- crates/asli-net/src/envelope.rs that it reads.
pub mod Terminal
pub mod Traces
pub mod Runs
use asli.Prelude.{ℕ, ◌==◌, if◌then◌else◌, Bool, true, false, ◌||◌, Option, none, some}

pub data AuthFailCode : Type 0 where
  unsupported_version bad_signature room_mismatch malformed_auth stale_nonce auth_timeout :
      AuthFailCode

pub is_permanent : AuthFailCode → Bool
is_permanent unsupported_version = true
is_permanent bad_signature = true
is_permanent room_mismatch = true
is_permanent _ = false

pub data ErrorCode : Type 0 where
  rate_limit quota_exceeded message_too_large malformed unknown_type not_authenticated : ErrorCode
  no_retained no_such_peer other : ErrorCode

pub data Fatal : Type 0 where
  bad_signature room_mismatch unsupported_version : Fatal

pub from_close_code : ℕ → Option Fatal
from_close_code code =
    if code == 4002
    then some Fatal.bad_signature
    else if code == 4003
    then some Fatal.room_mismatch
    else if code == 4004
    then some Fatal.unsupported_version
    else none

pub from_auth_fail : AuthFailCode → Option Fatal
from_auth_fail AuthFailCode.bad_signature = some Fatal.bad_signature
from_auth_fail AuthFailCode.room_mismatch = some Fatal.room_mismatch
from_auth_fail AuthFailCode.unsupported_version = some Fatal.unsupported_version
from_auth_fail _ = none

pub data State : Type 0 where
  disconnected connecting authenticating synced paused rate_limited : State
  fatal : Fatal → State

pub can_send : State → Bool
can_send synced = true
can_send _ = false

pub wants_connection : State → Bool
wants_connection disconnected = true
wants_connection rate_limited = true
wants_connection _ = false

pub data Input : Type 0 where
  dial socket_open auth_ok : Input
  auth_fail : AuthFailCode → Input
  relay_error : ErrorCode → Input
  closed : ℕ → Input
  pause resume reset : Input

-- Where a refusal of the handshake leads.
pub after_auth_fail : AuthFailCode → State
unfolding from_auth_fail
after_auth_fail code = elim (from_auth_fail code) [
  | some reason ↦ fatal reason
  | none ↦ disconnected
]

-- Where a close code leads.
pub after_close : ℕ → State
unfolding from_close_code
after_close code = elim (from_close_code code) [
  | some reason ↦ fatal reason
  | none ↦ if code == 4007 || code == 4008 then rate_limited else disconnected
]

-- The arms of the source's `match`, in their order.
pub next : State → Input → State
unfolding after_auth_fail after_close
next (fatal reason) reset = disconnected
next paused resume = disconnected
next (fatal reason) _ = fatal reason
next _ pause = paused
next paused _ = paused
next _ (auth_fail code) = after_auth_fail code
next _ (closed code) = after_close code
next disconnected dial = connecting
next rate_limited dial = connecting
next connecting socket_open = authenticating
next authenticating auth_ok = synced
next rate_limited auth_ok = synced
next synced (relay_error rate_limit) = rate_limited
next synced (relay_error quota_exceeded) = rate_limited
next current _ = current
