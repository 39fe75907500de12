-- ===== src/Net/Session.antt =====
-- crates/asli-net/src/session.rs: the protocol driver. A method that changes the session returns
-- the session after the call with what the call returns, also when that is an error. What the
-- operating system's generator returns is an argument, and so is the clock, as in the source. A
-- frame is the message that it holds. Arrays are lists of bytes; the guards of Core.Echo and
-- Core.Replay get the number that such a list spells. The `HashMap` of known devices is an
-- association list.
pub mod Sending
pub mod Arriving
pub mod Chunks
pub mod Introducing
pub mod Messages
pub mod Handling
pub mod Cases
pub mod Frames
pub mod History
pub mod Early
pub mod Opening
pub mod Pinning
pub mod Delivery
pub mod Genuine
pub mod Echoes
pub mod Replays
pub mod Validity
pub mod Runs
pub mod Examples
use asli.Prelude.{
  ℕ, ◌+◌, ◌-◌, ◌==◌, ltb, leb, if◌then◌else◌, Bool, true, false, not, ◌&&◌, ◌||◌, u32_max, u64_max,
  sat_add, max, List, [], ◌∷◌, ◌++◌, Option, none, some, length,
}
use asli.Prelude.Bytes.{from_be, same_bytes}
use asli.Prelude.Utf8.{as_bytes}
use asli.Core.Echo.{EchoGuard, default_capacity, default_ttl_ms}
use asli.Core.Replay.{
  ReplayGuard, Memory, Verdict, memory, restore, default_max_age_ms, default_future_skew_ms,
}
use asli.Core.Replay
use asli.Crypto.Identity.{Identity, room_id, enc_key}
use asli.Crypto.Primitives.{Primitives}
use asli.Crypto.Chunk.{Assembly}
use asli.Crypto.Clip.{inner_header_len}
use asli.Crypto.Device.{DeviceKeys}
use asli.Crypto.Announce.{truncate_utf8, max_field_bytes}
use asli.Crypto.Msg.{Kind}
use asli.Net.State.{AuthFailCode, ErrorCode}
use asli.Net.Envelope.{Limits, Message}

abbrev pub max_image_bytes : ℕ
max_image_bytes = 33554432

abbrev pub default_retention_ms : ℕ
default_retention_ms = 86400000

-- "asli-v1", `SUITE` of asli-crypto.
abbrev pub suite_name : List ℕ
suite_name = b'a' ∷ b's' ∷ b'l' ∷ b'i' ∷ b'-' ∷ b'v' ∷ b'1' ∷ []

-- "asli/1.0.1"
abbrev pub client_id : List ℕ
client_id = b'a' ∷ b's' ∷ b'l' ∷ b'i' ∷ b'/' ∷ b'1' ∷ b'.' ∷ b'0' ∷ b'.' ∷ b'1' ∷ []

-- "json"
abbrev pub json_name : List ℕ
json_name = b'j' ∷ b's' ∷ b'o' ∷ b'n' ∷ []

abbrev pub announce_seen_capacity : ℕ
announce_seen_capacity = 64

abbrev pub msg_seen_capacity : ℕ
msg_seen_capacity = 256

abbrev pub clock_skew_warn_ms : ℕ
clock_skew_warn_ms = 43200000

pub record DeviceInfo : Type 0 where
  pub name : List ℕ
  pub os : List ℕ

pub record PeerInfo : Type 0 where
  pub device_id : List ℕ
  pub name : List ℕ
  pub os : List ℕ
  pub ts_ms : ℕ

pub data Probe : Type 0 where
  untried sent refused : Probe

unfoldable pub is_sent : Probe → Bool
is_sent sent = true
is_sent _ = false

unfoldable pub is_refused : Probe → Bool
is_refused refused = true
is_refused _ = false

pub record KnownDevice : Type 0 where
  pub device_id : List ℕ
  pub sign_pub : List ℕ
  pub box_pub : List ℕ
  pub conn_id : Option (List ℕ)
  pub name : List ℕ
  pub os : List ℕ
  pub ts_ms : ℕ

pub data Phase : Type 0 where
  fresh_start hello_sent authenticating ready : Phase

-- A signed number of milliseconds, `negsuc n` being - n - 1.
pub data ℤ : Type 0 where
  pos negsuc : ℕ → ℤ

-- The label of a discard; `replay_verdict` is `Verdict::reason`.
pub data Reason : Type 0 where
  wrong_room unknown_epoch could_not_decrypt msg_open_failed card_invalid card_key_changed : Reason
  rekey_invalid rekey_unknown_sender rekey_stale : Reason
  replay_verdict : Verdict → Reason

pub data Action : Type 0 where
  send : Message → Action
  authenticated : List ℕ → ℕ → Bool → Option ℕ → Action
  -- The text, its capture time, whether the relay had stored it, and the device that copied it.
  deliver_clip : List ℕ → ℕ → Bool → List ℕ → Action
  -- The image, its capture time and the device that copied it.
  deliver_image : List ℕ → ℕ → List ℕ → Action
  peer : PeerInfo → Action
  peers_changed : ℕ → Action
  relay_problem : ErrorCode → Option ℕ → Action
  auth_refused : AuthFailCode → Action
  discarded : Reason → Bool → Action
  device : KnownDevice → Action
  message : Kind → List ℕ → Action
  -- The new secret, the device that made it, and the devices that it went to.
  rekeyed : List ℕ → List ℕ → List (List ℕ) → Action
  removed_by : List ℕ → Action
  clock_skew : ℤ → Action

abbrev pub dropped : Reason → Bool → List Action
dropped reason retained = discarded reason retained ∷ []

-- `LocalEvent` of client.rs, what may be kept to send again: a token is reported back once the
-- relay has read the frame.
pub data LocalEvent : Type 0 where
  local_text local_image : List ℕ → LocalEvent
  fetch_retained : LocalEvent
  local_device_info : DeviceInfo → LocalEvent
  -- The kind, the body, the connection that it is for, and the token.
  local_message : Kind → List ℕ → Option (List ℕ) → Option ℕ → LocalEvent
  -- The devices that keep the account, the new secret, and the token.
  local_rekey : List (List ℕ) → List ℕ → ℕ → LocalEvent

pub record Session : Type 0 where
  pub identity : Identity
  pub device_id : List ℕ
  pub seq : ℕ
  pub epoch : ℕ
  pub phase : Phase
  pub limits : Option Limits
  pub echo : EchoGuard
  pub replay : ReplayGuard
  pub replay_sink : Option Memory
  pub echo_guard : Bool
  pub resend : Option LocalEvent
  pub peers : ℕ
  pub pinned_auth : Option (List ℕ × ℕ)
  pub assembly : Option Assembly
  pub device_info : Option DeviceInfo
  pub announce_probe : Probe
  pub announce_seen : List (List ℕ)
  pub device_keys : Option DeviceKeys
  pub conn_id : Option (List ℕ)
  pub known : List KnownDevice
  pub msg_probe : Probe
  pub msg_seen : List (List ℕ)

unfoldable pub new : Identity → List ℕ → ℕ → Session
new identity device_id seq = record {
  identity = identity;
  device_id = device_id;
  seq = seq;
  epoch = 0;
  phase = fresh_start;
  limits = none;
  echo = record { entries = []; capacity = default_capacity; ttl_ms = default_ttl_ms };
  replay = Replay.new (from_be device_id) default_retention_ms;
  replay_sink = none;
  echo_guard = true;
  resend = none;
  peers = 0;
  pinned_auth = none;
  assembly = none;
  device_info = none;
  announce_probe = untried;
  announce_seen = [];
  device_keys = none;
  conn_id = none;
  known = [];
  msg_probe = untried;
  msg_seen = [];
}

unfoldable pub is_ready : Session → Bool
is_ready s = elim s.phase [ ready ↦ true | _ ↦ false ]

unfoldable pub is_hello_sent : Session → Bool
is_hello_sent s = elim s.phase [ hello_sent ↦ true | _ ↦ false ]

-- `HashMap::get` and `HashMap::insert` on the known devices.
unfoldable pub get : List KnownDevice → List ℕ → Option KnownDevice
get [] id = none
get (d ∷ ds) id = if same_bytes d.device_id id then some d else get ds id

unfoldable pub insert : List KnownDevice → KnownDevice → List KnownDevice
insert [] new = new ∷ []
insert (d ∷ ds) new = if same_bytes d.device_id new.device_id then new ∷ ds else d ∷ insert ds new

unfoldable pub restore_devices : List KnownDevice → List KnownDevice → List KnownDevice
unfolding insert
restore_devices known [] = known
restore_devices known (d ∷ ds) = restore_devices (insert known (record d { conn_id = none })) ds

unfoldable pub restore_known : Session → List KnownDevice → Session
unfolding restore_devices
restore_known s devices = record s { known = restore_devices s.known devices }

unfoldable pub set_device_keys : Session → DeviceKeys → Session
set_device_keys s keys = record s { device_keys = some keys }

unfoldable pub set_device_info : Session → DeviceInfo → Session
set_device_info s info = record s {
  device_info = some (record {
    name = truncate_utf8 info.name max_field_bytes;
    os = truncate_utf8 info.os max_field_bytes;
  });
}

-- The values of the map, in some order.
unfoldable pub known_devices : Session → List KnownDevice
known_devices s = s.known

unfoldable pub relay_forwards_messages : Session → Bool
unfolding is_refused
relay_forwards_messages s = not (is_refused s.msg_probe)

unfoldable pub stash_resend : Session → LocalEvent → Session
stash_resend s event = record s { resend = some event }

unfoldable pub take_resend : Session → Session × Option LocalEvent
take_resend s = (record s { resend = none }, s.resend)

unfoldable pub leave_echoes_to_caller : Session → Session
leave_echoes_to_caller s = record s { echo_guard = false }

unfoldable pub restore_replay : Session → Memory → Session
restore_replay s m = record s { replay = restore s.replay m }

unfoldable pub share_replay_memory : Session → Memory → Session
share_replay_memory s sink = record s { replay_sink = some sink }

-- The sink is shared with the caller; a poisoned lock is left out.
unfoldable pub publish_replay : Session → Session
publish_replay s = record s {
  replay_sink = elim s.replay_sink [ none ↦ none | some old ↦ some (memory s.replay) ];
}

unfoldable pub pin_auth_inputs : Session → List ℕ → ℕ → Session
pin_auth_inputs s nonce_c client_time_ms = record s { pinned_auth = some (nonce_c, client_time_ms) }

unfoldable pub fresh : ℕ → ℕ → Bool
fresh now_ms ts_ms =
    leb (now_ms - ts_ms) default_max_age_ms && leb (ts_ms - now_ms) default_future_skew_ms

-- `saturating_add` on a u32.
unfoldable pub epoch_is_acceptable : Session → ℕ → Bool
epoch_is_acceptable s epoch =
    leb (s.epoch - 1) epoch
    && leb epoch (if leb (s.epoch + 1) u32_max then s.epoch + 1 else u32_max)

-- The source's `usize` has 64 bits, so that a u64 fits it.
unfoldable pub max_content_bytes : Session → ℕ
max_content_bytes s = elim s.limits [ none ↦ 8388608 | some l ↦ l.max_content_bytes ]

unfoldable pub assembly_cap : Session → ℕ
unfolding max_content_bytes
assembly_cap s =
    sat_add (sat_add (max (max_content_bytes s) max_image_bytes) inner_header_len) 65536

-- Whether a frame is for this session's room and epoch.
unfoldable pub same_room : Session → List ℕ → Bool
same_room s room = same_bytes room (room_id s.identity)

-- `contains`, and the push into a full ring, of the queues of message ids.
unfoldable pub seen_contains : List (List ℕ) → List ℕ → Bool
seen_contains [] id = false
seen_contains (x ∷ xs) id = same_bytes x id || seen_contains xs id

abbrev pop_front : List (List ℕ) → List (List ℕ)
pop_front [] = []
pop_front (x ∷ xs) = xs

unfoldable pub push_seen : ℕ → List (List ℕ) → List ℕ → List (List ℕ)
push_seen capacity seen id =
    (if leb capacity (length seen) then pop_front seen else seen) ++ (id ∷ [])

module _ (crypto : Primitives) where
  -- The key of an epoch.
  unfoldable pub session_key : Session → ℕ → List ℕ
  session_key s epoch = enc_key crypto s.identity.prk epoch

  -- `asli_core::hash` of a text, as a number.
  unfoldable pub content_hash : List ℕ → ℕ
  content_hash text = from_be (crypto.sha.digest (as_bytes text))
