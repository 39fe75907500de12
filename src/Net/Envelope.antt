-- ===== src/Net/Envelope.antt =====
-- crates/asli-net/src/envelope.rs: the messages. Their JSON, which serde_json writes and reads, and
-- the base64 of their binary fields are not modelled: a frame is the message that it holds. A text
-- is the list of its characters.
use asli.Prelude.{ℕ, ◌==◌, leb, not, Bool, false, List, Option, none, some, length}
use asli.Net.State.{AuthFailCode, ErrorCode}
use asli.Net.Error.{
  Result, FieldName, ok, ◌>>=◌, ◌>>◌, refuse_if, field_length, msg_id_field, n_field, ct_field,
}

abbrev pub protocol_version : ℕ
protocol_version = 1

pub record Hello : Type 0 where
  pub v : ℕ
  pub suites : List (List ℕ)
  pub enc : List (List ℕ)
  pub client : Option (List ℕ)

pub record Limits : Type 0 where
  pub max_frame_bytes : ℕ
  pub max_content_bytes : ℕ
  pub retain_max_bytes : ℕ
  pub msgs_per_sec : ℕ
  pub room_bytes_per_day : ℕ

pub record Challenge : Type 0 where
  pub v : ℕ
  pub suite : List ℕ
  pub enc : List ℕ
  pub nonce_s : List ℕ
  pub server_time_ms : ℕ
  pub limits : Limits

pub record Auth : Type 0 where
  pub v : ℕ
  pub room : List ℕ
  pub pub_key : List ℕ
  pub nonce_c : List ℕ
  pub client_time_ms : ℕ
  pub sig : List ℕ

pub record AuthOk : Type 0 where
  pub v : ℕ
  pub conn_id : List ℕ
  pub peers : ℕ
  pub has_retained : Bool
  pub stored_at : Option ℕ

pub record AuthFail : Type 0 where
  pub v : ℕ
  pub code : AuthFailCode
  pub message : Option (List ℕ)

pub record Clip : Type 0 where
  pub v : ℕ
  pub room : List ℕ
  pub epoch : ℕ
  pub msg_id : List ℕ
  pub n : List ℕ
  pub ct : List ℕ
  pub retained : Option Bool
  pub stored_at : Option ℕ

pub record ClipChunk : Type 0 where
  pub v : ℕ
  pub room : List ℕ
  pub epoch : ℕ
  pub msg_id : List ℕ
  pub idx : ℕ
  pub chunk_count : ℕ
  pub n : List ℕ
  pub ct : List ℕ

pub record Announce : Type 0 where
  pub v : ℕ
  pub room : List ℕ
  pub epoch : ℕ
  pub msg_id : List ℕ
  pub n : List ℕ
  pub ct : List ℕ

pub record FetchLast : Type 0 where
  pub v : ℕ

pub record Presence : Type 0 where
  pub v : ℕ
  pub peers : ℕ

pub record Ping : Type 0 where
  pub v : ℕ
  pub t : Option ℕ

pub record Pong : Type 0 where
  pub v : ℕ
  pub t : Option ℕ

pub record Msg : Type 0 where
  pub v : ℕ
  pub room : List ℕ
  pub epoch : ℕ
  pub msg_id : List ℕ
  pub n : List ℕ
  pub ct : List ℕ
  pub to : Option (List ℕ)

pub record ErrorMessage : Type 0 where
  pub v : ℕ
  pub code : ErrorCode
  pub message : Option (List ℕ)
  pub retry_after_ms : Option ℕ

pub data Message : Type 0 where
  hello : Hello → Message
  challenge : Challenge → Message
  auth : Auth → Message
  auth_ok : AuthOk → Message
  auth_fail : AuthFail → Message
  clip : Clip → Message
  fetch_last : FetchLast → Message
  presence : Presence → Message
  ping : Ping → Message
  pong : Pong → Message
  relay_error : ErrorMessage → Message
  clip_begin clip_chunk clip_end : ClipChunk → Message
  announce : Announce → Message
  device_msg : Msg → Message

unfoldable pub version : Message → ℕ
version (hello m) = m.v
version (challenge m) = m.v
version (auth m) = m.v
version (auth_ok m) = m.v
version (auth_fail m) = m.v
version (clip m) = m.v
version (fetch_last m) = m.v
version (presence m) = m.v
version (ping m) = m.v
version (pong m) = m.v
version (relay_error m) = m.v
version (clip_begin m) = m.v
version (clip_chunk m) = m.v
version (clip_end m) = m.v
version (announce m) = m.v
version (device_msg m) = m.v

unfoldable pub is_retained : Clip → Bool
is_retained m = elim m.retained [ none ↦ false | some b ↦ b ]

-- The array is the bytes that were tested.
unfoldable pub fixed : FieldName → ℕ → List ℕ → Result (List ℕ)
fixed field size bytes = do
  refuse_if (not (length bytes == size)) (field_length field size (length bytes))
  ok bytes

-- The checks of length that `on_clip`, `on_chunk`, `on_announce` and `on_msg` of session.rs each
-- begin with.
unfoldable pub structural : List ℕ → List ℕ → List ℕ → Result (Unit {0})
unfolding fixed
structural msg_id n ct = do
  id ← fixed msg_id_field 16 msg_id
  nonce ← fixed n_field 24 n
  refuse_if (leb (length ct) 16) (field_length ct_field 17 (length ct))
