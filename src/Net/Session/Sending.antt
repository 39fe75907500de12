-- ===== src/Net/Session/Sending.antt =====
-- crates/asli-net/src/session.rs: the frames that a session makes.
use asli.Prelude.{
  ℕ, ◌==◌, ltb, if◌then◌else◌, not, sat_add, List, [], ◌∷◌, map, Option, none, some, length,
}
use asli.Prelude.Utf8.{as_bytes}
use asli.Core.Echo.{take_echo}
use asli.Core.Normalize.{normalize, is_syncable}
use asli.Crypto.Error as CryptoError
use asli.Crypto.Primitives.{Primitives}
use asli.Crypto.Identity.{room_id}
use asli.Crypto.Clip.{Inner, Sealed, text, image_png}
use asli.Crypto.Clip as CryptoClip
use asli.Crypto.Chunk.{SealedChunk, seal_chunks}
use asli.Crypto.Msg.{Kind, card, rekey}
use asli.Crypto.Msg as CryptoMsg
use asli.Net.Error.{
  Result, ok, err, ◌>>=◌, from_crypto, unsupported, out_of_order, content_too_large, msg_early,
  clip_early, image_early, fetch_last_early, no_forwarding,
}
use asli.Net.Envelope.{
  Message, ClipChunk, protocol_version, hello, fetch_last, clip, clip_begin, clip_chunk, clip_end,
  device_msg,
}
use asli.Net.Session.{
  Session, is_ready, is_refused, hello_sent, untried, sent, suite_name, client_id, json_name,
  max_image_bytes, session_key, content_hash,
}

unfoldable pub default_chunk_bytes : ℕ
default_chunk_bytes = 262144

unfoldable pub hello_frame : Session → Session × Result Message
hello_frame s = (
  record s { phase = hello_sent; assembly = none; announce_probe = untried; msg_probe = untried },
  ok (
      hello (record {
        v = protocol_version;
        suites = suite_name ∷ [];
        enc = json_name ∷ [];
        client = some client_id;
      })),
)

unfoldable pub fetch_last_frame : Session → Result Message
fetch_last_frame s =
    if is_ready s
    then ok (fetch_last (record { v = protocol_version }))
    else err (out_of_order fetch_last_early)

-- What the generator returns for a frame: for its message id, and for its nonce.
pub record Draw : Type 0 where
  pub id : Option (List ℕ)
  pub nonce : Option (List ℕ)

unfoldable pub over_limit : Session → ℕ → Option ℕ
over_limit s size = elim s.limits [
  | none ↦ none
  | some l ↦ if ltb l.max_content_bytes size then some l.max_content_bytes else none
]

module _ (crypto : Primitives) where
  unfoldable pub seal_text : Session → Draw → List ℕ → ℕ → Result Message
  seal_text s draw normalized now_ms = do
    msg_id ← from_crypto (CryptoError.ok_or draw.id CryptoError.rng)
    sealed ← from_crypto (
        CryptoClip.seal crypto.aead draw.nonce (session_key crypto s s.epoch) s.epoch
          s.identity.room_id_bytes msg_id
          (record {
            content_type = text;
            device_id = s.device_id;
            seq = s.seq;
            ts_ms = now_ms;
            content = as_bytes normalized;
          }))
    ok (
        clip (record {
          v = protocol_version;
          room = room_id s.identity;
          epoch = s.epoch;
          msg_id = msg_id;
          n = sealed.nonce;
          ct = sealed.ciphertext;
          retained = none;
          stored_at = none;
        }))

  -- From the test of the limit on.
  unfoldable pub send_text : Session → Draw → List ℕ → ℕ → Session × Result (Option Message)
  unfolding over_limit
  send_text s draw normalized now_ms = elim (over_limit s (length (as_bytes normalized))) [
    | some limit ↦ (s, err (content_too_large (length (as_bytes normalized)) limit))
    | none ↦
        let t : Session = record s { seq = sat_add s.seq 1 } in
        (t, seal_text t draw normalized now_ms >>= λ frame. ok (some frame))
  ]

  unfoldable pub observe_local : Session → Draw → List ℕ → ℕ → Session × Result (Option Message)
  unfolding send_text
  observe_local s draw input now_ms =
      let normalized = normalize input in
      let taken = take_echo s.echo (content_hash crypto normalized) now_ms in
      if not (is_ready s)
      then (s, err (out_of_order clip_early))
      else if not (is_syncable normalized)
      then (s, ok none)
      else if taken.1
      then (record s { echo = taken.0 }, ok none)
      else send_text (record s { echo = taken.0 }) draw normalized now_ms

  unfoldable pub chunk_frame : Session → List ℕ → SealedChunk → Message
  chunk_frame s msg_id piece =
      let payload : ClipChunk = record {
        v = protocol_version;
        room = room_id s.identity;
        epoch = s.epoch;
        msg_id = msg_id;
        idx = piece.idx;
        chunk_count = piece.chunk_count;
        n = piece.nonce;
        ct = piece.ciphertext;
      } in
      if piece.final_chunk
      then clip_end payload
      else if piece.idx == 0
      then clip_begin payload
      else clip_chunk payload

  -- The nonce of chunk `idx` is `nonces idx`.
  unfoldable pub seal_image :
      Session → Option (List ℕ) → (ℕ → Option (List ℕ)) → List ℕ → ℕ → Result (List Message)
  unfolding chunk_frame
  seal_image s id nonces png now_ms = do
    msg_id ← from_crypto (CryptoError.ok_or id CryptoError.rng)
    sealed ← from_crypto (
        seal_chunks crypto.aead nonces (session_key crypto s s.epoch) s.epoch
          s.identity.room_id_bytes msg_id
          (record {
            content_type = image_png;
            device_id = s.device_id;
            seq = s.seq;
            ts_ms = now_ms;
            content = png;
          })
          default_chunk_bytes)
    ok (map (chunk_frame s msg_id) sealed)

  unfoldable pub observe_local_image :
      Session
      → Option (List ℕ)
      → (ℕ → Option (List ℕ))
      → List ℕ
      → ℕ
      → Session × Result (List Message)
  unfolding seal_image
  observe_local_image s id nonces png now_ms =
      let t : Session = record s { seq = sat_add s.seq 1 } in
      if not (is_ready s)
      then (s, err (out_of_order image_early))
      else if length png == 0
      then (s, ok [])
      else if ltb max_image_bytes (length png)
      then (s, err (content_too_large (length png) max_image_bytes))
      else (t, seal_image t id nonces png now_ms)

  unfoldable pub seal_msg : Session → Draw → Kind → List ℕ → Option (List ℕ) → Result Message
  seal_msg s draw kind body to = do
    msg_id ← from_crypto (CryptoError.ok_or draw.id CryptoError.rng)
    sealed ← from_crypto (
        CryptoMsg.seal crypto.aead draw.nonce (session_key crypto s s.epoch) s.epoch
          s.identity.room_id_bytes msg_id kind body)
    ok (
        device_msg (record {
          v = protocol_version;
          room = room_id s.identity;
          epoch = s.epoch;
          msg_id = msg_id;
          n = sealed.nonce;
          ct = sealed.ciphertext;
          to = to;
        }))

  unfoldable pub msg_frame :
      Session → Draw → Kind → List ℕ → Option (List ℕ) → Session × Result Message
  unfolding seal_msg
  msg_frame s draw kind body to =
      if not (is_ready s)
      then (s, err (out_of_order msg_early))
      else if is_refused s.msg_probe
      then (s, err (unsupported no_forwarding))
      else elim (seal_msg s draw kind body to) [
        | err failure ↦ (s, err failure)
        | ok frame ↦ (record s { msg_probe = sent }, ok frame)
      ]
