-- ===== src/Net/Session/Frames.antt =====
-- What a frame leaves of a session as it was.
use asli.Prelude.{ℕ, ◌≡◌, refl, ◌∙◌, List, Bool, Option, none, arith, inl, inr}
use asli.Net.Session.Cases.{on_clip-cases, on_chunk-cases, card_frame-cases}
use asli.Crypto.Device.{DeviceKeys}
use asli.Net.Error.{Result-cases}
use asli.Crypto.Primitives.{Primitives}
use asli.Crypto.Chunk.{Assembly, accept}
use asli.Crypto.Clip.{Inner}
use asli.Crypto.Msg.{Kind, card}
use asli.Net.Envelope.{Clip, ClipChunk, Challenge, ErrorMessage, Announce, is_retained}
use asli.Net.Session.{Session, Action, publish_replay}
use asli.Net.Session.Sending.{Draw, msg_frame}
use asli.Net.Session.Introducing.{card_body, send_card, card_frame, announce_frame, introduce}
use asli.Net.Session.Arriving.{deliver_text, judge_clip, on_clip}
use asli.Net.Session.Chunks.{deliver_png, judge_image, add_piece, on_chunk}
use asli.Net.Session.Messages.{learn_peer, admit_announce, on_announce}
use asli.Net.Session.Handling.{on_challenge, on_relay_error}

-- What no frame but a device message touches: who the session is, its counter, and what it knows of
-- the other devices.
pub record Keeps (s t : Session) : Type 0 where
  pub identity : t.identity ≡ s.identity
  pub device_id : t.device_id ≡ s.device_id
  pub seq : t.seq ≡ s.seq
  pub epoch : t.epoch ≡ s.epoch
  pub device_keys : t.device_keys ≡ s.device_keys
  pub known : t.known ≡ s.known

pub Keeps-refl : (s : Session) → Keeps s s
Keeps-refl s = record {
  identity = refl;
  device_id = refl;
  seq = refl;
  epoch = refl;
  device_keys = refl;
  known = refl;
}

pub Keeps-trans : (s t u : Session) → Keeps s t → Keeps t u → Keeps s u
Keeps-trans s t u k l = record {
  identity = l.identity ∙ k.identity;
  device_id = l.device_id ∙ k.device_id;
  seq = l.seq ∙ k.seq;
  epoch = l.epoch ∙ k.epoch;
  device_keys = l.device_keys ∙ k.device_keys;
  known = l.known ∙ k.known;
}

module _ (crypto : Primitives) where
  judge_clip-Keeps :
      (s : Session) (msg_id : List ℕ) (inner : Inner) (retained : Bool) (now : ℕ)
      → Keeps s (judge_clip crypto s msg_id inner retained now).0
  unfolding judge_clip deliver_text publish_replay
  judge_clip-Keeps s msg_id inner retained now = ground arith

  pub on_clip-Keeps : (s : Session) (c : Clip) (now : ℕ) → Keeps s (on_clip crypto s c now).0
  on_clip-Keeps s c now =
      on_clip-cases crypto (Keeps s) s (Keeps-refl s) c now
        λ inner opened. judge_clip-Keeps s c.msg_id inner (is_retained c) now

  judge_image-Keeps :
      (s : Session) (a : Assembly) (msg_id : List ℕ) (now : ℕ)
      → Keeps s (judge_image s a msg_id now).0
  unfolding judge_image deliver_png publish_replay
  judge_image-Keeps s a msg_id now = ground arith

  add_piece-Keeps :
      (s : Session) (a : Assembly) (c : ClipChunk) (piece : List ℕ) (now : ℕ)
      → Keeps s (add_piece s a c piece now).0
  unfolding add_piece
  add_piece-Keeps s a c piece now =
      let t : Session = record s { assembly = none } in
      let added = (accept a c.msg_id c.epoch c.idx c.chunk_count piece).0 in
      let rest : Keeps t (judge_image t added c.msg_id now).0 =
        judge_image-Keeps t added c.msg_id now in
      ground
        (arith, rest.identity, rest.device_id, rest.seq, rest.epoch, rest.device_keys, rest.known)

  pub on_chunk-Keeps : (s : Session) (c : ClipChunk) (now : ℕ) → Keeps s (on_chunk crypto s c now).0
  on_chunk-Keeps s c now =
      on_chunk-cases crypto (Keeps s) s (Keeps-refl s) c now (ground arith)
        λ a piece held clear. add_piece-Keeps s a c piece now

  pub on_announce-Keeps :
      (s : Session) (m : Announce) (now : ℕ) → Keeps s (on_announce crypto s m now).0
  unfolding on_announce admit_announce learn_peer
  on_announce-Keeps s m now = ground arith

  pub on_challenge-Keeps :
      (s : Session) (random : Option (List ℕ)) (c : Challenge) (now : ℕ)
      → Keeps s (on_challenge crypto s random c now).0
  unfolding on_challenge
  on_challenge-Keeps s random c now = ground arith

  pub on_relay_error-Keeps : (s : Session) (e : ErrorMessage) → Keeps s (on_relay_error s e).0
  unfolding on_relay_error
  on_relay_error-Keeps s e = ground arith

  msg_frame-Keeps :
      (s : Session) (draw : Draw) (kind : Kind) (body : List ℕ) (to : Option (List ℕ))
      → Keeps s (msg_frame crypto s draw kind body to).0
  unfolding msg_frame
  msg_frame-Keeps s draw kind body to = ground arith

  announce_frame-Keeps :
      (s : Session) (draw : Draw) (now : ℕ) → Keeps s (announce_frame crypto s draw now).0
  unfolding announce_frame
  announce_frame-Keeps s draw now = ground arith

  send_card-Keeps :
      (s : Session) (draw : Draw) (keys : DeviceKeys) (conn_id : List ℕ) (now : ℕ)
      → Keeps s (send_card crypto s draw keys conn_id now).0
  unfolding send_card
  send_card-Keeps s draw keys conn_id now =
      elim (Result-cases (card_body crypto s keys conn_id now)) [
        | inr (failure, e) ↦ rw (e, send_card) (Keeps-refl s)
        | inl (body, e) ↦ rw (e, send_card) (msg_frame-Keeps s draw card body none)
      ]

  card_frame-Keeps :
      (s : Session) (draw : Draw) (now : ℕ) → Keeps s (card_frame crypto s draw now).0
  card_frame-Keeps s draw now =
      card_frame-cases crypto (Keeps s) s (Keeps-refl s) draw now
        λ keys conn_id. send_card-Keeps s draw keys conn_id now

  pub introduce-Keeps :
      (s : Session) (draws : Draw × Draw) (actions : List Action) (now : ℕ)
      → Keeps s (introduce crypto s draws actions now).0
  unfolding introduce
  introduce-Keeps s draws actions now =
      let first = announce_frame-Keeps s draws.0 now in
      let t = (announce_frame crypto s draws.0 now).0 in
      let both = Keeps-trans s t _ first (card_frame-Keeps t draws.1 now) in ground arith
