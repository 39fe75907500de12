-- ===== src/Net/Session/Arriving.antt =====
-- crates/asli-net/src/session.rs: a clip that arrives.
use asli.Prelude.{ℕ, if◌then◌else◌, Bool, true, false, not, List, [], ◌∷◌, none, some}
use asli.Prelude.Bytes.{from_be}
use asli.Prelude.Utf8.{from_utf8}
use asli.Core.Echo.{remember}
use asli.Core.Replay.{Incoming, check, is_accept}
use asli.Crypto.Error as CryptoError
use asli.Crypto.Primitives.{Primitives}
use asli.Crypto.Clip.{Inner, ContentType, text, image_png, open_clip}
use asli.Net.Error.{Result, ok, err, out_of_order, clip_early}
use asli.Net.Envelope.{Clip, is_retained, structural}
use asli.Net.Session.{
  Session, Action, is_ready, same_room, epoch_is_acceptable, publish_replay, dropped, deliver_clip,
  wrong_room, unknown_epoch, could_not_decrypt, replay_verdict, session_key, content_hash,
}

-- What the replay guard is asked about an opened clip.
unfoldable pub incoming : List ℕ → Bool → Inner → Incoming
incoming msg_id retained inner = record {
  msg_id = from_be msg_id;
  device_id = from_be inner.device_id;
  seq = inner.seq;
  ts_ms = inner.ts_ms;
  retained = retained;
}

unfoldable pub is_text : ContentType → Bool
is_text text = true
is_text image_png = false

module _ (crypto : Primitives) where
  -- A clip that the replay guard accepted.
  unfoldable pub deliver_text : Session → Inner → Bool → ℕ → Session × List Action
  unfolding is_text
  deliver_text s inner retained now_ms =
      if not (is_text inner.content_type) then (s, []) else elim (from_utf8 inner.content) [
        | none ↦ (s, [])
        | some content ↦ (
          if s.echo_guard
              then record s { echo = remember s.echo (content_hash crypto content) now_ms }
              else s,
          deliver_clip content inner.ts_ms retained inner.device_id ∷ [],
        )
      ]

  -- A clip that was opened.
  unfoldable pub judge_clip : Session → List ℕ → Inner → Bool → ℕ → Session × List Action
  unfolding deliver_text incoming
  judge_clip s msg_id inner retained now_ms =
      let checked = check s.replay (incoming msg_id retained inner) now_ms in
      let t : Session = record s { replay = checked.0 } in
      if is_accept checked.1
      then deliver_text (publish_replay t) inner retained now_ms
      else (t, dropped (replay_verdict checked.1) retained)

  -- From the comparison of the rooms on: what is refused is a discard, and no error.
  unfoldable pub admit_clip : Session → Clip → ℕ → Session × List Action
  unfolding judge_clip
  admit_clip s c now_ms =
      if not (same_room s c.room)
      then (s, dropped wrong_room (is_retained c))
      else if not (epoch_is_acceptable s c.epoch)
      then (s, dropped unknown_epoch (is_retained c))
      else elim (open_clip crypto.aead (session_key crypto s c.epoch) c.epoch
          s.identity.room_id_bytes c.msg_id c.n c.ct) [
            | CryptoError.err failure ↦ (s, dropped could_not_decrypt (is_retained c))
            | CryptoError.ok inner ↦ judge_clip s c.msg_id inner (is_retained c) now_ms
          ]

  unfoldable pub on_clip : Session → Clip → ℕ → Session × Result (List Action)
  unfolding admit_clip
  on_clip s c now_ms =
      if not (is_ready s)
      then (s, err (out_of_order clip_early))
      else elim (structural c.msg_id c.n c.ct) [
        | err failure ↦ (s, err failure)
        | ok done ↦ ((admit_clip s c now_ms).0, ok (admit_clip s c now_ms).1)
      ]
