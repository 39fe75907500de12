-- ===== src/Net/Session/Delivery.antt =====
-- A text from one device's clipboard to another's, through session.rs on both sides.
use asli.Prelude.{
  ℕ, if◌then◌else◌, ◌≡◌, refl, sym, ◌∙◌, ap, Bool, List, [], ◌∷◌, All, none, some, arith, true,
  false, sat_add,
}
use asli.Prelude.Bytes.{same_bytes, same_bytes_self}
use asli.Prelude.Utf8.{IsScalar, as_bytes, from_utf8, from_utf8-as_bytes}
use asli.Core.Echo.{remember, take_echo}
use asli.Core.Normalize.{normalize}
use asli.Core.Replay.{check, is_accept}
use asli.Core.Replay.Verdicts.{Acceptable, check-Acceptable}
use asli.Crypto.Error as CryptoError
use asli.Crypto.Primitives.{Primitives}
use asli.Crypto.Identity.{room_id}
use asli.Crypto.Clip.{Inner, text, open_clip, seal}
use asli.Crypto.Clip.Layout.{IsValid}
use asli.Crypto.Clip.Sealing.{open_clip-sealed}
use asli.Net.Error.{ok, from_crypto, from_crypto_ok, >>=-ok}
use asli.Net.Envelope.{Message, Clip, clip, structural, is_retained}
use asli.Net.Session.{
  Session, deliver_clip, is_ready, same_room, epoch_is_acceptable, publish_replay, content_hash,
  session_key,
}
use asli.Net.Session.Sending.{Draw, seal_text, send_text, observe_local}
use asli.Net.Session.Arriving.{incoming, is_text, deliver_text, judge_clip, admit_clip, on_clip}

abbrev pub inner_of : Session → ℕ → List ℕ → ℕ → Inner
inner_of s seq normalized now = record {
  content_type = text;
  device_id = s.device_id;
  seq = seq;
  ts_ms = now;
  content = as_bytes normalized;
}

module _ (crypto : Primitives) where
  -- What a frame of `seal_text` is.
  record Sent (s : Session) (seq : ℕ) (normalized : List ℕ) (now : ℕ) (c : Clip) : Type 0 where
    room : c.room ≡ room_id s.identity
    epoch : c.epoch ≡ s.epoch
    live : c.retained ≡ none
    opens :
        open_clip crypto.aead
          (session_key crypto s s.epoch)
          s.epoch
          s.identity.room_id_bytes
          c.msg_id
          c.n
          c.ct
        ≡ CryptoError.ok (inner_of s seq normalized now)

  seal_text-Sent :
      (s : Session) (draw : Draw) (normalized : List ℕ) (now : ℕ) (c : Clip)
      → IsValid (inner_of s s.seq normalized now)
      → seal_text crypto s draw normalized now ≡ ok (clip c)
      → Sent s s.seq normalized now c
  unfolding seal_text
  seal_text-Sent s draw normalized now c v e =
      let (msg_id, drawn, more) =
        >>=-ok (from_crypto (CryptoError.ok_or draw.id CryptoError.rng)) _ e in
      let (out, made, last) =
        >>=-ok
          (from_crypto (
            seal crypto.aead draw.nonce (session_key crypto s s.epoch) s.epoch
              s.identity.room_id_bytes msg_id (inner_of s s.seq normalized now)))
          _ more in
      let opened =
        open_clip-sealed crypto.aead draw.nonce (session_key crypto s s.epoch) s.epoch
          s.identity.room_id_bytes msg_id (inner_of s s.seq normalized now) out v
          (from_crypto_ok _ made) in
      record {
        room = ground arith;
        epoch = ground arith;
        live = ground arith;
        opens =
            let id : c.msg_id ≡ msg_id = ground arith in
            let nonce : c.n ≡ out.nonce = ground arith in
            let sealed : c.ct ≡ out.ciphertext = ground arith in rw (id, nonce, sealed) opened;
      }

  send_text-seal_text :
      (s u : Session) (draw : Draw) (normalized : List ℕ) (now : ℕ) (frame : Message)
      → send_text crypto s draw normalized now ≡ (u, ok (some frame))
      → (u ≡ record s { seq = sat_add s.seq 1 })
        × (seal_text crypto (record s { seq = sat_add s.seq 1 }) draw normalized now ≡ ok frame)
  unfolding send_text
  send_text-seal_text s u draw normalized now frame e = ground arith

  observe_local-send_text :
      (s u : Session) (draw : Draw) (input : List ℕ) (now : ℕ) (frame : Message)
      → observe_local crypto s draw input now ≡ (u, ok (some frame))
      → send_text crypto
          (record s { echo = (take_echo s.echo (content_hash crypto (normalize input)) now).0 })
          draw
          (normalize input)
          now
        ≡ (u, ok (some frame))
  unfolding observe_local
  observe_local-send_text s u draw input now frame e = ground arith

  observe_local-Sent :
      (s u : Session) (draw : Draw) (input : List ℕ) (now : ℕ) (c : Clip)
      → IsValid (inner_of s (sat_add s.seq 1) (normalize input) now)
      → observe_local crypto s draw input now ≡ (u, ok (some (clip c)))
      → Sent s (sat_add s.seq 1) (normalize input) now c
  unfolding session_key
  observe_local-Sent s u draw input now c v e =
      let echo = (take_echo s.echo (content_hash crypto (normalize input)) now).0 in
      let t : Session = record s { echo = echo } in
      let w : Session = record t { seq = sat_add s.seq 1 } in
      let made =
        (send_text-seal_text t u draw (normalize input) now (clip c)
          (observe_local-send_text s u draw input now (clip c) e)).1 in
      let sent = seal_text-Sent w draw (normalize input) now c v made in
      record { room = sent.room; epoch = sent.epoch; live = sent.live; opens = sent.opens }

  -- A clip that passes every check of `on_clip` before the replay guard's.
  pub record Opens (t : Session) (c : Clip) (inner : Inner) : Type 0 where
    pub started : is_ready t ≡ true
    pub shaped : structural c.msg_id c.n c.ct ≡ ok tt
    pub room : c.room ≡ room_id t.identity
    pub near : epoch_is_acceptable t c.epoch ≡ true
    pub opens :
        open_clip crypto.aead
          (session_key crypto t c.epoch)
          c.epoch
          t.identity.room_id_bytes
          c.msg_id
          c.n
          c.ct
        ≡ CryptoError.ok inner

  pub on_clip-Opens :
      (t : Session) (c : Clip) (inner : Inner) (later : ℕ)
      → Opens t c inner
      → on_clip crypto t c later ≡ (
        (judge_clip crypto t c.msg_id inner (is_retained c) later).0,
        ok (judge_clip crypto t c.msg_id inner (is_retained c) later).1,
      )
  unfolding on_clip admit_clip same_room
  on_clip-Opens t c inner later o =
      let same : same_bytes c.room (room_id t.identity) ≡ true =
        rw o.room (same_bytes_self (room_id t.identity)) in
      ground (arith, o.started, o.shaped, o.near, o.opens, same)

  pub judge_clip-Acceptable :
      (t : Session) (msg_id : List ℕ) (inner : Inner) (retained : Bool) (content : List ℕ)
      (later : ℕ)
      → inner.content_type ≡ text
      → from_utf8 inner.content ≡ some content
      → Acceptable t.replay (incoming msg_id retained inner) later
      → ((judge_clip crypto t msg_id inner retained later).1
          ≡ deliver_clip content inner.ts_ms retained inner.device_id ∷ [])
        × ((judge_clip crypto t msg_id inner retained later).0.echo ≡ (
            if t.echo_guard then remember t.echo (content_hash crypto content) later else t.echo))
        × ((judge_clip crypto t msg_id inner retained later).0.replay
            ≡ (check t.replay (incoming msg_id retained inner) later).0)
  unfolding judge_clip deliver_text is_text is_accept publish_replay
  judge_clip-Acceptable t msg_id inner retained content later kind decoded ok_now =
      let (to, from) = check-Acceptable t.replay (incoming msg_id retained inner) later in
      let good = from ok_now in ground (arith, good, kind, decoded)

  -- What one device copies, another device of the account delivers: when `observe_local` sends a
  -- text, and the frame keeps the protocol's lengths and comes in time and in order for the receiver's
  -- replay guard, in an epoch that the receiver accepts, then the receiver delivers the normalized text
  -- with its capture time and device, and, unless the caller has taken that over, remembers its hash.
  pub on_clip-observe_local :
      (s u t : Session) (draw : Draw) (input : List ℕ) (c : Clip) (now later : ℕ)
      → IsValid (inner_of s (sat_add s.seq 1) (normalize input) now)
      → All IsScalar (normalize input)
      → observe_local crypto s draw input now ≡ (u, ok (some (clip c)))
      → structural c.msg_id c.n c.ct ≡ ok tt
      → t.identity ≡ s.identity
      → is_ready t ≡ true
      → epoch_is_acceptable t s.epoch ≡ true
      → Acceptable t.replay
          (incoming c.msg_id false (inner_of s (sat_add s.seq 1) (normalize input) now))
          later
      → ((on_clip crypto t c later).1
          ≡ ok (deliver_clip (normalize input) now false s.device_id ∷ []))
        × ((on_clip crypto t c later).0.echo ≡ (
            if t.echo_guard
            then remember t.echo (content_hash crypto (normalize input)) later
            else t.echo))
  unfolding session_key is_retained
  on_clip-observe_local s u t draw input c now later v scalars sent shaped same started near good =
      let i = inner_of s (sat_add s.seq 1) (normalize input) now in
      let frame = observe_local-Sent s u draw input now c v sent in
      let live : is_retained c ≡ false = rw frame.live refl in
      let opens : Opens t c i = record {
        started = started;
        shaped = shaped;
        room = frame.room ∙ ap room_id (sym same);
        near = rw frame.epoch near;
        opens = rw (frame.epoch, same) frame.opens;
      } in
      let arrives = on_clip-Opens t c i later opens in
      let judged =
        judge_clip-Acceptable t c.msg_id i false (normalize input) later refl
          (from_utf8-as_bytes (normalize input) scalars) good in
      rw (arrives, live) (ap ok judged.0, judged.1)
