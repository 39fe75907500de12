-- ===== src/Net/Session/Genuine.antt =====
-- What stands behind a clip that a session of session.rs delivers.
use asli.Prelude.{
  ℕ, if◌then◌else◌, ◌≡◌, sym, ◌∙◌, ap, Bool, List, [], ◌∷◌, some, arith, true, Bool-cases, inl, inr,
}
use asli.Prelude.Bytes.{same_bytes, same_bytes→eq}
use asli.Prelude.Utf8.{from_utf8}
use asli.Core.Echo.{remember}
use asli.Core.Replay.{Verdict, check, is_accept, accept}
use asli.Core.Replay.Verdicts.{Acceptable, check-Acceptable}
use asli.Crypto.Error as CryptoError
use asli.Crypto.Primitives.{Primitives}
use asli.Crypto.Identity.{room_id}
use asli.Crypto.Clip.{Inner, text, open_clip}
use asli.Net.Error.{ok, Result-cases}
use asli.Net.Envelope.{Clip, structural, is_retained}
use asli.Net.Session.{
  Session, deliver_clip, is_ready, same_room, epoch_is_acceptable, publish_replay, content_hash,
  session_key,
}
use asli.Net.Session.Arriving.{incoming, is_text, deliver_text, judge_clip, admit_clip, on_clip}
use asli.Net.Session.Delivery.{Opens, on_clip-Opens}

is_accept-accept : (v : Verdict) → is_accept v ≡ true → v ≡ accept
unfolding is_accept
is_accept-accept v e = ground arith

module _ (crypto : Primitives) where
  deliver_text-clip :
      (s : Session) (inner : Inner) (r : Bool) (now : ℕ) (content : List ℕ) (ts : ℕ) (held : Bool)
      (from : List ℕ)
      → (deliver_text crypto s inner r now).1 ≡ deliver_clip content ts held from ∷ []
      → (inner.content_type ≡ text)
        × (from_utf8 inner.content ≡ some content)
        × (ts ≡ inner.ts_ms)
        × (held ≡ r)
        × (from ≡ inner.device_id)
        × ((deliver_text crypto s inner r now).0.echo
            ≡ (if s.echo_guard then remember s.echo (content_hash crypto content) now else s.echo))
        × ((deliver_text crypto s inner r now).0.phase ≡ s.phase)
        × ((deliver_text crypto s inner r now).0.replay ≡ s.replay)
  unfolding deliver_text is_text
  deliver_text-clip s inner r now content ts held from e = ground arith

  judge_clip-clip :
      (s : Session) (id : List ℕ) (inner : Inner) (r : Bool) (now : ℕ) (content : List ℕ) (ts : ℕ)
      (held : Bool) (from : List ℕ)
      → (judge_clip crypto s id inner r now).1 ≡ deliver_clip content ts held from ∷ []
      → (is_accept (check s.replay (incoming id r inner) now).1 ≡ true)
        × (judge_clip crypto s id inner r now
            ≡ deliver_text crypto
                (publish_replay
                  (record s { replay = (check s.replay (incoming id r inner) now).0 }))
                inner
                r
                now)
  unfolding judge_clip
  judge_clip-clip s id inner r now content ts held from e = ground arith

  on_clip-opened :
      (s : Session) (c : Clip) (now : ℕ) (content : List ℕ) (ts : ℕ) (held : Bool) (from : List ℕ)
      → (on_clip crypto s c now).1 ≡ ok (deliver_clip content ts held from ∷ [])
      → (inner : Inner) × Opens crypto s c inner
  unfolding on_clip admit_clip same_room
  on_clip-opened s c now content ts held from e = elim (Bool-cases (is_ready s)) [
    | inr early ↦ absurd (ground arith)
    | inl started ↦ elim (Result-cases (structural c.msg_id c.n c.ct)) [
      | inr (failure, broken) ↦ absurd (ground arith)
      | inl (done, shaped) ↦ elim (Bool-cases (same_bytes c.room (room_id s.identity))) [
        | inr other ↦ absurd (ground arith)
        | inl same ↦ elim (Bool-cases (epoch_is_acceptable s c.epoch)) [
          | inr far ↦ absurd (ground arith)
          | inl near ↦
              elim (CryptoError.Result-cases (
                open_clip crypto.aead (session_key crypto s c.epoch) c.epoch
                  s.identity.room_id_bytes c.msg_id c.n c.ct)) [
                    | inr (failure, closed) ↦ absurd (ground arith)
                    | inl (inner, opens) ↦ (
                      inner,
                      record {
                        started = started;
                        shaped = shaped;
                        room = same_bytes→eq c.room (room_id s.identity) same;
                        near = near;
                        opens = opens;
                      },
                    )
                  ]
        ]
      ]
    ]
  ]

  -- A delivered clip is genuine: the handshake was over, the frame was for this room and an acceptable
  -- epoch, it opened under the account's key to a text with that content, time and device, and the
  -- replay guard found it from another device, new, in time and in order; its hash is remembered
  -- unless the caller has taken that over.
  pub on_clip-Acceptable :
      (s : Session) (c : Clip) (now : ℕ) (content : List ℕ) (ts : ℕ) (held : Bool) (from : List ℕ)
      → (on_clip crypto s c now).1 ≡ ok (deliver_clip content ts held from ∷ [])
      → (inner : Inner) × Opens crypto s c inner
        × (inner.content_type ≡ text)
        × (from_utf8 inner.content ≡ some content)
        × (ts ≡ inner.ts_ms)
        × (held ≡ is_retained c)
        × (from ≡ inner.device_id)
        × Acceptable s.replay (incoming c.msg_id (is_retained c) inner) now
        × ((on_clip crypto s c now).0.echo
            ≡ (if s.echo_guard then remember s.echo (content_hash crypto content) now else s.echo))
        × ((on_clip crypto s c now).0.phase ≡ s.phase)
        × ((on_clip crypto s c now).0.replay
            ≡ (check s.replay (incoming c.msg_id (is_retained c) inner) now).0)
  unfolding publish_replay
  on_clip-Acceptable s c now content ts held from e =
      let (inner, opens) = on_clip-opened s c now content ts held from e in
      let arrives = on_clip-Opens crypto s c inner now opens in
      let r = is_retained c in
      let judged : (judge_clip crypto s c.msg_id inner r now).1
          ≡ deliver_clip content ts held from ∷ [] =
        ground (arith, arrives, e) in
      let (accepted, stage) = judge_clip-clip s c.msg_id inner r now content ts held from judged in
      let t : Session =
        publish_replay (record s { replay = (check s.replay (incoming c.msg_id r inner) now).0 }) in
      let given : (deliver_text crypto t inner r now).1 ≡ deliver_clip content ts held from ∷ [] =
        sym (ap (λ x. x.1) stage) ∙ judged in
      let d = deliver_text-clip t inner r now content ts held from given in
      let verdict = is_accept-accept (check s.replay (incoming c.msg_id r inner) now).1 accepted in
      (
        inner,
        opens,
        d.0,
        d.1,
        d.2,
        d.3,
        d.4,
        (check-Acceptable s.replay (incoming c.msg_id r inner) now).0 verdict,
        rw arrives (ap (λ x. x.0.echo) stage ∙ d.5),
        rw arrives (ap (λ x. x.0.phase) stage ∙ d.6),
        rw arrives (ap (λ x. x.0.replay) stage ∙ d.7),
      )
