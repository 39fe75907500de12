-- ===== src/Net/Session/Replays.antt =====
-- The replay guard inside a session of session.rs.
use asli.Prelude.{
  ℕ, ◌≡◌, ◌≢◌, ◌≤◌, ◌<◌, refl, sym, ◌∙◌, ap, subst, Bool, List, [], ◌∷◌, ◌++◌, Option, none, arith,
  false, inl, inr,
}
use asli.Prelude.Bytes.{from_be}
use asli.Core.Replay.{Incoming, ReplayGuard, check, accept, known_devices}
use asli.Core.Replay.Invariant.{IsValid}
use asli.Core.Replay.History as History
use asli.Core.Replay.Verdicts.{check-Acceptable}
use asli.Crypto.Error as CryptoError
use asli.Crypto.Primitives.{Primitives}
use asli.Crypto.Chunk.{Assembly, finish}
use asli.Crypto.Clip.{Inner}
use asli.Crypto.Msg.{Kind}
use asli.Net.Error.{ok}
use asli.Net.Envelope.{Message, Clip, ClipChunk, is_retained}
use asli.Net.Envelope as Envelope
use asli.Net.Session.{Session, Action, deliver_clip, publish_replay}
use asli.Net.Session.Cases.{
  on_clip-cases, on_chunk-cases, on_msg-cases, add_piece-cases, on_presence-cases,
}
use asli.Net.Session.Delivery.{Opens}
use asli.Net.Session.Genuine.{on_clip-Acceptable}
use asli.Net.Session.History.{run, run-keeps}
use asli.Net.Session.Sending.{Draw, msg_frame}
use asli.Net.Session.Introducing.{send_card, card_frame, announce_frame, introduce}
use asli.Net.Session.Arriving.{incoming, deliver_text, judge_clip, on_clip}
use asli.Net.Session.Chunks.{deliver_png, judge_image, add_piece, on_chunk}
use asli.Net.Session.Messages.{
  on_card, act_on, on_announce, admit_announce, learn_peer, pin_card, learn,
}
use asli.Net.Session.Handling.{Draws, dispatch, on_challenge, on_relay_error, on_auth_ok}

-- The guard has checked some messages since it was `g`, and nothing else has happened to it.
record Checked (g : ReplayGuard) (s : Session) : Type 0 where
  messages : List (Incoming × ℕ)
  guard : s.replay ≡ History.run g messages

run-push :
    (g : ReplayGuard) (ms : List (Incoming × ℕ)) (m : Incoming) (now : ℕ)
    → History.run g (ms ++ ((m, now) ∷ [])) ≡ (check (History.run g ms) m now).0
unfolding History.run
run-push g [] m now = refl
run-push g ((n, at) ∷ ms) m now = run-push (check g n at).0 ms m now

-- A session with the same guard, and one whose guard has checked a message more.
same-Checked : (g : ReplayGuard) (s t : Session) → t.replay ≡ s.replay → Checked g s → Checked g t
same-Checked g s t e k = record { messages = k.messages; guard = e ∙ k.guard }

push-Checked :
    (g : ReplayGuard) (s t : Session) (m : Incoming) (now : ℕ)
    → t.replay ≡ (check s.replay m now).0
    → Checked g s
    → Checked g t
push-Checked g s t m now e k = record {
  messages = k.messages ++ ((m, now) ∷ []);
  guard = e ∙ ap (λ h. (check h m now).0) k.guard ∙ sym (run-push g k.messages m now);
}

module _ (crypto : Primitives) where
  judge_clip-replay :
      (s : Session) (id : List ℕ) (inner : Inner) (r : Bool) (now : ℕ)
      → (judge_clip crypto s id inner r now).0.replay ≡ (check s.replay (incoming id r inner) now).0
  unfolding judge_clip deliver_text publish_replay
  judge_clip-replay s id inner r now = ground arith

  judge_image-Checked :
      (g : ReplayGuard) (s : Session) (a : Assembly) (id : List ℕ) (now : ℕ)
      → Checked g s
      → Checked g (judge_image s a id now).0
  unfolding judge_image deliver_png publish_replay
  judge_image-Checked g s a id now k = elim (CryptoError.Result-cases (finish a)) [
    | inr (failure, e) ↦ same-Checked g s _ (ground arith) k
    | inl (inner, e) ↦ push-Checked g s _ (incoming id false inner) now (ground arith) k
  ]

  add_piece-Checked :
      (g : ReplayGuard) (s : Session) (a : Assembly) (c : ClipChunk) (piece : List ℕ) (now : ℕ)
      → Checked g s
      → Checked g (add_piece s a c piece now).0
  add_piece-Checked g s a c piece now k =
      let t : Session = record s { assembly = none } in
      add_piece-cases (Checked g) s a c piece now (same-Checked g s t refl k)
        (same-Checked g s _ refl k)
        (judge_image-Checked g t _ c.msg_id now (same-Checked g s t refl k))

  act_on-replay :
      (s : Session) (kind : Kind) (body : List ℕ) (now : ℕ)
      → (act_on crypto s kind body now).0.replay ≡ s.replay
  unfolding act_on on_card pin_card learn
  act_on-replay s kind body now = ground arith

  on_announce-replay :
      (s : Session) (m : Envelope.Announce) (now : ℕ)
      → (on_announce crypto s m now).0.replay ≡ s.replay
  unfolding on_announce admit_announce learn_peer
  on_announce-replay s m now = ground arith

  introduce-replay :
      (s : Session) (draws : Draw × Draw) (actions : List Action) (now : ℕ)
      → (introduce crypto s draws actions now).0.replay ≡ s.replay
  unfolding introduce announce_frame card_frame send_card msg_frame
  introduce-replay s draws actions now = ground arith

  on_challenge-replay :
      (s : Session) (random : Option (List ℕ)) (c : Envelope.Challenge) (now : ℕ)
      → (on_challenge crypto s random c now).0.replay ≡ s.replay
  unfolding on_challenge
  on_challenge-replay s random c now = ground arith

  on_relay_error-replay :
      (s : Session) (e : Envelope.ErrorMessage) → (on_relay_error s e).0.replay ≡ s.replay
  unfolding on_relay_error
  on_relay_error-replay s e = ground arith

  on_chunk-Checked :
      (g : ReplayGuard) (s : Session) (c : ClipChunk) (now : ℕ)
      → Checked g s
      → Checked g (on_chunk crypto s c now).0
  on_chunk-Checked g s c now k =
      on_chunk-cases crypto (Checked g) s k c now (same-Checked g s _ refl k)
        λ a piece held clear. add_piece-Checked g s a c piece now k

  dispatch-Checked :
      (g : ReplayGuard) (s : Session) (draws : Draws) (m : Message) (now : ℕ)
      → Checked g s
      → Checked g (dispatch crypto s draws m now).0
  unfolding dispatch on_auth_ok
  dispatch-Checked g s draws (Envelope.clip m) now k =
      on_clip-cases crypto (Checked g) s k m now λ inner opened.
        push-Checked g s _ (incoming m.msg_id (is_retained m) inner) now
          (judge_clip-replay s m.msg_id inner (is_retained m) now) k
  dispatch-Checked g s draws (Envelope.clip_begin m) now k = on_chunk-Checked g s m now k
  dispatch-Checked g s draws (Envelope.clip_chunk m) now k = on_chunk-Checked g s m now k
  dispatch-Checked g s draws (Envelope.clip_end m) now k = on_chunk-Checked g s m now k
  dispatch-Checked g s draws (Envelope.device_msg m) now k =
      on_msg-cases crypto (Checked g) s k m now
        λ kind body opened. same-Checked g s _ (act_on-replay _ kind body now) k
  dispatch-Checked g s draws (Envelope.challenge m) now k =
      same-Checked g s _ (on_challenge-replay s draws.client_nonce m now) k
  dispatch-Checked g s draws (Envelope.auth_ok m) now k =
      same-Checked g s _ (introduce-replay _ draws.introduction _ now) k
  dispatch-Checked g s draws (Envelope.presence m) now k =
      on_presence-cases crypto (Checked g) s draws m now (same-Checked g s _ refl k)
        λ actions. same-Checked g s _ (introduce-replay _ draws.introduction actions now) k
  dispatch-Checked g s draws (Envelope.announce m) now k =
      same-Checked g s _ (on_announce-replay s m now) k
  dispatch-Checked g s draws (Envelope.relay_error m) now k =
      same-Checked g s _ (on_relay_error-replay s m) k
  dispatch-Checked g s draws _ now k = k

  -- Whatever frames a session handles, its replay guard has done nothing but check a sequence of
  -- messages: it is the guard of Core.Replay run over that sequence.
  pub run-replay :
      (s : Session) (frames : List (Message × Draws × ℕ))
      → (messages : List (Incoming × ℕ)) × ((run crypto s frames).replay
          ≡ History.run s.replay messages)
  run-replay s frames =
      let k =
        run-keeps crypto (Checked s.replay) (λ t. dispatch-Checked s.replay t) frames s
          (record { messages = []; guard = unfold History.run in refl }) in
      (k.messages, k.guard)

  -- A clip opens to one plaintext.
  opened_once :
      (s : Session) (c : Clip) (inner other : Inner)
      → Opens crypto s c inner
      → Opens crypto s c other
      → inner ≡ other
  opened_once s c inner other o p = ground (arith, o.opens, p.opens)

  -- Once a clip of a device is delivered, no clip of that device with the same or a smaller sequence
  -- number is delivered again, whatever frames arrive in between, provided that the guard's table of
  -- devices has not filled up meanwhile.
  pub run_no_replay :
      (s : Session) (c again : Clip) (now later : ℕ) (content : List ℕ) (ts : ℕ) (held : Bool)
      (from : List ℕ) (frames : List (Message × Draws × ℕ)) (first second : Inner) (text : List ℕ)
      (at : ℕ) (old : Bool) (by : List ℕ)
      → IsValid s.replay
      → Opens crypto s c first
      → (on_clip crypto s c now).1 ≡ ok (deliver_clip content ts held from ∷ [])
      → known_devices (run crypto (on_clip crypto s c now).0 frames).replay
        < s.replay.device_capacity
      → Opens crypto (run crypto (on_clip crypto s c now).0 frames) again second
      → second.device_id ≡ first.device_id
      → second.seq ≤ first.seq
      → (on_clip crypto (run crypto (on_clip crypto s c now).0 frames) again later).1
        ≢ ok (deliver_clip text at old by ∷ [])
  unfolding incoming
  run_no_replay s c again now later content ts held from frames first second text at old by v opens
        given room opened same low twice =
      let u = (on_clip crypto s c now).0 in
      let t = run crypto u frames in
      let (inner, o, kind, decoded, time, mark, sender, good, echo, phase, replay) =
        on_clip-Acceptable crypto s c now content ts held from given in
      let (inner2, o2, kind2, decoded2, time2, mark2, sender2, good2, echo2, phase2, replay2) =
        on_clip-Acceptable crypto t again later text at old by twice in
      let one : inner ≡ first = opened_once s c inner first o opens in
      let two : inner2 ≡ second = opened_once t again inner2 second o2 opened in
      let (messages, history) = run-replay u frames in
      let m = incoming c.msg_id (is_retained c) inner in
      let n = incoming again.msg_id (is_retained again) inner2 in
      let guard : t.replay ≡ History.run (check s.replay m now).0 messages =
        history ∙ ap (λ g. History.run g messages) replay in
      History.run_no_rollback s.replay m now messages n later v
        ((check-Acceptable s.replay m now).1 good)
        (subst (λ g. known_devices g < s.replay.device_capacity) guard room)
        (ap from_be (ap Inner.device_id two ∙ same ∙ sym (ap Inner.device_id one)))
        (rw (two, one) low)
        (subst (λ g. (check g n later).1 ≡ accept) guard
          ((check-Acceptable t.replay n later).1 good2))
