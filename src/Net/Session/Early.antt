-- ===== src/Net/Session/Early.antt =====
-- A session before the relay has accepted it.
use asli.Prelude.{
  ℕ, ◌==◌, ◌≡◌, refl, subst, List, [], ◌∷◌, All, All-append, arith, false, Bool-cases, inl, inr,
  Option, none,
}
use asli.Crypto.Primitives.{Primitives}
use asli.Net.Error.{Result, ok, err, Result-cases}
use asli.Net.Envelope.{
  Message, Clip, ClipChunk, Challenge, Announce, Msg, auth, pong, version, protocol_version,
}
use asli.Net.Envelope as Envelope
use asli.Net.Session.{
  Session, Action, is_ready, deliver_clip, deliver_image, peer, device, message, rekeyed,
  removed_by, send,
}
use asli.Net.Session.Sending.{Draw}
use asli.Net.Session.Introducing.{introduce, announce_frame, card_frame}
use asli.Net.Session.Arriving.{on_clip}
use asli.Net.Session.Chunks.{on_chunk}
use asli.Net.Session.Messages.{on_msg, on_announce}
use asli.Net.Session.Handling.{
  Draws, on_challenge, on_presence, on_relay_error, dispatch, handle_frame, pump, sends, others,
  skew_actions,
}

-- A message that a client may send before it is accepted.
abbrev pub IsEarly : Message → Type 0
IsEarly (auth m) = Unit {0}
IsEarly (pong m) = Unit {0}
IsEarly _ = ⊥

-- An action that hands over nothing from another device.
abbrev pub IsQuiet : Action → Type 0
IsQuiet (send m) = IsEarly m
IsQuiet (deliver_clip text ts retained from) = ⊥
IsQuiet (deliver_image png ts from) = ⊥
IsQuiet (peer p) = ⊥
IsQuiet (device d) = ⊥
IsQuiet (message kind body) = ⊥
IsQuiet (rekeyed secret by kept) = ⊥
IsQuiet (removed_by by) = ⊥
IsQuiet _ = Unit {0}

abbrev pub IsAccepting : Message → Type 0
IsAccepting (Envelope.auth_ok m) = Unit {0}
IsAccepting _ = ⊥

abbrev pub Quiet : Result (List Action) → Type 0
Quiet (err failure) = Unit {0}
Quiet (ok actions) = All IsQuiet actions

-- The session is still not accepted, and has handed over nothing.
record StillEarly (r : Session × Result (List Action)) : Type 0 where
  unready : is_ready r.0 ≡ false
  quiet : Quiet r.1

sends-IsEarly : (actions : List Action) → All IsQuiet actions → All IsEarly (sends actions)
sends-IsEarly [] q = tt
sends-IsEarly (send m ∷ actions) q = (q.0, sends-IsEarly actions q.1)
sends-IsEarly (_ ∷ actions) q = sends-IsEarly actions q.1

others-IsQuiet : (actions : List Action) → All IsQuiet actions → All IsQuiet (others actions)
others-IsQuiet [] q = tt
others-IsQuiet (send m ∷ actions) q = others-IsQuiet actions q.1
others-IsQuiet (Action.authenticated id peers has at ∷ actions) q = (tt, others-IsQuiet actions q.1)
others-IsQuiet (Action.peers_changed peers ∷ actions) q = (tt, others-IsQuiet actions q.1)
others-IsQuiet (Action.relay_problem code floor ∷ actions) q = (tt, others-IsQuiet actions q.1)
others-IsQuiet (Action.auth_refused code ∷ actions) q = (tt, others-IsQuiet actions q.1)
others-IsQuiet (Action.discarded why held ∷ actions) q = (tt, others-IsQuiet actions q.1)
others-IsQuiet (Action.clock_skew skew ∷ actions) q = (tt, others-IsQuiet actions q.1)
others-IsQuiet (_ ∷ actions) q = absurd q.0

module _ (crypto : Primitives) where
  on_challenge-StillEarly :
      (s : Session) (random : Option (List ℕ)) (c : Challenge) (now : ℕ)
      → is_ready s ≡ false
      → StillEarly (on_challenge crypto s random c now)
  unfolding on_challenge is_ready skew_actions
  on_challenge-StillEarly s random c now early = ground arith

  announce_frame-early :
      (s : Session) (draw : Draw) (now : ℕ)
      → is_ready s ≡ false
      → announce_frame crypto s draw now ≡ (s, ok none)
  unfolding announce_frame
  announce_frame-early s draw now early = rw (early, announce_frame) refl

  card_frame-early :
      (s : Session) (draw : Draw) (now : ℕ)
      → is_ready s ≡ false
      → card_frame crypto s draw now ≡ (s, ok none)
  unfolding card_frame
  card_frame-early s draw now early = rw (early, card_frame) refl

  introduce-early :
      (s : Session) (draws : _) (actions : List Action) (now : ℕ)
      → is_ready s ≡ false
      → introduce crypto s draws actions now ≡ (s, ok actions)
  unfolding introduce
  introduce-early s draws actions now early =
      let first = announce_frame-early s draws.0 now early in
      let second = card_frame-early s draws.1 now early in ground (arith, first, second)

  dispatch-StillEarly :
      (s : Session) (draws : Draws) (m : Message) (now : ℕ)
      → is_ready s ≡ false
      → (IsAccepting m → ⊥)
      → StillEarly (dispatch crypto s draws m now)
  unfolding dispatch on_presence on_clip on_chunk on_msg on_announce on_relay_error is_ready
  dispatch-StillEarly s draws (Envelope.challenge m) now early other =
      on_challenge-StillEarly s draws.client_nonce m now early
  dispatch-StillEarly s draws (Envelope.auth_ok m) now early other = absurd (other tt)
  dispatch-StillEarly s draws (Envelope.presence m) now early other =
      let t : Session = record s { peers = m.peers } in
      ground
        (arith, introduce-early t draws.introduction (Action.peers_changed m.peers ∷ []) now early)
  dispatch-StillEarly s draws (Envelope.relay_error m) now early other = ground arith
  dispatch-StillEarly s draws _ now early other = ground arith

  handle_frame-StillEarly :
      (s : Session) (draws : Draws) (m : Message) (now : ℕ)
      → is_ready s ≡ false
      → (IsAccepting m → ⊥)
      → StillEarly (handle_frame crypto s draws m now)
  unfolding handle_frame
  handle_frame-StillEarly s draws m now early other =
      elim (Bool-cases (version m == protocol_version)) [
        | inl same ↦ rw (same, handle_frame) (dispatch-StillEarly s draws m now early other)
        | inr newer ↦ rw (newer, handle_frame) (record { unready = early; quiet = tt })
      ]

  -- Until the relay's `auth_ok` arrives, whatever else it sends: the session is not ready, sends
  -- nothing but `auth` and answers to pings, and hands over no clip, image, device or message.
  pub pump-IsEarly :
      (frames : List (Message × Draws)) (s : Session) (now : ℕ)
      → is_ready s ≡ false
      → All (λ f. IsAccepting f.0 → ⊥) frames
      → (is_ready (pump crypto s frames now).0 ≡ false)
        × All IsEarly (pump crypto s frames now).1
        × Quiet (pump crypto s frames now).2
  unfolding pump
  pump-IsEarly [] s now early others_only = (early, tt, tt)
  pump-IsEarly ((m, draws) ∷ rest) s now early others_only =
      let handled = handle_frame crypto s draws m now in
      let one = handle_frame-StillEarly s draws m now early others_only.0 in
      elim (Result-cases handled.1) [
        | inr (failure, e) ↦ rw (e, pump) (one.unready, tt, tt)
        | inl (actions, e) ↦
            let quiet : Quiet (ok actions) = subst Quiet e one.quiet in
            let more = pump-IsEarly rest handled.0 now one.unready others_only.1 in
            elim (Result-cases (pump crypto handled.0 rest now).2) [
              | inr (failure, f) ↦
                  rw (e, f, pump)
                    (
                      more.0,
                      All-append IsEarly (sends actions) _ (sends-IsEarly actions quiet) more.1,
                      tt,
                    )
              | inl (later, f) ↦
                  let after : Quiet (ok later) = subst Quiet f more.2 in
                  rw (e, f, pump)
                    (
                      more.0,
                      All-append IsEarly (sends actions) _ (sends-IsEarly actions quiet) more.1,
                      All-append IsQuiet (others actions) later (others-IsQuiet actions quiet)
                          after,
                    )
            ]
      ]
