-- ===== src/Net/Session/Handling.antt =====
-- crates/asli-net/src/session.rs: the handshake, the dispatch of a message, and `pump` over the
-- messages that wait.
use asli.Prelude.{
  ℕ, ◌+◌, ◌-◌, ◌==◌, ltb, leb, if◌then◌else◌, Bool, true, false, not, ◌&&◌, List, [], ◌∷◌, ◌++◌,
  Option, none, some,
}
use asli.Prelude.Bytes.{same_bytes}
use asli.Crypto.Error as CryptoError
use asli.Crypto.Primitives.{Primitives}
use asli.Crypto.Identity.{room_id, public_key}
use asli.Crypto.Auth.{sign_auth}
use asli.Net.State.{ErrorCode}
use asli.Net.Error.{
  Error, Result, ok, err, ◌>>=◌, ◌>>◌, refuse_if, from_crypto, unsupported, out_of_order,
  nonce_s_field, challenge_late, crypto_suite, envelope_encoding, client_only,
}
use asli.Net.Error as NetError
use asli.Net.Envelope.{
  Message, Challenge, AuthOk, Presence, ErrorMessage, protocol_version, version, fixed, hello,
  challenge, auth, auth_ok, auth_fail, clip, fetch_last, presence, ping, pong, relay_error,
  clip_begin, clip_chunk, clip_end, announce, device_msg,
}
use asli.Net.Session.{
  Session, Action, ℤ, pos, negsuc, is_hello_sent, is_sent, ready, authenticating, refused,
  suite_name, json_name, clock_skew_warn_ms, send, authenticated, peers_changed, relay_problem,
  auth_refused, clock_skew,
}
use asli.Net.Session.Sending.{Draw}
use asli.Net.Session.Introducing.{introduce}
use asli.Net.Session.Arriving.{on_clip}
use asli.Net.Session.Chunks.{on_chunk}
use asli.Net.Session.Messages.{on_msg, on_announce}

abbrev pub i64_max : ℕ
i64_max = 9223372036854775807

-- `i64::try_from(n).unwrap_or(i64::MAX)`, and the difference of two such numbers, which an i64 holds.
abbrev pub to_i64 : ℕ → ℕ
to_i64 n = if leb n i64_max then n else i64_max

abbrev pub diff : ℕ → ℕ → ℤ
diff a b = if leb b a then pos (a - b) else negsuc (b - a - 1)

-- How far the two clocks are apart, in either direction.
abbrev pub distance : ℕ → ℕ → ℕ
distance a b = (a - b) + (b - a)

unfoldable pub skew_actions : Session → ℕ → ℕ → List Action
skew_actions s server_ms now_ms = elim s.pinned_auth [
  | some pinned ↦ []
  | none ↦
      if ltb clock_skew_warn_ms (distance (to_i64 server_ms) (to_i64 now_ms))
      then clock_skew (diff (to_i64 server_ms) (to_i64 now_ms)) ∷ []
      else []
]

-- What the generator returns while one frame is handled.
pub record Draws : Type 0 where
  pub client_nonce : Option (List ℕ)
  pub introduction : Draw × Draw

-- The nonce and the time of `auth`.
unfoldable pub auth_inputs : Session → Option (List ℕ) → ℕ → Result (List ℕ × ℕ)
auth_inputs s random now_ms = elim s.pinned_auth [
  | some pinned ↦ ok pinned
  | none ↦ from_crypto (CryptoError.ok_or random CryptoError.rng) >>= λ nonce. ok (nonce, now_ms)
]

unfoldable pub check_challenge : Session → Challenge → Result (Unit {0})
check_challenge s c = do
  refuse_if (not (is_hello_sent s)) (out_of_order challenge_late)
  refuse_if (not (same_bytes c.suite suite_name)) (unsupported crypto_suite)
  refuse_if (not (same_bytes c.enc json_name)) (unsupported envelope_encoding)
  nonce_s ← fixed nonce_s_field 32 c.nonce_s
  ok tt

-- An answer that settles whether the relay forwards device messages or announcements.
unfoldable pub on_relay_error : Session → ErrorMessage → Session × List Action
on_relay_error s e =
    let unknown : Bool = elim e.code [ ErrorCode.unknown_type ↦ true | _ ↦ false ] in
    if unknown && is_sent s.msg_probe
    then (record s { msg_probe = refused }, [])
    else if unknown && is_sent s.announce_probe
    then (record s { announce_probe = refused }, [])
    else (s, relay_problem e.code e.retry_after_ms ∷ [])

-- The sends among some actions, and the others.
abbrev pub sends : List Action → List Message
sends [] = []
sends (send m ∷ actions) = m ∷ sends actions
sends (_ ∷ actions) = sends actions

abbrev pub others : List Action → List Action
others [] = []
others (send m ∷ actions) = others actions
others (action ∷ actions) = action ∷ others actions

module _ (crypto : Primitives) where
  unfoldable pub on_challenge :
      Session → Option (List ℕ) → Challenge → ℕ → Session × Result (List Action)
  unfolding check_challenge auth_inputs skew_actions
  on_challenge s random c now_ms = elim (check_challenge s c) [
    | err failure ↦ (s, err failure)
    | ok done ↦
        let t : Session = record s { limits = some c.limits } in
        elim (auth_inputs s random now_ms) [
          | err failure ↦ (t, err failure)
          | ok inputs ↦ (
            record t { phase = authenticating },
            ok (
                skew_actions s c.server_time_ms now_ms
                ++ (send (
                      auth (record {
                        v = protocol_version;
                        room = room_id s.identity;
                        pub_key = public_key crypto s.identity;
                        nonce_c = inputs.0;
                        client_time_ms = inputs.1;
                        sig =
                            sign_auth crypto.sha crypto.ed s.identity.signing_key c.nonce_s inputs.0
                              inputs.1;
                      }))
                    ∷ [])),
          )
        ]
  ]

  unfoldable pub on_auth_ok : Session → Draws → AuthOk → ℕ → Session × Result (List Action)
  on_auth_ok s draws m now_ms =
      introduce crypto (record s { phase = ready; peers = m.peers; conn_id = some m.conn_id })
        draws.introduction (authenticated m.conn_id m.peers m.has_retained m.stored_at ∷ []) now_ms

  unfoldable pub on_presence : Session → Draws → Presence → ℕ → Session × Result (List Action)
  on_presence s draws m now_ms =
      let t : Session = record s { peers = m.peers } in
      if m.peers == s.peers
      then (t, ok (peers_changed m.peers ∷ []))
      else introduce crypto t draws.introduction (peers_changed m.peers ∷ []) now_ms

  unfoldable pub dispatch : Session → Draws → Message → ℕ → Session × Result (List Action)
  unfolding on_challenge on_auth_ok on_presence on_relay_error
  dispatch s draws (challenge m) now_ms = on_challenge s draws.client_nonce m now_ms
  dispatch s draws (auth_ok m) now_ms = on_auth_ok s draws m now_ms
  dispatch s draws (auth_fail m) now_ms = (s, ok (auth_refused m.code ∷ []))
  dispatch s draws (clip m) now_ms = on_clip crypto s m now_ms
  dispatch s draws (clip_begin m) now_ms = on_chunk crypto s m now_ms
  dispatch s draws (clip_chunk m) now_ms = on_chunk crypto s m now_ms
  dispatch s draws (clip_end m) now_ms = on_chunk crypto s m now_ms
  dispatch s draws (presence m) now_ms = on_presence s draws m now_ms
  dispatch s draws (announce m) now_ms = on_announce crypto s m now_ms
  dispatch s draws (device_msg m) now_ms = on_msg crypto s m now_ms
  dispatch s draws (ping m) now_ms =
      (s, ok (send (pong (record { v = protocol_version; t = m.t })) ∷ []))
  dispatch s draws (pong m) now_ms = (s, ok [])
  dispatch s draws (relay_error m) now_ms = ((on_relay_error s m).0, ok (on_relay_error s m).1)
  dispatch s draws (hello m) now_ms = (s, err (out_of_order client_only))
  dispatch s draws (auth m) now_ms = (s, err (out_of_order client_only))
  dispatch s draws (fetch_last m) now_ms = (s, err (out_of_order client_only))

  -- A frame that parsed.
  unfoldable pub handle_frame : Session → Draws → Message → ℕ → Session × Result (List Action)
  unfolding dispatch
  handle_frame s draws m now_ms =
      if version m == protocol_version
      then dispatch s draws m now_ms
      else (s, err (unsupported NetError.protocol_version))

  -- Over a transport that never fails: what it has sent when `pump` returns, and what that returns.
  unfoldable pub pump :
      Session → List (Message × Draws) → ℕ → Session × List Message × Result (List Action)
  unfolding handle_frame
  pump s [] now_ms = (s, [], ok [])
  pump s ((m, draws) ∷ waiting) now_ms =
      let handled = handle_frame s draws m now_ms in
      let rest = pump handled.0 waiting now_ms in
      elim handled.1 [
        | err failure ↦ (handled.0, [], err failure)
        | ok actions ↦
            (rest.0, sends actions ++ rest.1, rest.2 >>= λ later. ok (others actions ++ later))
      ]
