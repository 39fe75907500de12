-- ===== src/Net/Session/Opening.antt =====
-- The handshake of session.rs, from `hello` to `auth_ok`.
use asli.Prelude.{ℕ, ◌≡◌, refl, List, [], ◌∷◌, ◌++◌, none, some, arith, true, length}
use asli.Prelude.Bytes.{same_bytes, same_bytes_self}
use asli.Crypto.Error as CryptoError
use asli.Crypto.Primitives.{Primitives}
use asli.Crypto.Identity.{from_secret, public_key, room_id}
use asli.Crypto.Auth.{verify_auth, sign_auth}
use asli.Crypto.Auth.Handshake.{verify_auth-sign_auth}
use asli.Net.Error.{ok}
use asli.Net.Envelope.{Challenge, Auth, AuthOk, auth, fixed, protocol_version}
use asli.Net.Session.{
  Session, Action, send, ready, authenticating, is_ready, is_hello_sent, suite_name, json_name,
}
use asli.Net.Session.Sending.{hello_frame, Draw}
use asli.Net.Session.Introducing.{introduce, announce_frame, card_frame, send_card}
use asli.Net.Session.Sending.{msg_frame}
use asli.Net.Session.Handling.{
  Draws, on_challenge, on_auth_ok, check_challenge, auth_inputs, skew_actions,
}

-- What the relay checks in `auth`, for its own nonce.
abbrev pub IsProof : Primitives → List ℕ → List ℕ → Auth → Type 0
IsProof crypto room_id_bytes nonce_s a =
    verify_auth crypto.sha crypto.ed room_id_bytes a.pub_key nonce_s a.nonce_c a.client_time_ms
      a.sig
    ≡ CryptoError.ok tt

-- A session that the relay has accepted.
abbrev accepted : Session → AuthOk → Session
accepted s m = record s { phase = ready; peers = m.peers; conn_id = some m.conn_id }

pub ready_phase : (s : Session) → s.phase ≡ ready → is_ready s ≡ true
unfolding is_ready
ready_phase s e = rw e refl

module _ (crypto : Primitives) where
  -- The `auth` that answers a challenge.
  abbrev answer : Session → List ℕ → Challenge → ℕ → Auth
  answer s nonce_c c now = record {
    v = protocol_version;
    room = room_id s.identity;
    pub_key = public_key crypto s.identity;
    nonce_c = nonce_c;
    client_time_ms = now;
    sig = sign_auth crypto.sha crypto.ed s.identity.signing_key c.nonce_s nonce_c now;
  }

  check_challenge-after_hello :
      (s : Session) (c : Challenge)
      → c.suite ≡ suite_name
      → c.enc ≡ json_name
      → length c.nonce_s ≡ 32
      → check_challenge (hello_frame s).0 c ≡ ok tt
  unfolding check_challenge is_hello_sent hello_frame fixed
  check_challenge-after_hello s c suite enc size =
      let one : same_bytes c.suite suite_name ≡ true = rw suite (same_bytes_self suite_name) in
      let two : same_bytes c.enc json_name ≡ true = rw enc (same_bytes_self json_name) in
      ground (arith, one, two, size)

  introduce-phase :
      (s : Session) (draws : Draw × Draw) (actions : List Action) (now : ℕ)
      → (introduce crypto s draws actions now).0.phase ≡ s.phase
  unfolding introduce announce_frame card_frame send_card msg_frame
  introduce-phase s draws actions now = ground arith

  on_challenge-answer :
      (s : Session) (nonce_c : List ℕ) (c : Challenge) (now : ℕ)
      → check_challenge s c ≡ ok tt
      → s.pinned_auth ≡ none
      → on_challenge crypto s (some nonce_c) c now ≡ (
        record s { limits = some c.limits; phase = authenticating },
        ok (skew_actions s c.server_time_ms now ++ (send (auth (answer s nonce_c c now)) ∷ [])),
      )
  unfolding on_challenge auth_inputs
  on_challenge-answer s nonce_c c now checked unpinned = ground arith

  answer-IsProof :
      (s : Session) (secret nonce_c : List ℕ) (c : Challenge) (now : ℕ)
      → s.identity ≡ from_secret crypto secret
      → IsProof crypto s.identity.room_id_bytes c.nonce_s (answer s nonce_c c now)
  unfolding from_secret public_key
  answer-IsProof s secret nonce_c c now who =
      rw who (verify_auth-sign_auth crypto.sha crypto.ed _ c.nonce_s nonce_c now)

  on_auth_ok-ready :
      (s : Session) (draws : Draws) (m : AuthOk) (now : ℕ)
      → is_ready (on_auth_ok crypto s draws m now).0 ≡ true
  unfolding on_auth_ok
  on_auth_ok-ready s draws m now =
      ready_phase _ (introduce-phase (accepted s m) draws.introduction _ now)

  -- A handshake with a relay of this version completes: the answer to its challenge is an `auth` that
  -- proves the key of the room, for the relay's own nonce, and once the relay accepts it the session is
  -- ready.
  pub on_auth_ok-on_challenge :
      (s : Session) (secret nonce_c : List ℕ) (c : Challenge) (draws : Draws) (m : AuthOk)
      (now later : ℕ)
      → s.identity ≡ from_secret crypto secret
      → s.pinned_auth ≡ none
      → c.suite ≡ suite_name
      → c.enc ≡ json_name
      → length c.nonce_s ≡ 32
      → (a : Auth) × (u : Session) × (on_challenge crypto (hello_frame s).0 (some nonce_c) c now
          ≡ (u, ok (skew_actions s c.server_time_ms now ++ (send (auth a) ∷ []))))
        × IsProof crypto s.identity.room_id_bytes c.nonce_s a
        × (is_ready (on_auth_ok crypto u draws m later).0 ≡ true)
  unfolding hello_frame skew_actions
  on_auth_ok-on_challenge s secret nonce_c c draws m now later who unpinned suite enc size =
      let t = (hello_frame s).0 in
      let checked = check_challenge-after_hello s c suite enc size in
      let u : Session = record t { limits = some c.limits; phase = authenticating } in
      (
        answer t nonce_c c now,
        u,
        on_challenge-answer t nonce_c c now checked unpinned,
        answer-IsProof t secret nonce_c c now who,
        on_auth_ok-ready u draws m later,
      )
