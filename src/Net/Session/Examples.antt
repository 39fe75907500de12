-- ===== src/Net/Session/Examples.antt =====
-- The theorems about sequences of frames of session.rs, at concrete inputs.
use asli.Prelude.Bytes.{same_bytes}
use asli.Prelude.{ℕ, ◌≡◌, refl, List, [], ◌∷◌, ◌++◌, All, none, some, arith, replicate, true, false}
use asli.Crypto.Primitives.{constant}
use asli.Crypto.Identity.{from_secret}
use asli.Net.Error.{ok}
use asli.Net.Envelope.{Message, Challenge, Auth, AuthOk, Limits, clip, auth, challenge}
use asli.Net.Session.{Session, KnownDevice, new, get, send, is_ready, suite_name, json_name, ready}
use asli.Net.Session.Sending.{hello_frame}
use asli.Net.Session.Handling.{Draws, on_challenge, on_auth_ok, skew_actions, pump}
use asli.Net.Session.History.{run}
use asli.Net.Session.Early.{IsEarly, Quiet, pump-IsEarly}
use asli.Net.Session.Opening.{IsProof, on_auth_ok-on_challenge}
use asli.Net.Session.Pinning.{run-get_sign_pub}
use asli.Net.Session.Validity.{IsValid, run_session-IsValid}
use asli.Net.Session.Runs.{identity, laptop, phone, receiver, frame, draw}

abbrev draws : Draws
draws = record { client_nonce = some (replicate 16 3); introduction = (draw, draw) }

abbrev limits : Limits
limits = record {
  max_frame_bytes = 12000000;
  max_content_bytes = 8388608;
  retain_max_bytes = 65536;
  msgs_per_sec = 20;
  room_bytes_per_day = 1000000000;
}

abbrev asked : Challenge
asked = record {
  v = 1;
  suite = suite_name;
  enc = json_name;
  nonce_s = replicate 32 8;
  server_time_ms = 1000;
  limits = limits;
}

abbrev history : List (Message × Draws × ℕ)
history = (challenge asked, draws, 1000) ∷ (clip frame, draws, 2000) ∷ []

abbrev tablet : KnownDevice
tablet = record {
  device_id = replicate 16 7;
  sign_pub = replicate 32 7;
  box_pub = replicate 32 8;
  conn_id = none;
  name = [];
  os = [];
  ts_ms = 5;
}

abbrev acquainted : Session
acquainted = record (new identity phone 9) { phase = ready; known = tablet ∷ [] }

knows : get acquainted.known (replicate 16 7) ≡ some tablet
unfolding get same_bytes
knows = refl

run-get_sign_pub_example :
    (e : KnownDevice) × (get (run constant acquainted history).known (replicate 16 7) ≡ some e)
    × (e.sign_pub ≡ tablet.sign_pub)
run-get_sign_pub_example =
    run-get_sign_pub constant acquainted history (replicate 16 7) tablet knows

empty-IsValid : IsValid receiver
unfolding new
empty-IsValid = record {
  assembly = tt;
  limits = tt;
  announced = omega arith;
  messages = omega arith;
}

run_session-IsValid_example : IsValid (run constant receiver history)
run_session-IsValid_example =
    run_session-IsValid constant receiver history empty-IsValid (omega arith, (tt, tt))

abbrev beginner : Session
beginner = new identity phone 9

unready : is_ready beginner ≡ false
unfolding is_ready new
unready = refl

abbrev waiting : List (Message × Draws)
waiting = (challenge asked, draws) ∷ (clip frame, draws) ∷ []

pump-IsEarly_example :
    (is_ready (pump constant beginner waiting 2000).0 ≡ false)
    × All IsEarly (pump constant beginner waiting 2000).1
    × Quiet (pump constant beginner waiting 2000).2
pump-IsEarly_example = pump-IsEarly constant waiting beginner 2000 unready (λ e. e, (λ e. e, tt))

abbrev secret : List ℕ
secret = replicate 32 1

abbrev owner : Session
owner = new (from_secret constant secret) laptop 0

owner_identity : owner.identity ≡ from_secret constant secret
unfolding new
owner_identity = refl

owner_unpinned : owner.pinned_auth ≡ none
unfolding new
owner_unpinned = refl

abbrev welcome : AuthOk
welcome = record { v = 1; conn_id = []; peers = 1; has_retained = false; stored_at = none }

on_auth_ok-on_challenge_example :
    (a : Auth) × (u : Session) × (on_challenge constant
        (hello_frame owner).0
        (some (replicate 16 3))
        asked
        900
      ≡ (u, ok (skew_actions owner asked.server_time_ms 900 ++ (send (auth a) ∷ []))))
    × IsProof constant owner.identity.room_id_bytes asked.nonce_s a
    × (is_ready (on_auth_ok constant u draws welcome 1100).0 ≡ true)
on_auth_ok-on_challenge_example =
    on_auth_ok-on_challenge constant owner secret (replicate 16 3) asked draws welcome 900 1100
      owner_identity owner_unpinned refl refl refl
