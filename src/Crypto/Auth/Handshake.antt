-- ===== src/Crypto/Auth/Handshake.antt =====
-- What the handshake's verification accepts, and what its signature binds.
use asli.Prelude.{
  ℕ, ◌≡◌, ◌≢◌, ◌⊎◌, inl, inr, Bool-cases, refl, sym, ap, ◌∙◌, arith, not, Bool, true, false, IsU64,
  List, drop,
}
use asli.Prelude.Bytes.{
  same_bytes, same_bytes_self, same_bytes→eq, byte_at, IsArray, to_be-injective, append-split,
}
use asli.Crypto.Error.{
  Error, Result, ok, ◌>>◌, refuse_if, refuse_if_ok, bad_signature, bad_public_key, room_binding,
}
use asli.Crypto.Clip.{protocol_version}
use asli.Crypto.Token.{Sha256}
use asli.Crypto.Auth.{
  Ed25519, build_sig_input, room_id_for_public_key, verify_room_binding, verify_signature,
  sign_auth, verify_auth,
}

-- Two signed inputs of well-formed fields that are equal are of the same version, room, key, nonces
-- and time, so a signature is bound to all of them.
pub build_sig_input-injective :
    (v v' time time' : ℕ) (room room' key key' server server' client client' : List ℕ)
    → IsU64 time
    → IsU64 time'
    → IsArray 16 room
    → IsArray 16 room'
    → IsArray 32 key
    → IsArray 32 key'
    → IsArray 32 server
    → IsArray 32 server'
    → IsArray 16 client
    → IsArray 16 client'
    → build_sig_input v room key server client time
      ≡ build_sig_input v' room' key' server' client' time'
    → (v ≡ v')
      × (room ≡ room')
      × (key ≡ key')
      × (server ≡ server')
      × (client ≡ client')
      × (time ≡ time')
unfolding build_sig_input byte_at
build_sig_input-injective v v' t t' r r' k k' s s' c c' ht ht' hr hr' hk hk' hs hs' hc hc' p =
    let (er, p1) = append-split r _ r' _ (hr.size ∙ sym hr'.size) (ap (drop 14) p) in
    let (ek, p2) = append-split k _ k' _ (hk.size ∙ sym hk'.size) (ap (drop 1) p1) in
    let (es, p3) = append-split s _ s' _ (hs.size ∙ sym hs'.size) (ap (drop 1) p2) in
    let (ec, p4) = append-split c _ c' _ (hc.size ∙ sym hc'.size) (ap (drop 1) p3) in
    (
      ap (byte_at 12) p,
      er,
      ek,
      es,
      ec,
      to_be-injective 8 t t' (omega (arith, ht)) (omega (arith, ht')) p4,
    )

both :
    (b : Bool) (e : Error) (k : Result (Unit {0}))
    → (refuse_if b e >> k) ≡ ok tt
    → (b ≡ false) × (k ≡ ok tt)
both true e k h = cc
both false e k h = (refl, h)

negated : (b : Bool) → not b ≡ false → b ≡ true
negated true h = refl
negated false h = cc

different : (m n : List ℕ) → same_bytes m n ≡ false → m ≢ n
different m n other same = let here : same_bytes m n ≡ true = rw same (same_bytes_self n) in cc

module _ (sha : Sha256) (ed : Ed25519) where
  open ed use {sign, verifying_key, from_bytes, verify_strict, verifies, from_bytes-verifying_key}

  -- The relay accepts the handshake that a client signs for the room of its own key.
  pub verify_auth-sign_auth :
      (key server client : List ℕ) (time : ℕ)
      → verify_auth sha ed
          (room_id_for_public_key sha ed (verifying_key key))
          (verifying_key key)
          server
          client
          time
          (sign_auth sha ed key server client time)
        ≡ ok tt
  unfolding verify_auth sign_auth verify_room_binding verify_signature
  verify_auth-sign_auth key server client time =
      rw (same_bytes_self, from_bytes-verifying_key, verifies) refl

  -- An accepted handshake names the room of the key that it was made with, and its signature
  -- verifies under that key over the input.
  verify_auth-accepts :
      (room key server client signature : List ℕ) (time : ℕ)
      → verify_auth sha ed room key server client time signature ≡ ok tt
      → (room_id_for_public_key sha ed key ≡ room)
        × (verify_strict key
              (build_sig_input protocol_version room key server client time)
              signature
            ≡ true)
  unfolding verify_auth verify_room_binding verify_signature
  verify_auth-accepts room key server client signature time h =
      let input = build_sig_input protocol_version room key server client time in
      let (b, h1) =
        both (not (same_bytes (room_id_for_public_key sha ed key) room)) room_binding _ h in
      let (k, h2) = both (not (from_bytes key)) bad_public_key _ h1 in
      (
        same_bytes→eq _ _ (negated _ b),
        negated _ (refuse_if_ok (not (verify_strict key input signature)) bad_signature h2),
      )

  -- An accepted handshake is for the room of its key, and its signature is worth nothing for any
  -- other handshake: when one signature is accepted under one key for two handshakes, their rooms,
  -- nonces and times are the same, or else Ed25519 has verified the signature for two messages that
  -- differ. The rooms have 16 bytes, the key 32, the nonces their lengths, and the times fit a u64.
  pub verify_auth_binds :
      (room room' key server server' client client' signature : List ℕ) (time time' : ℕ)
      → IsArray 16 room
      → IsArray 16 room'
      → IsArray 32 key
      → IsArray 32 server
      → IsArray 32 server'
      → IsArray 16 client
      → IsArray 16 client'
      → IsU64 time
      → IsU64 time'
      → verify_auth sha ed room key server client time signature ≡ ok tt
      → verify_auth sha ed room' key server' client' time' signature ≡ ok tt
      → (room_id_for_public_key sha ed key ≡ room)
        × (((room ≡ room') × (server ≡ server') × (client ≡ client') × (time ≡ time'))
            ⊎ ((m : List ℕ) × (n : List ℕ) × (m ≢ n)
                × (verify_strict key m signature ≡ true)
                × (verify_strict key n signature ≡ true)))
  verify_auth_binds r r' key s s' c c' signature t t' vr vr' vk vs vs' vc vc' vt vt' once again =
      let m = build_sig_input protocol_version r key s c t in
      let n = build_sig_input protocol_version r' key s' c' t' in
      let (home, one) = verify_auth-accepts r key s c signature t once in
      let (home', two) = verify_auth-accepts r' key s' c' signature t' again in
      (
        home,
        elim (Bool-cases (same_bytes m n)) [
          | inl same ↦
              let (version, rooms, keys, servers, clients, times) =
                build_sig_input-injective protocol_version protocol_version t t' r r' key key s s' c
                  c' vt vt' vr vr' vk vk vs vs' vc vc' (same_bytes→eq m n same) in
              inl (rooms, servers, clients, times)
          | inr other ↦ inr (m, n, different m n other, one, two)
        ],
      )
