-- ===== src/Net/Session/Introducing.antt =====
-- crates/asli-net/src/session.rs: how a session introduces its device, what it learns of others,
-- and how the account's key is replaced.
use asli.Prelude.{ℕ, if◌then◌else◌, not, ◌||◌, List, [], ◌∷◌, ◌++◌, Option, none, some}
use asli.Crypto.Error as CryptoError
use asli.Crypto.Primitives.{Primitives}
use asli.Crypto.Identity.{room_id}
use asli.Crypto.Announce as CryptoAnnounce
use asli.Crypto.Msg.{card, rekey}
use asli.Crypto.Device.{DeviceKeys, sign_pub, box_pub}
use asli.Crypto.Card as CryptoCard
use asli.Crypto.Rekey.{Recipient, bundle}
use asli.Net.Error.{Result, ok, err, ◌>>=◌, from_crypto, unsupported, no_device_keys, never_seen}
use asli.Net.Envelope.{Message, protocol_version, announce}
use asli.Net.Session.{
  Session, Action, DeviceInfo, KnownDevice, is_ready, is_refused, get, sent, session_key, send,
}
use asli.Net.Session.Sending.{Draw, msg_frame}

-- The name and system of `device_info`, or empty ones.
unfoldable pub info_or_default : Session → DeviceInfo
info_or_default s = elim s.device_info [ none ↦ record { name = []; os = [] } | some info ↦ info ]

-- The devices to keep, with the keys that their cards named.
unfoldable pub recipients_of : List KnownDevice → List (List ℕ) → Result (List Recipient)
recipients_of known [] = ok []
recipients_of known (id ∷ ids) = elim (get known id) [
  | none ↦ err (unsupported never_seen)
  | some d ↦ do
    rest ← recipients_of known ids
    ok (record { device_id = id; box_pub = d.box_pub } ∷ rest)
]

module _ (crypto : Primitives) where
  unfoldable pub card_body : Session → DeviceKeys → List ℕ → ℕ → Result (List ℕ)
  unfolding info_or_default
  card_body s keys conn_id now_ms = from_crypto (
      CryptoCard.encode crypto
        (record {
          device_id = s.device_id;
          sign_pub = sign_pub crypto keys;
          box_pub = box_pub crypto keys;
          ts_ms = now_ms;
          conn_id = conn_id;
          name = (info_or_default s).name;
          os = (info_or_default s).os;
        })
        keys s.identity.room_id_bytes)

  -- With keys and a connection id.
  unfoldable pub send_card :
      Session → Draw → DeviceKeys → List ℕ → ℕ → Session × Result (Option Message)
  send_card s draw keys conn_id now_ms = elim (card_body s keys conn_id now_ms) [
    | err failure ↦ (s, err failure)
    | ok body ↦
        let made = msg_frame crypto s draw card body none in
        (made.0, made.1 >>= λ frame. ok (some frame))
  ]

  unfoldable pub card_frame : Session → Draw → ℕ → Session × Result (Option Message)
  unfolding send_card
  card_frame s draw now_ms =
      if not (is_ready s) || is_refused s.msg_probe then (s, ok none) else elim s.device_keys [
        | none ↦ (s, ok none)
        | some keys ↦ elim s.conn_id [
          | none ↦ (s, ok none)
          | some conn_id ↦ send_card s draw keys conn_id now_ms
        ]
      ]

  unfoldable pub seal_announce : Session → Draw → DeviceInfo → ℕ → Result Message
  seal_announce s draw info now_ms = do
    msg_id ← from_crypto (CryptoError.ok_or draw.id CryptoError.rng)
    sealed ← from_crypto (
        CryptoAnnounce.seal crypto.aead draw.nonce (session_key crypto s s.epoch) s.epoch
          s.identity.room_id_bytes msg_id
          (record { device_id = s.device_id; ts_ms = now_ms; name = info.name; os = info.os }))
    ok (
        announce (record {
          v = protocol_version;
          room = room_id s.identity;
          epoch = s.epoch;
          msg_id = msg_id;
          n = sealed.nonce;
          ct = sealed.ciphertext;
        }))

  unfoldable pub announce_frame : Session → Draw → ℕ → Session × Result (Option Message)
  unfolding seal_announce
  announce_frame s draw now_ms =
      if not (is_ready s) || is_refused s.announce_probe then (s, ok none) else elim s.device_info [
        | none ↦ (s, ok none)
        | some info ↦ elim (seal_announce s draw info now_ms) [
          | err failure ↦ (s, err failure)
          | ok frame ↦ (record s { announce_probe = sent }, ok (some frame))
        ]
      ]

  abbrev pub push : List Action → Option Message → List Action
  push actions none = actions
  push actions (some frame) = actions ++ (send frame ∷ [])

  -- `push_announce`, then `push_card`: the two draws are for the announcement and for the card.
  unfoldable pub introduce :
      Session → Draw × Draw → List Action → ℕ → Session × Result (List Action)
  unfolding announce_frame card_frame
  introduce s draws actions now_ms =
      let announced = announce_frame s draws.0 now_ms in
      elim announced.1 [
        | err failure ↦ (announced.0, err failure)
        | ok first ↦
            let carded = card_frame announced.0 draws.1 now_ms in
            (carded.0, carded.1 >>= λ second. ok (push (push actions first) second))
      ]

  -- `boxes idx` holds the two draws for the box of device `idx`.
  unfoldable pub rekey_frame :
      Session
      → Draw
      → (ℕ → Option (List ℕ) × Option (List ℕ))
      → List (List ℕ)
      → List ℕ
      → ℕ
      → Session × Result Message
  unfolding recipients_of
  rekey_frame s draw boxes keep new_secret now_ms = elim s.device_keys [
    | none ↦ (s, err (unsupported no_device_keys))
    | some keys ↦
        elim (do
          recipients ← recipients_of s.known keep
          from_crypto (
              bundle crypto boxes keys s.device_id s.identity.room_id_bytes now_ms recipients
                new_secret)) [
                  | err failure ↦ (s, err failure)
                  | ok body ↦ msg_frame crypto s draw rekey body none
                ]
  ]
