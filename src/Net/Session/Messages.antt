-- ===== src/Net/Session/Messages.antt =====
-- crates/asli-net/src/session.rs: announcements, cards, new account keys and the other device
-- messages that arrive.
use asli.Prelude.{ℕ, ltb, if◌then◌else◌, false, not, ◌||◌, List, [], ◌∷◌, none, some}
use asli.Prelude.Bytes.{same_bytes}
use asli.Crypto.Error as CryptoError
use asli.Crypto.Primitives.{Primitives}
use asli.Crypto.Announce.{open_announce}
use asli.Crypto.Announce as CryptoAnnounce
use asli.Crypto.Msg.{Kind, card, rekey, open_msg}
use asli.Crypto.Card.{Card}
use asli.Crypto.Card as CryptoCard
use asli.Crypto.Device.{DeviceKeys}
use asli.Crypto.Rekey.{sender, open_rekey}
use asli.Net.Error.{Result, ok, err, out_of_order, msg_early, announce_early}
use asli.Net.Envelope.{Announce, Msg, structural}
use asli.Net.Session.{
  Session, Action, KnownDevice, is_ready, same_room, epoch_is_acceptable, fresh, get, insert,
  seen_contains, push_seen, msg_seen_capacity, announce_seen_capacity, dropped, peer, device,
  message, rekeyed, removed_by, msg_open_failed, card_invalid, card_key_changed, rekey_invalid,
  rekey_unknown_sender, rekey_stale, session_key,
}

abbrev pub known_of_card : Card → KnownDevice
known_of_card c = record {
  device_id = c.device_id;
  sign_pub = c.sign_pub;
  box_pub = c.box_pub;
  conn_id = some c.conn_id;
  name = c.name;
  os = c.os;
  ts_ms = c.ts_ms;
}

unfoldable pub learn : Session → Card → Session × List Action
learn s c = (record s { known = insert s.known (known_of_card c) }, device (known_of_card c) ∷ [])

-- A card that decoded, from another device and in time.
unfoldable pub pin_card : Session → Card → Session × List Action
unfolding learn
pin_card s c = elim (get s.known c.device_id) [
  | none ↦ learn s c
  | some pinned ↦
      if not (same_bytes pinned.sign_pub c.sign_pub)
      then (s, dropped card_key_changed false)
      else if ltb c.ts_ms pinned.ts_ms
      then (s, [])
      else learn s c
]

module _ (crypto : Primitives) where
  unfoldable pub on_card : Session → List ℕ → ℕ → Session × List Action
  unfolding pin_card
  on_card s body now_ms = elim (CryptoCard.decode crypto body s.identity.room_id_bytes) [
    | CryptoError.err failure ↦ (s, dropped card_invalid false)
    | CryptoError.ok c ↦
        if same_bytes c.device_id s.device_id || not (fresh now_ms c.ts_ms)
        then (s, [])
        else pin_card s c
  ]

  -- A bundle whose sender is known.
  unfoldable pub open_bundle :
      Session → DeviceKeys → List ℕ → KnownDevice → List ℕ → ℕ → List Action
  open_bundle s keys from pinned body now_ms =
      elim (open_rekey crypto keys s.device_id s.identity.room_id_bytes pinned.sign_pub body) [
        | CryptoError.err failure ↦ dropped rekey_invalid false
        | CryptoError.ok none ↦ removed_by from ∷ []
        | CryptoError.ok (some r) ↦
            if fresh now_ms r.ts_ms
            then rekeyed r.secret from r.recipients ∷ []
            else dropped rekey_stale false
      ]

  unfoldable pub on_rekey : Session → List ℕ → ℕ → List Action
  unfolding open_bundle
  on_rekey s body now_ms = elim s.device_keys [
    | none ↦ []
    | some keys ↦ elim (sender body) [
      | CryptoError.err failure ↦ dropped rekey_invalid false
      | CryptoError.ok from ↦ elim (get s.known from) [
        | none ↦ dropped rekey_unknown_sender false
        | some pinned ↦ open_bundle s keys from pinned body now_ms
      ]
    ]
  ]

  -- A device message that was opened.
  unfoldable pub act_on : Session → Kind → List ℕ → ℕ → Session × List Action
  unfolding on_card on_rekey
  act_on s card body now_ms = on_card s body now_ms
  act_on s rekey body now_ms = (s, on_rekey s body now_ms)
  act_on s kind body now_ms = (s, message kind body ∷ [])

  -- From the comparison of the rooms on: what is refused is a discard, and no error.
  unfoldable pub admit_msg : Session → Msg → ℕ → Session × List Action
  unfolding act_on
  admit_msg s m now_ms =
      if not (same_room s m.room) || not (epoch_is_acceptable s m.epoch)
      then (s, [])
      else if seen_contains s.msg_seen m.msg_id
      then (s, [])
      else elim (open_msg crypto.aead (session_key crypto s m.epoch) m.epoch
          s.identity.room_id_bytes m.msg_id m.n m.ct) [
            | CryptoError.err failure ↦ (s, dropped msg_open_failed false)
            | CryptoError.ok opened ↦
                act_on (record s { msg_seen = push_seen msg_seen_capacity s.msg_seen m.msg_id })
                  opened.0 opened.1 now_ms
          ]

  unfoldable pub on_msg : Session → Msg → ℕ → Session × Result (List Action)
  unfolding admit_msg
  on_msg s m now_ms =
      if not (is_ready s)
      then (s, err (out_of_order msg_early))
      else elim (structural m.msg_id m.n m.ct) [
        | err failure ↦ (s, err failure)
        | ok done ↦ ((admit_msg s m now_ms).0, ok (admit_msg s m now_ms).1)
      ]

  -- An announcement that was opened.
  unfoldable pub learn_peer : Session → List ℕ → CryptoAnnounce.Announce → ℕ → Session × List Action
  learn_peer s msg_id opened now_ms =
      if same_bytes opened.device_id s.device_id
      then (s, [])
      else if not (fresh now_ms opened.ts_ms)
      then (s, [])
      else (
        record s { announce_seen = push_seen announce_seen_capacity s.announce_seen msg_id },
        peer (record {
          device_id = opened.device_id;
          name = opened.name;
          os = opened.os;
          ts_ms = opened.ts_ms;
        })
            ∷ [],
      )

  unfoldable pub admit_announce : Session → Announce → ℕ → Session × List Action
  unfolding learn_peer
  admit_announce s m now_ms =
      if not (same_room s m.room) || not (epoch_is_acceptable s m.epoch)
      then (s, [])
      else if seen_contains s.announce_seen m.msg_id
      then (s, [])
      else elim (open_announce crypto.aead (session_key crypto s m.epoch) m.epoch
          s.identity.room_id_bytes m.msg_id m.n m.ct) [
            | CryptoError.err failure ↦ (s, [])
            | CryptoError.ok opened ↦ learn_peer s m.msg_id opened now_ms
          ]

  unfoldable pub on_announce : Session → Announce → ℕ → Session × Result (List Action)
  unfolding admit_announce
  on_announce s m now_ms =
      if not (is_ready s)
      then (s, err (out_of_order announce_early))
      else elim (structural m.msg_id m.n m.ct) [
        | err failure ↦ (s, err failure)
        | ok done ↦ ((admit_announce s m now_ms).0, ok (admit_announce s m now_ms).1)
      ]
