-- ===== src/Net/Session/Cases.antt =====
-- The handlers of session.rs, split as they test: a property of the session that a handler returns
-- follows from the cases in which the handler changes something.
use asli.Prelude.{ℕ, ◌==◌, ◌≡◌, not, ◌||◌, List, none, some, Bool-cases, Option-cases, inl, inr}
use asli.Crypto.Error as CryptoError
use asli.Crypto.Primitives.{Primitives}
use asli.Crypto.Chunk.{Assembly, pos_of, open_chunk, accept, is_complete}
use asli.Crypto.Clip.{Inner, open_clip}
use asli.Crypto.Msg.{Kind, open_msg}
use asli.Crypto.Device.{DeviceKeys}
use asli.Net.Error.{Result-cases}
use asli.Net.Envelope.{Clip, ClipChunk, Msg, Presence, structural, is_retained}
use asli.Net.Session.{
  Session, Action, is_ready, is_refused, same_room, epoch_is_acceptable, session_key, seen_contains,
  push_seen, msg_seen_capacity,
}
use asli.Net.Session.Sending.{Draw}
use asli.Net.Session.Introducing.{introduce, send_card, card_frame}
use asli.Net.Session.Handling.{Draws, on_presence}
use asli.Net.Session.Arriving.{judge_clip, admit_clip, on_clip}
use asli.Net.Session.Chunks.{assembly_for, judge_image, add_piece, admit_chunk, on_chunk}
use asli.Net.Session.Messages.{act_on, admit_msg, on_msg}

module _ {ℓ} (crypto : Primitives) (P : Session → Type ℓ) (s : Session) (kept : P s) where
  pub on_clip-cases :
      (c : Clip) (now : ℕ)
      → ((inner : Inner)
          → open_clip crypto.aead
              (session_key crypto s c.epoch)
              c.epoch
              s.identity.room_id_bytes
              c.msg_id
              c.n
              c.ct
            ≡ CryptoError.ok inner
          → P (judge_clip crypto s c.msg_id inner (is_retained c) now).0)
      → P (on_clip crypto s c now).0
  unfolding on_clip admit_clip
  on_clip-cases c now opened = elim (Bool-cases (is_ready s)) [
    | inr early ↦ rw early kept
    | inl started ↦ rw started (elim (Result-cases (structural c.msg_id c.n c.ct)) [
      | inr (failure, e) ↦ rw e kept
      | inl (done, e) ↦ rw e (elim (Bool-cases (same_room s c.room)) [
        | inr other ↦ rw other kept
        | inl same ↦ rw same (elim (Bool-cases (epoch_is_acceptable s c.epoch)) [
          | inr late ↦ rw late kept
          | inl near ↦
              rw near
                (elim (CryptoError.Result-cases (
                  open_clip crypto.aead (session_key crypto s c.epoch) c.epoch
                    s.identity.room_id_bytes c.msg_id c.n c.ct)) [
                      | inr (failure, closed) ↦ rw closed kept
                      | inl (inner, clear) ↦ rw clear (opened inner clear)
                    ])
        ])
      ])
    ])
  ]

  pub on_chunk-cases :
      (c : ClipChunk) (now : ℕ)
      → P (record s { assembly = none })
      → ((a : Assembly) (piece : List ℕ)
          → assembly_for s c ≡ some a
          → open_chunk crypto.aead
              (session_key crypto s c.epoch)
              c.epoch
              s.identity.room_id_bytes
              c.msg_id
              c.n
              (pos_of c.idx c.chunk_count)
              c.ct
            ≡ CryptoError.ok piece
          → P (add_piece s a c piece now).0)
      → P (on_chunk crypto s c now).0
  unfolding on_chunk admit_chunk
  on_chunk-cases c now gone opened = elim (Bool-cases (is_ready s)) [
    | inr early ↦ rw early kept
    | inl started ↦ rw started (elim (Result-cases (structural c.msg_id c.n c.ct)) [
      | inr (failure, e) ↦ rw e kept
      | inl (done, e) ↦
          rw e
            (elim (Bool-cases (not (same_room s c.room) || not (epoch_is_acceptable s c.epoch))) [
              | inl other ↦ rw other kept
              | inr near ↦ rw near (elim (Option-cases (assembly_for s c)) [
                | inl held ↦ rw held kept
                | inr (a, held) ↦
                    rw held
                      (elim (CryptoError.Result-cases (
                        open_chunk crypto.aead (session_key crypto s c.epoch) c.epoch
                          s.identity.room_id_bytes c.msg_id c.n (pos_of c.idx c.chunk_count)
                          c.ct)) [
                            | inr (failure, closed) ↦ rw closed gone
                            | inl (piece, clear) ↦ rw clear (opened a piece held clear)
                          ])
              ])
            ])
    ])
  ]

  pub on_msg-cases :
      (m : Msg) (now : ℕ)
      → ((kind : Kind) (body : List ℕ)
          → open_msg crypto.aead
              (session_key crypto s m.epoch)
              m.epoch
              s.identity.room_id_bytes
              m.msg_id
              m.n
              m.ct
            ≡ CryptoError.ok (kind, body)
          → P
              (act_on crypto
                (record s { msg_seen = push_seen msg_seen_capacity s.msg_seen m.msg_id })
                kind
                body
                now).0)
      → P (on_msg crypto s m now).0
  unfolding on_msg admit_msg
  on_msg-cases m now opened = elim (Bool-cases (is_ready s)) [
    | inr early ↦ rw early kept
    | inl started ↦ rw started (elim (Result-cases (structural m.msg_id m.n m.ct)) [
      | inr (failure, e) ↦ rw e kept
      | inl (done, e) ↦
          rw e
            (elim (Bool-cases (not (same_room s m.room) || not (epoch_is_acceptable s m.epoch))) [
              | inl other ↦ rw other kept
              | inr near ↦ rw near (elim (Bool-cases (seen_contains s.msg_seen m.msg_id)) [
                | inl again ↦ rw again kept
                | inr first ↦
                    rw first
                      (elim (CryptoError.Result-cases (
                        open_msg crypto.aead (session_key crypto s m.epoch) m.epoch
                          s.identity.room_id_bytes m.msg_id m.n m.ct)) [
                            | inr (failure, closed) ↦ rw closed kept
                            | inl ((kind, body), clear) ↦ rw clear (opened kind body clear)
                          ])
              ])
            ])
    ])
  ]

  pub card_frame-cases :
      (draw : Draw) (now : ℕ)
      → ((keys : DeviceKeys) (conn_id : List ℕ) → P (send_card crypto s draw keys conn_id now).0)
      → P (card_frame crypto s draw now).0
  unfolding card_frame
  card_frame-cases draw now made = elim (Bool-cases (not (is_ready s) || is_refused s.msg_probe)) [
    | inl quiet ↦ rw quiet kept
    | inr able ↦ rw able (elim (Option-cases s.device_keys) [
      | inl e ↦ rw e kept
      | inr (keys, e) ↦ rw e (elim (Option-cases s.conn_id) [
        | inl f ↦ rw f kept
        | inr (conn_id, f) ↦ rw f (made keys conn_id)
      ])
    ])
  ]

pub add_piece-cases {ℓ} :
    (P : Session → Type ℓ) (s : Session) (a : Assembly) (c : ClipChunk) (piece : List ℕ) (now : ℕ)
    → P (record s { assembly = none })
    → P (record s { assembly = some (accept a c.msg_id c.epoch c.idx c.chunk_count piece).0 })
    → P
        (judge_image
          (record s { assembly = none })
          (accept a c.msg_id c.epoch c.idx c.chunk_count piece).0
          c.msg_id
          now).0
    → P (add_piece s a c piece now).0
unfolding add_piece
add_piece-cases P s a c piece now gone held finished =
    let added = accept a c.msg_id c.epoch c.idx c.chunk_count piece in
    elim (CryptoError.Result-cases added.1) [
      | inr (failure, e) ↦ rw (e, add_piece) gone
      | inl (done, e) ↦
          rw (e, add_piece)
            (elim (Bool-cases
              (not (pos_of c.idx c.chunk_count).final_chunk || not (is_complete added.0))) [
                | inl more ↦ rw more held
                | inr last ↦ rw last finished
              ])
    ]

pub on_presence-cases {ℓ} :
    (crypto : Primitives) (P : Session → Type ℓ) (s : Session) (draws : Draws) (m : Presence)
    (now : ℕ)
    → P (record s { peers = m.peers })
    → ((actions : List Action)
        → P (introduce crypto (record s { peers = m.peers }) draws.introduction actions now).0)
    → P (on_presence crypto s draws m now).0
unfolding on_presence
on_presence-cases crypto P s draws m now kept introduced = elim (Bool-cases (m.peers == s.peers)) [
  | inl same ↦ rw same kept
  | inr changed ↦ rw changed (introduced _)
]
