-- ===== src/Net/Session/Chunks.antt =====
-- crates/asli-net/src/session.rs: a chunk that arrives, and the image that the chunks make.
use asli.Prelude.{
  ℕ, ◌==◌, if◌then◌else◌, Bool, true, false, not, ◌||◌, List, [], ◌∷◌, Option, none, some,
}
use asli.Prelude.Bytes.{same_bytes}
use asli.Core.Replay.{check, is_accept}
use asli.Crypto.Error as CryptoError
use asli.Crypto.Primitives.{Primitives}
use asli.Crypto.Clip.{Inner}
use asli.Crypto.Chunk.{Assembly, ChunkPos, pos_of, open_chunk, accept, is_complete, finish}
use asli.Crypto.Chunk
use asli.Net.Error.{Result, ok, err, out_of_order, chunk_early}
use asli.Net.Envelope.{ClipChunk, structural}
use asli.Net.Session.{
  Session, Action, is_ready, same_room, epoch_is_acceptable, publish_replay, assembly_cap, dropped,
  deliver_image, could_not_decrypt, replay_verdict, session_key,
}
use asli.Net.Session.Arriving.{incoming, is_text}

unfoldable pub starting_over : Session → List ℕ → Bool
starting_over s msg_id = elim s.assembly [
  | none ↦ true
  | some existing ↦ not (same_bytes existing.msg_id msg_id)
]

-- The assembly that the chunk goes to: the one in progress, or a new one for a first chunk.
unfoldable pub assembly_for : Session → ClipChunk → Option Assembly
unfolding starting_over
assembly_for s c =
    let started : Option Assembly =
      elim (Chunk.new c.msg_id c.epoch c.chunk_count (assembly_cap s)) [
        | CryptoError.err failure ↦ none
        | CryptoError.ok a ↦ some a
      ] in
    if starting_over s c.msg_id then (if c.idx == 0 then started else none) else s.assembly

-- An image that the replay guard accepted; a text is never sent in chunks and is ignored.
unfoldable pub deliver_png : Session → Inner → Session × List Action
deliver_png s inner =
    if is_text inner.content_type
    then (s, [])
    else (s, deliver_image inner.content inner.ts_ms inner.device_id ∷ [])

-- The last chunk has come and none is missing; the session has let go of the assembly.
unfoldable pub judge_image : Session → Assembly → List ℕ → ℕ → Session × List Action
unfolding deliver_png
judge_image s a msg_id now_ms = elim (finish a) [
  | CryptoError.err failure ↦ (s, dropped could_not_decrypt false)
  | CryptoError.ok inner ↦
      let checked = check s.replay (incoming msg_id false inner) now_ms in
      let t : Session = record s { replay = checked.0 } in
      if is_accept checked.1
      then deliver_png (publish_replay t) inner
      else (t, dropped (replay_verdict checked.1) false)
]

-- A chunk that was opened, for the assembly `a`.
unfoldable pub add_piece : Session → Assembly → ClipChunk → List ℕ → ℕ → Session × List Action
unfolding judge_image
add_piece s a c piece now_ms =
    let added = accept a c.msg_id c.epoch c.idx c.chunk_count piece in
    elim added.1 [
      | CryptoError.err failure ↦ (record s { assembly = none }, [])
      | CryptoError.ok done ↦
          if not (pos_of c.idx c.chunk_count).final_chunk || not (is_complete added.0)
          then (record s { assembly = some added.0 }, [])
          else judge_image (record s { assembly = none }) added.0 c.msg_id now_ms
    ]

module _ (crypto : Primitives) where
  -- From the comparison of the rooms on: what is refused is a discard, and no error.
  unfoldable pub admit_chunk : Session → ClipChunk → ℕ → Session × List Action
  unfolding assembly_for add_piece
  admit_chunk s c now_ms =
      if not (same_room s c.room) || not (epoch_is_acceptable s c.epoch)
      then (s, [])
      else elim (assembly_for s c) [
        | none ↦ (s, [])
        | some a ↦
            elim (open_chunk crypto.aead (session_key crypto s c.epoch) c.epoch
              s.identity.room_id_bytes c.msg_id c.n (pos_of c.idx c.chunk_count) c.ct) [
                | CryptoError.err failure ↦ (record s { assembly = none }, [])
                | CryptoError.ok piece ↦ add_piece s a c piece now_ms
              ]
      ]

  unfoldable pub on_chunk : Session → ClipChunk → ℕ → Session × Result (List Action)
  unfolding admit_chunk
  on_chunk s c now_ms =
      if not (is_ready s)
      then (s, err (out_of_order chunk_early))
      else elim (structural c.msg_id c.n c.ct) [
        | err failure ↦ (s, err failure)
        | ok done ↦ ((admit_chunk s c now_ms).0, ok (admit_chunk s c now_ms).1)
      ]
