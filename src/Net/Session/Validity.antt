-- ===== src/Net/Session/Validity.antt =====
-- The size of what a session of session.rs holds, whatever the relay sends.
use asli.Prelude.{
  ℕ, ◌-◌, ◌≡◌, ◌≤◌, ◌<◌, sym, subst, Bool, List, [], ◌∷◌, All, Option, none, some, arith, leb,
  Bool-cases, Option-cases, inl, inr, ◌⊎◌, length, length-append, u64_max, sat_add, max,
}
use asli.Crypto.Error as CryptoError
use asli.Crypto.Primitives.{Primitives}
use asli.Crypto.Chunk.{Assembly, accept}
use asli.Crypto.Chunk as Chunk
use asli.Crypto.Chunk.Assembling.{new-IsValid, accept-IsValid, new-fresh, accept-max_bytes}
use asli.Crypto.Chunk.Assembling as Assembling
use asli.Crypto.Clip.{Inner}
use asli.Crypto.Msg.{Kind}
use asli.Net.Envelope.{Message, Clip, ClipChunk, Limits}
use asli.Net.Envelope as Envelope
use asli.Net.Session.{
  Session, Action, publish_replay, assembly_cap, max_content_bytes, push_seen, msg_seen_capacity,
  announce_seen_capacity,
}
use asli.Net.Session.Cases.{
  on_clip-cases, on_chunk-cases, on_msg-cases, add_piece-cases, on_presence-cases,
}
use asli.Net.Session.History.{run, run-keeps_when}
use asli.Net.Session.Chunks.{assembly_for, judge_image, on_chunk, deliver_png}
use asli.Net.Session.Sending.{Draw, msg_frame}
use asli.Net.Session.Introducing.{send_card, card_frame, announce_frame, introduce}
use asli.Net.Session.Arriving.{deliver_text, judge_clip}
use asli.Net.Session.Messages.{
  act_on, on_card, pin_card, learn, on_announce, admit_announce, learn_peer,
}
use asli.Net.Session.Handling.{Draws, dispatch, on_challenge, on_auth_ok, on_relay_error}

-- An assembly whose counters agree with its pieces, and whose cap leaves room to count.
abbrev pub Held : Option Assembly → Type 0
Held none = Unit {0}
Held (some a) = Assembling.IsValid a × (a.max_bytes < u64_max)

-- A content limit that leaves room for the header and the padding of the largest content.
abbrev pub Fits : Option Limits → Type 0
Fits none = Unit {0}
Fits (some l) = l.max_content_bytes < u64_max - 65575

pub record IsValid (s : Session) : Type 0 where
  pub assembly : Held s.assembly
  pub limits : Fits s.limits
  pub announced : length s.announce_seen ≤ announce_seen_capacity
  pub messages : length s.msg_seen ≤ msg_seen_capacity

-- A challenge whose content limit fits.
abbrev pub IsSane : Message → Type 0
IsSane (Envelope.challenge m) = Fits (some m.limits)
IsSane _ = Unit {0}

abbrev Short : List (List ℕ) → Type 0
Short seen = length seen ≤ announce_seen_capacity

abbrev Long : List (List ℕ) → Type 0
Long seen = length seen ≤ msg_seen_capacity

length-push_seen :
    (cap : ℕ) (seen : List (List ℕ)) (id : List ℕ)
    → 0 < cap
    → length seen ≤ cap
    → length (push_seen cap seen id) ≤ cap
unfolding push_seen
length-push_seen cap [] id room small = ground arith
length-push_seen cap (x ∷ xs) id room small = elim (Bool-cases (leb cap (length (x ∷ xs)))) [
  | inl full ↦ rw full (omega (arith, length-append xs (id ∷ [])))
  | inr space ↦ rw space (ground (arith, length-append (x ∷ xs) (id ∷ [])))
]

cap-fits : (n : ℕ) → n < u64_max - 65575 → sat_add (sat_add n 39) 65536 < u64_max
cap-fits n h = ground arith

assembly_cap-fits : (s : Session) → Fits s.limits → assembly_cap s < u64_max
unfolding assembly_cap max_content_bytes
assembly_cap-fits s v = elim (Option-cases s.limits) [
  | inl e ↦ rw (e, assembly_cap, max_content_bytes) (omega arith)
  | inr (l, e) ↦
      let small : Fits (some l) = subst Fits e v in
      rw (e, assembly_cap, max_content_bytes)
        (cap-fits (max l.max_content_bytes 33554432) (omega arith))
]

-- The parts that the invariant speaks of are the same.
record Alike (s t : Session) : Type 0 where
  assembly : t.assembly ≡ s.assembly
  limits : t.limits ≡ s.limits
  announced : t.announce_seen ≡ s.announce_seen
  messages : t.msg_seen ≡ s.msg_seen

Alike-IsValid : (s t : Session) → Alike s t → IsValid s → IsValid t
Alike-IsValid s t k v = record {
  assembly = rw k.assembly v.assembly;
  limits = rw k.limits v.limits;
  announced = rw k.announced v.announced;
  messages = rw k.messages v.messages;
}

assembly_for-cases :
    (s : Session) (c : ClipChunk) (a : Assembly)
    → assembly_for s c ≡ some a
    → (s.assembly ≡ some a)
      ⊎ (Chunk.new c.msg_id c.epoch c.chunk_count (assembly_cap s) ≡ CryptoError.ok a)
unfolding assembly_for
assembly_for-cases s c a e = ground arith

assembly_for-Held :
    (s : Session) (c : ClipChunk) (a : Assembly)
    → IsValid s
    → assembly_for s c ≡ some a
    → Held (some a)
assembly_for-Held s c a v e = elim (assembly_for-cases s c a e) [
  | inl kept ↦ subst Held kept v.assembly
  | inr made ↦
      let shape = new-fresh c.msg_id c.epoch c.chunk_count (assembly_cap s) a made in
      (
        new-IsValid c.msg_id c.epoch c.chunk_count (assembly_cap s) a made,
        rw shape (assembly_cap-fits s v.limits),
      )
]

accept-Held :
    (a : Assembly) (c : ClipChunk) (piece : List ℕ)
    → Held (some a)
    → Held (some (accept a c.msg_id c.epoch c.idx c.chunk_count piece).0)
accept-Held a c piece h = (
  accept-IsValid a c.msg_id c.epoch c.idx c.chunk_count piece h.0 h.1,
  rw (accept-max_bytes a c.msg_id c.epoch c.idx c.chunk_count piece) h.1,
)

-- A session with another assembly, or none.
with_assembly-IsValid :
    (s : Session) (a : Option Assembly) → Held a → IsValid s → IsValid (record s { assembly = a })
with_assembly-IsValid s a h v = record {
  assembly = h;
  limits = v.limits;
  announced = v.announced;
  messages = v.messages;
}

judge_image-Alike :
    (s : Session) (a : Assembly) (id : List ℕ) (now : ℕ) → Alike s (judge_image s a id now).0
unfolding judge_image deliver_png publish_replay
judge_image-Alike s a id now = ground arith

module _ (crypto : Primitives) where
  on_chunk-IsValid :
      (s : Session) (c : ClipChunk) (now : ℕ) → IsValid s → IsValid (on_chunk crypto s c now).0
  on_chunk-IsValid s c now v =
      let gone = with_assembly-IsValid s none tt v in
      on_chunk-cases crypto IsValid s v c now gone λ a piece held clear.
        let h = accept-Held a c piece (assembly_for-Held s c a v held) in
        add_piece-cases IsValid s a c piece now gone (with_assembly-IsValid s _ h v)
          (Alike-IsValid (record s { assembly = none }) _ (judge_image-Alike _ _ c.msg_id now) gone)

  judge_clip-Alike :
      (s : Session) (id : List ℕ) (inner : Inner) (r : Bool) (now : ℕ)
      → Alike s (judge_clip crypto s id inner r now).0
  unfolding judge_clip deliver_text publish_replay
  judge_clip-Alike s id inner r now = ground arith

  act_on-Alike :
      (s : Session) (kind : Kind) (body : List ℕ) (now : ℕ)
      → Alike s (act_on crypto s kind body now).0
  unfolding act_on on_card pin_card learn
  act_on-Alike s kind body now = ground arith

  introduce-Alike :
      (s : Session) (draws : Draw × Draw) (actions : List Action) (now : ℕ)
      → Alike s (introduce crypto s draws actions now).0
  unfolding introduce announce_frame card_frame send_card msg_frame
  introduce-Alike s draws actions now = ground arith

  on_relay_error-Alike : (s : Session) (e : Envelope.ErrorMessage) → Alike s (on_relay_error s e).0
  unfolding on_relay_error
  on_relay_error-Alike s e = ground arith

  on_announce-IsValid :
      (s : Session) (m : Envelope.Announce) (now : ℕ)
      → IsValid s
      → IsValid (on_announce crypto s m now).0
  unfolding on_announce admit_announce learn_peer
  on_announce-IsValid s m now v =
      let small =
        length-push_seen announce_seen_capacity s.announce_seen m.msg_id (omega arith)
          v.announced in
      let t = (on_announce crypto s m now).0 in
      let seen : (t.announce_seen ≡ s.announce_seen)
          ⊎ (t.announce_seen ≡ push_seen announce_seen_capacity s.announce_seen m.msg_id) =
        ground arith in
      let same : t.assembly ≡ s.assembly = ground arith in
      let limits : t.limits ≡ s.limits = ground arith in
      let others : t.msg_seen ≡ s.msg_seen = ground arith in
      record {
        assembly = subst Held (sym same) v.assembly;
        limits = subst Fits (sym limits) v.limits;
        announced = elim seen [
          | inl e ↦ subst Short (sym e) v.announced
          | inr e ↦ subst Short (sym e) small
        ];
        messages = subst Long (sym others) v.messages;
      }

  on_challenge-IsValid :
      (s : Session) (random : Option (List ℕ)) (c : Envelope.Challenge) (now : ℕ)
      → IsValid s
      → Fits (some c.limits)
      → IsValid (on_challenge crypto s random c now).0
  unfolding on_challenge
  on_challenge-IsValid s random c now v fits =
      let t = (on_challenge crypto s random c now).0 in
      let limits : (t.limits ≡ s.limits) ⊎ (t.limits ≡ some c.limits) = ground arith in
      let same : t.assembly ≡ s.assembly = ground arith in
      let seen : t.announce_seen ≡ s.announce_seen = ground arith in
      let others : t.msg_seen ≡ s.msg_seen = ground arith in
      record {
        assembly = subst Held (sym same) v.assembly;
        limits = elim limits [
          | inl e ↦ subst Fits (sym e) v.limits
          | inr e ↦ subst Fits (sym e) fits
        ];
        announced = subst Short (sym seen) v.announced;
        messages = subst Long (sym others) v.messages;
      }

  dispatch-IsValid :
      (s : Session) (draws : Draws) (m : Message) (now : ℕ)
      → IsValid s
      → IsSane m
      → IsValid (dispatch crypto s draws m now).0
  unfolding dispatch on_auth_ok
  dispatch-IsValid s draws (Envelope.clip m) now v fits =
      on_clip-cases crypto IsValid s v m now
        λ inner opened. Alike-IsValid s _ (judge_clip-Alike s m.msg_id inner _ now) v
  dispatch-IsValid s draws (Envelope.clip_begin m) now v fits = on_chunk-IsValid s m now v
  dispatch-IsValid s draws (Envelope.clip_chunk m) now v fits = on_chunk-IsValid s m now v
  dispatch-IsValid s draws (Envelope.clip_end m) now v fits = on_chunk-IsValid s m now v
  dispatch-IsValid s draws (Envelope.device_msg m) now v fits =
      on_msg-cases crypto IsValid s v m now λ kind body opened.
        Alike-IsValid _ _ (act_on-Alike _ kind body now) (record {
          assembly = v.assembly;
          limits = v.limits;
          announced = v.announced;
          messages =
              length-push_seen msg_seen_capacity s.msg_seen m.msg_id (omega arith) v.messages;
        })
  dispatch-IsValid s draws (Envelope.challenge m) now v fits =
      on_challenge-IsValid s draws.client_nonce m now v fits
  dispatch-IsValid s draws (Envelope.auth_ok m) now v fits =
      Alike-IsValid _ _ (introduce-Alike _ draws.introduction _ now) (record {
        assembly = v.assembly;
        limits = v.limits;
        announced = v.announced;
        messages = v.messages;
      })
  dispatch-IsValid s draws (Envelope.presence m) now v fits =
      let w : IsValid (record s { peers = m.peers }) = record {
        assembly = v.assembly;
        limits = v.limits;
        announced = v.announced;
        messages = v.messages;
      } in
      on_presence-cases crypto IsValid s draws m now w
        λ actions. Alike-IsValid _ _ (introduce-Alike _ draws.introduction actions now) w
  dispatch-IsValid s draws (Envelope.announce m) now v fits = on_announce-IsValid s m now v
  dispatch-IsValid s draws (Envelope.relay_error m) now v fits =
      Alike-IsValid s _ (on_relay_error-Alike s m) v
  dispatch-IsValid s draws _ now v fits = v

  -- Whatever frames the relay sends, in whatever order, as long as the content limits that it announces
  -- leave room for a header and its padding in 64 bits: the session's one assembly stays consistent,
  -- with no more bytes than its cap, and the two queues of message ids do not outgrow 64 and 256.
  pub run_session-IsValid :
      (s : Session) (frames : List (Message × Draws × ℕ))
      → IsValid s
      → All (λ f. IsSane f.0) frames
      → IsValid (run crypto s frames)
  run_session-IsValid s frames v fits =
      run-keeps_when crypto IsValid IsSane (λ t. dispatch-IsValid t) frames s v fits
