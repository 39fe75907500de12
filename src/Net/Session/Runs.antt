-- ===== src/Net/Session/Runs.antt =====
-- Concrete sessions, and the theorems of session.rs at concrete inputs.
use asli.Crypto.Base32.{symbol}
use asli.Crypto.Base32.{encode}
use asli.Core.Replay.Table.{insert, contains_key}
use asli.Core.Replay.{is_accept, note_device, push_seen, evict}
use asli.Crypto.Clip.{inner_header, double_until}
use asli.Net.Envelope.{fixed}
use asli.Net.Session.{publish_replay, same_room}
use asli.Net.Session.Arriving.{admit_clip, judge_clip, deliver_text, is_text}
use asli.Crypto.Clip.{code}
use asli.Crypto.Clip.{from_code}
use asli.Crypto.Clip.{decode_inner}
use asli.Crypto.Clip.{open_typed}
use asli.Crypto.Clip.{open_clip}
use asli.Core.Replay as Replay
use asli.Crypto.Clip.{padded_len}
use asli.Core.Echo.{expire_entries}
use asli.Core.Echo.{position}
use asli.Prelude.Text.{is_empty}
use asli.Prelude.{
  ℕ, ◌+◌, ◌≡◌, ◌≢◌, ◌≤◌, ◌<◌, refl, List, [], ◌∷◌, All, none, some, arith, replicate, true, false,
  if◌then◌else◌, sat_add,
}
use asli.Prelude.Bytes.{from_be, from_be_onto, same_bytes, to_be, slice, byte_at}
use asli.Prelude.Utf8.{as_bytes, from_utf8, decode_bytes, encode_char, IsScalar}
use asli.Core.Echo.{remember, take_echo}
use asli.Core.Normalize.{
  normalize, is_syncable, stripped, strip_prefix, strip_suffix, convert_lines,
}
use asli.Core.Replay.{Incoming, Verdict, contains, check, verdict, check_seq, max_age}
use asli.Core.Replay.Table.{lookup}
use asli.Core.Replay.Verdicts.{Acceptable, check-Acceptable}
use asli.Crypto.Primitives.{constant}
use asli.Crypto.Identity.{Identity, room_id}
use asli.Prelude.Text.{trim, contains_char}
use asli.Crypto.Clip.{Inner, encode_inner, seal, seal_with_nonce, seal_typed}
use asli.Crypto.Clip.Layout.{IsValid}
use asli.Net.Error.{ok}
use asli.Net.Envelope.{Clip, clip, structural}
use asli.Net.Session.{
  Session, new, ready, deliver_clip, is_ready, epoch_is_acceptable, content_hash, session_key,
}
use asli.Net.Session.Sending.{Draw, observe_local, send_text, over_limit, seal_text}
use asli.Net.Session.Arriving.{incoming, on_clip}
use asli.Net.Session.Delivery.{inner_of, on_clip-observe_local, Opens}
use asli.Net.Session.Genuine.{on_clip-Acceptable}
use asli.Net.Session.Echoes.{observe_local-on_clip}
use asli.Net.Session.Opening.{ready_phase}
use asli.Net.Session.History.{run}
use asli.Net.Session.Frames.{on_clip-Keeps}
use asli.Net.Session.Replays.{run_no_replay}
use asli.Core.Echo.Laws as EchoLaws
use asli.Core.Replay.{known_devices}
use asli.Core.Replay.Invariant.{new-IsValid}
use asli.Core.Normalize.{to_platform, crlf}
use asli.Core.Normalize.Platform.{IsPlain}
use asli.Crypto.Clip.{text}
use asli.Net.Envelope.{is_retained}

abbrev pub identity : Identity
identity = record {
  secret = replicate 32 1;
  prk = replicate 32 0;
  signing_key = replicate 32 0;
  room_id_bytes = replicate 16 0;
}

abbrev pub laptop : List ℕ
laptop = replicate 16 1

abbrev pub phone : List ℕ
phone = replicate 16 2

abbrev sender : Session
sender = record (new identity laptop 4) { phase = ready }

abbrev pub receiver : Session
receiver = record (new identity phone 9) { phase = ready }

abbrev pub draw : Draw
draw = record { id = some (replicate 16 5); nonce = some (replicate 24 6) }

-- "hi"
abbrev pub copied : List ℕ
copied = b'h' ∷ b'i' ∷ []

normalize-copied : normalize copied ≡ copied
unfolding normalize
normalize-copied = refl

abbrev pub inner : Inner
inner = inner_of sender 5 copied 1000

-- What the transparent cipher makes of it.
abbrev pub frame : Clip
frame = record {
  v = 1;
  room = room_id identity;
  epoch = 0;
  msg_id = replicate 16 5;
  n = replicate 24 6;
  ct = encode_inner inner;
  retained = none;
  stored_at = none;
}

sent :
    observe_local constant sender draw copied 1000
    ≡ (record sender { seq = 5 }, ok (some (clip frame)))
unfolding observe_local is_ready normalize is_syncable take_echo send_text over_limit seal_text seal
    seal_with_nonce seal_typed as_bytes encode_char content_hash stripped strip_prefix strip_suffix
    convert_lines contains_char trim is_empty position expire_entries new
sent = refl

valid : IsValid (inner_of sender (sat_add sender.seq 1) (normalize copied) 1000)
unfolding new normalize as_bytes
valid = record {
  device = record { size = refl; bytes = ground arith };
  seq_fits = omega arith;
  ts_fits = omega arith;
  small = omega arith;
}

scalars : All IsScalar (normalize copied)
unfolding normalize
scalars = ground arith

shaped : structural frame.msg_id frame.n frame.ct ≡ ok tt
unfolding structural encode_inner new to_be as_bytes padded_len
shaped = refl

abbrev asked : Incoming
asked = incoming frame.msg_id false (inner_of sender (sat_add sender.seq 1) (normalize copied) 1000)

accepted : (check receiver.replay asked 2000).1 ≡ Verdict.accept
unfolding check verdict contains check_seq max_age incoming new from_be from_be_onto lookup
    normalize Replay.new
accepted = refl

acceptable : Acceptable receiver.replay asked 2000
acceptable = (check-Acceptable receiver.replay asked 2000).0 accepted

started : is_ready receiver ≡ true
unfolding is_ready
started = refl

near : epoch_is_acceptable receiver sender.epoch ≡ true
unfolding epoch_is_acceptable new
near = refl

on_clip-observe_local_example :
    ((on_clip constant receiver frame 2000).1
      ≡ ok (deliver_clip (normalize copied) 1000 false sender.device_id ∷ []))
    × ((on_clip constant receiver frame 2000).0.echo ≡ (
        if receiver.echo_guard
        then remember receiver.echo (content_hash constant (normalize copied)) 2000
        else receiver.echo))
unfolding new
on_clip-observe_local_example =
    on_clip-observe_local constant sender (record sender { seq = 5 }) receiver draw copied frame
      1000 2000 valid scalars sent shaped refl started near acceptable

delivered :
    (on_clip constant receiver frame 2000).1 ≡ ok (deliver_clip copied 1000 false laptop ∷ [])
unfolding normalize new
delivered = on_clip-observe_local_example.0

on_clip-Acceptable_example :
    (opened : Inner) × Opens constant receiver frame opened
    × (opened.content_type ≡ text)
    × (from_utf8 opened.content ≡ some copied)
    × (1000 ≡ opened.ts_ms)
    × (false ≡ is_retained frame)
    × (laptop ≡ opened.device_id)
    × Acceptable receiver.replay (incoming frame.msg_id (is_retained frame) opened) 2000
    × ((on_clip constant receiver frame 2000).0.echo ≡ (
        if receiver.echo_guard
        then remember receiver.echo (content_hash constant copied) 2000
        else receiver.echo))
    × ((on_clip constant receiver frame 2000).0.phase ≡ receiver.phase)
    × ((on_clip constant receiver frame 2000).0.replay
        ≡ (check receiver.replay (incoming frame.msg_id (is_retained frame) opened) 2000).0)
on_clip-Acceptable_example =
    on_clip-Acceptable constant receiver frame 2000 copied 1000 false laptop delivered

empty_echo : EchoLaws.IsValid 0 receiver.echo
unfolding new
empty_echo = record { room = omega arith; bounded = omega arith; ordered = omega arith }

guarded : receiver.echo_guard ≡ true
unfolding new
guarded = refl

plain : IsPlain copied
unfolding contains_char
plain = record { no_cr = refl; no_bom = omega arith; no_nul = omega arith }

wanted : is_syncable copied ≡ true
unfolding is_syncable is_empty
wanted = refl

in_window : 3000 ≤ 2000 + receiver.echo.ttl_ms
unfolding new
in_window = omega arith

observe_local-on_clip_example :
    (u : Session) × (w : Session) × (u ≡ (on_clip constant receiver frame 2000).0)
    × (observe_local constant u draw (to_platform copied crlf) 3000 ≡ (w, ok none))
    × (observe_local constant w draw (to_platform copied crlf) 4000
        ≡ send_text constant
            (record w { echo = (take_echo w.echo (content_hash constant copied) 4000).0 })
            draw
            copied
            4000)
observe_local-on_clip_example =
    observe_local-on_clip constant receiver frame copied 1000 false laptop crlf draw draw 0 2000
      3000 4000 delivered guarded empty_echo (omega arith) (omega arith) in_window (omega arith)
      plain wanted

opens : Opens constant receiver frame inner
unfolding is_ready new open_clip open_typed decode_inner encode_inner to_be as_bytes padded_len
    byte_at from_code code from_be slice
opens = record { started = refl; shaped = shaped; room = refl; near = near; opens = refl }

abbrev after : Session
after = (on_clip constant receiver frame 2000).0

same_phase : after.phase ≡ ready
unfolding new
same_phase = on_clip-Acceptable_example.9

reopens : Opens constant (run constant after []) frame inner
unfolding run is_ready epoch_is_acceptable session_key new
reopens =
    let k = on_clip-Keeps constant receiver frame 2000 in
    record {
      started = ready_phase after same_phase;
      shaped = shaped;
      room = rw k.identity refl;
      near = rw k.epoch refl;
      opens = rw k.identity opens.opens;
    }

one_known : known_devices (run constant after []).replay ≡ 1
unfolding run on_clip admit_clip judge_clip deliver_text publish_replay structural fixed is_ready
    same_room same_bytes room_id epoch_is_acceptable session_key open_clip open_typed decode_inner
    from_code from_be from_be_onto slice byte_at incoming check verdict is_accept contains max_age
    check_seq lookup Replay.remember note_device push_seen insert contains_key evict is_text
    from_utf8 decode_bytes known_devices new Replay.new as_bytes encode_char to_be encode_inner
    inner_header padded_len double_until code is_retained encode symbol
one_known = refl

room_left : known_devices (run constant after []).replay < receiver.replay.device_capacity
unfolding new known_devices Replay.new
room_left = omega (arith, one_known)

run_no_replay_example :
    (on_clip constant (run constant (on_clip constant receiver frame 2000).0 []) frame 2500).1
    ≢ ok (deliver_clip copied 1000 false laptop ∷ [])
unfolding new Replay.new
run_no_replay_example =
    run_no_replay constant receiver frame frame 2000 2500 copied 1000 false laptop [] inner inner
      copied 1000 false laptop (new-IsValid (from_be phone) 86400000) opens delivered room_left
      reopens refl (omega arith)
