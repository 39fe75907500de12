-- ===== src/Net/Session/Echoes.antt =====
-- The loop that session.rs prevents: a clip that was written to the clipboard comes back as a local
-- copy.
use asli.Prelude.{ℕ, ◌+◌, ◌≤◌, ◌≡◌, refl, Bool, List, [], ◌∷◌, none, arith, true, false}
use asli.Core.Echo.{remember, take_echo}
use asli.Core.Echo.Laws.{IsValid}
use asli.Core.Echo.Remembering.{take_echo-remember}
use asli.Core.Normalize.{LineEnding, normalize, is_syncable, to_platform}
use asli.Core.Normalize.Platform.{IsPlain, normalize-to_platform}
use asli.Crypto.Primitives.{Primitives}
use asli.Net.Error.{ok}
use asli.Net.Envelope.{Clip}
use asli.Net.Session.{Session, deliver_clip, is_ready, content_hash}
use asli.Net.Session.Sending.{Draw, send_text, observe_local}
use asli.Net.Session.Arriving.{on_clip}
use asli.Net.Session.Genuine.{on_clip-Acceptable}

module _ (crypto : Primitives) where
  module _ (s : Session) (draw : Draw) (input normalized : List ℕ) (now : ℕ)
      (form : normalize input ≡ normalized) (started : is_ready s ≡ true)
      (wanted : is_syncable normalized ≡ true) where
    -- A local copy that the guard knows for an echo.
    observe_local-echo :
        (take_echo s.echo (content_hash crypto normalized) now).1 ≡ true
        → observe_local crypto s draw input now
          ≡ (record s { echo = (take_echo s.echo (content_hash crypto normalized) now).0 }, ok none)
    unfolding observe_local
    observe_local-echo echo = ground arith

    -- A local copy that it does not.
    observe_local-copy :
        (take_echo s.echo (content_hash crypto normalized) now).1 ≡ false
        → observe_local crypto s draw input now
          ≡ send_text crypto
              (record s { echo = (take_echo s.echo (content_hash crypto normalized) now).0 })
              draw
              normalized
              now
    unfolding observe_local
    observe_local-copy copy = ground arith

  ready_phase : (s u : Session) → u.phase ≡ s.phase → is_ready s ≡ true → is_ready u ≡ true
  unfolding is_ready
  ready_phase s u same started = rw same started

  -- The change of the clipboard that a delivered clip causes, in either platform's form of the text,
  -- is not sent back while the echo guard remembers it, and only once: copied again, the same text is
  -- sent as the user's own. The session leaves the echoes to its guard, whose times are in order, the
  -- text is plain and one that is synced at all. A plain text has no carriage return, no byte order
  -- mark in front and no NUL at the end: a text that was normalized from two marks in front is not
  -- plain.
  pub observe_local-on_clip :
      (s : Session) (c : Clip) (content : List ℕ) (ts : ℕ) (held : Bool) (from : List ℕ)
      (form : LineEnding) (draw next_draw : Draw) (before now later again : ℕ)
      → (on_clip crypto s c now).1 ≡ ok (deliver_clip content ts held from ∷ [])
      → s.echo_guard ≡ true
      → IsValid before s.echo
      → before ≤ now
      → now ≤ later
      → later ≤ now + s.echo.ttl_ms
      → later ≤ again
      → IsPlain content
      → is_syncable content ≡ true
      → (u : Session) × (w : Session) × (u ≡ (on_clip crypto s c now).0)
        × (observe_local crypto u draw (to_platform content form) later ≡ (w, ok none))
        × (observe_local crypto w next_draw (to_platform content form) again
            ≡ send_text crypto
                (record w { echo = (take_echo w.echo (content_hash crypto content) again).0 })
                next_draw
                content
                again)
  observe_local-on_clip s c content ts held from form draw next_draw before now later again given on
        v p q window r plain wanted =
      let (inner, opens, kind, decoded, time, mark, sender, good, echo, phase, replay) =
        on_clip-Acceptable crypto s c now content ts held from given in
      let u = (on_clip crypto s c now).0 in
      let h = content_hash crypto content in
      let form_back : normalize (to_platform content form) ≡ content =
        normalize-to_platform content form plain in
      let known : u.echo ≡ remember s.echo h now = rw echo (rw on refl) in
      let (first, second) = take_echo-remember s.echo h before now later again v p q window r in
      let started = ready_phase s u phase opens.started in
      let w : Session = record u { echo = (take_echo u.echo h later).0 } in
      let form_of = to_platform content form in
      let sent =
        observe_local-echo u draw form_of content later form_back started wanted (rw known first) in
      let fresh =
        observe_local-copy w next_draw form_of content again form_back
          (ready_phase u w refl started) wanted (rw known second) in
      (u, w, refl, sent, fresh)
