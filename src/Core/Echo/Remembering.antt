-- ===== src/Core/Echo/Remembering.antt =====
-- `remember`, and what is found and taken after it.
use asli.Prelude.{
  ℕ, ◌+◌, ◌-◌, ◌≤◌, ◌<◌, ◌==◌, if◌then◌else◌, ◌≡◌, ◌∙◌, true, false, not, ◌&&◌, ◌||◌, List, [], ◌∷◌,
  ◌++◌, length, length-append, arith, inl, inr, Bool-cases, ◌≢◌, ==→eq, ==_self,
}
use asli.Core.Echo.{
  Entry, EchoGuard, is_expired, expire_entries, expire, retain_other, pop_front, remember,
  take_echo, any_live, contains,
}
use asli.Core.Echo.Laws.{
  Absent, IsValid, retain_other-Absent, length-retain_other, retain_other-Ordered,
  length-expire_entries, push_back-Ordered, pop_front-Ordered,
}
use asli.Core.Echo.Expiry.{any_live-expire_entries, any_live-Absent, expire-IsValid}
use asli.Core.Echo.Taking.{take_echo-contains, contains-take_echo}

any_live-push_back :
    (ttl h k at t : ℕ) (es : List Entry)
    → any_live ttl k t (es ++ (record { hash = h; at_ms = at } ∷ []))
      ≡ (any_live ttl k t es || (h == k && not (is_expired ttl at t)))
unfolding any_live
any_live-push_back ttl h k at t [] = ground arith
any_live-push_back ttl h k at t (e ∷ es) = ground (arith, any_live-push_back ttl h k at t es)

any_live-retain_other :
    (ttl h k t : ℕ) (es : List Entry)
    → any_live ttl k t (retain_other h es) ≡ (if k == h then false else any_live ttl k t es)
unfolding any_live retain_other
any_live-retain_other ttl h k t [] = ground arith
any_live-retain_other ttl h k t (e ∷ es) = ground (arith, any_live-retain_other ttl h k t es)

pop_front-shrinks : (es : List Entry) → length (pop_front es) ≡ length es - 1
unfolding pop_front
pop_front-shrinks [] = omega arith
pop_front-shrinks (e ∷ es) = omega arith

Absent-pop_front : (h : ℕ) (es : List Entry) → Absent h es → Absent h (pop_front es)
unfolding pop_front
Absent-pop_front h [] a = tt
Absent-pop_front h (e ∷ es) a = a.1

-- On a valid guard, with a clock that does not run backwards, `remember` keeps the guard valid: at
-- most `capacity` entries, in the order of their times, no hash twice.
pub remember-IsValid :
    (g : EchoGuard) (h before now : ℕ)
    → IsValid before g
    → before ≤ now
    → IsValid now (remember g h now)
unfolding remember expire
remember-IsValid g h before now v p =
    let w = expire-IsValid g before now v p in
    let kept = retain_other h (expire g now).entries in
    let o = retain_other-Ordered h 0 now (expire g now).entries w.ordered in
    let a = retain_other-Absent h (expire g now).entries in
    let n = length-retain_other h (expire g now).entries in
    elim (Bool-cases (length kept == g.capacity)) [
      | inl full ↦ rw full (record {
        room = v.room;
        bounded = omega (
          arith,
          length-append (pop_front kept) (record { hash = h; at_ms = now } ∷ []),
          pop_front-shrinks kept,
          n,
          w.bounded,
          ==→eq _ _ full,
          v.room,
        );
        ordered =
            push_back-Ordered h 0 now (pop_front kept) (Absent-pop_front h kept a)
              (pop_front-Ordered 0 now kept o);
      })
      | inr free ↦ rw free (record {
        room = v.room;
        bounded =
            ground
              (arith, length-append kept (record { hash = h; at_ms = now } ∷ []), n, w.bounded);
        ordered = push_back-Ordered h 0 now kept a o;
      })
    ]

-- A remembered hash is found at a later time exactly while its time to live has not passed,
-- whatever had to make room for it.
pub contains-remember_self :
    (g : EchoGuard) (h now later : ℕ)
    → contains (remember g h now) h later ≡ not (is_expired g.ttl_ms now later)
unfolding contains remember
contains-remember_self g h now later =
    let kept = retain_other h (expire g now).entries in
    let a = retain_other-Absent h (expire g now).entries in
    elim (Bool-cases (length kept == g.capacity)) [
      | inl full ↦ rw full (
          ground (
            arith,
            any_live-push_back g.ttl_ms h h now later (pop_front kept),
            any_live-Absent g.ttl_ms h later (pop_front kept) (Absent-pop_front h kept a),
          ))
      | inr free ↦ rw free (
          ground (
            arith,
            any_live-push_back g.ttl_ms h h now later kept,
            any_live-Absent g.ttl_ms h later kept a,
          ))
    ]

-- While the ring is not full, remembering a hash leaves what `contains` says of every other hash,
-- now and later, as it was.
pub contains-remember_other :
    (g : EchoGuard) (h k now later : ℕ)
    → now ≤ later
    → length g.entries < g.capacity
    → k ≢ h
    → contains (remember g h now) k later ≡ contains g k later
unfolding contains remember expire
contains-remember_other g h k now later p room ne =
    let live = expire_entries g.ttl_ms now g.entries in
    let kept = retain_other h live in
    let free : (length kept == g.capacity) ≡ false =
      ground (arith, length-retain_other h live, length-expire_entries g.ttl_ms now g.entries) in
    rw free (
      ground (
        arith,
        any_live-push_back g.ttl_ms h k now later kept,
        any_live-retain_other g.ttl_ms h k later live,
        any_live-expire_entries g.ttl_ms k now later g.entries p,
      ))

-- A hash written to the clipboard at `now` on a valid guard is taken as an echo at any later time
-- within the time to live, and exactly once: the same change seen again is the user's own.
pub take_echo-remember :
    (g : EchoGuard) (h before now later again : ℕ)
    → IsValid before g
    → before ≤ now
    → now ≤ later
    → later ≤ now + g.ttl_ms
    → later ≤ again
    → ((take_echo (remember g h now) h later).1 ≡ true)
      × ((take_echo (take_echo (remember g h now) h later).0 h again).1 ≡ false)
take_echo-remember g h before now later again v p q fresh r =
    let w = remember-IsValid g h before now v p in
    let once = take_echo-contains (remember g h now) h now later w q in
    let twice =
      take_echo-contains (take_echo (remember g h now) h later).0 h later again once.1 r in
    (
      once.0 ∙ contains-remember_self g h now later ∙ ground arith,
      twice.0 ∙ contains-take_echo (remember g h now) h h now later again w q r ∙ rw (==_self h),
    )
