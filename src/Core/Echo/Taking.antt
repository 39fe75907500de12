-- ===== src/Core/Echo/Taking.antt =====
-- `take_echo` and `contains` against one another.
use asli.Prelude.{ℕ, ◌≤◌, ◌==◌, if◌then◌else◌, ◌≡◌, sym, ◌∙◌, false, arith, inl, inr, Option-cases}
use asli.Core.Echo.{EchoGuard, expire_entries, expire, position, take_echo, contains}
use asli.Core.Echo.Laws.{IsValid, Ordered-mono, length-expire_entries}
use asli.Core.Echo.Expiry.{
  any_live-expire_entries, has-position, any_live-position, position-has, any_live-remove_at,
  remove_at-Ordered, length-remove_at, expire_entries-has, expire-IsValid,
}

-- On a valid guard, with a clock that does not run backwards, `take_echo` answers what `contains`
-- answers, and the guard that it leaves is valid.
pub take_echo-contains :
    (g : EchoGuard) (h before now : ℕ)
    → IsValid before g
    → before ≤ now
    → ((take_echo g h now).1 ≡ contains g h now) × IsValid now (take_echo g h now).0
unfolding take_echo contains
take_echo-contains g h before now v p =
    let live = expire_entries g.ttl_ms now g.entries in
    let w = expire-IsValid g before now v p in
    let found =
      expire_entries-has g.ttl_ms h 0 now g.entries
        (Ordered-mono 0 0 before now g.entries (omega arith) p v.ordered) in
    elim (Option-cases (position h live)) [
      | inl e ↦ rw (e, take_echo) (sym (has-position h live e) ∙ found, unfold expire in w)
      | inr (i, e) ↦
          rw (e, take_echo)
            (
              sym (position-has h i live e) ∙ found,
              record {
                room = v.room;
                bounded = omega (
                  arith,
                  length-remove_at i live,
                  length-expire_entries g.ttl_ms now g.entries,
                  v.bounded,
                );
                ordered = unfold expire in remove_at-Ordered 0 now i live w.ordered;
              },
            )
    ]

-- Taking an echo forgets that hash, and no other: what `contains` says of every other hash, at any
-- later time, is what it said before.
pub contains-take_echo :
    (g : EchoGuard) (h k before now later : ℕ)
    → IsValid before g
    → before ≤ now
    → now ≤ later
    → contains (take_echo g h now).0 k later ≡ (if k == h then false else contains g k later)
unfolding take_echo contains
contains-take_echo g h k before now later v p q =
    let live = expire_entries g.ttl_ms now g.entries in
    let w = expire-IsValid g before now v p in
    let same = any_live-expire_entries g.ttl_ms k now later g.entries q in
    elim (Option-cases (position h live)) [
      | inl e ↦ rw (e, take_echo) (ground (arith, same, any_live-position g.ttl_ms h later live e))
      | inr (i, e) ↦
          rw (e, take_echo)
            (ground (
              arith,
              same,
              any_live-remove_at g.ttl_ms h k later i 0 now live (unfold expire in w.ordered) e,
            ))
    ]
