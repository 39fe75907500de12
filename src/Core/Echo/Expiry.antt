-- ===== src/Core/Echo/Expiry.antt =====
-- What expiry, a search and a removal leave of the entries.
use asli.Prelude.{
  ℕ, zero, suc, ◌-◌, ◌≤◌, ◌==◌, if◌then◌else◌, ◌≡◌, refl, sym, ◌∙◌, Bool, true, false, ◌||◌, List,
  [], ◌∷◌, none, some, length, arith,
}
use asli.Core.Echo.{Entry, EchoGuard, expire_entries, expire, position, remove_at, any_live}
use asli.Core.Echo.Laws.{
  Absent, Ordered, IsValid, Ordered-mono, expire_entries-Ordered, length-expire_entries,
}

pub has : ℕ → List Entry → Bool
has h [] = false
has h (e ∷ es) = e.hash == h || has h es

abbrev pub AllLive : ℕ → ℕ → List Entry → Type 0
AllLive ttl now [] = Unit {0}
AllLive ttl now (e ∷ es) = (now - e.at_ms ≤ ttl) × AllLive ttl now es

pub Ordered-AllLive :
    (ttl lo now : ℕ) (es : List Entry) → Ordered lo now es → now - lo ≤ ttl → AllLive ttl now es
Ordered-AllLive ttl lo now [] o h = tt
Ordered-AllLive ttl lo now (e ∷ es) o h =
    (omega arith, Ordered-AllLive ttl e.at_ms now es o.2 (omega arith))

pub expire_entries-AllLive :
    (ttl lo now : ℕ) (es : List Entry)
    → Ordered lo now es
    → AllLive ttl now (expire_entries ttl now es)
unfolding expire_entries
expire_entries-AllLive ttl lo now [] o = tt
expire_entries-AllLive ttl lo now (e ∷ es) o =
    ground
      (arith, expire_entries-AllLive ttl e.at_ms now es o.2, Ordered-AllLive ttl e.at_ms now es o.2)

pub any_live-AllLive :
    (ttl h now : ℕ) (es : List Entry) → AllLive ttl now es → any_live ttl h now es ≡ has h es
unfolding any_live has
any_live-AllLive ttl h now [] a = refl
any_live-AllLive ttl h now (e ∷ es) a = ground (arith, any_live-AllLive ttl h now es a.1)

-- What has expired by `now` is not found at any later time.
pub any_live-expire_entries :
    (ttl h now later : ℕ) (es : List Entry)
    → now ≤ later
    → any_live ttl h later (expire_entries ttl now es) ≡ any_live ttl h later es
unfolding any_live expire_entries
any_live-expire_entries ttl h now later [] p = refl
any_live-expire_entries ttl h now later (e ∷ es) p =
    ground (arith, any_live-expire_entries ttl h now later es p)

pub has-position : (h : ℕ) (es : List Entry) → position h es ≡ none → has h es ≡ false
unfolding has position
has-position h [] e = refl
has-position h (x ∷ es) e = ground (arith, has-position h es)

pub any_live-position :
    (ttl h now : ℕ) (es : List Entry) → position h es ≡ none → any_live ttl h now es ≡ false
unfolding any_live position
any_live-position ttl h now [] e = refl
any_live-position ttl h now (x ∷ es) e = ground (arith, any_live-position ttl h now es)

pub any_live-Absent :
    (ttl h now : ℕ) (es : List Entry) → Absent h es → any_live ttl h now es ≡ false
unfolding any_live
any_live-Absent ttl h now [] a = refl
any_live-Absent ttl h now (x ∷ es) a = ground (arith, any_live-Absent ttl h now es a.1)

pub position-has : (h p : ℕ) (es : List Entry) → position h es ≡ some p → has h es ≡ true
unfolding has position
position-has h p [] e = absurd (ground arith)
position-has h zero (x ∷ es) e = ground arith
position-has h (suc p) (x ∷ es) e = ground (arith, position-has h p es)

pub any_live-remove_at :
    (ttl h k t p lo now : ℕ) (es : List Entry)
    → Ordered lo now es
    → position h es ≡ some p
    → any_live ttl k t (remove_at es p) ≡ (if k == h then false else any_live ttl k t es)
unfolding any_live position remove_at
any_live-remove_at ttl h k t p lo now [] o e = absurd (ground arith)
any_live-remove_at ttl h k t zero lo now (x ∷ es) o e = ground (arith, any_live-Absent ttl k t es)
any_live-remove_at ttl h k t (suc p) lo now (x ∷ es) o e =
    ground (arith, any_live-remove_at ttl h k t p x.at_ms now es o.2)

pub Absent-remove_at : (k p : ℕ) (es : List Entry) → Absent k es → Absent k (remove_at es p)
unfolding remove_at
Absent-remove_at k p [] a = tt
Absent-remove_at k zero (e ∷ es) a = a.1
Absent-remove_at k (suc p) (e ∷ es) a = (a.0, Absent-remove_at k p es a.1)

pub remove_at-Ordered :
    (lo now p : ℕ) (es : List Entry) → Ordered lo now es → Ordered lo now (remove_at es p)
unfolding remove_at
remove_at-Ordered lo now p [] o = o
remove_at-Ordered lo now zero (e ∷ es) o = Ordered-mono e.at_ms lo now now es o.0 (omega arith) o.2
remove_at-Ordered lo now (suc p) (e ∷ es) o =
    (o.0, Absent-remove_at e.hash p es o.1, remove_at-Ordered e.at_ms now p es o.2)

pub length-remove_at : (p : ℕ) (es : List Entry) → length (remove_at es p) ≤ length es
unfolding remove_at
length-remove_at p [] = omega arith
length-remove_at zero (e ∷ es) = omega arith
length-remove_at (suc p) (e ∷ es) = omega (arith, length-remove_at p es)

-- Times are in order, so expiry leaves exactly what `contains` still finds.
pub expire_entries-has :
    (ttl h lo now : ℕ) (es : List Entry)
    → Ordered lo now es
    → has h (expire_entries ttl now es) ≡ any_live ttl h now es
expire_entries-has ttl h lo now es o =
    sym (any_live-AllLive ttl h now _ (expire_entries-AllLive ttl lo now es o))
    ∙ any_live-expire_entries ttl h now now es (omega arith)

pub expire-IsValid :
    (g : EchoGuard) (before now : ℕ) → IsValid before g → before ≤ now → IsValid now (expire g now)
unfolding expire
expire-IsValid g before now v p = record {
  room = v.room;
  bounded = omega (arith, length-expire_entries g.ttl_ms now g.entries, v.bounded);
  ordered =
      expire_entries-Ordered g.ttl_ms 0 now g.entries
        (Ordered-mono 0 0 before now g.entries (omega arith) p v.ordered);
}
