-- ===== src/Core/Echo/Laws.antt =====
-- What echo.rs promises: the ring stays bounded and ordered, and an echo is taken exactly once.
use asli.Prelude.{ℕ, ◌≤◌, ◌<◌, ◌≢◌, List, [], ◌∷◌, ◌++◌, length, arith}
use asli.Core.Echo.{Entry, EchoGuard, expire_entries, retain_other, pop_front}

-- Times do not fall along the ring, none is after `now`, and no hash stands twice.
abbrev pub Absent : ℕ → List Entry → Type 0
Absent h [] = Unit {0}
Absent h (e ∷ es) = (e.hash ≢ h) × Absent h es

abbrev pub Ordered : ℕ → ℕ → List Entry → Type 0
Ordered lo now [] = lo ≤ now
Ordered lo now (e ∷ es) = (lo ≤ e.at_ms) × Absent e.hash es × Ordered e.at_ms now es

-- A guard at the time `now`.
pub record IsValid (now : ℕ) (g : EchoGuard) : Type 0 where
  pub room : 0 < g.capacity
  pub bounded : length g.entries ≤ g.capacity
  pub ordered : Ordered 0 now g.entries

Ordered-le : (lo now : ℕ) (es : List Entry) → Ordered lo now es → lo ≤ now
Ordered-le lo now [] h = h
Ordered-le lo now (e ∷ es) h = omega (arith, Ordered-le e.at_ms now es h.2)

pub Ordered-mono :
    (lo lo' now now' : ℕ) (es : List Entry)
    → lo' ≤ lo
    → now ≤ now'
    → Ordered lo now es
    → Ordered lo' now' es
Ordered-mono lo lo' now now' [] p q h = omega arith
Ordered-mono lo lo' now now' (e ∷ es) p q h =
    (omega arith, h.1, Ordered-mono e.at_ms e.at_ms now now' es (omega arith) q h.2)

Absent-retain_other : (k h : ℕ) (es : List Entry) → Absent k es → Absent k (retain_other h es)
unfolding retain_other
Absent-retain_other k h [] a = tt
Absent-retain_other k h (e ∷ es) a = ground (arith, Absent-retain_other k h es a.1)

pub retain_other-Absent : (h : ℕ) (es : List Entry) → Absent h (retain_other h es)
unfolding retain_other
retain_other-Absent h [] = tt
retain_other-Absent h (e ∷ es) = ground (arith, retain_other-Absent h es)

pub length-retain_other : (h : ℕ) (es : List Entry) → length (retain_other h es) ≤ length es
unfolding retain_other
length-retain_other h [] = omega arith
length-retain_other h (e ∷ es) = ground (arith, length-retain_other h es)

pub retain_other-Ordered :
    (h lo now : ℕ) (es : List Entry) → Ordered lo now es → Ordered lo now (retain_other h es)
unfolding retain_other
retain_other-Ordered h lo now [] o = o
retain_other-Ordered h lo now (e ∷ es) o = ground (
  arith,
  Absent-retain_other e.hash h es o.1,
  retain_other-Ordered h e.at_ms now es o.2,
  Ordered-mono e.at_ms lo now now (retain_other h es),
)

pub expire_entries-Ordered :
    (ttl lo now : ℕ) (es : List Entry)
    → Ordered lo now es
    → Ordered lo now (expire_entries ttl now es)
unfolding expire_entries
expire_entries-Ordered ttl lo now [] o = o
expire_entries-Ordered ttl lo now (e ∷ es) o = ground (
  arith,
  expire_entries-Ordered ttl e.at_ms now es o.2,
  Ordered-mono e.at_ms lo now now (expire_entries ttl now es),
)

pub length-expire_entries :
    (ttl now : ℕ) (es : List Entry) → length (expire_entries ttl now es) ≤ length es
unfolding expire_entries
length-expire_entries ttl now [] = omega arith
length-expire_entries ttl now (e ∷ es) = ground (arith, length-expire_entries ttl now es)

pub push_back-Ordered :
    (h lo now : ℕ) (es : List Entry)
    → Absent h es
    → Ordered lo now es
    → Ordered lo now (es ++ (record { hash = h; at_ms = now } ∷ []))
push_back-Ordered h lo now [] a o = (o, tt, omega arith)
push_back-Ordered h lo now (e ∷ es) a o =
    (o.0, Absent-push e.hash es o.1 a.0, push_back-Ordered h e.at_ms now es a.1 o.2)
  where
    Absent-push :
        (k : ℕ) (xs : List Entry)
        → Absent k xs
        → k ≢ h
        → Absent k (xs ++ (record { hash = h; at_ms = now } ∷ []))
    Absent-push k [] b ne = ground arith
    Absent-push k (x ∷ xs) b ne = (b.0, Absent-push k xs b.1 ne)

pub pop_front-Ordered :
    (lo now : ℕ) (es : List Entry) → Ordered lo now es → Ordered lo now (pop_front es)
unfolding pop_front
pop_front-Ordered lo now [] o = o
pop_front-Ordered lo now (e ∷ es) o = Ordered-mono e.at_ms lo now now es o.0 (omega arith) o.2
