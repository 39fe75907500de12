-- ===== src/Core/Echo.antt =====
-- crates/asli-core/src/echo.rs: the ring of recent content hashes. A `ContentHash` is the number
-- that its 32 bytes spell; SHA-256 itself is not modelled, since the guard only compares hashes.
-- The `VecDeque` is a list, front first.
pub mod Laws
pub mod Expiry
pub mod Taking
pub mod Remembering
pub mod Runs
use asli.Prelude.{
  ℕ, zero, suc, ◌-◌, ◌==◌, ltb, if◌then◌else◌, Bool, true, false, not, ◌&&◌, ◌||◌, List, [], ◌∷◌,
  ◌++◌, Option, none, some, length,
}

abbrev pub default_capacity : ℕ
default_capacity = 20

abbrev pub default_ttl_ms : ℕ
default_ttl_ms = 15000

-- A hash and when it was remembered.
pub record Entry : Type 0 where
  pub hash : ℕ
  pub at_ms : ℕ

pub record EchoGuard : Type 0 where
  pub entries : List Entry
  pub capacity : ℕ
  pub ttl_ms : ℕ

-- `none` is the panic of the constructor's `assert!`.
pub new : ℕ → ℕ → Option EchoGuard
new capacity ttl_ms =
    if ltb 0 capacity
    then some (record { entries = []; capacity = capacity; ttl_ms = ttl_ms })
    else none

-- `saturating_sub` is the truncated difference.
abbrev pub is_expired : ℕ → ℕ → ℕ → Bool
is_expired ttl_ms at_ms now_ms = ltb ttl_ms (now_ms - at_ms)

-- The `while let` of `expire`: it stops at the first entry that is still live.
unfoldable pub expire_entries : ℕ → ℕ → List Entry → List Entry
expire_entries ttl_ms now_ms [] = []
expire_entries ttl_ms now_ms (e ∷ es) =
    if is_expired ttl_ms e.at_ms now_ms then expire_entries ttl_ms now_ms es else e ∷ es

unfoldable pub expire : EchoGuard → ℕ → EchoGuard
expire g now_ms = record g { entries = expire_entries g.ttl_ms now_ms g.entries }

-- `entries.retain(|(h, _)| *h != hash)`
unfoldable pub retain_other : ℕ → List Entry → List Entry
retain_other h [] = []
retain_other h (e ∷ es) = if e.hash == h then retain_other h es else e ∷ retain_other h es

unfoldable pub pop_front : List Entry → List Entry
pop_front [] = []
pop_front (e ∷ es) = es

abbrev push_back : List Entry → ℕ → ℕ → List Entry
push_back es h now_ms = es ++ (record { hash = h; at_ms = now_ms } ∷ [])

unfoldable pub remember : EchoGuard → ℕ → ℕ → EchoGuard
unfolding expire
remember g h now_ms =
    let kept = retain_other h (expire g now_ms).entries in
    let room = if length kept == g.capacity then pop_front kept else kept in
    record g { entries = push_back room h now_ms }

-- `entries.iter().position(|(h, _)| *h == hash)`
unfoldable pub position : ℕ → List Entry → Option ℕ
position h [] = none
position h (e ∷ es) =
    if e.hash == h then some 0 else elim (position h es) [ none ↦ none | some i ↦ some (suc i) ]

pub remove_at : List Entry → ℕ → List Entry
remove_at [] i = []
remove_at (e ∷ es) zero = es
remove_at (e ∷ es) (suc i) = e ∷ remove_at es i

unfoldable pub take_echo : EchoGuard → ℕ → ℕ → EchoGuard × Bool
unfolding expire
take_echo g h now_ms =
    let live = expire g now_ms in
    elim (position h live.entries) [
      | some pos ↦ (record live { entries = remove_at live.entries pos }, true)
      | none ↦ (live, false)
    ]

pub any_live : ℕ → ℕ → ℕ → List Entry → Bool
any_live ttl_ms h now_ms [] = false
any_live ttl_ms h now_ms (e ∷ es) =
    (e.hash == h && not (is_expired ttl_ms e.at_ms now_ms)) || any_live ttl_ms h now_ms es

pub contains : EchoGuard → ℕ → ℕ → Bool
contains g h now_ms = any_live g.ttl_ms h now_ms g.entries

pub len : EchoGuard → ℕ
len g = length g.entries

pub is_empty : EchoGuard → Bool
is_empty g = length g.entries == 0

pub clear : EchoGuard → EchoGuard
clear g = record g { entries = [] }
