-- ===== src/Net/State/Traces.antt =====
-- What must have happened before clips are exchanged.
use asli.Prelude.{ℕ, true, ◌≡◌, ◌≢◌, ◌↔◌, ◌⊎◌, inl, inr, refl, ap, arith, List, [], ◌∷◌, All, ◌++◌}
use asli.Net.State.{
  AuthFailCode, ErrorCode, State, Input, after_auth_fail, after_close, next, can_send,
  wants_connection, disconnected, connecting, synced, paused, rate_limited, fatal, dial,
  socket_open, auth_ok, auth_fail, relay_error, closed, pause, resume, reset, rate_limit,
  quota_exceeded,
}
use asli.Net.State.Terminal.{run}

-- The inputs that leave an established connection alone.
abbrev pub Keeps : Input → Type 0
Keeps (auth_fail code) = ⊥
Keeps (closed code) = ⊥
Keeps pause = ⊥
Keeps (relay_error code) = (code ≢ rate_limit) × (code ≢ quota_exceeded)
Keeps _ = Unit {0}

after_auth_fail-ne-synced : (code : AuthFailCode) → after_auth_fail code ≢ synced
unfolding after_auth_fail
after_auth_fail-ne-synced AuthFailCode.unsupported_version e = cc
after_auth_fail-ne-synced _ e = cc

after_close-ne-synced : (code : ℕ) → after_close code ≢ synced
unfolding after_close
after_close-ne-synced code e = ground arith

next-relay_error :
    (code : ErrorCode) → next synced (relay_error code) ≡ synced → Keeps (relay_error code)
unfolding next
next-relay_error rate_limit e = cc
next-relay_error quota_exceeded e = cc
next-relay_error _ e = (λ p. cc, λ p. cc)

next-synced : (s : State) (i : Input) → next s i ≡ synced → ((s ≡ synced) × Keeps i) ⊎ (i ≡ auth_ok)
unfolding next
next-synced s auth_ok e = inr refl
next-synced synced dial e = inl (refl, tt)
next-synced synced socket_open e = inl (refl, tt)
next-synced synced (relay_error code) e = inl (refl, next-relay_error code e)
next-synced synced resume e = inl (refl, tt)
next-synced synced reset e = inl (refl, tt)
next-synced (fatal reason) reset e = cc
next-synced (fatal reason) _ e = cc
next-synced paused resume e = cc
next-synced paused _ e = cc
next-synced s (auth_fail code) e = absurd (after_auth_fail-ne-synced code e)
next-synced s (closed code) e = absurd (after_close-ne-synced code e)
next-synced s _ e = cc

-- The inputs end with an `auth_ok` that nothing behind it undoes.
record Authenticated (is : List Input) : Type 0 where
  pub before : List Input
  pub after : List Input
  pub split : is ≡ before ++ (auth_ok ∷ after)
  pub kept : All Keeps after

run-synced_from :
    (s : State) (is : List Input)
    → run s is ≡ synced
    → ((s ≡ synced) × All Keeps is) ⊎ Authenticated is
unfolding run
run-synced_from s [] e = inl (e, tt)
run-synced_from s (i ∷ is) e = elim (run-synced_from (next s i) is e) [
  | inr a ↦
      inr (record {
        before = i ∷ a.before;
        after = a.after;
        split = ap (◌∷◌ i) a.split;
        kept = a.kept;
      })
  | inl (t, k) ↦ elim (next-synced s i t) [
    | inl (u, ki) ↦ inl (u, (ki, k))
    | inr ok ↦ inr (record { before = []; after = is; split = ap (λ j. j ∷ is) ok; kept = k })
  ]
]

-- Clips are sent only on an authenticated connection: whenever a client that started disconnected
-- may send, the relay has accepted its handshake, and since then there was no refusal, no close,
-- no rate or quota limit and no pause.
pub run-can_send :
    (is : List Input)
    → can_send (run disconnected is) ≡ true
    → (before : List Input) × (after : List Input) × (is ≡ before ++ (auth_ok ∷ after))
      × All Keeps after
run-can_send is h = elim (run-synced_from disconnected is (sending (run disconnected is) h)) [
  | inl (e, k) ↦ absurd (differ e)
  | inr a ↦ (a.before, a.after, a.split, a.kept)
]
  where
    sending : (s : State) → can_send s ≡ true → s ≡ synced
    sending synced e = refl
    sending _ e = unfold can_send in cc

    differ : disconnected ≡ synced → ⊥
    differ e = cc

-- The machine starts connecting only from the two states that ask for it.
pub next-dial :
    (s : State) → s ≢ connecting → (next s dial ≡ connecting) ↔ (wants_connection s ≡ true)
unfolding next wants_connection
next-dial connecting h = absurd (h refl)
next-dial disconnected h = (λ e. refl, λ e. refl)
next-dial rate_limited h = (λ e. refl, λ e. refl)
next-dial _ h = (λ e. cc, λ e. cc)
