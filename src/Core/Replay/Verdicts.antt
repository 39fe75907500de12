-- ===== src/Core/Replay/Verdicts.antt =====
-- When `check` accepts, and what a refusal leaves.
use asli.Prelude.{
  ℕ, ◌+◌, ◌≤◌, ◌<◌, ◌==◌, if◌then◌else◌, ◌≡◌, refl, ◌≢◌, ◌↔◌, true, false, List, Option, none, some,
  arith, sat_add,
}
use asli.Core.Replay.Table.{lookup}
use asli.Core.Replay.{
  Incoming, ReplayGuard, contains, push_seen, remember, verdict, check, check_seq, max_age,
  is_accept, accept, max_seq_jump, own_device, duplicate,
}
use asli.Core.Replay.Invariant.{contains-push}

-- A sequence number that moves a known device's mark up, by at most the largest jump.
abbrev pub Advances : Option ℕ → ℕ → Type 0
Advances none seq = Unit {0}
Advances (some highest) seq = (highest < seq) × (seq ≤ highest + max_seq_jump)

-- What the protocol asks of a message, with no order of checks.
pub record Acceptable (g : ReplayGuard) (m : Incoming) (now : ℕ) : Type 0 where
  pub foreign : m.device_id ≢ g.own_device_id
  pub unseen : contains g.seen m.msg_id ≡ false
  pub not_ahead : m.ts_ms ≤ sat_add now g.future_skew_ms
  pub recent : now ≤ m.ts_ms + (if m.retained then g.retained_max_age_ms else g.max_age_ms)
  pub advances : Advances (lookup m.device_id g.highest_seq) m.seq

check_seq-Advances : (h : Option ℕ) (seq : ℕ) → check_seq h seq ≡ accept → Advances h seq
unfolding check_seq
check_seq-Advances none seq e = tt
check_seq-Advances (some h) seq e = (ground arith, ground arith)

Advances-check_seq : (h : Option ℕ) (seq : ℕ) → Advances h seq → check_seq h seq ≡ accept
unfolding check_seq
Advances-check_seq none seq a = refl
Advances-check_seq (some h) seq a = ground arith

-- `check` accepts a message exactly when it comes from another device, its id is not remembered,
-- its time is not past the allowed skew nor too old for its kind, and its sequence number moves
-- the mark of its device up by at most `max_seq_jump` or starts one.
pub check-Acceptable :
    (g : ReplayGuard) (m : Incoming) (now : ℕ) → ((check g m now).1 ≡ accept) ↔ Acceptable g m now
unfolding check verdict max_age
check-Acceptable g m now = (
  λ e. record {
    foreign = ground arith;
    unseen = ground arith;
    not_ahead = ground arith;
    recent = ground arith;
    advances = check_seq-Advances (lookup m.device_id g.highest_seq) m.seq (ground arith);
  },
  λ a. ground (
    arith,
    a.foreign,
    a.unseen,
    a.not_ahead,
    a.recent,
    Advances-check_seq (lookup m.device_id g.highest_seq) m.seq a.advances,
  ),
)

-- A message that is not accepted leaves no trace: the guard is what it was.
pub check_refused :
    (g : ReplayGuard) (m : Incoming) (now : ℕ) → (check g m now).1 ≢ accept → (check g m now).0 ≡ g
unfolding check is_accept
check_refused g m now h = ground arith

push_seen-contains : (cap id : ℕ) (seen : List ℕ) → contains (push_seen cap seen id) id ≡ true
unfolding push_seen
push_seen-contains cap id seen = contains-push _ id

pub check_accepted :
    (g : ReplayGuard) (m : Incoming) (now : ℕ)
    → (check g m now).1 ≡ accept
    → (check g m now).0 ≡ remember g m
unfolding check is_accept
check_accepted g m now h = ground arith

-- An accepted message that arrives again is refused at once, whatever its other fields claim the
-- second time: as a duplicate, or as coming from this device.
pub check_twice :
    (g : ReplayGuard) (m again : Incoming) (now later : ℕ)
    → (check g m now).1 ≡ accept
    → again.msg_id ≡ m.msg_id
    → (check (check g m now).0 again later).1
      ≡ (if again.device_id == g.own_device_id then own_device else duplicate)
check_twice g m again now later e same =
    let held = rw (← same) at (push_seen-contains g.capacity m.msg_id g.seen) in
    rw (check_accepted g m now e) (unfold check verdict is_accept remember in ground (arith, held))
