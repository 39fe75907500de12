-- ===== src/Core/Replay.antt =====
-- crates/asli-core/src/replay.rs: the replay guard. A device id or message id is the number that
-- its 16 bytes spell, big endian, so the order of the arrays is the order of the numbers. The
-- `HashMap` is an association list that keeps the order of insertion; no operation looks at it but
-- `memory`, which sorts. A `VecDeque` is a list, front first.
pub mod Table
pub mod Invariant
pub mod Verdicts
pub mod History
pub mod Restart
pub mod RoundTrip
pub mod Clearing
pub mod Runs
use asli.Prelude.{
  ℕ, ◌+◌, ◌-◌, ◌==◌, ltb, leb, if◌then◌else◌, sat_add, Bool, true, false, not, ◌&&◌, ◌||◌, List, [],
  ◌∷◌, ◌++◌, Option, none, some, length, max,
}
use Table.{lookup, insert, remove, contains_key}

abbrev pub default_msg_id_capacity : ℕ
default_msg_id_capacity = 256

abbrev pub default_max_age_ms : ℕ
default_max_age_ms = 86400000

abbrev pub default_future_skew_ms : ℕ
default_future_skew_ms = 86400000

abbrev pub max_seq_jump : ℕ
max_seq_jump = 1000000

abbrev pub default_device_capacity : ℕ
default_device_capacity = 64

pub data Verdict : Type 0 where
  accept own_device duplicate rollback too_old from_the_future seq_jump : Verdict

unfoldable pub is_accept : Verdict → Bool
is_accept accept = true
is_accept _ = false

pub record Incoming : Type 0 where
  pub msg_id : ℕ
  pub device_id : ℕ
  pub seq : ℕ
  pub ts_ms : ℕ
  pub retained : Bool

pub record Memory : Type 0 where
  pub highest_seq : List (ℕ × ℕ)
  pub recent : List ℕ

pub record ReplayGuard : Type 0 where
  pub own_device_id : ℕ
  pub seen : List ℕ
  pub capacity : ℕ
  pub highest_seq : List (ℕ × ℕ)
  pub device_order : List ℕ
  pub device_capacity : ℕ
  pub max_age_ms : ℕ
  pub retained_max_age_ms : ℕ
  pub future_skew_ms : ℕ

unfoldable pub new : ℕ → ℕ → ReplayGuard
new own_device_id retained_max_age_ms = record {
  own_device_id = own_device_id;
  seen = [];
  capacity = default_msg_id_capacity;
  highest_seq = [];
  device_order = [];
  device_capacity = default_device_capacity;
  max_age_ms = default_max_age_ms;
  retained_max_age_ms = retained_max_age_ms;
  future_skew_ms = default_future_skew_ms;
}

unfoldable pub contains : List ℕ → ℕ → Bool
contains [] x = false
contains (y ∷ ys) x = y == x || contains ys x

unfoldable pub pop_front : List ℕ → List ℕ
pop_front [] = []
pop_front (x ∷ xs) = xs

-- The ring of message ids: the oldest makes room when the ring is full.
unfoldable pub push_seen : ℕ → List ℕ → ℕ → List ℕ
push_seen capacity seen id =
    let room = if length seen == capacity then pop_front seen else seen in room ++ (id ∷ [])

-- `while self.device_order.len() > self.device_capacity`
unfoldable pub evict : ℕ → List ℕ → List (ℕ × ℕ) → List ℕ × List (ℕ × ℕ)
evict cap [] table = ([], table)
evict cap (d ∷ ds) table =
    let rest = evict cap ds (remove d table) in
    if ltb cap (length (d ∷ ds)) then rest else (d ∷ ds, table)

unfoldable pub note_device : ReplayGuard → Incoming → List ℕ × List (ℕ × ℕ)
unfolding evict
note_device g m =
    let table = insert m.device_id m.seq g.highest_seq in
    if contains_key m.device_id g.highest_seq
    then (g.device_order, table)
    else evict g.device_capacity (g.device_order ++ (m.device_id ∷ [])) table

-- The private `record` of the source.
unfoldable pub remember : ReplayGuard → Incoming → ReplayGuard
unfolding push_seen
remember g m = record g {
  seen = push_seen g.capacity g.seen m.msg_id;
  device_order = (note_device g m).0;
  highest_seq = (note_device g m).1;
}

-- The checks on the sequence number of a device whose mark is known.
unfoldable pub check_seq : Option ℕ → ℕ → Verdict
check_seq none seq = accept
check_seq (some highest) seq =
    if leb seq highest
    then rollback
    else if ltb max_seq_jump (seq - highest)
    then seq_jump
    else accept

unfoldable pub max_age : ReplayGuard → Incoming → ℕ
max_age g m = if m.retained then g.retained_max_age_ms else g.max_age_ms

-- The early returns of `check`, in their order.
unfoldable pub verdict : ReplayGuard → Incoming → ℕ → Verdict
unfolding check_seq max_age contains
verdict g m now_ms =
    if m.device_id == g.own_device_id
    then own_device
    else if contains g.seen m.msg_id
    then duplicate
    else if ltb (sat_add now_ms g.future_skew_ms) m.ts_ms
    then from_the_future
    else if ltb (max_age g m) (now_ms - m.ts_ms)
    then too_old
    else check_seq (lookup m.device_id g.highest_seq) m.seq

unfoldable pub check : ReplayGuard → Incoming → ℕ → ReplayGuard × Verdict
check g m now_ms = let v = verdict g m now_ms in (if is_accept v then remember g m else g, v)

unfoldable pub known_devices : ReplayGuard → ℕ
known_devices g = length g.highest_seq

-- `sort_unstable` on pairs of an id and a number. Ids are distinct in the table, so any sort by
-- the pairs' order gives one list; insertion sort stands for it.
pub sort_insert : ℕ × ℕ → List (ℕ × ℕ) → List (ℕ × ℕ)
sort_insert p [] = p ∷ []
sort_insert (d, s) ((e, t) ∷ rest) =
    if ltb d e || (d == e && leb s t)
    then (d, s) ∷ (e, t) ∷ rest
    else (e, t) ∷ sort_insert (d, s) rest

pub sort : List (ℕ × ℕ) → List (ℕ × ℕ)
unfolding sort_insert
sort [] = []
sort (p ∷ ps) = sort_insert p (sort ps)

pub memory : ReplayGuard → Memory
memory g = record { highest_seq = sort g.highest_seq; recent = g.seen }

-- One round of the first loop of `restore`, on the order of the devices and their table.
pub restore_device : ℕ → ℕ → ℕ → List ℕ × List (ℕ × ℕ) → List ℕ × List (ℕ × ℕ)
restore_device cap device seq (order, table) =
    if leb cap (length table) && not (contains_key device table)
    then (order, table)
    else elim (lookup device table) [
      | some highest ↦ (order, insert device (max highest seq) table)
      | none ↦ (order ++ (device ∷ []), insert device seq table)
    ]

pub restore_devices : ℕ → List (ℕ × ℕ) → List ℕ × List (ℕ × ℕ) → List ℕ × List (ℕ × ℕ)
restore_devices cap [] s = s
restore_devices cap ((device, seq) ∷ rest) s =
    restore_devices cap rest (restore_device cap device seq s)

pub restore_seen : ℕ → List ℕ → List ℕ → List ℕ
restore_seen cap [] seen = seen
restore_seen cap (id ∷ rest) seen =
    restore_seen cap rest (if contains seen id then seen else push_seen cap seen id)

pub restore : ReplayGuard → Memory → ReplayGuard
restore g m = record g {
  device_order =
      (restore_devices g.device_capacity m.highest_seq (g.device_order, g.highest_seq)).0;
  highest_seq = (restore_devices g.device_capacity m.highest_seq (g.device_order, g.highest_seq)).1;
  seen = restore_seen g.capacity m.recent g.seen;
}

-- The source clears the ring and the table, and leaves `device_order` as it is.
pub clear : ReplayGuard → ReplayGuard
clear g = record g { seen = []; highest_seq = [] }
