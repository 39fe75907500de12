-- ===== src/History/Store.antt =====
-- crates/asli-history/src/lib.rs: the operations of `Store`. The file at its path is a state of its
-- own, `none` when there is no such file. An operation returns the store and the file after it,
-- also when it fails. What the operating system does is an argument: whether a read or a write
-- succeeds, where a write that fails leaves the file as it was, since the new one is renamed into
-- place, and what an overwriting that fails leaves behind.
pub mod Cases
pub mod Durable
use asli.Prelude.{
  ℕ, zero, suc, ◌==◌, ltb, if◌then◌else◌, Bool, true, false, not, List, [], ◌∷◌, Option, none, some,
  length, get_elem?, replicate,
}
use asli.Prelude.Bytes.{same_bytes}
use asli.Prelude.Results.{Outcome, done, failed, ◌>>=◌, ◌>>◌, fail_if, done_or}
use asli.Crypto.Error as CryptoError
use asli.Crypto.Primitives.{Primitives}
use asli.History.{
  Error, Result, Content, Entry, Limits, io, malformed, not_found, crypto_failed,
  unsupported_version, validate, len, same_content, remove_at, evict,
}
use asli.History.File.{derive, file_of, decode_all, from_crypto}

pub record Store : Type 0 where
  pub key : List ℕ
  pub limits : Limits
  pub entries : List Entry

abbrev pub Disk : Type 0
Disk = Option (List ℕ)

pub data Appended : Type 0 where
  stored already_newest moved_to_top : List ℕ → Appended
  refused_sensitive refused_empty : Appended
  refused_too_large : ℕ → ℕ → Appended

unfoldable pub changed : Appended → Bool
changed (stored id) = true
changed (moved_to_top id) = true
changed _ = false

-- What the operating system does during one operation: the random bytes for a new id and for the
-- nonces, and whether the file is written.
pub record System : Type 0 where
  pub id : Option (List ℕ)
  pub nonces : ℕ → Option (List ℕ)
  pub writes : Bool

-- `position` of a content, and of an id.
unfoldable pub position : Content → List Entry → Option ℕ
position c [] = none
position c (e ∷ es) =
    let rest = position c es in
    if same_content e.content c then some 0 else elim rest [ none ↦ none | some i ↦ some (suc i) ]

unfoldable pub position_of_id : List ℕ → List Entry → Option ℕ
position_of_id id [] = none
position_of_id id (e ∷ es) =
    let rest = position_of_id id es in
    if same_bytes e.id id then some 0 else elim rest [ none ↦ none | some i ↦ some (suc i) ]

unfoldable pub find : List ℕ → List Entry → Option Entry
find id [] = none
find id (e ∷ es) = if same_bytes e.id id then some e else find id es

unfoldable pub get_content : Store → List ℕ → Result Content
unfolding find
get_content s id = elim (find id s.entries) [ none ↦ failed not_found | some e ↦ done e.content ]

-- The entries that do not hold an id any more, or the refusal.
unfoldable pub without : List ℕ → List Entry → Result (List Entry)
unfolding position_of_id
without id es = elim (position_of_id id es) [
  | none ↦ failed not_found
  | some i ↦ done (remove_at es i)
]

-- `write_atomic`
unfoldable pub write_atomic : Disk → Bool → List ℕ → Disk × Result (Unit {0})
write_atomic disk true bytes = (some bytes, done tt)
write_atomic disk false bytes = (disk, failed io)

-- `shred` on a file that exists, then whether it was removed; `left` is what a failure leaves.
unfoldable pub shred : Disk → Option Disk → Disk × Result (Unit {0})
shred none left = (none, done tt)
shred (some bytes) none = (none, done tt)
shred (some bytes) (some left) = (left, failed io)

unfoldable pub clear : Store → Disk → Option Disk → Store × Disk × Result (Unit {0})
unfolding shred
clear s disk left = (record s { entries = [] }, (shred disk left).0, (shred disk left).1)

-- Why a file that cannot be read is thrown away, if it is.
unfoldable pub is_unreadable : Error → Bool
is_unreadable (crypto_failed failure) = true
is_unreadable malformed = true
is_unreadable (unsupported_version v) = true
is_unreadable _ = false

module _ (crypto : Primitives) where
  unfoldable pub persist : Store → Disk → System → Disk × Result (Unit {0})
  unfolding write_atomic
  persist s disk system = elim (file_of crypto s.key system.nonces s.entries) [
    | failed failure ↦ (disk, failed failure)
    | done bytes ↦ write_atomic disk system.writes bytes
  ]

  -- `persist`, and then `Ok` of a value.
  unfoldable pub saving {ℓ} : {A : Type ℓ} → Store → Disk → System → A → Store × Disk × Result A
  unfolding persist
  saving s disk system value =
      let saved = persist s disk system in (s, saved.0, (saved.1 >> done value))

  -- `Store::open`. The file is read when it exists.
  unfoldable pub open_store : Disk → Bool → List ℕ → Limits → Result Store
  open_store disk reads secret l = do
    limits ← validate l
    entries ← elim disk [
      | none ↦ done []
      | some raw ↦ if reads then decode_all crypto raw (derive crypto secret) else failed io
    ]
    done (record { key = derive crypto secret; limits = limits; entries = entries })

  -- The second opening, once the file is gone.
  unfoldable pub open_again : Disk → Bool → List ℕ → Limits → Error → Result (Store × Option Error)
  unfolding open_store
  open_again disk reads secret l failure = do
    s ← open_store disk reads secret l
    done (s, some failure)

  unfoldable pub open_or_reset :
      Disk → Bool → Option Disk → List ℕ → Limits → Disk × Result (Store × Option Error)
  unfolding open_again shred is_unreadable
  open_or_reset disk reads left secret l = elim (open_store disk reads secret l) [
    | done s ↦ (disk, done (s, none))
    | failed failure ↦
        let gone = shred disk left in
        if is_unreadable failure
        then (gone.0, (gone.1 >> open_again gone.0 reads secret l failure))
        else (disk, failed failure)
  ]

  -- A content that the history holds at position `i`.
  unfoldable pub move_to_top :
      Store → Disk → System → ℕ → Entry → ℕ → List ℕ → Store × Disk × Result Appended
  unfolding saving
  move_to_top s disk system i e ts_ms device_id = elim i [
    | zero ↦ (s, disk, done (already_newest e.id))
    | suc j ↦
        saving
          (record s {
            entries =
                record e { ts_ms = ts_ms; device_id = device_id } ∷ remove_at s.entries (suc j);
          })
          disk system (moved_to_top e.id)
  ]

  -- A content that the history does not hold.
  unfoldable pub store_new :
      Store → Disk → System → Content → ℕ → List ℕ → Store × Disk × Result Appended
  unfolding saving
  store_new s disk system content ts_ms device_id = elim system.id [
    | none ↦ (s, disk, failed (crypto_failed CryptoError.rng))
    | some id ↦
        let new : Entry = record {
          id = id;
          ts_ms = ts_ms;
          content = content;
          device_id = device_id;
        } in
        saving (record s { entries = evict s.limits (new ∷ s.entries) }) disk system (stored id)
  ]

  unfoldable pub append_from :
      Store → Disk → System → Content → Bool → ℕ → List ℕ → Store × Disk × Result Appended
  unfolding move_to_top store_new position
  append_from s disk system content sensitive ts_ms device_id =
      if sensitive
      then (s, disk, done refused_sensitive)
      else if len content == 0
      then (s, disk, done refused_empty)
      else if ltb s.limits.max_entry_bytes (len content)
      then (s, disk, done (refused_too_large (len content) s.limits.max_entry_bytes))
      else elim (position content s.entries) [
        | none ↦ store_new s disk system content ts_ms device_id
        | some i ↦ elim (get_elem? s.entries i) [
          -- Not reached: `position` is below the length.
          | none ↦ (s, disk, failed malformed)
          | some e ↦ move_to_top s disk system i e ts_ms device_id
        ]
      ]

  unfoldable pub append :
      Store → Disk → System → Content → Bool → ℕ → Store × Disk × Result Appended
  unfolding append_from
  append s disk system content sensitive ts_ms =
      append_from s disk system content sensitive ts_ms (replicate 16 0)

  unfoldable pub remove : Store → Disk → System → List ℕ → Store × Disk × Result (Unit {0})
  unfolding without saving
  remove s disk system id = elim (without id s.entries) [
    | failed failure ↦ (s, disk, failed failure)
    | done kept ↦ saving (record s { entries = kept }) disk system tt
  ]

  -- The key goes back when the file could not be written.
  unfoldable pub rekey : Store → Disk → System → List ℕ → Store × Disk × Result (Unit {0})
  unfolding persist
  rekey s disk system secret =
      let t : Store = record s { key = derive crypto secret } in
      let saved = persist t disk system in
      elim saved.1 [
        | failed failure ↦ (s, saved.0, failed failure)
        | done v ↦ (t, saved.0, done tt)
      ]
