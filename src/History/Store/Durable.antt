-- ===== src/History/Store/Durable.antt =====
-- crates/asli-history/src/lib.rs: the file holds what the store holds.
use asli.Prelude.{
  ℕ, suc, ◌≤◌, ◌≡◌, ◌⊎◌, refl, ap, Bool, true, false, List, [], some, get_elem?, All, arith, inl,
  inr, Option-cases, IsU64, append-nil,
}
use asli.Prelude.Bytes.{IsArray}
use asli.Prelude.Results.{done, failed, >>=-done, Outcome-cases}
use asli.Crypto.Aead.{IsTagged}
use asli.Crypto.Primitives.{Primitives}
use asli.History.{Error, Result, Content, Entry, len, remove_at, validate, io}
use asli.History.Kept.{All-remove_at, All-get_elem?, All-evict}
use asli.History.File.{derive, file_of}
use asli.History.Reopening.{IsEntry, IsContent, IsNonces, IsTorn}
use asli.History.Saved.{decode_all-file_of}
use asli.History.Store.{
  Store, Disk, System, Appended, stored, moved_to_top, persist, write_atomic, saving, append_from,
  open_store, remove, without, position_of_id, rekey,
}
use asli.History.Store.Cases.{append_from-elim, with_new, with_moved}

-- A store under the key of a secret whose entries the file can hold.
pub record IsStore (crypto : Primitives) (secret : List ℕ) (s : Store) : Type 0 where
  pub key : s.key ≡ derive crypto secret
  pub limits : validate s.limits ≡ done s.limits
  pub entries : All IsEntry s.entries
  pub room : s.limits.max_entry_bytes ≤ 33554000

-- Opening the file under the secret gives the store.
pub record IsSaved (crypto : Primitives) (secret : List ℕ) (s : Store) (disk : Disk) : Type 0 where
  pub store : IsStore crypto secret s
  pub opens : open_store crypto disk true secret s.limits ≡ done s

-- An operation that succeeded left a store that the file holds.
abbrev pub Saves {ℓ} : {A : Type ℓ} → Primitives → List ℕ → Store × Disk × Result A → Type ℓ
Saves {A = A} crypto secret r = (value : A) → r.2 ≡ done value → IsSaved crypto secret r.0 r.1

write_atomic-done :
    (disk : Disk) (writes : Bool) (bytes : List ℕ)
    → (write_atomic disk writes bytes).1 ≡ done tt
    → (write_atomic disk writes bytes).0 ≡ some bytes
unfolding write_atomic
write_atomic-done disk true bytes h = refl
write_atomic-done disk false bytes h = cc

write_atomic-cases :
    (disk : Disk) (writes : Bool) (bytes : List ℕ)
    → ((write_atomic disk writes bytes).1 ≡ done tt)
      ⊎ ((failure : Error) × (write_atomic disk writes bytes ≡ (disk, failed failure)))
unfolding write_atomic
write_atomic-cases disk true bytes = inl refl
write_atomic-cases disk false bytes = inr (io, refl)

module _ (crypto : Primitives) (tagged : IsTagged crypto.aead) (secret : List ℕ) where
  persist-done :
      (s : Store) (disk : Disk) (system : System)
      → (persist crypto s disk system).1 ≡ done tt
      → (bytes : List ℕ) × (file_of crypto s.key system.nonces s.entries ≡ done bytes)
        × ((persist crypto s disk system).0 ≡ some bytes)
  unfolding persist
  persist-done s disk system h =
      elim (Outcome-cases (file_of crypto s.key system.nonces s.entries)) [
        | inr (failure, broken) ↦ cc (rw (persist, broken) at h)
        | inl (bytes, made) ↦
            rw (persist, made)
              (bytes, refl, write_atomic-done disk system.writes bytes (rw (persist, made) at h))
      ]

  persist-IsSaved :
      (s : Store) (disk : Disk) (system : System)
      → IsStore crypto secret s
      → IsNonces system.nonces
      → (persist crypto s disk system).1 ≡ done tt
      → IsSaved crypto secret s (persist crypto s disk system).0
  unfolding open_store
  persist-IsSaved s disk system v drawn h =
      let (bytes, made, wrote) = persist-done s disk system h in
      let torn : IsTorn [] = record { stops = inl (omega arith) } in
      let read =
        decode_all-file_of crypto s.key tagged system.nonces s.entries bytes [] drawn v.entries made
          torn in
      let whole = rw append-nil at read in
      record { store = v; opens = rw (wrote, v.limits, ← v.key, whole) refl }

  saving-Saves {ℓ} :
      {A : Type ℓ} (s : Store) (disk : Disk) (system : System) (value : A)
      → IsStore crypto secret s
      → IsNonces system.nonces
      → Saves crypto secret (saving crypto s disk system value)
  unfolding saving
  saving-Saves s disk system value v drawn got h =
      persist-IsSaved s disk system v drawn
        (>>=-done (persist crypto s disk system).1 (λ v. done value) h).1

  -- What a refusal or a failure leaves.
  same-Saves {ℓ} :
      {A : Type ℓ} (s : Store) (disk : Disk) (r : Result A)
      → IsSaved crypto secret s disk
      → Saves crypto secret (s, disk, r)
  same-Saves s disk r v got h = v

  with_new-IsStore :
      (s : Store) (id : List ℕ) (content : Content) (ts_ms : ℕ) (device_id : List ℕ)
      → IsStore crypto secret s
      → IsArray 16 id
      → IsContent content
      → len content ≤ s.limits.max_entry_bytes
      → IsU64 ts_ms
      → IsArray 16 device_id
      → IsStore crypto secret (with_new s id content ts_ms device_id)
  unfolding len
  with_new-IsStore s id content ts_ms device_id v named fine small time device = record {
    key = v.key;
    limits = v.limits;
    entries = All-evict IsEntry s.limits _ (
      record {
        id = named;
        device = device;
        time = time;
        content = fine;
        small = omega (arith, small, v.room);
      },
      v.entries,
    );
    room = v.room;
  }

  with_moved-IsStore :
      (s : Store) (i : ℕ) (e : Entry) (ts_ms : ℕ) (device_id : List ℕ)
      → IsStore crypto secret s
      → get_elem? s.entries i ≡ some e
      → IsU64 ts_ms
      → IsArray 16 device_id
      → IsStore crypto secret (with_moved s i e ts_ms device_id)
  with_moved-IsStore s i e ts_ms device_id v here time device =
      let old = All-get_elem? IsEntry s.entries i e v.entries here in
      record {
        key = v.key;
        limits = v.limits;
        entries = (
          record {
            id = old.id;
            device = device;
            time = time;
            content = old.content;
            small = old.small;
          },
          All-remove_at IsEntry s.entries i v.entries,
        );
        room = v.room;
      }

  -- Saved and in step before, saved and in step after: when `append_from` succeeds, whatever it
  -- answers, opening the file gives the store that it left. The cipher adds a tag of 16 bytes,
  -- the generator's ids and nonces have their lengths, the time and the device fit their fields,
  -- and no content is above 33554000 bytes.
  pub append_from-IsSaved :
      (s : Store) (disk : Disk) (system : System) (content : Content) (sensitive : Bool) (ts_ms : ℕ)
      (device_id : List ℕ) (answer : Appended)
      → IsSaved crypto secret s disk
      → IsNonces system.nonces
      → ((id : List ℕ) → system.id ≡ some id → IsArray 16 id)
      → IsContent content
      → IsU64 ts_ms
      → IsArray 16 device_id
      → (append_from crypto s disk system content sensitive ts_ms device_id).2 ≡ done answer
      → IsSaved crypto secret
          (append_from crypto s disk system content sensitive ts_ms device_id).0
          (append_from crypto s disk system content sensitive ts_ms device_id).1
  append_from-IsSaved s disk system content sensitive ts_ms device_id answer v drawn named fine time
        device =
      append_from-elim crypto (Saves crypto secret) s disk system content sensitive ts_ms device_id
        (λ a plain. same-Saves s disk (done a) v) (λ failure. same-Saves s disk (failed failure) v)
        (λ i e here same found.
          saving-Saves (with_moved s (suc i) e ts_ms device_id) disk system (moved_to_top e.id)
            (with_moved-IsStore s (suc i) e ts_ms device_id v.store here time device) drawn)
        (λ id chosen missing plain small.
          saving-Saves (with_new s id content ts_ms device_id) disk system (stored id)
            (with_new-IsStore s id content ts_ms device_id v.store (named id chosen) fine small time
              device)
            drawn)
        answer

  -- When `remove` succeeds, opening the file gives the store that it left.
  pub remove-IsSaved :
      (s : Store) (disk : Disk) (system : System) (id : List ℕ)
      → IsSaved crypto secret s disk
      → IsNonces system.nonces
      → (remove crypto s disk system id).2 ≡ done tt
      → IsSaved crypto secret (remove crypto s disk system id).0 (remove crypto s disk system id).1
  unfolding remove without
  remove-IsSaved s disk system id v drawn h = elim (Option-cases (position_of_id id s.entries)) [
    | inl missing ↦ rw (remove, missing) v
    | inr (i, found) ↦
        rw (remove, found)
          (saving-Saves (record s { entries = remove_at s.entries i }) disk system tt
            (record {
              key = v.store.key;
              limits = v.store.limits;
              entries = All-remove_at IsEntry s.entries i v.store.entries;
              room = v.store.room;
            })
            drawn tt (rw (remove, found) at h))
  ]

  persist-cases :
      (s : Store) (disk : Disk) (system : System)
      → ((persist crypto s disk system).1 ≡ done tt)
        ⊎ ((failure : Error) × (persist crypto s disk system ≡ (disk, failed failure)))
  unfolding persist
  persist-cases s disk system =
      elim (Outcome-cases (file_of crypto s.key system.nonces s.entries)) [
        | inr (failure, broken) ↦ rw (persist, broken) (inr (failure, refl))
        | inl (bytes, made) ↦ rw (persist, made) (write_atomic-cases disk system.writes bytes)
      ]

  -- A rekeying of a saved store is all or nothing, when the nonces have 24 bytes and the cipher
  -- adds a tag of 16: either the file opens under the new secret and the store has its key, or
  -- the store and the file are what they were.
  pub rekey-IsSaved :
      (s : Store) (disk : Disk) (system : System) (old : List ℕ)
      → IsSaved crypto old s disk
      → IsNonces system.nonces
      → (((rekey crypto s disk system secret).2 ≡ done tt)
          × IsSaved crypto secret
              (rekey crypto s disk system secret).0
              (rekey crypto s disk system secret).1)
        ⊎ ((failure : Error) × (rekey crypto s disk system secret ≡ (s, disk, failed failure)))
  unfolding rekey
  rekey-IsSaved s disk system old v drawn =
      let t : Store = record s { key = derive crypto secret } in
      elim (persist-cases t disk system) [
        | inl saved ↦
            rw (rekey, saved)
              (inl (
                refl,
                persist-IsSaved t disk system
                    (record {
                      key = refl;
                      limits = v.store.limits;
                      entries = v.store.entries;
                      room = v.store.room;
                    })
                    drawn saved,
              ))
        | inr (failure, lost) ↦
            rw (rekey, lost)
              (inr (
                failure,
                ap (λ (left : Disk × Result (Unit {0})). (s, left.0, failed failure)) lost,
              ))
      ]
