-- ===== src/History/Runs.antt =====
-- Concrete histories, and the theorems at concrete inputs.
use asli.History.Reopening.{record_len}
use asli.History.{pop}
use asli.Prelude.Bytes.{same_bytes}
use asli.History.{same_content}
use asli.History.{same_kind}
use asli.History.{len}
use asli.Crypto.Clip.{code}
use asli.Crypto.Clip.{padded_len}
use asli.Crypto.Clip.{encode_inner}
use asli.Crypto.Clip.{seal_typed}
use asli.Crypto.Clip.{seal}
use asli.Prelude.Utf8.{as_bytes}
use asli.Prelude.{
  ℕ, ◌+◌, ◌≤◌, ◌≡◌, refl, List, [], ◌∷◌, ◌++◌, Option, none, some, arith, length, take, drop,
  replicate, inl, All, ◌⊎◌, true, false,
}
use asli.Prelude.Bytes.{IsArray, to_be}
use asli.Prelude.Results.{done, failed}
use asli.Crypto.Aead.{tagged, tagged-IsTagged}
use asli.Crypto.Primitives.{Primitives, constant}
use asli.History.{
  Entry, Error, Result, validate, total, Limits, text, image_png, default_limits, content_bytes,
  evict, is_image,
}
use asli.History.File.{magic, derive, file_of, decode_all, decode_records}
use asli.History.Reopening.{IsEntry, IsNonces}
use asli.History.Eviction.{others, within, evict-within}
use asli.History.Store.{Store, Disk, System, Appended, stored, open_store, append_from, rekey}
use asli.History.Store.Durable.{IsSaved, append_from-IsSaved, rekey-IsSaved}
use asli.History.Budgets.{
  InBudget, append_from-InBudget, append_from-others, append_from-over_budget,
}
use asli.History.Preview.{preview, preview_chars}
use asli.History.Shown.{IsShown, preview-IsShown}
use asli.History.Saved.{decode_all-file_of, decode_all-take, landed}
use asli.History.Rounds.{decode_records_enough}

abbrev crypto : Primitives
crypto = record constant { aead = tagged }

abbrev secret : List ℕ
secret = replicate 32 7

abbrev nonces : ℕ → Option (List ℕ)
nonces idx = some (replicate 24 0)

nonces-IsNonces : IsNonces nonces
nonces-IsNonces idx nonce e = let same : replicate 24 0 ≡ nonce = ground arith in rw (← same) refl

abbrev system : System
system = record { id = some (replicate 16 1); nonces = nonces; writes = true }

abbrev hi : Entry
hi = record {
  id = replicate 16 1;
  ts_ms = 1000;
  content = text (b'h' ∷ b'i' ∷ []);
  device_id = replicate 16 2;
}

abbrev bytes : List ℕ
bytes =
    magic
    ++ (1
        ∷ (to_be 4 312
            ++ (replicate 16 1
                ++ (replicate 24 0
                    ++ ((1 ∷ 1 ∷ 16 ∷ replicate 16 2)
                        ++ (to_be 8 0
                            ++ (to_be 8 1000
                                ++ (to_be 4 2
                                    ++ (b'h' ∷ b'i' ∷ (replicate 215 0 ++ replicate 16 0))))))))))

hi-IsEntry : IsEntry hi
unfolding content_bytes as_bytes
hi-IsEntry = record {
  id = record { size = refl; bytes = ground arith };
  device = record { size = refl; bytes = ground arith };
  time = omega arith;
  content = ground arith;
  small = omega arith;
}

written : file_of crypto secret nonces (hi ∷ []) ≡ done bytes
unfolding file_of seal seal_typed encode_inner to_be content_bytes as_bytes padded_len code
written = refl

decode_all-file_of_example : decode_all crypto (bytes ++ (0 ∷ 0 ∷ [])) secret ≡ done (hi ∷ [])
decode_all-file_of_example =
    decode_all-file_of crypto secret tagged-IsTagged nonces (hi ∷ []) bytes (0 ∷ 0 ∷ [])
      nonces-IsNonces (hi-IsEntry, tt) written (record { stops = inl (omega arith) })

abbrev two_records : List ℕ
two_records = bytes ++ drop 9 bytes

two_written : file_of crypto secret nonces (hi ∷ hi ∷ []) ≡ done two_records
unfolding file_of seal seal_typed encode_inner to_be content_bytes as_bytes padded_len code
two_written = refl

-- The first record ends at byte 325.
decode_all-take_example : decode_all crypto (take 400 two_records) secret ≡ done (hi ∷ [])
unfolding landed to_be record_len padded_len content_bytes as_bytes
decode_all-take_example =
    decode_all-take crypto secret tagged-IsTagged nonces (hi ∷ hi ∷ []) two_records 400
      nonces-IsNonces (hi-IsEntry, (hi-IsEntry, tt)) two_written (omega arith) (omega arith)

decode_records_enough_example :
    decode_records crypto (2 + 5) secret (0 ∷ 0 ∷ []) ≡ decode_records crypto 2 secret (0 ∷ 0 ∷ [])
decode_records_enough_example = decode_records_enough crypto secret 2 5 (0 ∷ 0 ∷ []) (omega arith)

abbrev narrow : Limits
narrow = record default_limits { max_entries = 1; max_text_bytes = 3 }

evict-within_example :
    evict narrow (hi ∷ hi ∷ [])
    ≡ within true narrow.max_image_bytes (within false 3 (take 1 (hi ∷ hi ∷ [])))
evict-within_example = evict-within narrow (hi ∷ hi ∷ [])

abbrev empty : Store
empty = record { key = derive crypto secret; limits = default_limits; entries = [] }

empty-IsSaved : IsSaved crypto secret empty none
unfolding validate open_store
empty-IsSaved = record {
  store = record { key = refl; limits = refl; entries = tt; room = omega arith };
  opens = refl;
}

chosen : (id : List ℕ) → system.id ≡ some id → IsArray 16 id
chosen id e =
    let same : replicate 16 1 ≡ id = ground arith in
    rw (← same) (record { size = refl; bytes = ground arith })

abbrev added : Store × Disk × Result Appended
added = append_from crypto empty none system (text (b'h' ∷ b'i' ∷ [])) false 1000 (replicate 16 2)

added_stored : added.2 ≡ done (stored (replicate 16 1))
unfolding append_from len as_bytes file_of evict same_kind is_image seal seal_typed encode_inner
    to_be padded_len
added_stored = refl

append_from-IsSaved_example : IsSaved crypto secret added.0 added.1
append_from-IsSaved_example =
    append_from-IsSaved crypto tagged-IsTagged secret empty none system (text (b'h' ∷ b'i' ∷ []))
      false 1000 (replicate 16 2) (stored (replicate 16 1)) empty-IsSaved nonces-IsNonces chosen
      (ground arith) (omega arith) (record { size = refl; bytes = ground arith }) added_stored

abbrev other_secret : List ℕ
other_secret = replicate 32 8

rekey-IsSaved_example :
    (((rekey crypto empty none system other_secret).2 ≡ done tt)
      × IsSaved crypto other_secret
          (rekey crypto empty none system other_secret).0
          (rekey crypto empty none system other_secret).1)
    ⊎ ((failure : Error) × (rekey crypto empty none system other_secret
          ≡ (empty, none, failed failure)))
rekey-IsSaved_example =
    rekey-IsSaved crypto tagged-IsTagged other_secret empty none system secret empty-IsSaved
      nonces-IsNonces

abbrev full : Store
full = record empty { entries = hi ∷ []; limits = narrow }

full-InBudget : InBudget narrow (hi ∷ [])
unfolding total same_kind is_image len as_bytes
full-InBudget = record { count = omega arith; texts = omega arith; images = omega arith }

append_from-InBudget_example :
    InBudget narrow
      (append_from crypto full none system (text (b'a' ∷ [])) false 2000 (replicate 16 0)).0.entries
append_from-InBudget_example =
    append_from-InBudget crypto full none system (text (b'a' ∷ [])) false 2000 (replicate 16 0)
      full-InBudget

abbrev held : Store
held = record empty { entries = hi ∷ [] }

held-InBudget : InBudget default_limits (hi ∷ [])
unfolding total same_kind is_image len as_bytes
held-InBudget = record { count = omega arith; texts = omega arith; images = omega arith }

image_stored :
    (append_from crypto held none system (image_png (137 ∷ [])) false 2000 (replicate 16 0)).2
    ≡ done (stored (replicate 16 1))
unfolding append_from len same_content file_of evict same_kind is_image as_bytes seal seal_typed
    encode_inner to_be padded_len
image_stored = refl

append_from-others_example :
    others true
      (append_from crypto held none system
        (image_png (137 ∷ []))
        false
        2000
        (replicate 16 0)).0.entries
    ≡ others true (hi ∷ [])
append_from-others_example =
    append_from-others crypto held none system (137 ∷ []) false 2000 (replicate 16 0)
      (replicate 16 1) held-InBudget (omega arith) image_stored

abbrev wide : List ℕ
wide = b'w' ∷ b'i' ∷ b'd' ∷ b'e' ∷ []

wide_stored :
    (append_from crypto full none system (text wide) false 2000 (replicate 16 0)).2
    ≡ done (stored (replicate 16 1))
unfolding append_from len as_bytes same_content same_bytes file_of evict pop same_kind is_image
wide_stored = refl

append_from-over_budget_example :
    All
      (λ e. is_image e.content ≡ true)
      (append_from crypto full none system (text wide) false 2000 (replicate 16 0)).0.entries
unfolding len as_bytes
append_from-over_budget_example =
    append_from-over_budget crypto full none system wide false 2000 (replicate 16 0)
      (replicate 16 1) (omega arith) wide_stored

preview-IsShown_example : (length (preview wide) ≤ preview_chars) × All IsShown (preview wide)
preview-IsShown_example = preview-IsShown wide
