-- ===== src/History.antt =====
-- crates/asli-history/src: the stored history of clips, newest first. This file is its entries, its
-- limits and its eviction (lib.rs). `usize` has 64 bits, and the bytes that are in memory at once
-- are fewer than it counts.
pub mod Eviction
pub mod Kept
pub mod Preview
pub mod Shown
pub mod File
pub mod Store
pub mod Saved
pub mod Reopening
pub mod Budgets
pub mod Rounds
mod Runs
use asli.Prelude.{
  ℕ, zero, suc, ◌+◌, ◌==◌, ltb, if◌then◌else◌, Bool, true, false, not, ◌&&◌, List, [], ◌∷◌, Option,
  none, some, length,
}
use asli.Prelude.Bytes.{same_bytes}
use asli.Prelude.Utf8.{as_bytes}
use asli.Prelude.Results.{Outcome, done, ◌>>=◌, ◌>>◌, fail_if}
use asli.Crypto.Error as CryptoError

-- The string of `BadConfig` is left out.
pub data Error : Type 0 where
  io malformed not_found bad_config : Error
  crypto_failed : CryptoError.Error → Error
  unsupported_version : ℕ → Error

abbrev pub Result {ℓ} : Type ℓ → Type ℓ
Result A = Outcome Error A

-- A text is its scalar values, an image its bytes.
pub data Content : Type 0 where
  text image_png : List ℕ → Content

unfoldable pub content_bytes : Content → List ℕ
content_bytes (text t) = as_bytes t
content_bytes (image_png bytes) = bytes

unfoldable pub len : Content → ℕ
unfolding content_bytes
len c = length (content_bytes c)

unfoldable pub is_image : Content → Bool
is_image (text t) = false
is_image (image_png bytes) = true

-- `==` on two contents.
unfoldable pub same_content : Content → Content → Bool
same_content (text t) (text u) = same_bytes t u
same_content (image_png p) (image_png q) = same_bytes p q
same_content _ _ = false

pub record Entry : Type 0 where
  pub id : List ℕ
  pub ts_ms : ℕ
  pub content : Content
  pub device_id : List ℕ

pub record Limits : Type 0 where
  pub max_entries : ℕ
  pub max_text_bytes : ℕ
  pub max_image_bytes : ℕ
  pub max_entry_bytes : ℕ

abbrev pub default_limits : Limits
default_limits = record {
  max_entries = 100;
  max_text_bytes = 2097152;
  max_image_bytes = 16777216;
  max_entry_bytes = 8388608;
}

unfoldable pub validate : Limits → Result Limits
validate l = do
  fail_if (l.max_entries == 0) bad_config
  fail_if (l.max_entry_bytes == 0) bad_config
  done l

-- `Vec::pop`
unfoldable pub pop : List Entry → List Entry
pop [] = []
pop (e ∷ []) = []
pop (e ∷ f ∷ es) = e ∷ pop (f ∷ es)

-- The first loop of `evict`; a round for each entry is enough.
unfoldable pub pop_while : ℕ → ℕ → List Entry → List Entry
pop_while zero max es = es
pop_while (suc rounds) max es =
    let rest = pop_while rounds max (pop es) in if ltb max (length es) then rest else es

-- Whether an entry counts towards the budget of the images, or of the texts.
unfoldable pub same_kind : Bool → Entry → Bool
same_kind images e = if images then is_image e.content else not (is_image e.content)

-- `total`, the bytes of a kind.
unfoldable pub total : Bool → List Entry → ℕ
total images [] = 0
total images (e ∷ es) =
    let rest = total images es in if same_kind images e then len e.content + rest else rest

-- `rposition`, and the removal at the position it finds.
unfoldable pub rposition : Bool → List Entry → Option ℕ
rposition images [] = none
rposition images (e ∷ es) = elim (rposition images es) [
  | some i ↦ some (suc i)
  | none ↦ if same_kind images e then some 0 else none
]

unfoldable pub remove_at : List Entry → ℕ → List Entry
remove_at [] i = []
remove_at (e ∷ es) zero = es
remove_at (e ∷ es) (suc i) = e ∷ remove_at es i

-- The loop of `evict_by_budget`; a round for each entry is enough.
unfoldable pub evict_rounds : ℕ → Bool → ℕ → List Entry → List Entry
unfolding total rposition remove_at
evict_rounds zero images budget es = es
evict_rounds (suc rounds) images budget es =
    if ltb budget (total images es)
    then elim (rposition images es) [
      | none ↦ es
      | some i ↦ evict_rounds rounds images budget (remove_at es i)
    ]
    else es

unfoldable pub evict_by_budget : Bool → ℕ → List Entry → List Entry
unfolding evict_rounds
evict_by_budget images budget es = evict_rounds (length es) images budget es

unfoldable pub evict : Limits → List Entry → List Entry
unfolding pop_while evict_by_budget
evict l es =
    evict_by_budget true l.max_image_bytes
      (evict_by_budget false l.max_text_bytes (pop_while (length es) l.max_entries es))
