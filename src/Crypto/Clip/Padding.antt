-- ===== src/Crypto/Clip/Padding.antt =====
-- How much padding hides the length of a clip.
use asli.Prelude.{ℕ, ◌*◌, ◌%◌, ◌≤◌, ◌≡◌, inl, inr, arith, leb, max, Bool-cases, leb→le}
use asli.Crypto.Clip.{padded_len, double_until, small_max}

-- The buckets for small lengths.
double_until_low : (n : ℕ) → n ≤ small_max → n ≤ double_until 8 256 n
unfolding double_until
double_until_low n h = ground arith

double_until_mod : (n : ℕ) → double_until 8 256 n % 256 ≡ 0
unfolding double_until
double_until_mod n = ground arith

double_until_high : (n : ℕ) → double_until 8 256 n ≤ max 256 (2 * n)
unfolding double_until
double_until_high n = ground arith

-- Padding never cuts a length short and always gives a multiple of 256 bytes; it makes a message
-- at most twice as long, or 256 bytes if that is more.
pub padded_len_bounds :
    (len : ℕ)
    → (len ≤ padded_len len) × (padded_len len % 256 ≡ 0) × (padded_len len ≤ max 256 (2 * len))
unfolding padded_len
padded_len_bounds len = elim (Bool-cases (leb len small_max)) [
  | inl small ↦ rw small (
    double_until_low len (leb→le len small_max small),
    double_until_mod len,
    double_until_high len,
  )
  | inr large ↦ rw large (ground arith, ground arith, ground arith)
]
