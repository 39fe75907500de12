-- ===== src/Prelude/Bytes.antt =====
-- Byte strings as lists of numbers below 256: big endian integers, slices and fixed arrays.
use Prim.Native.Nat.{ℕ, zero, suc, ◌+◌, ◌*◌, ◌/◌, ◌%◌, ◌^◌, ◌<◌}
use mathlib.Core.Path.{◌≡◌, refl, sym, ap, ◌∙◌}
use mathlib.Core.List.{List, [], ◌∷◌, ◌++◌}
use mathlib.Core.Path.{ap₂}
use mathlib.Core.Bool.{Bool, true, false, ◌&&◌}
use native.Mathlib.Omega.{arith}
use native.Mathlib.Nat.{pow-suc}
use asli.Prelude.Lists.{length, length-append, take, drop, All, All-append}
use asli.Prelude.Words.{IsByte}
use asli.Prelude.Tests.{◌==◌, ==→eq, ==_self}

-- `[u8; n]`
pub record IsArray (n : ℕ) (xs : List ℕ) : Type 0 where
  pub size : length xs ≡ n
  pub bytes : All IsByte xs

-- `to_be_bytes` of an integer of `n` bytes.
unfoldable pub to_be : ℕ → ℕ → List ℕ
to_be zero v = []
to_be (suc n) v = to_be n (v / 256) ++ (v % 256 ∷ [])

unfoldable pub from_be_onto : ℕ → List ℕ → ℕ
from_be_onto acc [] = acc
from_be_onto acc (b ∷ bs) = from_be_onto (acc * 256 + b) bs

-- `from_be_bytes`
unfoldable pub from_be : List ℕ → ℕ
unfolding from_be_onto
from_be bs = from_be_onto 0 bs

from_be_onto-push :
    (acc b : ℕ) (bs : List ℕ) → from_be_onto acc (bs ++ (b ∷ [])) ≡ from_be_onto acc bs * 256 + b
unfolding from_be_onto
from_be_onto-push acc b [] = refl
from_be_onto-push acc b (c ∷ bs) = from_be_onto-push (acc * 256 + c) b bs

pub length-to_be : (n v : ℕ) → length (to_be n v) ≡ n
unfolding to_be
length-to_be zero v = refl
length-to_be (suc n) v =
    omega (arith, length-append (to_be n (v / 256)) (v % 256 ∷ []), length-to_be n (v / 256))

pub to_be-IsByte : (n v : ℕ) → All IsByte (to_be n v)
unfolding to_be
to_be-IsByte zero v = tt
to_be-IsByte (suc n) v =
    All-append IsByte (to_be n (v / 256)) (v % 256 ∷ []) (to_be-IsByte n (v / 256)) (omega arith)

-- An integer that fits its bytes is read back.
pub from_be-to_be : (n v : ℕ) → v < 256 ^ n → from_be (to_be n v) ≡ v
unfolding from_be to_be from_be_onto
from_be-to_be zero v h = omega arith
from_be-to_be (suc n) v h = omega (
  arith,
  from_be_onto-push 0 (v % 256) (to_be n (v / 256)),
  from_be-to_be n (v / 256) (omega (arith, pow-suc 256 n)),
)

-- `buf[at..at + n]`, where the source has checked the length.
unfoldable pub slice : ℕ → ℕ → List ℕ → List ℕ
slice at n buf = take n (drop at buf)

-- `buf[at]`, where the source has checked the length.
unfoldable pub byte_at : ℕ → List ℕ → ℕ
byte_at at [] = 0
byte_at zero (b ∷ bs) = b
byte_at (suc at) (b ∷ bs) = byte_at at bs

module _ {ℓ} {A : Type ℓ} where
  pub take-append_of : (n : ℕ) (xs ys : List A) → length xs ≡ n → take n (xs ++ ys) ≡ xs
  take-append_of zero [] ys h = refl
  take-append_of zero (x ∷ xs) ys h = absurd (omega arith)
  take-append_of (suc n) [] ys h = absurd (omega arith)
  take-append_of (suc n) (x ∷ xs) ys h = ap (◌∷◌ x) (take-append_of n xs ys (omega arith))

  pub drop-append_of : (n : ℕ) (xs ys : List A) → length xs ≡ n → drop n (xs ++ ys) ≡ ys
  drop-append_of zero [] ys h = refl
  drop-append_of zero (x ∷ xs) ys h = absurd (omega arith)
  drop-append_of (suc n) [] ys h = absurd (omega arith)
  drop-append_of (suc n) (x ∷ xs) ys h = drop-append_of n xs ys (omega arith)

  pub drop-drop : (m n : ℕ) (xs : List A) → drop (m + n) xs ≡ drop n (drop m xs)
  drop-drop zero n xs = let e : 0 + n ≡ n = omega arith in rw e
  drop-drop (suc m) zero [] = let e : suc m + 0 ≡ suc m = omega arith in rw e
  drop-drop (suc m) (suc n) [] = let e : suc m + suc n ≡ suc (m + suc n) = omega arith in rw e
  drop-drop (suc m) n (x ∷ xs) =
      let e : suc m + n ≡ suc (m + n) = omega arith in rw e (drop-drop m n xs)

  -- The same length in front splits two equal lists in equal parts.
  pub append-split :
      (xs ys xs' ys' : List A)
      → length xs ≡ length xs'
      → xs ++ ys ≡ xs' ++ ys'
      → (xs ≡ xs') × (ys ≡ ys')
  append-split xs ys xs' ys' h e = (
    sym (take-append_of (length xs) xs ys refl)
        ∙ ap (take (length xs)) e
        ∙ take-append_of (length xs) xs' ys' (sym h),
    sym (drop-append_of (length xs) xs ys refl)
        ∙ ap (drop (length xs)) e
        ∙ drop-append_of (length xs) xs' ys' (sym h),
  )

-- Two integers with the same bytes are equal.
pub to_be-injective : (n v w : ℕ) → v < 256 ^ n → w < 256 ^ n → to_be n v ≡ to_be n w → v ≡ w
to_be-injective n v w h k e = sym (from_be-to_be n v h) ∙ ap from_be e ∙ from_be-to_be n w k

-- `==` on two byte strings.
unfoldable pub same_bytes : List ℕ → List ℕ → Bool
same_bytes [] [] = true
same_bytes [] (y ∷ ys) = false
same_bytes (x ∷ xs) [] = false
same_bytes (x ∷ xs) (y ∷ ys) = x == y && same_bytes xs ys

pub same_bytes_self : (xs : List ℕ) → same_bytes xs xs ≡ true
unfolding same_bytes
same_bytes_self [] = refl
same_bytes_self (x ∷ xs) = rw (==_self x) (same_bytes_self xs)

and_true : (a b : Bool) → (a && b) ≡ true → (a ≡ true) × (b ≡ true)
and_true true b h = (refl, h)
and_true false b h = cc

pub same_bytes→eq : (xs ys : List ℕ) → same_bytes xs ys ≡ true → xs ≡ ys
unfolding same_bytes
same_bytes→eq [] [] h = refl
same_bytes→eq [] (y ∷ ys) h = cc
same_bytes→eq (x ∷ xs) [] h = cc
same_bytes→eq (x ∷ xs) (y ∷ ys) h =
    let (e, k) = and_true (x == y) (same_bytes xs ys) h in
    ap₂ (◌∷◌) (==→eq x y e) (same_bytes→eq xs ys k)

pub byte_at-append :
    (n : ℕ) (xs : List ℕ) (y : ℕ) (ys : List ℕ) → length xs ≡ n → byte_at n (xs ++ (y ∷ ys)) ≡ y
unfolding byte_at
byte_at-append zero [] y ys h = refl
byte_at-append zero (x ∷ xs) y ys h = absurd (omega arith)
byte_at-append (suc n) [] y ys h = absurd (omega arith)
byte_at-append (suc n) (x ∷ xs) y ys h = byte_at-append n xs y ys (omega arith)
