-- ===== src/Base/Bits.antt =====
-- Binary digits of a number, and what the native bit operations do to each digit, at every width.
use Prim.Native.Nat.{
  min, max, digits, bitwise, bit_and-bitwise, bit_or-bitwise, ℕ, zero, suc, ◌+◌, ◌-◌, ◌*◌, ◌/◌, ◌%◌,
  ◌^◌, ◌≤◌, ◌<◌, bit_and, bit_or,
}
use native.Mathlib.Nat.{pow-suc}
use mathlib.Core.Path.{◌≡◌, refl, ap, ◌∙◌}
use mathlib.Core.Bool.{Bool, false, not, ◌&&◌, ◌||◌}
use native.Mathlib.Omega.{arith}
use greko.Base.Tests.{◌==◌, ltb, if◌then◌else◌}

-- Digit `i`, the lowest first.
pub testbit : ℕ → ℕ → Bool
testbit x zero = x % 2 == 1
testbit x (suc i) = testbit (x / 2) i

module _ (z : ℕ → ℕ) (f : ℕ → ℕ → ℕ) where
  digits-more : (n m a b : ℕ) → a ≤ n → a ≤ m → digits z f n a b ≡ digits z f m a b
  digits-more zero zero a b p q = refl
  digits-more (suc n) (suc m) zero b p q = refl
  digits-more (suc n) (suc m) (suc a) b p q =
      omega (arith, digits-more n m (suc a / 2) (b / 2) (omega arith) (omega arith))
  digits-more zero (suc m) zero b p q = refl
  digits-more (suc n) zero zero b p q = refl
  digits-more zero (suc m) (suc a) b p q = absurd (omega arith)
  digits-more (suc n) zero (suc a) b p q = absurd (omega arith)

  lowest_digit :
      (a b : ℕ)
      → bitwise z f (suc a) b ≡ bitwise z f (suc a / 2) (b / 2) * 2 + f (suc a % 2) (b % 2)
  lowest_digit a b =
      omega (arith, digits-more a (suc a / 2) (suc a / 2) (b / 2) (omega arith) (omega arith))

bit_or-digit : (a b : ℕ) → bit_or a b ≡ bit_or (a / 2) (b / 2) * 2 + max (a % 2) (b % 2)
bit_or-digit (suc a) b = simp bit_or-bitwise (lowest_digit (λ y. y) max a b)
bit_or-digit zero b = simp bit_or-bitwise (omega arith)

bit_and-digit : (a b : ℕ) → bit_and a b ≡ bit_and (a / 2) (b / 2) * 2 + min (a % 2) (b % 2)
bit_and-digit (suc a) b = simp bit_and-bitwise (lowest_digit (λ y. 0) min a b)
bit_and-digit zero b = simp bit_and-bitwise (omega arith)

max_digit : (a b : ℕ) → (max (a % 2) (b % 2) == 1) ≡ (a % 2 == 1 || b % 2 == 1)
max_digit a b = ground (arith, low a, low b)
  where
    low : (x : ℕ) → x % 2 < 2
    low x = omega arith

min_digit : (a b : ℕ) → (min (a % 2) (b % 2) == 1) ≡ (a % 2 == 1 && b % 2 == 1)
min_digit a b = ground (arith, low a, low b)
  where
    low : (x : ℕ) → x % 2 < 2
    low x = omega arith

testbit_cong : {x y : ℕ} → x ≡ y → (i : ℕ) → testbit x i ≡ testbit y i
testbit_cong e i = ap (λ x. testbit x i) e

pub testbit-bit_or : (a b i : ℕ) → testbit (bit_or a b) i ≡ (testbit a i || testbit b i)
unfolding testbit
testbit-bit_or a b zero =
    let e : bit_or a b % 2 ≡ max (a % 2) (b % 2) = omega (arith, bit_or-digit a b) in
    rw e (max_digit a b)
testbit-bit_or a b (suc i) =
    let e : bit_or a b / 2 ≡ bit_or (a / 2) (b / 2) = omega (arith, bit_or-digit a b) in
    rw e (testbit-bit_or (a / 2) (b / 2) i)

pub testbit-bit_and : (a b i : ℕ) → testbit (bit_and a b) i ≡ (testbit a i && testbit b i)
unfolding testbit
testbit-bit_and a b zero =
    let e : bit_and a b % 2 ≡ min (a % 2) (b % 2) = omega (arith, bit_and-digit a b) in
    rw e (min_digit a b)
testbit-bit_and a b (suc i) =
    let e : bit_and a b / 2 ≡ bit_and (a / 2) (b / 2) = omega (arith, bit_and-digit a b) in
    rw e (testbit-bit_and (a / 2) (b / 2) i)

pub testbit-zero : (i : ℕ) → testbit 0 i ≡ false
unfolding testbit
testbit-zero zero = refl
testbit-zero (suc i) = testbit-zero i

pub testbit-pow : (t i : ℕ) → testbit (2 ^ t) i ≡ (i == t)
unfolding testbit
testbit-pow zero zero = refl
testbit-pow zero (suc i) = testbit-zero i ∙ ground arith
testbit-pow (suc t) zero =
    let e : 2 ^ suc t % 2 ≡ 0 = omega (arith, pow-suc 2 t) in rw e (ground arith)
testbit-pow (suc t) (suc i) =
    let e : 2 ^ suc t / 2 ≡ 2 ^ t = omega (arith, pow-suc 2 t) in
    rw e (testbit-pow t i ∙ ground arith)

-- `~x` on a `w`-bit word.
abbrev pub bit_not : ℕ → ℕ → ℕ
bit_not w x = 2 ^ w - 1 - x

pub testbit-bit_not : (w x i : ℕ) → x < 2 ^ w → i < w → testbit (bit_not w x) i ≡ not (testbit x i)
unfolding testbit
testbit-bit_not zero x i h lt = absurd (omega arith)
testbit-bit_not (suc w) x zero h lt =
    let e : bit_not (suc w) x % 2 ≡ 1 - x % 2 = omega (arith, pow-suc 2 w) in
    let r : x % 2 < 2 = omega arith in rw e (ground arith)
testbit-bit_not (suc w) x (suc i) h lt =
    let e : bit_not (suc w) x / 2 ≡ bit_not w (x / 2) = omega (arith, pow-suc 2 w) in
    rw e (testbit-bit_not w (x / 2) i (omega (arith, pow-suc 2 w)) (omega arith))

pub pow-pos : (w : ℕ) → 0 < 2 ^ w
pow-pos zero = omega arith
pow-pos (suc w) = omega (arith, pow-suc 2 w, pow-pos w)

pub pow-lt : (t w : ℕ) → t < w → 2 ^ t < 2 ^ w
pow-lt t zero h = absurd (omega arith)
pow-lt zero (suc w) h = omega (arith, pow-suc 2 w, pow-pos w)
pow-lt (suc t) (suc w) h = omega (arith, pow-suc 2 w, pow-suc 2 t, pow-lt t w (omega arith))

-- The number with the digits `f 0`, …, `f (k - 1)`.
pub from_bits : (ℕ → Bool) → ℕ → ℕ
from_bits f zero = 0
from_bits f (suc k) = (if f 0 then 1 else 0) + 2 * from_bits (λ i. f (suc i)) k

pub testbit-from_bits :
    (f : ℕ → Bool) (k i : ℕ) → testbit (from_bits f k) i ≡ (if ltb i k then f i else false)
unfolding from_bits testbit
testbit-from_bits f zero i = testbit-zero i ∙ ground arith
testbit-from_bits f (suc k) zero =
    let rest = from_bits (λ i. f (suc i)) k in
    let e : ((if f 0 then 1 else 0) + 2 * rest) % 2 ≡ (if f 0 then 1 else 0) = ground arith in
    rw e (ground arith)
testbit-from_bits f (suc k) (suc i) =
    let rest = from_bits (λ i. f (suc i)) k in
    let e : ((if f 0 then 1 else 0) + 2 * rest) / 2 ≡ rest = ground arith in
    rw e (testbit-from_bits (λ i. f (suc i)) k i ∙ ground arith)

-- A byte is the sum of its bits.
pub from_bits-byte :
    (f : ℕ → Bool)
    → from_bits f 8
      ≡ (if f 0 then 1 else 0)
        + (if f 1 then 2 else 0)
        + (if f 2 then 4 else 0)
        + (if f 3 then 8 else 0)
        + (if f 4 then 16 else 0)
        + (if f 5 then 32 else 0)
        + (if f 6 then 64 else 0)
        + (if f 7 then 128 else 0)
unfolding from_bits
from_bits-byte f = ground arith

pub from_bits-lt : (f : ℕ → Bool) (k : ℕ) → from_bits f k < 2 ^ k
unfolding from_bits
from_bits-lt f zero = omega arith
from_bits-lt f (suc k) = ground (arith, pow-suc 2 k, from_bits-lt (λ i. f (suc i)) k)
