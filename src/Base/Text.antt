-- ===== src/Base/Text.antt =====
-- C strings as lists of bytes: literals, comparison, and decimal numbers.
use Prim.Native.Char.{code}
use Prim.Native.String.{String}
use Prim.Native.Nat.{ℕ, zero, suc, ◌+◌, ◌-◌, ◌*◌, ◌/◌, ◌%◌, ◌^◌, ◌<◌}
use native.Mathlib.Nat.{pow-suc}
use mathlib.Core.Path.{◌≡◌, sym, ap, ◌∙◌}
use mathlib.Core.Logic.{inl, inr}
use mathlib.Core.Bool.{Bool, true, ◌&&◌}
use mathlib.Core.List.{List, [], ◌∷◌}
use native.Mathlib.Omega.{arith}
use greko.Base.Tests.{ltb, leb, ◌==◌, if◌then◌else◌, Bool-cases}

-- The bytes of a literal.
abbrev pub codes : String → List ℕ
codes String.[] = []
codes (String.◌∷◌ c s) = code c ∷ codes s

-- `strcmp(a, b) == 0`: a byte 0 ends a string.
unfoldable pub same_text : List ℕ → List ℕ → Bool
same_text [] [] = true
same_text [] (y ∷ ys) = y == 0
same_text (x ∷ xs) [] = x == 0
same_text (x ∷ xs) (y ∷ ys) = x == y && (if x == 0 then true else same_text xs ys)

unfoldable pub is_digit : ℕ → Bool
is_digit c = leb 48 c && leb c 57

-- The number that digits stand for, after those of `acc`.
unfoldable pub value : ℕ → List ℕ → ℕ
value acc [] = acc
value acc (c ∷ cs) = value (acc * 10 + (c - 48)) cs

-- `printf("%lu")` in front of `rest`; each round writes one digit.
unfoldable pub digits_of : ℕ → ℕ → List ℕ → List ℕ
digits_of zero n rest = rest
digits_of (suc f) n rest =
    let more = digits_of f (n / 10) ((48 + n % 10) ∷ rest) in
    if ltb n 10 then (48 + n % 10) ∷ rest else more

-- Twenty digits are those of every number below 2 ^ 64.
unfoldable pub decimal : ℕ → List ℕ
decimal n = digits_of 20 n []

pub value-digits_of :
    (f n : ℕ) (rest : List ℕ) → n < 10 ^ f → value 0 (digits_of f n rest) ≡ value n rest
unfolding value digits_of
value-digits_of zero n rest h = ap (λ n. value n rest) (omega arith)
value-digits_of (suc f) n rest h = elim (Bool-cases (ltb n 10)) [
  | inl small ↦ rw small (ap (λ n. value n rest) (ground arith))
  | inr big ↦
      let less : n / 10 < 10 ^ f = omega (arith, pow-suc 10 f) in
      rw big (
        value-digits_of f (n / 10) ((48 + n % 10) ∷ rest) less
        ∙ ap (λ n. value n rest) (omega arith))
]

pub value-decimal : (n : ℕ) → n < 10 ^ 20 → value 0 (decimal n) ≡ n
unfolding decimal value
value-decimal n h = value-digits_of 20 n [] h

-- Different numbers have different digits.
pub decimal-ne : (n m : ℕ) → n < 10 ^ 20 → m < 10 ^ 20 → decimal n ≡ decimal m → n ≡ m
decimal-ne n m h k e = sym (value-decimal n h) ∙ ap (value 0) e ∙ value-decimal m k
