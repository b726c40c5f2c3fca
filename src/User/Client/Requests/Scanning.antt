-- ===== src/User/Client/Requests/Scanning.antt =====
-- What a scan of the requests in user/atdr_linux/atdr_daemon.c reads of a text that was printed:
-- words and decimal numbers with one blank in front of each.
use greko.Base.{
  ℕ, zero, suc, ◌+◌, ◌/◌, ◌%◌, ◌^◌, ◌<◌, ◌≡◌, refl, sym, ap, ◌∙◌, Bool, true, false, ◌&&◌, not,
  some, List, [], ◌∷◌, ◌++◌, ltb, ◌==◌, arith, if_holds,
}
use mathlib.Core.List.{append-nil}
use greko.Base.Text.{is_digit, value, digits_of, decimal, value-decimal}
use greko.Adm.{length}
use greko.User.Client.Requests.{
  is_space, skip_space, take_while, scan_word, scan_number, signed, digits_or_fail,
}

abbrev pub all : (ℕ → Bool) → List ℕ → Bool
all p [] = true
all p (c ∷ cs) = p c && all p cs

abbrev pub is_letter : ℕ → Bool
is_letter c = not (is_space c)

-- A word that "%s" reads.
abbrev pub is_word : List ℕ → Bool
is_word [] = false
is_word (c ∷ cs) = is_letter c && all is_letter cs

-- What follows a word: the end or a blank.
abbrev pub is_end : List ℕ → Bool
is_end [] = true
is_end (c ∷ cs) = c == 32

take_while-all :
    (p : ℕ → Bool) (w rest : List ℕ)
    → p 32 ≡ false
    → all p w ≡ true
    → is_end rest ≡ true
    → take_while p (w ++ rest) ≡ (w, rest)
unfolding take_while
take_while-all p [] [] no_blank h e = refl
take_while-all p [] (c ∷ cs) no_blank h e =
    let no_more : p c ≡ false = ap p (ground arith) ∙ no_blank in rw no_more refl
take_while-all p (c ∷ w) rest no_blank h e =
    let yes : p c ≡ true = ground arith in
    let later : all p w ≡ true = ground arith in
    rw (yes, take_while-all p w rest no_blank later e) refl

skip_space-letter : (c : ℕ) (t : List ℕ) → is_letter c ≡ true → skip_space (c ∷ t) ≡ c ∷ t
unfolding skip_space
skip_space-letter c t h = ground arith

skip_space-blank : (t : List ℕ) → skip_space (32 ∷ t) ≡ skip_space t
unfolding skip_space is_space
skip_space-blank t = refl

is_letter-blank : is_letter 32 ≡ false
unfolding is_space
is_letter-blank = refl

read_word :
    (c : ℕ) (w rest : List ℕ)
    → is_word (c ∷ w) ≡ true
    → is_end rest ≡ true
    → take_while is_letter (skip_space (c ∷ (w ++ rest))) ≡ (c ∷ w, rest)
read_word c w rest h e =
    let here : is_letter c ≡ true = ground arith in
    ap (take_while is_letter) (skip_space-letter c (w ++ rest) here)
    ∙ take_while-all is_letter (c ∷ w) rest is_letter-blank h e

scan_word-reads :
    (size : ℕ) (old t w rest : List ℕ) (c : ℕ)
    → take_while is_letter (skip_space t) ≡ (c ∷ w, rest)
    → length (c ∷ w) < size
    → scan_word size old (some t) ≡ some (c ∷ w, some rest)
unfolding scan_word
scan_word-reads size old t w rest c e lt =
    let small : ltb (length (c ∷ w)) size ≡ true = ground arith in rw e (rw small refl)

pub scan_word-first :
    (size : ℕ) (old w rest : List ℕ)
    → is_word w ≡ true
    → length w < size
    → is_end rest ≡ true
    → scan_word size old (some (w ++ rest)) ≡ some (w, some rest)
scan_word-first size old [] rest h lt e = absurd (cc h)
scan_word-first size old (c ∷ w) rest h lt e =
    scan_word-reads size old _ w rest c (read_word c w rest h e) lt

pub scan_word-next :
    (size : ℕ) (old w rest : List ℕ)
    → is_word w ≡ true
    → length w < size
    → is_end rest ≡ true
    → scan_word size old (some (32 ∷ (w ++ rest))) ≡ some (w, some rest)
scan_word-next size old [] rest h lt e = absurd (cc h)
scan_word-next size old (c ∷ w) rest h lt e =
    scan_word-reads size old _ w rest c
      (ap (take_while is_letter) (skip_space-blank (c ∷ (w ++ rest))) ∙ read_word c w rest h e) lt

digits_of-digits :
    (f n : ℕ) (rest : List ℕ) → all is_digit rest ≡ true → all is_digit (digits_of f n rest) ≡ true
unfolding digits_of is_digit
digits_of-digits zero n rest h = h
digits_of-digits (suc f) n rest h =
    let more : all is_digit ((48 + n % 10) ∷ rest) ≡ true = ground arith in
    if_holds (λ l. all is_digit l ≡ true) (ltb n 10) _ _ (λ b. more)
      (λ b. digits_of-digits f (n / 10) ((48 + n % 10) ∷ rest) more)

abbrev is_nonempty : List ℕ → Bool
is_nonempty [] = false
is_nonempty (c ∷ cs) = true

digits_of-nonempty :
    (f n : ℕ) (rest : List ℕ) → is_nonempty rest ≡ true → is_nonempty (digits_of f n rest) ≡ true
unfolding digits_of
digits_of-nonempty zero n rest h = h
digits_of-nonempty (suc f) n rest h =
    if_holds (λ l. is_nonempty l ≡ true) (ltb n 10) _ _ (λ b. refl)
      (λ b. digits_of-nonempty f (n / 10) ((48 + n % 10) ∷ rest) refl)

decimal-digits : (n : ℕ) → (all is_digit (decimal n) ≡ true) × (is_nonempty (decimal n) ≡ true)
unfolding decimal digits_of
decimal-digits n = (
  digits_of-digits 20 n [] refl,
  if_holds (λ l. is_nonempty l ≡ true) (ltb n 10) _ _ (λ b. refl)
      (λ b. digits_of-nonempty 19 (n / 10) ((48 + n % 10) ∷ []) refl),
)

digit-facts :
    (c : ℕ) → is_digit c ≡ true → (is_letter c ≡ true) × ((c == 45) ≡ false) × ((c == 43) ≡ false)
unfolding is_digit is_space
digit-facts c h = (ground arith, ground arith, ground arith)

is_digit-blank : is_digit 32 ≡ false
unfolding is_digit
is_digit-blank = refl

-- Digits that the end or a blank follows.
signed-digits :
    (convert : Bool → ℕ → ℕ) (old : ℕ) (w rest : List ℕ)
    → all is_digit w ≡ true
    → is_nonempty w ≡ true
    → is_end rest ≡ true
    → signed convert old (skip_space (32 ∷ (w ++ rest))) ≡ (convert false (value 0 w), some rest)
unfolding signed
signed-digits convert old [] rest h k e = absurd (cc k)
signed-digits convert old (c ∷ w) rest h k e =
    let (letter, no_minus, no_plus) = digit-facts c (ground arith) in
    ap (signed convert old)
      (skip_space-blank (c ∷ (w ++ rest)) ∙ skip_space-letter c (w ++ rest) letter)
    ∙ rw (no_minus, no_plus)
        (ap (digits_or_fail (convert false) old)
          (take_while-all is_digit (c ∷ w) rest is_digit-blank h e))

pub scan_number-next :
    (convert : Bool → ℕ → ℕ) (old n : ℕ) (rest : List ℕ)
    → n < 10 ^ 20
    → is_end rest ≡ true
    → scan_number convert old (some (32 ∷ (decimal n ++ rest))) ≡ (convert false n, some rest)
scan_number-next convert old n rest lt e =
    signed-digits convert old (decimal n) rest (decimal-digits n).0 (decimal-digits n).1 e
    ∙ ap (λ v. (convert false v, some rest)) (value-decimal n lt)

-- A text that is one word, and one that is one number.
pub scan_word-whole :
    (size : ℕ) (old w : List ℕ)
    → is_word w ≡ true
    → length w < size
    → scan_word size old (some w) ≡ some (w, some [])
scan_word-whole size old w h lt =
    ap (λ t. scan_word size old (some t)) (sym (append-nil w))
    ∙ scan_word-first size old w [] h lt refl

pub scan_number-whole :
    (convert : Bool → ℕ → ℕ) (old n : ℕ)
    → n < 10 ^ 20
    → scan_number convert old (some (decimal n)) ≡ (convert false n, some [])
scan_number-whole convert old n lt =
    ap (λ t. scan_number convert old (some t)) (sym (append-nil (decimal n)))
    ∙ ap (signed convert old) (sym (skip_space-blank (decimal n ++ [])))
    ∙ scan_number-next convert old n [] lt refl
