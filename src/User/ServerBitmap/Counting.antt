-- ===== src/User/ServerBitmap/Counting.antt =====
-- The number of dirty grains that the server announces.
use greko.Base.{
  ℕ, zero, suc, ◌+◌, ◌-◌, ◌*◌, ◌/◌, ◌%◌, ◌≤◌, ◌<◌, ◌≡◌, refl, sym, ap, ap₂, ◌∙◌, Bool, false, ltb,
  if◌then◌else◌, arith,
}
use greko.Memory.{Memory}
use greko.User.Types.{max_bits_len}
use greko.User.ServerBitmap.{count_bits, check_bit_set, get_total_bits_set}

-- 1 for a bit that is set.
abbrev bit : Bool → ℕ
bit b = if b then 1 else 0

-- The number of the set bits among the `n` from `i` on.
pub number_set : (ℕ → Bool) → ℕ → ℕ → ℕ
number_set f zero i = 0
number_set f (suc n) i = bit (f i) + number_set f n (suc i)

count_bits-number_set : (f : ℕ → Bool) (n i k : ℕ) → count_bits f n i k ≡ k + number_set f n i
unfolding count_bits number_set
count_bits-number_set f zero i k = omega arith
count_bits-number_set f (suc n) i k =
    count_bits-number_set f n (suc i) (if f i then suc k else k) ∙ ground arith

number_set_split :
    (f : ℕ → Bool) (a b i : ℕ) → number_set f (a + b) i ≡ number_set f a i + number_set f b (i + a)
unfolding number_set
number_set_split f zero b i = start b (i + 0) (omega arith) (omega arith)
  where
    start : (c j : ℕ) → 0 + b ≡ c → i ≡ j → number_set f (0 + b) i ≡ 0 + number_set f c j
    start c j p q = ap₂ (number_set f) p q ∙ omega arith
number_set_split f (suc a) b i =
    ap (λ n. number_set f n i) (flip-suc a b)
    ∙ ap (λ t. bit (f i) + t) (number_set_split f a b (suc i))
    ∙ regroup (bit (f i)) (number_set f a (suc i)) (suc i + a) (i + suc a) (omega arith)
  where
    flip-suc : (a b : ℕ) → suc a + b ≡ suc (a + b)
    flip-suc a b = omega arith

    regroup : (x y j k : ℕ) → j ≡ k → x + (y + number_set f b j) ≡ x + y + number_set f b k
    regroup x y j k e = ap (λ j. x + (y + number_set f b j)) e ∙ omega arith

-- Eight positions whose bits stand in the opposite order have as many set.
number_set_reversed :
    (f g : ℕ → Bool) (i : ℕ)
    → ((r : ℕ) → r < 8 → f (i + r) ≡ g (i + (7 - r)))
    → number_set f 8 i ≡ number_set g 8 i
unfolding number_set
number_set_reversed f g i h =
    let e0 =
      at i (suc (suc (suc (suc (suc (suc (suc i))))))) 0 (omega arith) (omega arith)
        (omega arith) in
    let e1 =
      at (suc i) (suc (suc (suc (suc (suc (suc i)))))) 1 (omega arith) (omega arith)
        (omega arith) in
    let e2 =
      at (suc (suc i)) (suc (suc (suc (suc (suc i))))) 2 (omega arith) (omega arith)
        (omega arith) in
    let e3 =
      at (suc (suc (suc i))) (suc (suc (suc (suc i)))) 3 (omega arith) (omega arith)
        (omega arith) in
    let e4 =
      at (suc (suc (suc (suc i)))) (suc (suc (suc i))) 4 (omega arith) (omega arith)
        (omega arith) in
    let e5 =
      at (suc (suc (suc (suc (suc i))))) (suc (suc i)) 5 (omega arith) (omega arith)
        (omega arith) in
    let e6 =
      at (suc (suc (suc (suc (suc (suc i)))))) (suc i) 6 (omega arith) (omega arith)
        (omega arith) in
    let e7 =
      at (suc (suc (suc (suc (suc (suc (suc i))))))) i 7 (omega arith) (omega arith)
        (omega arith) in
    omega (arith, e0, e1, e2, e3, e4, e5, e6, e7)
  where
    at : (a b r : ℕ) → a ≡ i + r → b ≡ i + (7 - r) → r < 8 → bit (f a) ≡ bit (g b)
    at a b r p q lt = ap (λ a. bit (f a)) p ∙ ap bit (h r lt) ∙ ap (λ b. bit (g b)) (sym q)

number_set_bytes :
    (f g : ℕ → Bool) (n q : ℕ)
    → ((k r : ℕ) → q ≤ k → k < q + n → r < 8 → f (8 * k + r) ≡ g (8 * k + (7 - r)))
    → number_set f (8 * n) (8 * q) ≡ number_set g (8 * n) (8 * q)
unfolding number_set
number_set_bytes f g zero q h = refl
number_set_bytes f g (suc n) q h =
    split f
    ∙ ap₂ (λ a b. a + b)
        (number_set_reversed f g (8 * q) (λ r lt. h q r (omega arith) (omega arith) lt))
        (number_set_bytes f g n (suc q) (λ k r lo hi lt. h k r (omega arith) (omega arith) lt))
    ∙ sym (split g)
  where
    split :
        (f : ℕ → Bool)
        → number_set f (8 * suc n) (8 * q)
          ≡ number_set f 8 (8 * q) + number_set f (8 * n) (8 * suc q)
    split f =
        ap (λ n. number_set f n (8 * q)) (omega arith)
        ∙ number_set_split f 8 (8 * n) (8 * q)
        ∙ ap (λ i. number_set f 8 (8 * q) + number_set f (8 * n) i) (omega arith)

check_bit_set-reversed :
    (area k r : ℕ) (m : Memory)
    → k < 16384
    → r < 8
    → check_bit_set area (8 * k + r) m ≡ m (8 * area + (8 * k + (7 - r)))
unfolding check_bit_set
check_bit_set-reversed area k r m hi lt =
    ap₂ (λ b t. if b then false else t) (inside k r hi lt) (ap m (place area k r lt))
  where
    inside : (k r : ℕ) → k < 16384 → r < 8 → ltb max_bits_len ((8 * k + r) / 32768 * 32768) ≡ false
    inside k r hi lt = ground arith

    place :
        (area k r : ℕ)
        → r < 8
        → 8 * (area + (8 * k + r) / 32768 * 32768 / 8 + (8 * k + r) % 32768 / 8)
            + (8 - 1 - (8 * k + r) % 32768 % 8)
          ≡ 8 * area + (8 * k + (7 - r))
    place area k r lt = omega arith

-- Although `ebdr_test_bit2` reads the bits of each byte from its high end, `get_total_bits_set` is
-- the number of bits that are set in the 16384 bytes at the address of the bitmap.
pub get_total_bits_set-number_set :
    (area : ℕ) (m : Memory)
    → get_total_bits_set area m ≡ number_set (λ i. m (8 * area + i)) (8 * 16384) 0
unfolding get_total_bits_set
get_total_bits_set-number_set area m =
    count_bits-number_set (λ i. check_bit_set area i m) max_bits_len 0 0
    ∙ omega arith
    ∙ number_set_bytes (λ i. check_bit_set area i m) (λ i. m (8 * area + i)) 16384 0
        (λ k r lo hi lt. check_bit_set-reversed area k r m (omega arith) lt)

-- The number depends on the bits alone.
pub number_set_same :
    (f g : ℕ → Bool) (n i : ℕ)
    → ((k : ℕ) → i ≤ k → k < i + n → f k ≡ g k)
    → number_set f n i ≡ number_set g n i
unfolding number_set
number_set_same f g zero i h = refl
number_set_same f g (suc n) i h =
    ap₂ (λ a b. a + b) (ap bit (h i (omega arith) (omega arith)))
      (number_set_same f g n (suc i) (λ k lo hi. h k (omega arith) (omega arith)))
