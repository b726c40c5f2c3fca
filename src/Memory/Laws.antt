-- ===== src/Memory/Laws.antt =====
-- Loads, stores and the reference updates.
use greko.Base.{
  ℕ, ◌+◌, ◌-◌, ◌*◌, ◌^◌, ◌≤◌, ◌<◌, ◌≡◌, sym, ap, ap₂, ◌∙◌, fun_ext, ◌&&◌, ltb, leb, if◌then◌else◌,
  arith, bit_or, bit_and, Bool-cases, inl, inr,
}
use greko.Base.Bits.{
  testbit, testbit-from_bits, testbit-bit_or, testbit-bit_and, testbit-pow, testbit-bit_not,
  bit_not, pow-lt, pow-pos, testbit-zero, from_bits-lt,
}
use greko.Memory.{Memory, load, store, mark, unmark}

pub testbit-load : (w : ℕ) (m : Memory) (a i : ℕ) → i < w → testbit (load w m a) i ≡ m (8 * a + i)
unfolding load
testbit-load w m a i h = ground (arith, testbit-from_bits (λ i. m (8 * a + i)) w i)

pub load-lt : (w : ℕ) (m : Memory) (a : ℕ) → load w m a < 2 ^ w
unfolding load
load-lt w m a = from_bits-lt (λ i. m (8 * a + i)) w

pub mark_empty : (lo hi : ℕ) (m : Memory) → hi ≤ lo → mark lo hi m ≡ m
unfolding mark
mark_empty lo hi m h = fun_ext λ n. ground arith

pub mark_join :
    (lo mid hi : ℕ) (m : Memory) → lo ≤ mid → mid ≤ hi → mark mid hi (mark lo mid m) ≡ mark lo hi m
unfolding mark
mark_join lo mid hi m p q = fun_ext λ n. ground arith

pub unmark_empty : (lo hi : ℕ) (m : Memory) → hi ≤ lo → unmark lo hi m ≡ m
unfolding unmark
unmark_empty lo hi m h = fun_ext λ n. ground arith

pub unmark_join :
    (lo mid hi : ℕ) (m : Memory)
    → lo ≤ mid
    → mid ≤ hi
    → unmark mid hi (unmark lo mid m) ≡ unmark lo hi m
unfolding unmark
unmark_join lo mid hi m p q = fun_ext λ n. ground arith

-- `*var |= 1 << t`
pub store-bit_or :
    (w : ℕ) (m : Memory) (a t : ℕ)
    → t < w
    → store w m a (bit_or (load w m a) (2 ^ t)) ≡ mark (8 * a + t) (8 * a + t + 1) m
unfolding store mark
store-bit_or w m a t h = fun_ext λ n. elim (Bool-cases (leb (8 * a) n && ltb n (8 * a + w))) [
  | inl inside ↦
      let i = n - 8 * a in
      let back : n ≡ 8 * a + i = ground arith in
      ground (
        arith,
        testbit-bit_or (load w m a) (2 ^ t) i,
        testbit-load w m a i (ground arith),
        testbit-pow t i,
        ap m back,
      )
  | inr outside ↦ ground arith
]

-- `*var &= ~(1 << t)`
pub store-bit_and :
    (w : ℕ) (m : Memory) (a t : ℕ)
    → t < w
    → store w m a (bit_and (load w m a) (bit_not w (2 ^ t))) ≡ unmark (8 * a + t) (8 * a + t + 1) m
unfolding store unmark
store-bit_and w m a t h = fun_ext λ n. elim (Bool-cases (leb (8 * a) n && ltb n (8 * a + w))) [
  | inl inside ↦
      let i = n - 8 * a in
      let back : n ≡ 8 * a + i = ground arith in
      ground (
        arith,
        testbit-bit_and (load w m a) (bit_not w (2 ^ t)) i,
        testbit-load w m a i (ground arith),
        testbit-bit_not w (2 ^ t) i (pow-lt t w h) (ground arith),
        testbit-pow t i,
        ap m back,
      )
  | inr outside ↦ ground arith
]

-- `*var = 0`
pub store-zero : (w : ℕ) (m : Memory) (a : ℕ) → store w m a 0 ≡ unmark (8 * a) (8 * a + w) m
unfolding store unmark
store-zero w m a = fun_ext λ n. ground (arith, testbit-zero (n - 8 * a))

-- `*var = ~0x0`
pub store-ones :
    (w : ℕ) (m : Memory) (a : ℕ) → store w m a (bit_not w 0) ≡ mark (8 * a) (8 * a + w) m
unfolding store mark
store-ones w m a = fun_ext λ n. elim (Bool-cases (leb (8 * a) n && ltb n (8 * a + w))) [
  | inl inside ↦
      let i = n - 8 * a in
      ground (arith, testbit-bit_not w 0 i (pow-pos w) (ground arith), testbit-zero i)
  | inr outside ↦ ground arith
]

-- `*dest = *src`
pub store-load :
    (w : ℕ) (m : Memory) (a b n : ℕ)
    → store w m a (load w m b) n
      ≡ (if leb (8 * a) n && ltb n (8 * a + w) then m (8 * b + (n - 8 * a)) else m n)
unfolding store
store-load w m a b n = elim (Bool-cases (leb (8 * a) n && ltb n (8 * a + w))) [
  | inl inside ↦ ground (arith, testbit-load w m b (n - 8 * a) (ground arith))
  | inr outside ↦ ground arith
]

-- The same with the ends given up to equations.
pub mark_at : {lo lo' hi hi' : ℕ} (m : Memory) → lo ≡ lo' → hi ≡ hi' → mark lo hi m ≡ mark lo' hi' m
mark_at m p q = ap₂ (λ k l. mark k l m) p q

pub mark_join_at :
    {lo lo' mid mid' hi hi' : ℕ} (m : Memory)
    → lo ≡ lo'
    → mid ≡ mid'
    → hi ≡ hi'
    → lo' ≤ mid
    → mid ≤ hi'
    → mark mid' hi (mark lo mid m) ≡ mark lo' hi' m
mark_join_at {lo = x} {lo' = a} {mid = b} {hi' = c} m p q r le le' =
    ap₂ (λ k l. mark k l (mark x b m)) (sym q) r
    ∙ ap (λ k. mark b c (mark k b m)) p
    ∙ mark_join a b c m le le'
