-- ===== src/User/Resync/Result.antt =====
-- What the transfers of a resynchronisation leave at each byte of the target, with chunks of one
-- buffer.
use greko.Base.{
  ℕ, zero, suc, ◌+◌, ◌*◌, ◌/◌, ◌%◌, ◌≤◌, ◌<◌, ◌≡◌, sym, ap, ap₂, ◌∙◌, fun_ext, Bool, ◌&&◌, ltb, leb,
  if◌then◌else◌, arith, inl, inr, Bool-cases, dec_lt, dec_le,
}
use native.Mathlib.Nat.{div-eq_of_lt-le}
use greko.Base.Loops.{for_range}
use greko.Memory.{Memory}
use greko.User.Types.{Bytes, RepMode, buf_size_in_bytes, sector_bytes}
use greko.User.Resync.Reliable.{
  replace, offset, chunks_replaced, is_wanted, grain_replaced, grains_replaced,
}

replace_join :
    (source t : Bytes) (a b c : ℕ)
    → a ≤ b
    → b ≤ c
    → replace source b c (replace source a b t) ≡ replace source a c t
replace_join source t a b c h k = fun_ext λ x. at x
  where
    at : (x : ℕ) → replace source b c (replace source a b t) x ≡ replace source a c t x
    at x = ground arith

replace_none : (source t : Bytes) (a : ℕ) → replace source a a t ≡ t
replace_none source t a = fun_ext λ x. at x
  where
    at : (x : ℕ) → replace source a a t x ≡ t x
    at x = ground arith

-- The bytes of a grain.
abbrev pub grain_bytes : ℕ → ℕ
grain_bytes gs = gs * sector_bytes

pub in_grain : (g b x : ℕ) → b * g ≤ x → x < suc b * g → x / g ≡ b
in_grain g b x lo hi = div-eq_of_lt-le g lo (omega arith)

byte_step :
    (wanted : ℕ → Bool) (source t : Bytes) (g n bit x : ℕ)
    → (if leb (suc bit * g) x && ltb x ((suc bit + n) * g) && wanted (x / g)
        then source x
        else (if wanted bit then replace source (bit * g) (suc bit * g) t else t) x)
      ≡ (if leb (bit * g) x && ltb x ((bit + suc n) * g) && wanted (x / g) then source x else t x)
byte_step wanted source t g n bit x = elim (dec_lt x (suc bit * g)) [
  | yes hi ↦ elim (dec_le (bit * g) x) [
    | yes lo ↦
        let e = ap wanted (in_grain g bit x lo hi) in
        elim (Bool-cases (wanted bit)) [
          | inl set ↦ let f = e ∙ set in rw (set, f) (ground arith)
          | inr clear ↦ let f = e ∙ clear in rw (clear, f) (ground arith)
        ]
    | no below ↦ elim (Bool-cases (wanted bit)) [
      | inl set ↦ rw set (ground arith)
      | inr clear ↦ rw clear (ground arith)
    ]
  ]
  | no above ↦ elim (Bool-cases (wanted bit)) [
    | inl set ↦ rw set (ground arith)
    | inr clear ↦ rw clear (ground arith)
  ]
]

module _ (source : Bytes) (gs : ℕ) where
  chunks_replaced-replace :
      (n chunk bit : ℕ) (t : Bytes)
      → chunks_replaced source gs 8 n chunk bit t
        ≡ replace source (offset gs 8 bit chunk) (offset gs 8 bit (chunk + n)) t
  unfolding for_range
  chunks_replaced-replace zero chunk bit t =
      sym (replace_none source t (offset gs 8 bit chunk))
      ∙ ap (λ o. replace source (offset gs 8 bit chunk) o t) (omega arith)
  chunks_replaced-replace (suc n) chunk bit t =
      let o = offset gs 8 bit chunk in
      chunks_replaced-replace n (suc chunk) bit (replace source o (o + buf_size_in_bytes) t)
      ∙ ap₂ (λ a b. replace source a b (replace source o (o + buf_size_in_bytes) t))
          (next bit chunk) (later bit chunk n)
      ∙ replace_join source t o (o + buf_size_in_bytes) (offset gs 8 bit (chunk + suc n))
          (omega arith) (omega arith)
    where
      next :
          (bit chunk : ℕ) → offset gs 8 bit (suc chunk) ≡ offset gs 8 bit chunk + buf_size_in_bytes
      next bit chunk = omega arith

      later : (bit chunk n : ℕ) → offset gs 8 bit (suc chunk + n) ≡ offset gs 8 bit (chunk + suc n)
      later bit chunk n = omega arith

  -- A wanted grain becomes that of the source, the others stay.
  grain_replaced-replace :
      (mode : RepMode) (area : Memory) (bit : ℕ) (t : Bytes)
      → gs % 8 ≡ 0
      → grain_replaced source gs 8 mode area bit t ≡ (
          if is_wanted mode area bit
          then replace source (bit * grain_bytes gs) (suc bit * grain_bytes gs) t
          else t)
  grain_replaced-replace mode area bit t whole =
      ap (λ u. if is_wanted mode area bit then u else t)
        (chunks_replaced-replace (gs / 8) 0 bit t
          ∙ ap₂ (λ a b. replace source a b t) (first bit) (last bit (omega (arith, whole))))
    where
      first : (bit : ℕ) → offset gs 8 bit 0 ≡ bit * grain_bytes gs
      first bit = omega arith

      last : (bit : ℕ) → gs / 8 * 8 ≡ gs → offset gs 8 bit (0 + gs / 8) ≡ suc bit * grain_bytes gs
      last bit e = omega arith

  -- What the transfer of the grains from `bit` on, `n` of them, leaves at each byte.
  pub grains_replaced-byte :
      (mode : RepMode) (area : Memory) (n bit : ℕ) (t : Bytes) (x : ℕ)
      → gs % 8 ≡ 0
      → grains_replaced source gs 8 mode area n bit t x ≡ (
          if leb (bit * grain_bytes gs) x
            && ltb x ((bit + n) * grain_bytes gs)
            && is_wanted mode area (x / grain_bytes gs)
          then source x
          else t x)
  unfolding for_range
  grains_replaced-byte mode area zero bit t x whole = ground arith
  grains_replaced-byte mode area (suc n) bit t x whole =
      grains_replaced-byte mode area n (suc bit) (grain_replaced source gs 8 mode area bit t) x
        whole
      ∙ ap
          (λ u.
            if leb (suc bit * grain_bytes gs) x
              && ltb x ((suc bit + n) * grain_bytes gs)
              && is_wanted mode area (x / grain_bytes gs)
            then source x
            else u x)
          (grain_replaced-replace mode area bit t whole)
      ∙ byte_step (is_wanted mode area) source t (grain_bytes gs) n bit x
