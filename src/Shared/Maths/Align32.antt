-- ===== src/Shared/Maths/Align32.antt =====
-- The alignment and division macros of maths.h at U32, for powers of two.
use native.Mathlib.Nat.{
  one-le-pow, div-add-mod', mod-lt, pow-le-pow_right, mod-eq_of_lt, div-lt_iff_lt-mul, mul-mod_left,
  mul-sub,
}
use homegrown.Prelude.{
  ℕ, ◌+◌, ◌-◌, ◌*◌, ◌/◌, ◌%◌, ◌^◌, ◌≤◌, ◌<◌, ◌≡◌, sym, ap, ◌∙◌, arith, u32, u32_max, sub32,
  bit_and_mask, bit_and_shift, pow-add,
}
use homegrown.Shared.Maths.{align_up_value32, ceiling_div_value32}
use homegrown.Shared.Maths.Align.{ctz_from_pow}

module _ (k : ℕ) (small : k < 32) where
  pub word_split : 2 ^ (32 - k) * 2 ^ k ≡ 4294967296
  word_split =
      let e : 32 - k + k ≡ 32 = omega arith in sym (pow-add (32 - k) k) ∙ ap (λ (t : ℕ). 2 ^ t) e

  pub pow_range : (1 ≤ 2 ^ k) × (2 ^ k ≤ 2147483648)
  pow_range = (
    one-le-pow k 2 (omega arith),
    let e : k ≤ 31 = omega arith in pow-le-pow_right {n = 2} (omega arith) e,
  )

  pub low_mask : sub32 (2 ^ k) 1 ≡ 2 ^ k - 1
  low_mask = omega (arith, pow_range)

  high_mask : u32_max - sub32 (2 ^ k) 1 ≡ (2 ^ (32 - k) - 1) * 2 ^ k
  high_mask = omega (arith, word_split, pow_range, low_mask, mul-sub (2 ^ k) (2 ^ (32 - k)) 1)

  quotient-lt : (a : ℕ) → a < 2 ^ 32 → a / 2 ^ k < 2 ^ (32 - k)
  quotient-lt a h = (div-lt_iff_lt-mul pow_range.0).1 (omega (arith, word_split))

  rounded :
      (val : ℕ)
      → val + (2 ^ k - 1) < 2 ^ 32
      → align_up_value32 val (2 ^ k) ≡ (val + (2 ^ k - 1)) / 2 ^ k * 2 ^ k
  unfolding align_up_value32
  rounded val h =
      let e : u32 (val + (2 ^ k - 1)) ≡ val + (2 ^ k - 1) = omega arith in
      rw (high_mask, low_mask, e, bit_and_shift, bit_and_mask, mod-eq_of_lt (quotient-lt _ h))

  -- The same for words of 32 bits.
  pub align_up_value32-least :
      (val : ℕ)
      → val + (2 ^ k - 1) < 2 ^ 32
      → (align_up_value32 val (2 ^ k) % 2 ^ k ≡ 0)
        × (val ≤ align_up_value32 val (2 ^ k))
        × (align_up_value32 val (2 ^ k) < val + 2 ^ k)
  align_up_value32-least val h = rw (rounded val h) (
    mul-mod_left _ (2 ^ k),
    omega (
      arith,
      pow_range,
      div-add-mod' (val + (2 ^ k - 1)) (2 ^ k),
      mod-lt (val + (2 ^ k - 1)) pow_range.0,
    ),
    omega (arith, pow_range, div-add-mod' (val + (2 ^ k - 1)) (2 ^ k)),
  )

  pub ceiling_div_value32-least :
      (val : ℕ)
      → val + (2 ^ k - 1) < 2 ^ 32
      → (val ≤ ceiling_div_value32 val (2 ^ k) * 2 ^ k)
        × (ceiling_div_value32 val (2 ^ k) * 2 ^ k < val + 2 ^ k)
  unfolding ceiling_div_value32
  ceiling_div_value32-least val h =
      let e : u32 (val + (2 ^ k - 1)) ≡ val + (2 ^ k - 1) = omega arith in
      rw (low_mask, e, ctz_from_pow 64 k (omega arith))
        (
          omega (
            arith,
            pow_range,
            div-add-mod' (val + (2 ^ k - 1)) (2 ^ k),
            mod-lt (val + (2 ^ k - 1)) pow_range.0,
          ),
          omega (arith, pow_range, div-add-mod' (val + (2 ^ k - 1)) (2 ^ k)),
        )
