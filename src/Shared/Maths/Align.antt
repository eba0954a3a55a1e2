-- ===== src/Shared/Maths/Align.antt =====
-- What the alignment, division and ring macros of maths.h compute for powers of two.
use native.Mathlib.Nat.{
  one-le-pow, pow-suc, div-add-mod', mod-lt, pow-le-pow_right, mod-eq_of_lt, div-lt_iff_lt-mul,
  mul-mod_left, mul-sub, mul_comm, mul-add-mod_self_left, mod-mod_of_dvd, dvd_of_mod-eq-zero,
}
use homegrown.Prelude.{
  ℕ, zero, suc, ◌==◌, false, refl, ◌+◌, ◌-◌, ◌*◌, ◌/◌, ◌%◌, ◌^◌, ◌≤◌, ◌<◌, ◌≡◌, sym, ap, ◌∙◌, arith,
  bit_and, u64, sub64, not64, bit_and_mask, bit_and_shift, pow-add,
}
use homegrown.Shared.Maths.{
  align_up_value, align_down_value, ring_plus, ring_minus, ctz_from, ceiling_div_value,
}

-- A step forward and back in a ring whose size divides the word.
ring_back :
    (p q val amount : ℕ)
    → 0 < p
    → val < p
    → amount < q * p
    → ((val + amount) % p + q * p - amount) % p ≡ val
ring_back p q val amount pos h w =
    let t = (val + amount) / p in
    let bound : t < q + 1 = (div-lt_iff_lt-mul pos).1 (omega arith) in
    let d = q - t in
    let split : q ≡ t + d = omega arith in
    let e : (val + amount) % p + q * p - amount ≡ p * d + val =
      omega (arith, div-add-mod' (val + amount) p, ap (λ (x : ℕ). x * p) split, mul_comm p d) in
    ap (λ (x : ℕ). x % p) e ∙ mul-add-mod_self_left p (q - t) val ∙ mod-eq_of_lt h

-- `2 ^ k` fits the word, and divides it.
module _ (k : ℕ) (small : k < 64) where
  pub word_split : 2 ^ (64 - k) * 2 ^ k ≡ 18446744073709551616
  word_split =
      let e : 64 - k + k ≡ 64 = omega arith in sym (pow-add (64 - k) k) ∙ ap (λ (t : ℕ). 2 ^ t) e

  pow_range : (1 ≤ 2 ^ k) × (2 ^ k ≤ 9223372036854775808)
  pow_range = (
    one-le-pow k 2 (omega arith),
    let e : k ≤ 63 = omega arith in pow-le-pow_right {n = 2} (omega arith) e,
  )

  pub low_mask : sub64 (2 ^ k) 1 ≡ 2 ^ k - 1
  low_mask = omega (arith, pow_range)

  pub high_mask : not64 (sub64 (2 ^ k) 1) ≡ (2 ^ (64 - k) - 1) * 2 ^ k
  high_mask = omega (arith, word_split, pow_range, low_mask, mul-sub (2 ^ k) (2 ^ (64 - k)) 1)

  quotient-lt : (a : ℕ) → a < 2 ^ 64 → a / 2 ^ k < 2 ^ (64 - k)
  quotient-lt a h = (div-lt_iff_lt-mul pow_range.0).1 (omega (arith, word_split))

  word_mod : (a : ℕ) → a % 18446744073709551616 % 2 ^ k ≡ a % 2 ^ k
  word_mod a =
      mod-mod_of_dvd (2 ^ k) a
        (dvd_of_mod-eq-zero (2 ^ k) (rw (← word_split) (mul-mod_left (2 ^ (64 - k)) (2 ^ k))))

  -- The mask of the high digits rounds down to a multiple.
  pub align_down_pow : (val : ℕ) → val < 2 ^ 64 → align_down_value val (2 ^ k) ≡ val / 2 ^ k * 2 ^ k
  unfolding align_down_value
  align_down_pow val h =
      rw (high_mask, bit_and_shift, bit_and_mask, mod-eq_of_lt (quotient-lt val h))

  pub align_up_pow :
      (val : ℕ)
      → val + (2 ^ k - 1) < 2 ^ 64
      → align_up_value val (2 ^ k) ≡ (val + (2 ^ k - 1)) / 2 ^ k * 2 ^ k
  unfolding align_up_value
  align_up_pow val h =
      let e : u64 (val + (2 ^ k - 1)) ≡ val + (2 ^ k - 1) = omega arith in
      rw (high_mask, low_mask, e, bit_and_shift, bit_and_mask, mod-eq_of_lt (quotient-lt _ h))

  -- Rounding up to a power of two gives its least multiple that is not below the value, where
  -- the sum does not pass the word.
  pub align_up_value-least :
      (val : ℕ)
      → val + (2 ^ k - 1) < 2 ^ 64
      → (align_up_value val (2 ^ k) % 2 ^ k ≡ 0)
        × (val ≤ align_up_value val (2 ^ k))
        × (align_up_value val (2 ^ k) < val + 2 ^ k)
  align_up_value-least val h = rw (align_up_pow val h) (
    mul-mod_left _ (2 ^ k),
    omega (
      arith,
      pow_range,
      div-add-mod' (val + (2 ^ k - 1)) (2 ^ k),
      mod-lt (val + (2 ^ k - 1)) pow_range.0,
    ),
    omega (arith, pow_range, div-add-mod' (val + (2 ^ k - 1)) (2 ^ k)),
  )

  -- Rounding down to a power of two gives its greatest multiple that is not above the value.
  pub align_down_value-greatest :
      (val : ℕ)
      → val < 2 ^ 64
      → (align_down_value val (2 ^ k) % 2 ^ k ≡ 0)
        × (align_down_value val (2 ^ k) ≤ val)
        × (val < align_down_value val (2 ^ k) + 2 ^ k)
  align_down_value-greatest val h = rw (align_down_pow val h) (
    mul-mod_left _ (2 ^ k),
    omega (arith, div-add-mod' val (2 ^ k)),
    omega (arith, div-add-mod' val (2 ^ k), mod-lt val pow_range.0),
  )

  -- A step back in a ring of a power of two undoes a step forward, across the wrap, and both
  -- stay in the ring.
  pub ring_minus-ring_plus :
      (val amount : ℕ)
      → val < 2 ^ k
      → amount < 2 ^ 64
      → (ring_plus val amount (2 ^ k) < 2 ^ k)
        × (ring_minus (ring_plus val amount (2 ^ k)) amount (2 ^ k) ≡ val)
  unfolding ring_plus ring_minus
  ring_minus-ring_plus val amount h w =
      let first : bit_and (u64 (val + amount)) (2 ^ k - 1) ≡ (val + amount) % 2 ^ k =
        bit_and_mask k (u64 (val + amount)) ∙ word_mod (val + amount) in
      let back : ((val + amount) % 2 ^ k + 18446744073709551616 - amount) % 2 ^ k ≡ val =
        ap (λ (x : ℕ). ((val + amount) % 2 ^ k + x - amount) % 2 ^ k) (sym word_split)
        ∙ ring_back (2 ^ k) (2 ^ (64 - k)) val amount pow_range.0 h (omega (arith, word_split)) in
      rw (low_mask, first)
        (
          mod-lt _ pow_range.0,
          bit_and_mask k _
              ∙ word_mod ((val + amount) % 2 ^ k + 18446744073709551616 - amount)
              ∙ back,
        )

pub ctz_from_pow : (fuel k : ℕ) → k < fuel → ctz_from fuel (2 ^ k) ≡ k
unfolding ctz_from
ctz_from_pow zero k h = absurd (omega arith)
ctz_from_pow (suc fuel) zero h = refl
ctz_from_pow (suc fuel) (suc k) h =
    let half : 2 ^ suc k / 2 ≡ 2 ^ k = omega (arith, pow-suc 2 k) in
    let even : (2 ^ suc k % 2 == 1) ≡ false = ground (arith, pow-suc 2 k) in
    rw (even, half, ctz_from_pow fuel k (omega arith))

-- The rounded-up quotient by a power of two is the least number of parts of that size that hold
-- the value, where the sum does not pass the word.
pub ceiling_div_value-least :
    (k val : ℕ)
    → k < 64
    → val + (2 ^ k - 1) < 2 ^ 64
    → (val ≤ ceiling_div_value val (2 ^ k) * 2 ^ k)
      × (ceiling_div_value val (2 ^ k) * 2 ^ k < val + 2 ^ k)
unfolding ceiling_div_value
ceiling_div_value-least k val small h =
    let pos = (pow_range k small).0 in
    let e : u64 (val + (2 ^ k - 1)) ≡ val + (2 ^ k - 1) = omega arith in
    rw (low_mask k small, e, ctz_from_pow 64 k small)
      (
        omega (arith, div-add-mod' (val + (2 ^ k - 1)) (2 ^ k), mod-lt (val + (2 ^ k - 1)) pos),
        omega (arith, div-add-mod' (val + (2 ^ k - 1)) (2 ^ k)),
      )
