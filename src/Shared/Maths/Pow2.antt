-- ===== src/Shared/Maths/Pow2.antt =====
-- `next_pow2` and `what_pow2` of maths.h.
use native.Mathlib.Nat.{pow-suc, pow-le-pow_right}
use homegrown.Prelude.{
  ℕ, zero, suc, ◌+◌, ◌-◌, ◌*◌, ◌/◌, ◌^◌, ◌≤◌, ◌<◌, ◌≡◌, refl, ap, ◌∙◌, true, false, some, none, leb,
  leb→le, ◌==◌, sub64, arith, Bool-cases, inl, inr, ◌⊎◌,
}
use homegrown.Shared.Maths.{bit_length_from, next_pow2, what_pow2}

bit_length_le : (fuel x : ℕ) → bit_length_from fuel x ≤ fuel
unfolding bit_length_from
bit_length_le zero x = omega arith
bit_length_le (suc fuel) x = ground (arith, bit_length_le fuel (x / 2))

bit_length-zero : (fuel : ℕ) → bit_length_from fuel 0 ≡ 0
unfolding bit_length_from
bit_length-zero zero = refl
bit_length-zero (suc fuel) = refl

-- The digit count brackets a number between powers of two.
bit_length_bracket :
    (fuel x : ℕ)
    → x < 2 ^ fuel
    → (x < 2 ^ bit_length_from fuel x) × (1 ≤ x → 2 ^ bit_length_from fuel x ≤ 2 * x)
unfolding bit_length_from
bit_length_bracket zero x h = (h, λ p. absurd (omega arith))
bit_length_bracket (suc fuel) x h = elim (Bool-cases (x == 0)) [
  | inl none_left ↦
      let z : x ≡ 0 = ground arith in rw none_left (omega arith, λ p. absurd (omega arith))
  | inr more ↦
      let (above, below) = bit_length_bracket fuel (x / 2) (omega (arith, pow-suc 2 fuel)) in
      let n = bit_length_from fuel (x / 2) in
      rw more (
        omega (arith, pow-suc 2 n),
        λ p. elim (Bool-cases (x / 2 == 0)) [
          | inl one_digit ↦
              let z : x / 2 ≡ 0 = ground arith in rw (z, bit_length-zero fuel) (omega arith)
          | inr digits ↦ let q : 1 ≤ x / 2 = ground arith in omega (arith, pow-suc 2 n, below q)
        ],
      )
]

-- Exponents compare as the powers do.
exponent_le : (n k : ℕ) → 2 ^ n < 2 ^ suc k → n ≤ k
exponent_le n k h = elim (Bool-cases (leb n k)) [
  | inl within ↦ leb→le n k within
  | inr past ↦
      let over : suc k ≤ n = ground arith in
      absurd (omega (arith, pow-le-pow_right {n = 2} (omega arith) over))
]

-- For 1 to 2 ^ 30 `next_pow2` gives the least power of two that is not below its argument.
pub next_pow2-least :
    (x : ℕ)
    → 1 ≤ x
    → x ≤ 2 ^ 30
    → (k : ℕ) × (next_pow2 x ≡ some (2 ^ k)) × (x ≤ 2 ^ k) × ((x ≡ 1) × (k ≡ 0) ⊎ (2 ^ k < 2 * x))
unfolding next_pow2
next_pow2-least x pos small = elim (Bool-cases (x == 1)) [
  | inl one_left ↦ let z : x ≡ 1 = ground arith in (0, rw one_left, omega arith, inl (z, refl))
  | inr more ↦
      let y : 2 ≤ x = ground arith in
      let e : sub64 x 1 ≡ x - 1 = omega arith in
      let (above, below) = bit_length_bracket 64 (x - 1) (omega arith) in
      let n = bit_length_from 64 (x - 1) in
      let few : n ≤ 30 = exponent_le n 30 (omega (arith, below (omega arith))) in
      let shape : 64 - (64 - n) ≡ n = omega (arith, bit_length_le 64 (x - 1)) in
      let test : leb n 30 ≡ true = ground arith in
      (n, rw (more, e, shape, test), omega arith, inr (omega (arith, below (omega arith))))
]

-- Above 2 ^ 30 the shift of the literal 1, an `int`, is undefined.
pub next_pow2_undefined : (x : ℕ) → 2 ^ 30 < x → x < 2 ^ 64 → next_pow2 x ≡ none
unfolding next_pow2
next_pow2_undefined x large word =
    let e : sub64 x 1 ≡ x - 1 = omega arith in
    let (above, below) = bit_length_bracket 64 (x - 1) (omega arith) in
    let n = bit_length_from 64 (x - 1) in
    let many : 31 ≤ n = elim (Bool-cases (leb n 30)) [
      | inl within ↦
          absurd (omega (arith, pow-le-pow_right {n = 2} (omega arith) (leb→le n 30 within)))
      | inr past ↦ ground arith
    ] in
    let shape : 64 - (64 - n) ≡ n = omega (arith, bit_length_le 64 (x - 1)) in
    let more : (x == 1) ≡ false = ground arith in
    let test : leb n 30 ≡ false = ground arith in rw (more, e, shape, test)

-- `what_pow2` is the binary logarithm, rounded down.
pub what_pow2_bracket :
    (x : ℕ) → 1 ≤ x → x < 2 ^ 64 → (2 ^ what_pow2 x ≤ x) × (x < 2 ^ (what_pow2 x + 1))
unfolding what_pow2
what_pow2_bracket x pos word =
    let (above, below) = bit_length_bracket 64 x word in
    let n = bit_length_from 64 x in
    let some_digits : 1 ≤ n = elim (Bool-cases (leb n 0)) [
      | inl within ↦
          absurd (omega (arith, pow-le-pow_right {n = 2} (omega arith) (leb→le n 0 within)))
      | inr past ↦ ground arith
    ] in
    let e : sub64 63 (64 - n) ≡ n - 1 = omega (arith, bit_length_le 64 x) in
    let split : n ≡ suc (n - 1) = omega arith in
    let shape : 2 ^ n ≡ 2 ^ (n - 1) * 2 = ap (λ (t : ℕ). 2 ^ t) split ∙ pow-suc 2 (n - 1) in
    let back : n - 1 + 1 ≡ n = omega arith in rw (e, back) (omega (arith, below pos), above)
