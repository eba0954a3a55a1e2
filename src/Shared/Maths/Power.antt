-- ===== src/Shared/Maths/Power.antt =====
-- `power` of maths.c: exponentiation by squaring with overflow tests.
use native.Mathlib.Nat.{
  one-mul, pow-zero, pow-suc, one-le-pow, div-lt_iff_lt-mul, mul_comm, mul_assoc, le_trans,
}
use homegrown.Prelude.{
  ℕ, zero, suc, ◌-◌, ◌*◌, ◌/◌, ◌%◌, ◌^◌, ◌≤◌, ◌<◌, ◌≡◌, ap, sym, ◌∙◌, some, ltb, leb, ◌==◌,
  if◌then◌else◌, u64, u64_max, arith, Bool-cases, inl, inr,
}
use homegrown.Shared.Maths.{power_loop, power}

-- The value, or 0 where it passes the word.
abbrev pub or_zero : ℕ → ℕ
or_zero x = if leb x u64_max then x else 0

or_zero_above : (x : ℕ) → u64_max < x → or_zero x ≡ 0
or_zero_above x h = ground arith

pow_double : (b h : ℕ) → b ^ (2 * h) ≡ (b * b) ^ h
pow_double b zero = rw (pow-zero, pow-zero)
pow_double b (suc h) =
    let e : 2 * suc h ≡ suc (suc (2 * h)) = omega arith in
    rw (e, pow-suc, pow-suc, pow-suc, pow_double b h, mul_assoc)

pow-le_mul : (r b h : ℕ) → 1 ≤ b → r ≤ r * b ^ h
pow-le_mul r b h pos = grind (arith, one-le-pow h b pos)

le_mul_left : (x y : ℕ) → 1 ≤ x → y ≤ x * y
le_mul_left x y h = grind arith

-- The word test before a product is exact.
mul_test : (r b : ℕ) → 1 ≤ b → ltb (u64_max / b) r ≡ ltb u64_max (r * b)
mul_test r b pos = ground (arith, div-lt_iff_lt-mul {x = u64_max} {y = r} pos)

-- What is left of the exponent, by its lowest digit.
even_exponent : (b e : ℕ) → e % 2 ≡ 0 → b ^ e ≡ (b * b) ^ (e / 2)
even_exponent b e h =
    let two : e ≡ 2 * (e / 2) = omega arith in ap (λ (x : ℕ). b ^ x) two ∙ pow_double b (e / 2)

odd_exponent : (b e r : ℕ) → e % 2 ≡ 1 → r * b ^ e ≡ r * b * (b * b) ^ (e / 2)
odd_exponent b e r h =
    let two : e ≡ suc (2 * (e / 2)) = omega arith in
    ap (λ (x : ℕ). r * b ^ x) two
    ∙ rw (pow-suc, pow_double b (e / 2), mul_comm ((b * b) ^ (e / 2)) b) (sym (mul_assoc r b _))

-- The square goes over the word only if the result does: the exponent is 2 at least.
square_over : (b e r : ℕ) → 1 ≤ b → 1 ≤ r → 2 ≤ e → u64_max < b * b → u64_max < r * b ^ e
square_over b e r pos pos_r two over =
    let split : e ≡ suc (suc (e - 2)) = omega arith in
    let shape : r * b ^ e ≡ r * b ^ (e - 2) * (b * b) =
      ap (λ (x : ℕ). r * b ^ x) split
      ∙ rw (pow-suc, pow-suc, mul_assoc (b ^ (e - 2)) b b) (sym (mul_assoc r _ _)) in
    let large : 1 ≤ r * b ^ (e - 2) = grind (arith, one-le-pow (e - 2) b pos) in
    rw shape (le_trans over (le_mul_left _ (b * b) large))

-- The call for the square, which fits the word.
next_square :
    (f b h r : ℕ)
    → suc b * suc b ≤ u64_max
    → power_loop f (suc (suc b * suc b - 1)) h r ≡ some (or_zero (r * suc (suc b * suc b - 1) ^ h))
    → power_loop f (u64 (suc b * suc b)) h r ≡ some (or_zero (r * (suc b * suc b) ^ h))
next_square f b h r fits ih =
    let back : suc (suc b * suc b - 1) ≡ suc b * suc b = omega arith in
    let shape : u64 (suc b * suc b) ≡ suc b * suc b = omega arith in rw shape (rw back at ih)

-- With fuel for each digit of the exponent the loop ends, in the product or in 0 for overflow.
power_loop_lem :
    (f b e r : ℕ)
    → e < 2 ^ f
    → suc b ≤ u64_max
    → 1 ≤ r
    → r ≤ u64_max
    → power_loop (suc f) (suc b) e r ≡ some (or_zero (r * suc b ^ e))
unfolding power_loop
power_loop_lem zero b e r few small pos fits =
    let none_left : e ≡ 0 = omega arith in rw (none_left, pow-zero) (ground arith)
power_loop_lem (suc f) b e r few small pos fits =
    let base = suc b in
    let ih = λ (r' : ℕ) (p : 1 ≤ r') (q : r' ≤ u64_max) (fits_square : base * base ≤ u64_max).
      next_square (suc f) b (e / 2) r' fits_square (
        power_loop_lem f (base * base - 1) (e / 2) r' (omega (arith, pow-suc 2 f)) (omega arith) p
          q) in
    elim (Bool-cases (e == 0)) [
      | inl done ↦ let z : e ≡ 0 = ground arith in rw done (rw (z, pow-zero) (ground arith))
      | inr more ↦ elim (Bool-cases (e % 2 == 1)) [
        | inr even ↦ elim (Bool-cases (ltb (u64_max / base) base)) [
          | inl over ↦
              rw (more, even, over)
                (ap some (
                  sym (
                    or_zero_above _ (
                      square_over base e r (omega arith) pos (ground arith)
                        (ground (arith, mul_test base base (omega arith)))))))
          | inr within ↦
              rw (more, even, within)
                (ih r pos fits (ground (arith, mul_test base base (omega arith)))
                  ∙ ap (λ (x : ℕ). some (or_zero (r * x)))
                      (sym (even_exponent base e (ground arith))))
        ]
        | inl odd ↦ elim (Bool-cases (ltb (u64_max / base) r)) [
          | inl over ↦
              rw (more, odd, over)
                (ap some (
                  sym (
                    or_zero_above (r * base ^ e) (
                      rw (odd_exponent base e r (ground arith)) (
                        le_trans (ground (arith, mul_test r base (omega arith)))
                          (pow-le_mul (r * base) (base * base) (e / 2) (omega arith)))))))
          | inr within ↦ elim (Bool-cases (e == 1)) [
            | inl last ↦
                let half : e / 2 ≡ 0 = ground arith in
                rw (more, odd, within, last, odd_exponent base e r (ground arith), half, pow-zero)
                  (ground (arith, mul_test r base (omega arith)))
            | inr rest ↦ elim (Bool-cases (ltb (u64_max / base) base)) [
              | inl over ↦
                  rw (more, odd, within, rest, over)
                    (ap some (
                      sym (
                        or_zero_above _ (
                          square_over base e r (omega arith) pos (ground arith)
                            (ground (arith, mul_test base base (omega arith)))))))
              | inr within' ↦
                  let fits_product : r * base ≤ u64_max =
                    ground (arith, mul_test r base (omega arith)) in
                  let product : u64 (r * base) ≡ r * base = omega arith in
                  rw (more, odd, within, rest, within', product)
                    (ih (r * base) (grind arith) fits_product
                        (ground (arith, mul_test base base (omega arith)))
                      ∙ ap (λ (x : ℕ). some (or_zero x))
                          (sym (odd_exponent base e r (ground arith))))
            ]
          ]
        ]
      ]
    ]

-- For a base of at least 1 `power` ends, and gives the power where it fits the word, else 0.
pub power-or_zero :
    (base exponent : ℕ)
    → 1 ≤ base
    → base < 2 ^ 64
    → exponent < 2 ^ 64
    → power base exponent ≡ some (or_zero (base ^ exponent))
unfolding power
power-or_zero zero exponent pos small few = absurd (omega arith)
power-or_zero (suc b) exponent pos small few =
    power_loop_lem 64 b exponent 1 few (omega arith) (omega arith) (omega arith) ∙ rw one-mul
