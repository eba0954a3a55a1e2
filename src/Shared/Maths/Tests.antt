-- ===== src/Shared/Maths/Tests.antt =====
-- The operations of maths.h and maths.c on concrete words.
use homegrown.Prelude.{ℕ, ◌+◌, ◌*◌, ◌%◌, ◌^◌, ◌≤◌, ◌<◌, ◌≡◌, ◌⊎◌, some, arith}
use homegrown.Shared.Maths.{align_up_value, ceiling_div_value, next_pow2, what_pow2, power}
use homegrown.Shared.Maths.Align.{align_up_value-least, ceiling_div_value-least}
use homegrown.Shared.Maths.Pow2.{next_pow2-least, what_pow2_bracket}
use homegrown.Shared.Maths.Power.{or_zero, power-or_zero}

align_up_value-least_example :
    (align_up_value 5000 4096 % 4096 ≡ 0)
    × (5000 ≤ align_up_value 5000 4096)
    × (align_up_value 5000 4096 < 9096)
align_up_value-least_example = align_up_value-least 12 (omega arith) 5000 (omega arith)

ceiling_div_value-least_example :
    (1000 ≤ ceiling_div_value 1000 512 * 512) × (ceiling_div_value 1000 512 * 512 < 1512)
ceiling_div_value-least_example = ceiling_div_value-least 9 1000 (omega arith) (omega arith)

next_pow2-least_example :
    (k : ℕ) × (next_pow2 100 ≡ some (2 ^ k))
    × (100 ≤ 2 ^ k)
    × (◌≡◌ {A = ℕ} 100 1 × (k ≡ 0) ⊎ (2 ^ k < 200))
next_pow2-least_example = next_pow2-least 100 (omega arith) (omega arith)

what_pow2_bracket_example : (2 ^ what_pow2 100 ≤ 100) × (100 < 2 ^ (what_pow2 100 + 1))
what_pow2_bracket_example = what_pow2_bracket 100 (omega arith) (omega arith)

power-or_zero_example : power 10 25 ≡ some (or_zero (10 ^ 25))
power-or_zero_example = power-or_zero 10 25 (omega arith) (omega arith) (omega arith)
