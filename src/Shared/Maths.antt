-- ===== src/Shared/Maths.antt =====
-- projects/shared/code/maths: the macros and functions of maths.h, at U64, and `power`.
pub mod Align
pub mod Align32
pub mod Power
pub mod Pow2
mod Tests
use homegrown.Prelude.{
  ℕ, zero, suc, ◌+◌, ◌-◌, ◌*◌, ◌/◌, ◌%◌, ◌^◌, Bool, true, false, Option, none, some, ltb, leb, ◌==◌,
  if◌then◌else◌, bit_and, bit_or, u32, u32_max, u64, u64_max, sub32, sub64, not64, ◌<<<◌, ◌>>>◌,
}

-- `ALIGN_UP_VALUE` and `ALIGN_DOWN_VALUE`
unfoldable pub align_up_value : ℕ → ℕ → ℕ
align_up_value val align_value =
    bit_and (u64 (val + sub64 align_value 1)) (not64 (sub64 align_value 1))

unfoldable pub align_down_value : ℕ → ℕ → ℕ
align_down_value val align_value = bit_and val (not64 (sub64 align_value 1))

-- `ALIGN_UP_EXP` and `ALIGN_DOWN_EXP`
unfoldable pub align_up_exp : ℕ → ℕ → ℕ
align_up_exp val exponent =
    bit_and (u64 (val + sub64 (u64 (1 <<< exponent)) 1)) (not64 (sub64 (u64 (1 <<< exponent)) 1))

unfoldable pub align_down_exp : ℕ → ℕ → ℕ
align_down_exp val exponent = bit_and val (not64 (sub64 (u64 (1 <<< exponent)) 1))

-- `CEILING_DIV_EXP`
unfoldable pub ceiling_div_exp : ℕ → ℕ → ℕ
ceiling_div_exp val exponent = u64 (val + sub64 (u64 (1 <<< exponent)) 1) >>> exponent

-- `__builtin_ctzll`: the number of zero bits below the lowest one. The fuel is the word's width.
pub ctz_from : ℕ → ℕ → ℕ
ctz_from zero x = 0
ctz_from (suc fuel) x = let rest = ctz_from fuel (x / 2) in if x % 2 == 1 then 0 else suc rest

unfoldable pub ctz : ℕ → ℕ
unfolding ctz_from
ctz x = ctz_from 64 x

-- `CEILING_DIV_VALUE`
unfoldable pub ceiling_div_value : ℕ → ℕ → ℕ
unfolding ctz
ceiling_div_value val divisor = u64 (val + sub64 divisor 1) >>> ctz divisor

-- `ALIGN_UP_VALUE` and `CEILING_DIV_VALUE` at U32
unfoldable pub align_up_value32 : ℕ → ℕ → ℕ
align_up_value32 val align_value =
    bit_and (u32 (val + sub32 align_value 1)) (u32_max - sub32 align_value 1)

unfoldable pub ceiling_div_value32 : ℕ → ℕ → ℕ
unfolding ctz
ceiling_div_value32 val divisor = u32 (val + sub32 divisor 1) >>> ctz divisor

-- `RING_RANGE_VALUE`, `RING_INCREMENT`, `RING_PLUS`, `RING_DECREMENT` and `RING_MINUS`
unfoldable pub ring_range_value : ℕ → ℕ → ℕ
ring_range_value val ring_size = bit_and val (sub64 ring_size 1)

unfoldable pub ring_increment : ℕ → ℕ → ℕ
ring_increment val ring_size = bit_and (u64 (val + 1)) (sub64 ring_size 1)

unfoldable pub ring_plus : ℕ → ℕ → ℕ → ℕ
ring_plus val amount ring_size = bit_and (u64 (val + amount)) (sub64 ring_size 1)

unfoldable pub ring_decrement : ℕ → ℕ → ℕ
ring_decrement val ring_size = bit_and (sub64 val 1) (sub64 ring_size 1)

unfoldable pub ring_minus : ℕ → ℕ → ℕ → ℕ
ring_minus val amount ring_size = bit_and (sub64 val amount) (sub64 ring_size 1)

-- The number of binary digits of a word: 64 less `__builtin_clzll`, which is undefined at 0.
pub bit_length_from : ℕ → ℕ → ℕ
bit_length_from zero x = 0
bit_length_from (suc fuel) x =
    let rest = bit_length_from fuel (x / 2) in if x == 0 then 0 else suc rest

abbrev pub clz : ℕ → ℕ
clz x = 64 - bit_length_from 64 x

-- `1 << k` in a 32-bit `int`: undefined from 31 on.
abbrev pub int_one_shl : ℕ → Option ℕ
int_one_shl k = if leb k 30 then some (2 ^ k) else none

unfoldable pub next_pow2 : ℕ → Option ℕ
next_pow2 x = if x == 1 then some 1 else int_one_shl (64 - clz (sub64 x 1))

unfoldable pub what_pow2 : ℕ → ℕ
what_pow2 x = sub64 63 (clz x)

-- `power`, with fuel for its loop. `none` is the division by zero that a base of 0 runs into.
power_loop : ℕ → ℕ → ℕ → ℕ → Option ℕ
power_loop zero base exponent result = none
power_loop (suc fuel) zero exponent result = if exponent == 0 then some result else none
power_loop (suc fuel) (suc b) exponent result =
    let base = suc b in
    let squared = power_loop fuel (u64 (base * base)) (exponent / 2) result in
    let multiplied = power_loop fuel (u64 (base * base)) (exponent / 2) (u64 (result * base)) in
    if exponent == 0
    then some result
    else if exponent % 2 == 1
    then if ltb (u64_max / base) result
      then some 0
      else if exponent == 1
      then some (u64 (result * base))
      else if ltb (u64_max / base) base
      then some 0
      else multiplied
    else if ltb (u64_max / base) base
    then some 0
    else squared

unfoldable pub power : ℕ → ℕ → Option ℕ
unfolding power_loop
power base exponent = power_loop 65 base exponent 1
