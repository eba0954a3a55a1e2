-- ===== src/Shared/Text/Digits.antt =====
-- Numbers written and read back.
use native.Mathlib.Nat.{pow-suc}
use mathlib.Core.Option.{map as map_some}
use homegrown.Prelude.{
  ℕ, zero, suc, ◌+◌, ◌-◌, ◌/◌, ◌%◌, ◌^◌, ◌≤◌, ◌<◌, ◌≡◌, ◌∙◌, refl, ap, Bool, true, some, [], ◌∷◌,
  ◌==◌, if◌then◌else◌, length, u8, u16, u32, inl, inr, arith, Bool-cases,
}
use homegrown.Shared.Text.{
  String, digits_loop, u64_to_string, negative_loop, i64_to_string, parse_u32_loop, parse_u32,
  parse_u16_loop, parse_u16,
}

-- The digits of `u`, before the string `end`.
pub record IsWritten (u n : ℕ) (end s : String) : Type 0 where
  pub bound : length s ≤ n + length end
  pub read32 : parse_u32_loop s 10 0 ≡ parse_u32_loop end 10 (u32 u)
  pub read16 : parse_u16_loop s 10 0 ≡ parse_u16_loop end 10 (u16 u)

last_digit-IsWritten :
    (u n : ℕ) (end : String) → u / 10 ≡ 0 → IsWritten u (suc n) end (u8 (0x30 + u8 (u % 10)) ∷ end)
unfolding parse_u32_loop parse_u16_loop
last_digit-IsWritten u n end last = record {
  bound = omega arith;
  read32 = ap (parse_u32_loop end 10) (omega arith);
  read16 = ap (parse_u16_loop end 10) (omega arith);
}

more_digits-IsWritten :
    (u n : ℕ) (end s : String)
    → IsWritten (u / 10) n (u8 (0x30 + u8 (u % 10)) ∷ end) s
    → IsWritten u (suc n) end s
unfolding parse_u32_loop parse_u16_loop
more_digits-IsWritten u n end s h = record {
  bound = omega (arith, h.bound);
  read32 = h.read32 ∙ ap (parse_u32_loop end 10) (omega arith);
  read16 = h.read16 ∙ ap (parse_u16_loop end 10) (omega arith);
}

digits_loop-IsWritten :
    (fuel u : ℕ) (end : String)
    → u < 10 ^ suc fuel
    → (s : String) × (digits_loop (suc fuel) u end ≡ some s) × IsWritten u (suc fuel) end s
unfolding digits_loop
digits_loop-IsWritten zero u end small =
    let last : u / 10 ≡ 0 = omega arith in
    let stop : (u / 10 == 0) ≡ true = ground arith in
    (u8 (0x30 + u8 (u % 10)) ∷ end, rw stop refl, last_digit-IsWritten u 0 end last)
digits_loop-IsWritten (suc fuel) u end small = elim (Bool-cases (u / 10 == 0)) [
  | inl stop ↦ (
    u8 (0x30 + u8 (u % 10)) ∷ end,
    rw stop refl,
    last_digit-IsWritten u (suc fuel) end (ground arith),
  )
  | inr more ↦
      let (s, run, written) =
        digits_loop-IsWritten fuel (u / 10) (u8 (0x30 + u8 (u % 10)) ∷ end)
          (omega (arith, pow-suc 10 (suc fuel))) in
      (s, rw (more, run) refl, more_digits-IsWritten u (suc fuel) end s written)
]

-- Every word is written in at most 20 bytes, and reading them at base 10 gives the word back, or
-- what a U32 or a U16 holds of it.
pub u64_to_string-parse :
    (u : ℕ)
    → u < 2 ^ 64
    → (s : String) × (u64_to_string u ≡ some s)
      × (length s ≤ 20)
      × (parse_u32 s 10 ≡ u32 u)
      × (parse_u16 s 10 ≡ u16 u)
unfolding u64_to_string parse_u32 parse_u16 parse_u32_loop parse_u16_loop
u64_to_string-parse u word =
    let (s, run, written) = digits_loop-IsWritten 19 u [] (omega arith) in
    (s, run, omega (arith, written.bound), written.read32, written.read16)

-- The digits of a magnitude are those that an unsigned number has.
negative_loop-digits_loop :
    (fuel t : ℕ) (end : String) → negative_loop fuel t end ≡ digits_loop fuel t end
unfolding negative_loop digits_loop
negative_loop-digits_loop zero t end = refl
negative_loop-digits_loop (suc fuel) t end =
    let e : u8 (0x30 + 2 ^ 8 - u8 (2 ^ 8 - t % 10)) ≡ u8 (0x30 + u8 (t % 10)) = omega arith in
    rw (e, negative_loop-digits_loop fuel (t / 10) (u8 (0x30 + u8 (t % 10)) ∷ end)) refl

-- A signed number is written as its magnitude, with a sign where it is negative.
pub i64_to_string-u64_to_string :
    (negative : Bool) (t : ℕ)
    → t ≤ 2 ^ 63
    → (s : String) × (u64_to_string t ≡ some s)
      × (i64_to_string negative t ≡ some (if negative then 0x2D ∷ s else s))
unfolding i64_to_string u64_to_string
i64_to_string-u64_to_string negative t small =
    let (s, run, written) = digits_loop-IsWritten 19 t [] (omega arith) in
    (
      s,
      run,
      ap (map_some (λ (beg : String). if negative then 0x2D ∷ beg else beg))
          (negative_loop-digits_loop 20 t [] ∙ run),
    )
