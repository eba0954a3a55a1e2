-- ===== src/X86/PageTables/Entries.antt =====
-- The entries of page tables: addresses, the frame and the size bit.
use native.Mathlib.Nat.{mod-lt}
use Prim.Native.Nat.{bit_or-bitwise}
use homegrown.Prelude.{
  ℕ, ◌+◌, ◌-◌, ◌*◌, ◌/◌, ◌%◌, ◌^◌, ◌≤◌, ◌<◌, ◌≡◌, ◌∙◌, refl, ap, ◌==◌, bit_and, bit_or, bit_or_low,
  bit_or-zero, bit_and_mask, bit_and_shift, arith,
}
use homegrown.Shared.Maths.{align_down_exp, ring_range_value}
use homegrown.X86.Paging.{base_page, large_page, huge_page}
use homegrown.X86.PageTables.{
  entry_address, next_table, entry_value, is_extended, get_physical_address_frame,
}

entry_address_lem :
    (table size virt : ℕ) → entry_address table size virt ≡ table + virt / size % 512 * 8
unfolding entry_address ring_range_value
entry_address_lem table size virt = ap (λ (t : ℕ). table + t * 8) (bit_and_mask 9 (virt / size))

-- An entry lies in its table.
pub entry_address-inside :
    (table size virt : ℕ)
    → (table ≤ entry_address table size virt) × (entry_address table size virt < table + 4096)
entry_address-inside table size virt =
    let bound : virt / size % 512 < 512 = mod-lt (virt / size) (omega arith) in
    rw (entry_address_lem table size virt) (omega arith, omega (arith, bound))

pub next_table_lem : (entry : ℕ) → entry < 2 ^ 64 → next_table entry ≡ entry / 4096 * 4096
unfolding next_table align_down_exp
next_table_lem entry word =
    bit_and_shift 12 entry (2 ^ 52 - 1)
    ∙ ap (λ (t : ℕ). t * 2 ^ 12) (bit_and_mask 52 (entry / 2 ^ 12))
    ∙ omega arith

zero_or : (x : ℕ) → bit_or 0 x ≡ x
zero_or x = simp bit_or-bitwise refl

or_three : (x : ℕ) → x % 4 ≡ 0 → bit_or 3 x ≡ x + 3
or_three x even = omega (arith, bit_or_low 3 x, bit_or_low 1 (x / 2), zero_or (x / 2 / 2))

-- A table's entry is the table with two bits, and its size bit is clear.
pub table_entry : (page : ℕ) → page % 4096 ≡ 0 → bit_or 3 page ≡ page + 3
table_entry page aligned = or_three page (omega arith)

pub is_extended_lem : (entry : ℕ) → is_extended entry ≡ (entry / 128 % 2 == 1)
is_extended_lem entry =
    let bit : bit_and entry 128 ≡ entry / 128 % 2 * 128 =
      bit_and_shift 7 entry 1 ∙ ap (λ (t : ℕ). t * 2 ^ 7) (bit_and_mask 1 (entry / 2 ^ 7)) in
    rw bit (ground arith)

pub entry_value_base :
    (physical : ℕ) → physical % 4096 ≡ 0 → entry_value base_page physical 0 ≡ physical + 3
unfolding entry_value
entry_value_base physical aligned = bit_or-zero (bit_or 3 physical) ∙ table_entry physical aligned

with_size_bit : (physical : ℕ) → physical % 4096 ≡ 0 → bit_or (physical + 3) 128 ≡ physical + 131
with_size_bit physical aligned =
    let x = physical + 3 in
    omega (
      arith,
      bit_or_low x 128,
      bit_or_low (x / 2) 64,
      bit_or_low (x / 2 / 2) 32,
      bit_or_low (x / 2 / 2 / 2) 16,
      bit_or_low (x / 2 / 2 / 2 / 2) 8,
      bit_or_low (x / 2 / 2 / 2 / 2 / 2) 4,
      bit_or_low (x / 2 / 2 / 2 / 2 / 2 / 2) 2,
      bit_or_low (x / 2 / 2 / 2 / 2 / 2 / 2 / 2) 1,
      bit_or-zero (x / 2 / 2 / 2 / 2 / 2 / 2 / 2 / 2),
    )

pub frame_lem :
    (physical low : ℕ)
    → physical % 4096 ≡ 0
    → low < 4096
    → physical < 2 ^ 52
    → get_physical_address_frame (physical + low) ≡ physical
frame_lem physical low aligned small word =
    bit_and_shift 12 (physical + low) (2 ^ 40 - 1)
    ∙ ap (λ (t : ℕ). t * 2 ^ 12) (bit_and_mask 40 ((physical + low) / 2 ^ 12))
    ∙ omega arith

pub entry_value_large :
    (physical : ℕ) → physical % 4096 ≡ 0 → entry_value large_page physical 0 ≡ physical + 131
unfolding entry_value
entry_value_large physical aligned =
    ap (λ (t : ℕ). bit_or t 128) (entry_value_base physical aligned)
    ∙ with_size_bit physical aligned

pub entry_value_huge :
    (physical : ℕ) → physical % 4096 ≡ 0 → entry_value huge_page physical 0 ≡ physical + 131
unfolding entry_value
entry_value_huge physical aligned =
    ap (λ (t : ℕ). bit_or t 128) (entry_value_base physical aligned)
    ∙ with_size_bit physical aligned
