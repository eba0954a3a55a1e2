-- ===== src/ImageBuilder/Configuration/Layout.antt =====
-- The layout of the image that `setConfiguration` computes.
use native.Mathlib.Nat.{
  le_trans, add-mul, mul-le-mul_right, one-le-pow, pow-le-pow_right, mul-div_left,
  le-div_iff_mul-le, div-lt_iff_lt-mul, mul-le-mul_left, div-add-mod',
}
use homegrown.Prelude.{
  ℕ, ◌+◌, ◌-◌, ◌*◌, ◌/◌, ◌%◌, ◌^◌, ◌≤◌, ◌<◌, ◌≡◌, ◌∙◌, refl, sym, ap, inl, inr, ltb, leb,
  if◌then◌else◌, arith, u32, pow-add, Bool-cases,
}
use homegrown.Shared.Maths.{align_up_value32, ceiling_div_value}
use homegrown.Shared.Maths.Align.{ceiling_div_value-least}
use homegrown.Shared.Maths.Align32.{align_up_value32-least}
use homegrown.ImageBuilder.Configuration.{
  Configuration, gpt_partition_table_size, calculate_efi_partition_size, set_configuration,
}
use homegrown.ImageBuilder.Configuration.Efi.{calculate_efi_partition_size-IsSized, add_aligned}

-- The parts of the image in their order, for files of so many bytes.
pub record IsLaidOut (efi_size kernel_size : ℕ) (c : Configuration) : Type 0 where
  pub table : c.gpt_partition_table_size_lba * c.lba_size_bytes ≡ gpt_partition_table_size
  pub behind_table : 2 + c.gpt_partition_table_size_lba ≤ c.efi_system_partition_start_lba
  pub efi_aligned : c.efi_system_partition_start_lba % c.alignment_lba ≡ 0
  pub efi_room : efi_size ≤ c.efi_system_partition_size_lba * c.lba_size_bytes
  pub adjacent :
      c.data_partition_start_lba
      ≡ c.efi_system_partition_start_lba + c.efi_system_partition_size_lba
  pub data_aligned : c.data_partition_start_lba % c.alignment_lba ≡ 0
  pub data_room : kernel_size ≤ c.data_partition_size_lba * c.lba_size_bytes
  pub backup :
      c.total_image_size_lba
      ≡ c.data_partition_start_lba
        + c.data_partition_size_lba
        + (c.gpt_partition_table_size_lba + 1)
  pub total_bytes : c.total_image_size_bytes ≡ u32 (c.total_image_size_lba * c.lba_size_bytes)

-- An aligned value is its own rounding.
rounded_self :
    (k x : ℕ) → k < 32 → x + (2 ^ k - 1) < 2 ^ 32 → x % 2 ^ k ≡ 0 → align_up_value32 x (2 ^ k) ≡ x
rounded_self k x small fits even =
    let (aligned, low, high) = align_up_value32-least k small x fits in
    let r = align_up_value32 x (2 ^ k) in
    let pos = one-le-pow k 2 (omega arith) in
    let x_split : x / 2 ^ k * 2 ^ k ≡ x = omega (arith, div-add-mod' x (2 ^ k)) in
    let r_split : r / 2 ^ k * 2 ^ k ≡ r = omega (arith, div-add-mod' r (2 ^ k)) in
    let upper : r / 2 ^ k < x / 2 ^ k + 1 =
      (div-lt_iff_lt-mul pos).1 (omega (arith, add-mul (x / 2 ^ k) 1 (2 ^ k))) in
    let lower : x / 2 ^ k ≤ r / 2 ^ k = (le-div_iff_mul-le pos).1 (omega arith) in
    let same : r / 2 ^ k ≡ x / 2 ^ k = omega arith in
    sym r_split ∙ ap (λ (t : ℕ). t * 2 ^ k) same ∙ x_split

table_size : (l : ℕ) → 7 ≤ l → l ≤ 12 → 16384 / 2 ^ (l + 2) * 2 ^ (l + 2) ≡ 16384
table_size l low high =
    let e : 12 - l + (l + 2) ≡ 14 = omega arith in
    let split : 2 ^ (12 - l) * 2 ^ (l + 2) ≡ 16384 =
      sym (pow-add (12 - l) (l + 2)) ∙ ap (λ (t : ℕ). 2 ^ t) e in
    rw (← split) (
      ap (λ (t : ℕ). t * 2 ^ (l + 2))
        (mul-div_left (2 ^ (12 - l)) (one-le-pow (l + 2) 2 (omega arith))))

-- The alignment that the size in bytes gives, in sectors.
alignment_lem :
    (l k a : ℕ)
    → a ≡ 1
    → (if ltb (2 ^ (l + 2)) (2 ^ k * 2 ^ (l + 2)) then 2 ^ k * 2 ^ (l + 2) / 2 ^ (l + 2) else a)
      ≡ 2 ^ k
alignment_lem l k a start = elim (Bool-cases (ltb (2 ^ (l + 2)) (2 ^ k * 2 ^ (l + 2)))) [
  | inl above ↦ rw above (mul-div_left (2 ^ k) (one-le-pow (l + 2) 2 (omega arith)))
  | inr level ↦ rw level (
      start ∙ elim (Bool-cases (leb (2 ^ k) 1)) [
        | inl one ↦ let low = one-le-pow k 2 (omega arith) in ground arith
        | inr more ↦
            let two : 2 ≤ 2 ^ k = ground arith in
            let low = one-le-pow (l + 2) 2 (omega arith) in
            absurd (ground (arith, mul-le-mul_right (2 ^ (l + 2)) two))
      ])
]

-- With sectors of 2 ^ (l + 2) bytes, from 512 to 16384, an alignment of 2 ^ k sectors up to
-- 2 ^ 16, and files below 2 ^ 36 bytes, the parts of the image follow each other without overlap:
-- the protective record, the partition table, the aligned EFI partition with room for the boot
-- application, directly behind it the aligned data partition with room for the kernel, and the
-- copy of the table. The size in bytes is the product, but modulo 2 ^ 32.
pub set_configuration-IsLaidOut :
    (l k efi_size kernel_size : ℕ) (c : Configuration)
    → 7 ≤ l
    → l ≤ 12
    → k ≤ 16
    → efi_size < 2 ^ 36
    → kernel_size < 2 ^ 36
    → c.lba_size_bytes ≡ 2 ^ (l + 2)
    → c.alignment_lba ≡ 1
    → IsLaidOut efi_size kernel_size
        (set_configuration efi_size kernel_size (2 ^ k * 2 ^ (l + 2)) c)
unfolding set_configuration
set_configuration-IsLaidOut l k efi_size kernel_size c l_low l_high k_high efi_small kernel_small
      sector start =
    let lba = 2 ^ (l + 2) in
    let a_low = one-le-pow k 2 (omega arith) in
    let a_high = pow-le-pow_right {n = 2} (omega arith) k_high in
    let lba_low : 512 ≤ lba =
      let e : 9 ≤ l + 2 = omega arith in pow-le-pow_right {n = 2} (omega arith) e in
    let lba_high : lba ≤ 16384 =
      let e : l + 2 ≤ 14 = omega arith in pow-le-pow_right {n = 2} (omega arith) e in
    let t = 16384 / lba in
    let t_size = table_size l l_low l_high in
    let t_small : t ≤ 32 = omega (arith, mul-le-mul_left t lba_low) in
    let before : u32 (2 + t) ≡ 2 + t = omega arith in
    let (s_aligned, s_low, s_high) = align_up_value32-least k (omega arith) (2 + t) (omega arith) in
    let s = align_up_value32 (2 + t) (2 ^ k) in
    let (n_low, n_high) = ceiling_div_value-least (l + 2) efi_size (omega arith) (omega arith) in
    let n = ceiling_div_value efi_size lba in
    let n_small : n < 2 ^ 28 = omega (arith, mul-le-mul_left n lba_low) in
    let n_word : u32 n ≡ n = omega arith in
    let sizes = calculate_efi_partition_size-IsSized l k n l_low l_high k_high n_small in
    let e = (calculate_efi_partition_size lba (2 ^ k) n).total_sectors32_bit in
    let own : align_up_value32 e (2 ^ k) ≡ e =
      rounded_self k e (omega arith) (omega (arith, sizes.small)) sizes.aligned in
    let (d_low, d_high) = ceiling_div_value-least (l + 2) kernel_size (omega arith) (omega arith) in
    let d = ceiling_div_value kernel_size lba in
    let d_small : d < 2 ^ 28 = omega (arith, mul-le-mul_left d lba_low) in
    let d_word : u32 d ≡ d = omega arith in
    let data_start : u32 (s + e) ≡ s + e = omega (arith, sizes.small) in
    let data_end : u32 (s + e + d) ≡ s + e + d = omega (arith, sizes.small) in
    let image_end : u32 (s + e + d + (t + 1)) ≡ s + e + d + (t + 1) = omega (arith, sizes.small) in
    let inside : n ≤ e = omega (arith, sizes.enough, sizes.filled) in
    rw
      (
        sector,
        alignment_lem l k c.alignment_lba start,
        before,
        n_word,
        own,
        d_word,
        data_start,
        data_end,
        image_end,
      )
      (record {
        table = t_size;
        behind_table = s_low;
        efi_aligned = s_aligned;
        efi_room = le_trans n_low (mul-le-mul_right lba inside);
        adjacent = refl;
        data_aligned = add_aligned (2 ^ k) s e s_aligned sizes.aligned;
        data_room = d_low;
        backup = refl;
        total_bytes = refl;
      })
