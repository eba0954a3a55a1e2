-- ===== src/ImageBuilder/Configuration/Efi.antt =====
-- The sizes of the EFI partition: the file allocation tables hold an entry for each cluster.
use native.Mathlib.Nat.{
  one-le-pow, pow-le-pow_right, div-add-mod', mul-mod_left, mul-le-mul_left, mul-le-mul_right,
  add-mul, mul_assoc,
}
use homegrown.Prelude.{
  ℕ, zero, suc, ◌+◌, ◌-◌, ◌*◌, ◌/◌, ◌%◌, ◌^◌, ◌≤◌, ◌<◌, ◌≡◌, ◌∙◌, refl, arith, u32, sub32, max,
  pow-add, two_times,
}
use homegrown.Shared.Maths.{align_up_value32, ceiling_div_value32}
use homegrown.Shared.Maths.Align32.{align_up_value32-least, ceiling_div_value32-least}
use homegrown.ImageBuilder.Configuration.{
  EfiSizes, min_clusters_of_fat32, reserved_sectors, required_data_clusters, fats,
  calculate_efi_partition_size,
}

-- Sizes of an EFI partition for a boot application of `n` sectors.
pub record IsSized (lba alignment n : ℕ) (e : EfiSizes) : Type 0 where
  pub enough : n + 2 ≤ e.data_clusters_count
  pub fat32 : min_clusters_of_fat32 ≤ e.data_clusters_count
  pub entries : 4 * e.data_clusters_count ≤ e.fat_size_bytes
  pub fat_bytes : e.fat_size_bytes ≡ e.fat_size32_sectors * lba
  pub filled :
      reserved_sectors + fats * e.fat_size32_sectors + e.data_clusters_count ≡ e.total_sectors32_bit
  pub aligned : e.total_sectors32_bit % alignment ≡ 0
  pub small : e.total_sectors32_bit < 2 ^ 30

-- The sum of two multiples is one.
pub add_aligned : (a x y : ℕ) → x % a ≡ 0 → y % a ≡ 0 → (x + y) % a ≡ 0
add_aligned a x y hx hy =
    let e : x + y ≡ (x / a + y / a) * a =
      omega (arith, div-add-mod' x a, div-add-mod' y a, add-mul (x / a) (y / a) a) in
    rw e (mul-mod_left (x / a + y / a) a)

-- A table area that starts behind an even number of sectors splits in two.
halves : (k req r : ℕ) → r % 2 ^ k ≡ 0 → 32 + req * 2 ≤ r → r < 32 + req * 2 + 2 ^ k → r % 2 ≡ 0
halves zero req r h low high = omega arith
halves (suc k) req r h low high =
    let e : r / 2 ^ suc k * 2 ^ suc k ≡ r = omega (arith, div-add-mod' r (2 ^ suc k)) in
    omega (arith, two_times (r / 2 ^ suc k) k)

-- The arithmetic, with the powers, the rounded values and the products named: `m` is a quarter
-- of a sector, `c` the clusters, `q` the sectors of a table and `r` those before the data area.
module _ (m a n c q r : ℕ) (m_low : 128 ≤ m) (m_high : m ≤ 4096) (a_low : 1 ≤ a)
    (a_high : a ≤ 65536) (small : n < 2 ^ 28) (c_low : max 65526 (n + 2) ≤ c)
    (c_high : c < max 65526 (n + 2) + a) (q_low : c ≤ q * m) (q_high : q * m < c + m)
    (r_low : 32 + q * 2 ≤ r) (r_high : r < 32 + q * 2 + a) (even : r % 2 ≡ 0) where
  bytes_fit : (r - 32) / 2 * (m * 4) < 2 ^ 32
  bytes_fit =
      let f : (r - 32) / 2 ≤ q + 32768 = omega arith in
      let g : (q + 32768) * (m * 4) ≡ q * m * 4 + 131072 * m =
        add-mul q 32768 (m * 4) ∙ omega (arith, mul_assoc q m 4) in
      omega (arith, mul-le-mul_right (m * 4) f, g)

  entries_fit : 4 * c ≤ (r - 32) / 2 * (m * 4)
  entries_fit =
      let f : q ≤ (r - 32) / 2 = omega arith in
      omega (arith, mul-le-mul_right (m * 4) f, mul_assoc q m 4)

pub calculate_efi_partition_size-IsSized :
    (l k n : ℕ)
    → 7 ≤ l
    → l ≤ 12
    → k ≤ 16
    → n < 2 ^ 28
    → IsSized (2 ^ (l + 2)) (2 ^ k) n (calculate_efi_partition_size (2 ^ (l + 2)) (2 ^ k) n)
unfolding calculate_efi_partition_size
calculate_efi_partition_size-IsSized l k n l_low l_high k_high small =
    let m = 2 ^ l in
    let sector : 2 ^ (l + 2) ≡ m * 4 = pow-add l 2 in
    let quarter : m * 4 / 4 ≡ m = omega arith in
    let m_low = pow-le-pow_right {n = 2} (omega arith) l_low in
    let m_high = pow-le-pow_right {n = 2} (omega arith) l_high in
    let a_low = one-le-pow k 2 (omega arith) in
    let a_high = pow-le-pow_right {n = 2} (omega arith) k_high in
    let need : required_data_clusters n ≡ max 65526 (n + 2) = ground arith in
    let (c_aligned, c_low, c_high) =
      align_up_value32-least k (omega arith) (max 65526 (n + 2)) (ground arith) in
    let c = align_up_value32 (max 65526 (n + 2)) (2 ^ k) in
    let (q_low, q_high) = ceiling_div_value32-least l (omega arith) c (ground arith) in
    let q = ceiling_div_value32 c m in
    let q_small : q * 128 ≤ q * m = mul-le-mul_left q m_low in
    let area : u32 (32 + u32 (q * 2)) ≡ 32 + q * 2 = ground arith in
    let (r_aligned, r_low, r_high) =
      align_up_value32-least k (omega arith) (32 + q * 2) (ground arith) in
    let r = align_up_value32 (32 + q * 2) (2 ^ k) in
    let even = halves k q r r_aligned r_low r_high in
    let half : sub32 r 32 / 2 ≡ (r - 32) / 2 = ground arith in
    let whole : u32 (r + c) ≡ r + c = ground arith in
    let fit =
      bytes_fit m (2 ^ k) n c q r m_low m_high a_low a_high small c_low c_high q_low q_high r_low
        r_high even in
    let product : u32 ((r - 32) / 2 * (m * 4)) ≡ (r - 32) / 2 * (m * 4) = omega arith in
    rw (sector, quarter, need, area, half, whole, product)
      (record {
        enough = ground arith;
        fat32 = ground arith;
        entries =
            entries_fit m (2 ^ k) n c q r m_low m_high a_low a_high small c_low c_high q_low q_high
              r_low r_high even;
        fat_bytes = refl;
        filled = ground arith;
        aligned = add_aligned (2 ^ k) r c r_aligned c_aligned;
        small = ground arith;
      })
