-- ===== src/ImageBuilder/Configuration.antt =====
-- projects/image-builder/code/src/configuration.c and the sizes that partitions/efi.c computes:
-- where the parts of the disk image lie.
pub mod Efi
pub mod Layout
mod Tests
use homegrown.Prelude.{ℕ, ◌+◌, ◌-◌, ◌*◌, ◌/◌, ◌%◌, ◌^◌, ltb, if◌then◌else◌, u16, u32, sub32, max}
use homegrown.Shared.Maths.{align_up_value32, ceiling_div_value, ceiling_div_value32}

abbrev pub gpt_partition_table_size : ℕ
gpt_partition_table_size = 16 * 1024

-- `SectionsInLBASize.PROTECTIVE_MBR` and `SectionsInLBASize.GPT_HEADER`
abbrev pub protective_mbr : ℕ
protective_mbr = 1

abbrev pub gpt_header : ℕ
gpt_header = 1

pub record Configuration : Type 0 where
  pub lba_size_bytes : ℕ
  pub alignment_lba : ℕ
  pub total_image_size_lba : ℕ
  pub total_image_size_bytes : ℕ
  pub gpt_partition_table_size_lba : ℕ
  pub efi_system_partition_start_lba : ℕ
  pub efi_system_partition_size_lba : ℕ
  pub data_partition_start_lba : ℕ
  pub data_partition_size_lba : ℕ

abbrev pub min_clusters_of_fat32 : ℕ
min_clusters_of_fat32 = 65525 + 1

-- The fields of `parameterBlock` that do not change.
abbrev pub sectors_per_cluster : ℕ
sectors_per_cluster = 1

abbrev pub reserved_sectors : ℕ
reserved_sectors = 32

abbrev pub fats : ℕ
fats = 2

-- What `calculateEFIPartitionSize` leaves in `parameterBlock` and the file's other variables.
pub record EfiSizes : Type 0 where
  pub bytes_per_sector : ℕ
  pub data_clusters_count : ℕ
  pub fat_size32_sectors : ℕ
  pub fat_size_bytes : ℕ
  pub total_sectors32_bit : ℕ

-- `SectorSize.DATA_FILE + SectorSize.DISK_FILE` are one sector each.
abbrev pub required_data_clusters : ℕ → ℕ
required_data_clusters n = max min_clusters_of_fat32 (u32 (sectors_per_cluster * u32 (n + 1 + 1)))

unfoldable pub calculate_efi_partition_size : ℕ → ℕ → ℕ → EfiSizes
calculate_efi_partition_size lba_size alignment n =
    let clusters = align_up_value32 (required_data_clusters n) alignment in
    let required_fat = ceiling_div_value32 clusters (lba_size / 4) in
    let reserved_and_fat =
      align_up_value32 (u32 (reserved_sectors + u32 (required_fat * fats))) alignment in
    let fat_sectors = sub32 reserved_and_fat reserved_sectors / fats in
    record {
      bytes_per_sector = lba_size;
      data_clusters_count = clusters;
      fat_size32_sectors = fat_sectors;
      fat_size_bytes = u32 (fat_sectors * lba_size);
      total_sectors32_bit = u32 (reserved_and_fat + clusters);
    }

-- The product of a U32 and a U16 is a U32, also where it is kept in a U64.
unfoldable pub set_configuration : ℕ → ℕ → ℕ → Configuration → Configuration
unfolding calculate_efi_partition_size
set_configuration efi_size kernel_size alignment_size c =
    let lba = c.lba_size_bytes in
    let alignment = if ltb lba alignment_size then alignment_size / lba else c.alignment_lba in
    let table = gpt_partition_table_size / lba in
    let efi_start = align_up_value32 (u32 (protective_mbr + gpt_header + table)) alignment in
    let sizes = calculate_efi_partition_size lba alignment (u32 (ceiling_div_value efi_size lba)) in
    let efi_lba = align_up_value32 sizes.total_sectors32_bit alignment in
    let data_start = u32 (efi_start + efi_lba) in
    let data_lba = u32 (ceiling_div_value kernel_size lba) in
    let total = u32 (u32 (data_start + data_lba) + (table + gpt_header)) in
    record {
      lba_size_bytes = lba;
      alignment_lba = alignment;
      total_image_size_lba = total;
      total_image_size_bytes = u32 (total * lba);
      gpt_partition_table_size_lba = table;
      efi_system_partition_start_lba = efi_start;
      efi_system_partition_size_lba = efi_lba;
      data_partition_start_lba = data_start;
      data_partition_size_lba = data_lba;
    }
