-- ===== src/ImageBuilder/Fat/Partition.antt =====
-- writeEFISystemPartition of partitions/efi.c: the reserved sectors, the tables and the files of the
-- partition. A write to the image is its offset with the bytes written there.
use homegrown.Prelude.{
  ℕ, ◌+◌, ◌*◌, ◌==◌, if◌then◌else◌, Option, none, some, List, [], ◌∷◌, ◌++◌, replicate, u32, sub32,
  le_bytes, codes,
}
use homegrown.Shared.Text.{u64_to_string}
use homegrown.ImageBuilder.Configuration.{
  Configuration, EfiSizes, reserved_sectors, fats, sectors_per_cluster,
}
use homegrown.ImageBuilder.Fat.{
  Volume, end_of_chain_marker, root_cluster_fat_index, create_path, create_fat32_file,
}

infixl 5 ◌>>=◌
abbrev ◌>>=◌ {ℓ κ} : {A : Type ℓ} {B : Type κ} → Option A → (A → Option B) → Option B
none >>= f = none
some a >>= f = f a

-- `FIXED_MEDIA`
abbrev pub fixed_media : ℕ
fixed_media = 0xF8

-- `parameterBlock`, packed, with the fields that are set at runtime.
abbrev pub parameter_block_bytes : Configuration → EfiSizes → List ℕ
parameter_block_bytes c sizes =
    0xEB
    ∷ 0x00
    ∷ 0x90
    ∷ (codes "THISDISK"
        ++ le_bytes 2 sizes.bytes_per_sector
        ++ le_bytes 1 sectors_per_cluster
        ++ le_bytes 2 reserved_sectors
        ++ le_bytes 1 fats
        ++ replicate 4 0
        ++ fixed_media
          ∷ (replicate 6 0
              ++ le_bytes 4 c.efi_system_partition_start_lba
              ++ le_bytes 4 sizes.total_sectors32_bit
              ++ le_bytes 4 sizes.fat_size32_sectors
              ++ replicate 4 0
              ++ le_bytes 4 2
              ++ le_bytes 2 1
              ++ le_bytes 2 6
              ++ replicate 12 0
              ++ 0x80
                ∷ 0
                ∷ 0x29
                ∷ (replicate 4 0
                    ++ codes "NO NAME    "
                    ++ codes "FAT32   "
                    ++ replicate 420 0
                    ++ le_bytes 2 0xAA55)))

-- `FSInfo`, packed.
abbrev pub fs_info_bytes : ℕ → ℕ → List ℕ
fs_info_bytes free_count next_free =
    le_bytes 4 0x4161_5252
    ++ replicate 480 0
    ++ le_bytes 4 0x6141_7272
    ++ le_bytes 4 free_count
    ++ le_bytes 4 next_free
    ++ replicate 12 0
    ++ le_bytes 4 0xAA55_0000

-- The entries of the table that are reserved, and that of the root directory.
abbrev pub reserve_entry : ℕ → Volume → Volume
reserve_entry value v = record v {
  primary_fat = λ a. if a == v.current_free then value else v.primary_fat a;
  current_free = u32 (v.current_free + 1);
}

abbrev pub reserve_entries : Volume → Volume
reserve_entries v =
    reserve_entry end_of_chain_marker
      (reserve_entry end_of_chain_marker (reserve_entry (0xFFFF_FF00 + fixed_media) v))

-- The two files of text, as `KLOG_APPEND` writes them.
abbrev pub kernel_info : ℕ → ℕ → Option (List ℕ)
kernel_info kernel_size_bytes data_start_lba = do
  size ← u64_to_string kernel_size_bytes
  start ← u64_to_string data_start_lba
  some (
      codes "KERNEL_SIZE_BYTES="
      ++ size
      ++ codes "\n"
      ++ codes "KERNEL_START_LBA="
      ++ start
      ++ codes "\n")

abbrev pub disk_info : Configuration → Option (List ℕ)
disk_info c = do
  size ← u64_to_string c.total_image_size_bytes
  lba ← u64_to_string c.total_image_size_lba
  some (
      codes "DISK_SIZE_BYTES=" ++ size ++ codes "\n" ++ codes "DISK_SIZE_LBA=" ++ lba ++ codes "\n")

-- What is written: the volume, where its table and its clusters lie in the partition, where the
-- copy of the table is written, and the writes to the reserved sectors.
pub record Partition : Type 0 where
  pub volume : Volume
  pub fat_offset : ℕ
  pub clusters_offset : ℕ
  pub mirror_offset : ℕ
  pub reserved : List (ℕ × List ℕ)

-- The directories and the files; `application` is what `read` gives of the application.
pub write_files : Configuration → ℕ → List ℕ → ℕ → Volume → Option Volume
unfolding create_path create_fat32_file u64_to_string
write_files c bytes_per_sector application kernel_size_bytes v0 = do
  (efi, v1) ←
      create_path bytes_per_sector (codes "EFI        ") root_cluster_fat_index (reserve_entries v0)
  (boot, v2) ← create_path bytes_per_sector (codes "BOOT       ") efi v1
  (flos, v3) ← create_path bytes_per_sector (codes "FLOS       ") efi v2
  v4 ← create_fat32_file bytes_per_sector (codes "BOOTX64 EFI") boot application v3
  kernel ← kernel_info kernel_size_bytes c.data_partition_start_lba
  v5 ← create_fat32_file bytes_per_sector (codes "KERNEL  INF") flos kernel v4
  disk ← disk_info c
  create_fat32_file bytes_per_sector (codes "DISKDATAINF") flos disk v5

-- The whole function. `none` is the return of `false`, where `read` fails, or a directory that is
-- full. The copy of the table goes to a pointer to words that is moved by a number of bytes.
unfoldable pub write_efi_system_partition :
    Configuration → EfiSizes → Option (List ℕ) → ℕ → Volume → Option Partition
unfolding write_files
write_efi_system_partition c sizes read kernel_size_bytes start = do
  application ← read
  v ← write_files c sizes.bytes_per_sector application kernel_size_bytes start
  let sector = sizes.bytes_per_sector
  let fat_offset = sector * reserved_sectors
  let info = fs_info_bytes (sub32 sizes.data_clusters_count v.current_free) v.current_free
  let block = parameter_block_bytes c sizes
  some (record {
    volume = v;
    fat_offset = fat_offset;
    clusters_offset = fat_offset + u32 (sizes.fat_size_bytes * fats);
    mirror_offset = fat_offset + 4 * sizes.fat_size_bytes;
    reserved =
        (0, block)
        ∷ (sector, info)
        ∷ (sector + sector * 5, block)
        ∷ (sector + sector * 5 + sector, info)
        ∷ [];
  })
