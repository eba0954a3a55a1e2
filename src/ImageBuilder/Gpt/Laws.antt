-- ===== src/ImageBuilder/Gpt/Laws.antt =====
-- The partition tables of an image with the computed layout.
use native.Mathlib.Nat.{add-mul}
use homegrown.Prelude.{
  ℕ, zero, suc, ◌+◌, ◌-◌, ◌*◌, ◌^◌, ◌≤◌, ◌<◌, ◌≡◌, ◌∙◌, refl, sym, ap, List, [], ◌∷◌, sub32, sub64,
  arith,
}
use homegrown.ImageBuilder.Crc32.{calculate_crc32}
use homegrown.ImageBuilder.Configuration.{Configuration}
use homegrown.ImageBuilder.Configuration.Layout.{IsLaidOut}
use homegrown.ImageBuilder.Gpt.{
  GptHeader, Write, header_bytes, table_bytes, filled_efi_entry, filled_data_entry, with_crc,
  primary_header, backup_header, write_gpts,
}

-- The header carries its own checksum and that of the table.
abbrev pub IsChecked : Configuration → GptHeader → Type 0
IsChecked c h =
    (h.header_crc32 ≡ calculate_crc32 (header_bytes (record h { header_crc32 = 0 })))
    × (h.partition_table_crc32 ≡ calculate_crc32 (table_bytes c))

-- The tables agree with the layout and with each other.
pub record IsPartitioned (c : Configuration) : Type 0 where
  pub primary_checked : IsChecked c (primary_header c)
  pub backup_checked : IsChecked c (backup_header c)
  pub first_sector : (primary_header c).my_lba ≡ 1
  pub last_sector : (primary_header c).alternate_lba + 1 ≡ c.total_image_size_lba
  pub mirrored :
      ((backup_header c).my_lba ≡ (primary_header c).alternate_lba)
      × ((backup_header c).alternate_lba ≡ (primary_header c).my_lba)
  pub efi_usable :
      ((primary_header c).first_usable_lba ≤ (filled_efi_entry c).starting_lba)
      × ((filled_efi_entry c).ending_lba + 1 ≡ (filled_data_entry c).starting_lba)
  pub data_usable : (filled_data_entry c).ending_lba ≡ (primary_header c).last_usable_lba
  pub places :
      write_gpts c
      ≡ record { offset = c.lba_size_bytes; bytes = header_bytes (primary_header c) }
        ∷ record { offset = 2 * c.lba_size_bytes; bytes = table_bytes c }
        ∷ record {
          offset = (c.data_partition_start_lba + c.data_partition_size_lba) * c.lba_size_bytes;
          bytes = table_bytes c;
        }
        ∷ record {
          offset = (c.total_image_size_lba - 1) * c.lba_size_bytes;
          bytes = header_bytes (backup_header c);
        }
        ∷ []

some_sectors : (n d lba : ℕ) → 1 ≤ n → n ≤ d * lba → 1 ≤ d
some_sectors n zero lba pos room = omega arith
some_sectors n (suc d) lba pos room = omega arith

-- Four writes at equal offsets.
same_places :
    (first table last : List ℕ) {a b c d a' b' c' d' : ℕ}
    → a ≡ a'
    → b ≡ b'
    → c ≡ c'
    → d ≡ d'
    → Path
        (List Write)
        (record { offset = a; bytes = first }
          ∷ record { offset = b; bytes = table }
          ∷ record { offset = c; bytes = table }
          ∷ record { offset = d; bytes = last }
          ∷ [])
        (record { offset = a'; bytes = first }
          ∷ record { offset = b'; bytes = table }
          ∷ record { offset = c'; bytes = table }
          ∷ record { offset = d'; bytes = last }
          ∷ [])
same_places first table last p q r s = λ i.
    record { offset = p i; bytes = first }
    ∷ record { offset = q i; bytes = table }
    ∷ record { offset = r i; bytes = table }
    ∷ record { offset = s i; bytes = last }
    ∷ []

-- On an image with the computed layout, of fewer than 2 ^ 32 sectors, and files that are not
-- empty, the two headers carry their checksums and the table's, name each other's sectors, the
-- first and the last but for the boot record, the partitions lie in the usable sectors, one
-- directly behind the other up to the last usable sector, and the four parts are written to the
-- second sector, the third, the sectors behind the data partition and the last one.
pub write_gpts-IsPartitioned :
    (efi_size kernel_size : ℕ) (c : Configuration)
    → IsLaidOut efi_size kernel_size c
    → 1 ≤ efi_size
    → 1 ≤ kernel_size
    → c.total_image_size_lba < 2 ^ 32
    → IsPartitioned c
unfolding write_gpts backup_header primary_header with_crc
write_gpts-IsPartitioned efi_size kernel_size c laid efi_pos kernel_pos word =
    let e_pos =
      some_sectors efi_size c.efi_system_partition_size_lba c.lba_size_bytes efi_pos
        laid.efi_room in
    let d_pos =
      some_sectors kernel_size c.data_partition_size_lba c.lba_size_bytes kernel_pos
        laid.data_room in
    let adjacent = laid.adjacent in
    let backup = laid.backup in
    let behind = laid.behind_table in
    let total = c.total_image_size_lba in
    let table = c.gpt_partition_table_size_lba in
    let lba = c.lba_size_bytes in
    let data_end = c.data_partition_start_lba + c.data_partition_size_lba in
    let double : 1 * lba + 1 * lba ≡ 2 * lba = omega arith in
    let single : 1 * lba ≡ lba = omega arith in
    let table_place : sub32 (sub32 total 1) table ≡ data_end = omega arith in
    let header_place : sub64 (sub32 total 1) data_end ≡ table = omega arith in
    let header_offset : data_end * lba + sub64 (sub32 total 1) data_end * lba ≡ (total - 1) * lba =
      ap (λ (t : ℕ). data_end * lba + t * lba) header_place
      ∙ sym (add-mul data_end table lba)
      ∙ ap (λ (t : ℕ). t * lba) (omega arith) in
    record {
      primary_checked = (refl, refl);
      backup_checked = (refl, refl);
      first_sector = refl;
      last_sector = omega arith;
      mirrored = (refl, refl);
      efi_usable = (omega arith, omega arith);
      data_usable = omega arith;
      places =
          same_places (header_bytes (primary_header c)) (table_bytes c)
            (header_bytes (backup_header c)) single double (ap (λ (t : ℕ). t * lba) table_place)
            (ap (λ (t : ℕ). t * lba + sub64 (sub32 total 1) t * lba) table_place ∙ header_offset);
    }
