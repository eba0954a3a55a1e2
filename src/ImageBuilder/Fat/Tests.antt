-- ===== src/ImageBuilder/Fat/Tests.antt =====
-- Runs of partitions/efi.c on small inputs.
use homegrown.Prelude.{ℕ, ◌+◌, ◌*◌, ◌<◌, ◌≤◌, ◌≡◌, refl, Option, some, none, [], ◌∷◌, arith}
use homegrown.ImageBuilder.Configuration.{Configuration, EfiSizes}
use homegrown.ImageBuilder.Fat.{Volume, create_contiguous_space_for_new_entry, required_clusters}
use homegrown.ImageBuilder.Fat.Chain.{IsChain, create_contiguous_space_for_new_entry-IsChain}
use homegrown.ImageBuilder.Fat.Partition.{Partition, write_efi_system_partition, reserve_entries}

abbrev blank : Volume
blank = record { primary_fat = λ a. 0; current_free = 0; clusters = λ a. 0 }

abbrev rooted : Volume
rooted = reserve_entries blank

create_contiguous_space_for_new_entry-IsChain_example :
    let (start, w) = create_contiguous_space_for_new_entry 512 1300 rooted in
    let n = required_clusters 512 1300 in
    (0 < n) × (1300 ≤ n * 512) × (n * 512 < 1300 + 512) × IsChain start n rooted w
unfolding homegrown.Shared.Maths.ceiling_div_value
create_contiguous_space_for_new_entry-IsChain_example =
    create_contiguous_space_for_new_entry-IsChain 9 1300 rooted (omega arith) (omega arith)
      (omega arith) (omega arith)

abbrev config : Configuration
config = record {
  lba_size_bytes = 512;
  alignment_lba = 2048;
  total_image_size_lba = 80000;
  total_image_size_bytes = 40960000;
  gpt_partition_table_size_lba = 32;
  efi_system_partition_start_lba = 2048;
  efi_system_partition_size_lba = 70000;
  data_partition_start_lba = 72048;
  data_partition_size_lba = 7000;
}

abbrev sizes : EfiSizes
sizes = record {
  bytes_per_sector = 512;
  data_clusters_count = 67584;
  fat_size32_sectors = 1008;
  fat_size_bytes = 516096;
  total_sectors32_bit = 69632;
}

abbrev used_clusters : Option Partition → ℕ
used_clusters none = 0
used_clusters (some p) = p.volume.current_free

-- Three directories and three files of one cluster each, behind the root.
write_efi_system_partition_run :
    used_clusters (write_efi_system_partition config sizes (some (1 ∷ 2 ∷ [])) 5000 blank) ≡ 9
unfolding write_efi_system_partition homegrown.Shared.Text.string_equals
    homegrown.Shared.Maths.ceiling_div_value
write_efi_system_partition_run = refl
