-- ===== src/ImageBuilder/Configuration/Tests.antt =====
-- A layout for sectors of 512 bytes and an alignment of 1 MiB.
use homegrown.Prelude.{◌*◌, refl, arith}
use homegrown.ImageBuilder.Configuration.{Configuration, set_configuration}
use homegrown.ImageBuilder.Configuration.Layout.{IsLaidOut, set_configuration-IsLaidOut}

abbrev initial : Configuration
initial = record {
  lba_size_bytes = 512;
  alignment_lba = 1;
  total_image_size_lba = 0;
  total_image_size_bytes = 0;
  gpt_partition_table_size_lba = 0;
  efi_system_partition_start_lba = 0;
  efi_system_partition_size_lba = 0;
  data_partition_start_lba = 0;
  data_partition_size_lba = 0;
}

set_configuration-IsLaidOut_example :
    IsLaidOut 50000 3000000 (set_configuration 50000 3000000 (2048 * 512) initial)
set_configuration-IsLaidOut_example =
    set_configuration-IsLaidOut 7 11 50000 3000000 initial (omega arith) (omega arith) (omega arith)
      (omega arith) (omega arith) refl refl
