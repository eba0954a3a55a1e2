-- ===== src/ImageBuilder/Gpt/Tests.antt =====
-- The partition tables of an image of 512-byte sectors.
use homegrown.Prelude.{refl, arith}
use homegrown.ImageBuilder.Configuration.{Configuration}
use homegrown.ImageBuilder.Configuration.Layout.{IsLaidOut}
use homegrown.ImageBuilder.Gpt.Laws.{IsPartitioned, write_gpts-IsPartitioned}

abbrev small_image : Configuration
small_image = record {
  lba_size_bytes = 512;
  alignment_lba = 1;
  total_image_size_lba = 70100;
  total_image_size_bytes = 35891200;
  gpt_partition_table_size_lba = 32;
  efi_system_partition_start_lba = 34;
  efi_system_partition_size_lba = 70000;
  data_partition_start_lba = 70034;
  data_partition_size_lba = 33;
}

small_image-IsLaidOut : IsLaidOut 5000 6000 small_image
small_image-IsLaidOut = record {
  table = refl;
  behind_table = omega arith;
  efi_aligned = refl;
  efi_room = omega arith;
  adjacent = refl;
  data_aligned = refl;
  data_room = omega arith;
  backup = refl;
  total_bytes = refl;
}

write_gpts-IsPartitioned_example : IsPartitioned small_image
write_gpts-IsPartitioned_example =
    write_gpts-IsPartitioned 5000 6000 small_image small_image-IsLaidOut (omega arith) (omega arith)
      (omega arith)
