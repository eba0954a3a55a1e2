-- ===== src/ImageBuilder/Gpt.antt =====
-- projects/image-builder/code/src/gpt.c and mbr.c: the partition tables. A write to the image is
-- its offset with the bytes written there.
pub mod Laws
mod Tests
use homegrown.Prelude.{
  ℕ, ◌+◌, ◌*◌, List, [], ◌∷◌, ◌++◌, ltb, ◌==◌, if◌then◌else◌, replicate, u32, u64, u32_max, sub32,
  sub64, le_bytes,
}
use homegrown.ImageBuilder.Crc32.{calculate_crc32}
use homegrown.ImageBuilder.Configuration.{Configuration, protective_mbr, gpt_header}

pub record Uuid : Type 0 where
  pub time_lo : ℕ
  pub time_mid : ℕ
  pub time_hi_and_ver : ℕ
  pub clock_seq_hi_and_res : ℕ
  pub clock_seq_lo : ℕ
  pub node : List ℕ

pub record GptHeader : Type 0 where
  pub signature : List ℕ
  pub revision : ℕ
  pub header_size : ℕ
  pub header_crc32 : ℕ
  pub reserved : ℕ
  pub my_lba : ℕ
  pub alternate_lba : ℕ
  pub first_usable_lba : ℕ
  pub last_usable_lba : ℕ
  pub disk_guid : Uuid
  pub partition_table_lba : ℕ
  pub number_of_entries : ℕ
  pub size_of_entry : ℕ
  pub partition_table_crc32 : ℕ

pub record GptPartitionEntry : Type 0 where
  pub partition_type_guid : Uuid
  pub unique_partition_guid : Uuid
  pub starting_lba : ℕ
  pub ending_lba : ℕ
  pub attributes : ℕ
  pub partition_name_utf16 : List ℕ

-- The packed structures in memory.
abbrev pub uuid_bytes : Uuid → List ℕ
uuid_bytes g =
    le_bytes 4 g.time_lo
    ++ le_bytes 2 g.time_mid
    ++ le_bytes 2 g.time_hi_and_ver
    ++ g.clock_seq_hi_and_res ∷ g.clock_seq_lo ∷ g.node

pub header_bytes : GptHeader → List ℕ
header_bytes h =
    h.signature
    ++ le_bytes 4 h.revision
    ++ le_bytes 4 h.header_size
    ++ le_bytes 4 h.header_crc32
    ++ le_bytes 4 h.reserved
    ++ le_bytes 8 h.my_lba
    ++ le_bytes 8 h.alternate_lba
    ++ le_bytes 8 h.first_usable_lba
    ++ le_bytes 8 h.last_usable_lba
    ++ uuid_bytes h.disk_guid
    ++ le_bytes 8 h.partition_table_lba
    ++ le_bytes 4 h.number_of_entries
    ++ le_bytes 4 h.size_of_entry
    ++ le_bytes 4 h.partition_table_crc32

utf16_bytes : List ℕ → List ℕ
utf16_bytes [] = []
utf16_bytes (c ∷ cs) = le_bytes 2 c ++ utf16_bytes cs

pub entry_bytes : GptPartitionEntry → List ℕ
unfolding utf16_bytes
entry_bytes e =
    uuid_bytes e.partition_type_guid
    ++ uuid_bytes e.unique_partition_guid
    ++ le_bytes 8 e.starting_lba
    ++ le_bytes 8 e.ending_lba
    ++ le_bytes 8 e.attributes
    ++ utf16_bytes e.partition_name_utf16

abbrev pub efi_system_partition_guid : Uuid
efi_system_partition_guid = record {
  time_lo = 0xC12A_7328;
  time_mid = 0xF81F;
  time_hi_and_ver = 0x11D2;
  clock_seq_hi_and_res = 0xBA;
  clock_seq_lo = 0x4B;
  node = 0x00 ∷ 0xA0 ∷ 0xC9 ∷ 0x3E ∷ 0xC9 ∷ 0x3B ∷ [];
}

abbrev pub flos_basic_data_guid : Uuid
flos_basic_data_guid = record {
  time_lo = 0x5F68_A13C;
  time_mid = 0xCDAE;
  time_hi_and_ver = 0x4372;
  clock_seq_hi_and_res = 0x95;
  clock_seq_lo = 0xC7;
  node = 0xFB ∷ 0xC3 ∷ 0x8A ∷ 0x42 ∷ 0xFF ∷ 0x3E ∷ [];
}

abbrev pub random_guid_1 : Uuid
random_guid_1 = record {
  time_lo = 0x314D_4330;
  time_mid = 0x29DE;
  time_hi_and_ver = 0x4029;
  clock_seq_hi_and_res = 0xA6;
  clock_seq_lo = 0x0D;
  node = 0x89 ∷ 0xEA ∷ 0x41 ∷ 0x02 ∷ 0x6A ∷ 0x5D ∷ [];
}

abbrev pub random_guid_2 : Uuid
random_guid_2 = record {
  time_lo = 0x1E73_6CF5;
  time_mid = 0x0F0F;
  time_hi_and_ver = 0x47B4;
  clock_seq_hi_and_res = 0x8E;
  clock_seq_lo = 0xE0;
  node = 0xB6 ∷ 0xB5 ∷ 0x01 ∷ 0x0C ∷ 0x05 ∷ 0xDD ∷ [];
}

abbrev pub random_guid_3 : Uuid
random_guid_3 = record {
  time_lo = 0x1B67_CFAB;
  time_mid = 0x21EF;
  time_hi_and_ver = 0x4033;
  clock_seq_hi_and_res = 0xB9;
  clock_seq_lo = 0xDD;
  node = 0xCE ∷ 0x61 ∷ 0x8C ∷ 0xB3 ∷ 0x2C ∷ 0xB8 ∷ [];
}

abbrev pub nil_uuid : Uuid
nil_uuid = record {
  time_lo = 0;
  time_mid = 0;
  time_hi_and_ver = 0;
  clock_seq_hi_and_res = 0;
  clock_seq_lo = 0;
  node = replicate 6 0;
}

-- `fillPartitionEntry`, for the entry at the index and its size in sectors.
abbrev pub fill_partition_entry : ℕ → ℕ → ℕ → GptPartitionEntry → GptPartitionEntry
fill_partition_entry index start_lba size_lba e = record e {
  unique_partition_guid = if index == 0 then random_guid_2 else random_guid_3;
  starting_lba = start_lba;
  ending_lba = sub64 (u64 (start_lba + size_lba)) 1;
}

-- The first two of `partitionEntries`: "EFI SYSTEM" and "BASIC DATA"; the others are zero.
abbrev pub efi_entry : GptPartitionEntry
efi_entry = record {
  partition_type_guid = efi_system_partition_guid;
  unique_partition_guid = nil_uuid;
  starting_lba = 0;
  ending_lba = 0;
  attributes = 0;
  partition_name_utf16 =
      0x45 ∷ 0x46 ∷ 0x49 ∷ 0x20 ∷ 0x53 ∷ 0x59 ∷ 0x53 ∷ 0x54 ∷ 0x45 ∷ 0x4D ∷ replicate 26 0;
}

abbrev pub data_entry : GptPartitionEntry
data_entry = record {
  partition_type_guid = flos_basic_data_guid;
  unique_partition_guid = nil_uuid;
  starting_lba = 0;
  ending_lba = 0;
  attributes = 0;
  partition_name_utf16 =
      0x42 ∷ 0x41 ∷ 0x53 ∷ 0x49 ∷ 0x43 ∷ 0x20 ∷ 0x44 ∷ 0x41 ∷ 0x54 ∷ 0x41 ∷ replicate 26 0;
}

-- `partitionEntries` after the two calls of `fillPartitionEntry`.
abbrev pub filled_efi_entry : Configuration → GptPartitionEntry
filled_efi_entry c =
    fill_partition_entry 0 c.efi_system_partition_start_lba c.efi_system_partition_size_lba
      efi_entry

abbrev pub filled_data_entry : Configuration → GptPartitionEntry
filled_data_entry c =
    fill_partition_entry 1 c.data_partition_start_lba c.data_partition_size_lba data_entry

pub table_bytes : Configuration → List ℕ
unfolding entry_bytes
table_bytes c =
    entry_bytes (filled_efi_entry c) ++ entry_bytes (filled_data_entry c) ++ replicate (126 * 128) 0

-- The header with its checksum, which is taken with a checksum of 0.
pub with_crc : GptHeader → GptHeader
unfolding header_bytes calculate_crc32
with_crc h = record h {
  header_crc32 = calculate_crc32 (header_bytes (record h { header_crc32 = 0 }));
}

pub primary_header : Configuration → GptHeader
unfolding with_crc table_bytes calculate_crc32
primary_header c =
    let total = c.total_image_size_lba in
    let table = c.gpt_partition_table_size_lba in
    with_crc (record {
      signature = 0x45 ∷ 0x46 ∷ 0x49 ∷ 0x20 ∷ 0x50 ∷ 0x41 ∷ 0x52 ∷ 0x54 ∷ [];
      revision = 0x0001_0000;
      header_size = 92;
      header_crc32 = 0;
      reserved = 0;
      my_lba = protective_mbr;
      alternate_lba = sub32 total gpt_header;
      first_usable_lba = u32 (protective_mbr + gpt_header + table);
      last_usable_lba = sub32 (sub32 (sub32 total gpt_header) table) 1;
      disk_guid = random_guid_1;
      partition_table_lba = protective_mbr + gpt_header;
      number_of_entries = 128;
      size_of_entry = 128;
      partition_table_crc32 = calculate_crc32 (table_bytes c);
    })

pub backup_header : Configuration → GptHeader
unfolding primary_header
backup_header c =
    let h = primary_header c in
    with_crc (record h {
      my_lba = h.alternate_lba;
      alternate_lba = h.my_lba;
      partition_table_lba =
          sub32 (sub32 c.total_image_size_lba gpt_header) c.gpt_partition_table_size_lba;
    })

pub record Write : Type 0 where
  pub offset : ℕ
  pub bytes : List ℕ

-- `writeGPTs`: the calls of `memcpy`, with the offset from the start of the image.
pub write_gpts : Configuration → List Write
unfolding backup_header
write_gpts c =
    let lba = c.lba_size_bytes in
    let backup = backup_header c in
    let table_offset = backup.partition_table_lba * lba in
    record { offset = protective_mbr * lba; bytes = header_bytes (primary_header c) }
    ∷ record { offset = protective_mbr * lba + gpt_header * lba; bytes = table_bytes c }
    ∷ record { offset = table_offset; bytes = table_bytes c }
    ∷ record {
      offset = table_offset + sub64 backup.my_lba backup.partition_table_lba * lba;
      bytes = header_bytes backup;
    }
    ∷ []

-- `sizeLBA` of the protective partition in mbr.c.
pub protective_size_lba : Configuration → ℕ
protective_size_lba c =
    if ltb u32_max c.total_image_size_lba then u32_max else u32 (sub64 c.total_image_size_lba 1)

-- `writeMBR`: the boot code, the protective partition, three empty ones and the signature.
pub write_mbr : Configuration → Write
unfolding protective_size_lba
write_mbr c = record {
  offset = 0;
  bytes =
      replicate 440 0
      ++ le_bytes 4 0
      ++ le_bytes 2 0
      ++ 0 ∷ 0x00 ∷ 0x02 ∷ 0x00 ∷ 0xEE ∷ 0xFF ∷ 0xFF ∷ 0xFF ∷ le_bytes 4 1
      ++ le_bytes 4 (protective_size_lba c)
      ++ replicate 48 0
      ++ le_bytes 2 0xAA55;
}
