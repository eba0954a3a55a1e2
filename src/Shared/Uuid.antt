-- ===== src/Shared/Uuid.antt =====
-- projects/shared/code/uuid: the version and the variant of a UUID.
mod Tests
use homegrown.Prelude.{ℕ, ◌+◌, ◌*◌, ◌^◌, List, bit_and, bit_or, u8, ◌<<<◌}

-- `UUID`, by the fields of its last structure.
pub record Uuid : Type 0 where
  pub time_lo : ℕ
  pub time_mid : ℕ
  pub time_hi_and_ver : ℕ
  pub clock_seq_hi_and_res : ℕ
  pub clock_seq_lo : ℕ
  pub node : List ℕ

-- `UUIDVariant`
pub data UuidVariant : Type 0 where
  uuid_variant_0 uuid_variant_1 uuid_variant_2 uuid_variant_3 : UuidVariant

-- The `switch` on the variant.
abbrev pub variant_bits : UuidVariant → ℕ → ℕ
variant_bits uuid_variant_0 res = bit_or (u8 (0 <<< 7)) (bit_and res 127)
variant_bits uuid_variant_1 res = bit_or (u8 (2 <<< 6)) (bit_and res 63)
variant_bits uuid_variant_2 res = bit_or (u8 (6 <<< 5)) (bit_and res 31)
variant_bits uuid_variant_3 res = bit_or (u8 (7 <<< 5)) (bit_and res 31)

-- `setUUIDType`; the version is converted to a byte after it was moved up by 12.
pub set_uuid_type : Uuid → ℕ → UuidVariant → Uuid
set_uuid_type uuid version variant = record uuid {
  time_hi_and_ver = bit_or (u8 (version <<< 12)) (bit_and uuid.time_hi_and_ver 0x0FFF);
  clock_seq_hi_and_res = variant_bits variant uuid.clock_seq_hi_and_res;
}
