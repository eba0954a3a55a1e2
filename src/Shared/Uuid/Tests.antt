-- ===== src/Shared/Uuid/Tests.antt =====
-- A random UUID whose version is set.
use homegrown.Prelude.{◌≡◌, refl, [], ◌∷◌}
use homegrown.Shared.Uuid.{Uuid, set_uuid_type, uuid_variant_1}

abbrev random_uuid : Uuid
random_uuid = record {
  time_lo = 0x1234_5678;
  time_mid = 0x9ABC;
  time_hi_and_ver = 0xDEF0;
  clock_seq_hi_and_res = 0xFF;
  clock_seq_lo = 0x11;
  node = 1 ∷ 2 ∷ 3 ∷ 4 ∷ 5 ∷ 6 ∷ [];
}

-- The highest bits are the variant.
set_variant : (set_uuid_type random_uuid 4 uuid_variant_1).clock_seq_hi_and_res ≡ 0xBF
unfolding set_uuid_type
set_variant = refl

-- The version is lost.
set_version : (set_uuid_type random_uuid 4 uuid_variant_1).time_hi_and_ver ≡ 0x0EF0
unfolding set_uuid_type
set_version = refl
