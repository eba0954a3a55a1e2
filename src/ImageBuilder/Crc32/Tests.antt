-- ===== src/ImageBuilder/Crc32/Tests.antt =====
-- The checksum of the digits from 1 to 9.
use homegrown.Prelude.{◌-◌, ◌≡◌, refl, List, [], ◌∷◌, u32_max, arith}
use homegrown.ImageBuilder.Crc32.{calculate_crc32}
use homegrown.ImageBuilder.Crc32.Laws.{divide_bytes, calculate_crc32-divide_bytes}
use Prim.Native.Nat.{ℕ}

abbrev nine_digits : List ℕ
nine_digits = 0x31 ∷ 0x32 ∷ 0x33 ∷ 0x34 ∷ 0x35 ∷ 0x36 ∷ 0x37 ∷ 0x38 ∷ 0x39 ∷ []

check_value : calculate_crc32 nine_digits ≡ 0xCBF4_3926
unfolding calculate_crc32
check_value = refl

calculate_crc32-divide_bytes_example :
    calculate_crc32 nine_digits ≡ u32_max - divide_bytes nine_digits 0xFFFF_FFFF
calculate_crc32-divide_bytes_example = calculate_crc32-divide_bytes nine_digits (
  omega arith,
  (
    omega arith,
    (
      omega arith,
      (omega arith, (omega arith, (omega arith, (omega arith, (omega arith, (omega arith, tt)))))),
    ),
  ),
)
