-- ===== src/Shared/Text/Tests.antt =====
-- The text functions on short strings.
use homegrown.Prelude.{
  ℕ, ◌≤◌, ◌≡◌, refl, true, some, max, List, [], ◌∷◌, if◌then◌else◌, length, take, u16, u32, arith,
  ◌⊎◌, ◌++◌,
}
use homegrown.Shared.Text.{
  String, u64_to_string, i64_to_string, parse_u32, parse_u16, string_with_min_size, ptr_to_string,
  tokenize_string,
}
use homegrown.Shared.Text.Digits.{u64_to_string-parse, i64_to_string-u64_to_string}
use homegrown.Shared.Text.Shape.{string_with_min_size-length, ptr_to_string_last}
use homegrown.Shared.Text.Tokens.{join, NoneContain, tokenize_string-join}

abbrev two_names : String
two_names = 0x61 ∷ 0x2F ∷ 0x62 ∷ []

abbrev slash : ℕ
slash = 0x2F

pointer : ptr_to_string 0x1234 ≡ ptr_to_string 0x123F
unfolding ptr_to_string
pointer = refl

u64_to_string-parse_example :
    (s : String) × (u64_to_string 4096 ≡ some s)
    × (length s ≤ 20)
    × (parse_u32 s 10 ≡ u32 4096)
    × (parse_u16 s 10 ≡ u16 4096)
u64_to_string-parse_example = u64_to_string-parse 4096 (omega arith)

i64_to_string-u64_to_string_example :
    (s : String) × (u64_to_string 42 ≡ some s)
    × (i64_to_string true 42 ≡ some (if true then 0x2D ∷ s else s))
i64_to_string-u64_to_string_example = i64_to_string-u64_to_string true 42 (omega arith)

string_with_min_size-length_example :
    (length (string_with_min_size two_names 10) ≡ max (length two_names) 10)
    × (take (length two_names) (string_with_min_size two_names 10) ≡ two_names)
string_with_min_size-length_example = string_with_min_size-length two_names 10 (omega arith)

ptr_to_string_last_example : ptr_to_string 0x1234 ≡ ptr_to_string 0x123F
ptr_to_string_last_example = ptr_to_string_last 0x1234 0x123F refl

tokenize_string-join_example :
    (parts : List String) × (tokenize_string two_names slash ≡ some parts)
    × NoneContain parts slash
    × ((join parts slash ≡ two_names) ⊎ (join parts slash ≡ two_names ++ slash ∷ []))
tokenize_string-join_example = tokenize_string-join two_names slash
