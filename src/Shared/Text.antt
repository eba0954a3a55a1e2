-- ===== src/Shared/Text.antt =====
-- projects/shared/code/text: string.h, converter.c and parser.c. A string is the list of its
-- bytes.
pub mod Digits
pub mod Tokens
pub mod Shape
pub mod Equality
mod Tests
use mathlib.Core.Option.{map as map_some}
use homegrown.Prelude.{
  ℕ, zero, suc, ◌+◌, ◌-◌, ◌*◌, ◌/◌, ◌%◌, ◌^◌, Bool, true, false, Option, none, some, List, [], ◌∷◌,
  ◌++◌, ltb, leb, ◌==◌, if◌then◌else◌, length, get_or, ◌&&◌, ◌||◌, take, drop, replicate, u8, u16,
  u32, u64, u64_max, sub64, ◌>>>◌, bit_and,
}

abbrev pub String : Type 0
String = List ℕ

-- `getCharOr`
abbrev pub get_char_or : String → ℕ → ℕ → ℕ
get_char_or str index or = if leb (length str) index then or else get_or str index or

-- `stringEquals`, where `memcmp` compares the bytes.
pub same_bytes : String → String → Bool
same_bytes [] b = true
same_bytes (x ∷ a) [] = true
same_bytes (x ∷ a) (y ∷ b) = x == y && same_bytes a b

unfoldable pub string_equals : String → String → Bool
unfolding same_bytes
string_equals a b = length a == length b && (length a == 0 || same_bytes a b)

-- `containsChar`
pub contains_char : String → ℕ → Bool
contains_char [] ch = false
contains_char (c ∷ s) ch = if c == ch then true else contains_char s ch

-- The loop of `splitString`, from the position on: the bytes before the token.
pub bytes_before : String → ℕ → String
bytes_before [] token = []
bytes_before (c ∷ s) token = if c == token then [] else c ∷ bytes_before s token

pub split_string : String → ℕ → ℕ → String
unfolding bytes_before
split_string s token from = bytes_before (drop from s) token

-- The strings that `TOKENIZE_STRING` goes through.
pub tokenize_from : ℕ → String → ℕ → ℕ → Option (List String)
unfolding split_string
tokenize_from zero s token pos = none
tokenize_from (suc fuel) s token pos =
    let part = split_string s token pos in
    let rest = tokenize_from fuel s token (pos + (length part + 1)) in
    if ltb pos (length s) then map_some (λ (parts : List String). part ∷ parts) rest else some []

unfoldable pub tokenize_string : String → ℕ → Option (List String)
unfolding tokenize_from
tokenize_string s token = tokenize_from (suc (length s)) s token 0

-- `firstOccurenceOfFrom`: -1 is `u64_max`.
pub occurence_in : String → ℕ → ℕ → ℕ
occurence_in [] ch i = u64_max
occurence_in (c ∷ s) ch i = if c == ch then i else occurence_in s ch (i + 1)

unfoldable pub first_occurence_of_from : String → ℕ → ℕ → ℕ
unfolding occurence_in
first_occurence_of_from s ch from = occurence_in (drop from s) ch from

-- The loop of `lastOccurenceOf`, which goes on while `i >= s.len`; `none` is its first read, which
-- is out of bounds.
pub last_occurence_of : String → ℕ → Option ℕ
last_occurence_of s ch = if leb (length s) (sub64 (length s) 1) then none else some u64_max

-- `boolToString`
abbrev pub bool_to_string : Bool → String
bool_to_string true = 0x74 ∷ 0x72 ∷ 0x75 ∷ 0x65 ∷ []
bool_to_string false = 0x66 ∷ 0x61 ∷ 0x6C ∷ 0x73 ∷ 0x65 ∷ []

-- `hexString`
abbrev pub hex_string : String
hex_string =
    0x30 ∷ 0x31 ∷ 0x32 ∷ 0x33 ∷ 0x34 ∷ 0x35 ∷ 0x36 ∷ 0x37 ∷ 0x38 ∷ 0x39 ∷ 0x41 ∷ 0x42 ∷ 0x43 ∷ 0x44
    ∷ 0x45 ∷ 0x46 ∷ []

-- The loop of `ptrToString`, from the digit `i` down.
pub hex_digits : ℕ → ℕ → String
hex_digits zero u = []
hex_digits (suc i) u = get_or hex_string (bit_and (u >>> (4 * i)) 15) 0 ∷ hex_digits i u

-- `ptrToString`: the buffer holds 18 bytes, the string is one shorter.
unfoldable pub ptr_to_string : ℕ → String
unfolding hex_digits
ptr_to_string u = take (18 - 1) (0x30 ∷ 0x78 ∷ hex_digits 16 u)

-- The loop of `U64ToString`, which fills the buffer from its end.
pub digits_loop : ℕ → ℕ → String → Option String
digits_loop zero u end = none
digits_loop (suc fuel) u end =
    let beg = u8 (0x30 + u8 (u % 10)) ∷ end in
    let rest = digits_loop fuel (u / 10) beg in if u / 10 == 0 then some beg else rest

-- 20 digits are enough for a word.
unfoldable pub u64_to_string : ℕ → Option String
unfolding digits_loop
u64_to_string u = digits_loop 20 u []

-- An I64 by its sign and its magnitude: `t` is the negative of the magnitude.
pub negative_loop : ℕ → ℕ → String → Option String
negative_loop zero t end = none
negative_loop (suc fuel) t end =
    let beg = u8 (0x30 + 2 ^ 8 - u8 (2 ^ 8 - t % 10)) ∷ end in
    let rest = negative_loop fuel (t / 10) beg in if t / 10 == 0 then some beg else rest

unfoldable pub i64_to_string : Bool → ℕ → Option String
unfolding negative_loop
i64_to_string negative t =
    map_some (λ (beg : String). if negative then 0x2D ∷ beg else beg) (negative_loop 20 t [])

-- `stringWithMinSize`
unfoldable pub string_with_min_size : String → ℕ → String
string_with_min_size s min_size =
    if leb min_size (length s) then s else s ++ replicate (u32 (min_size - length s)) 0x20

-- `parseU32` and `parseU16`
pub parse_u32_loop : String → ℕ → ℕ → ℕ
parse_u32_loop [] base result = result
parse_u32_loop (c ∷ s) base result =
    parse_u32_loop s base (u32 (u32 (result * base) + u8 (c + 2 ^ 8 - 0x30)))

unfoldable pub parse_u32 : String → ℕ → ℕ
unfolding parse_u32_loop
parse_u32 value base = parse_u32_loop value base 0

pub parse_u16_loop : String → ℕ → ℕ → ℕ
parse_u16_loop [] base result = result
parse_u16_loop (c ∷ s) base result =
    parse_u16_loop s base (u16 (result * base + u8 (c + 2 ^ 8 - 0x30)))

unfoldable pub parse_u16 : String → ℕ → ℕ
unfolding parse_u16_loop
parse_u16 value base = parse_u16_loop value base 0
