-- ===== src/Shared/Text/Shape.antt =====
-- What the printed forms look like: padding, the digits of a pointer, and searches.
use mathlib.Core.Path.{ap₂}
use native.Mathlib.Nat.{div-div-eq-div-mul}
use homegrown.Prelude.{
  sym, pow-add, bit_and, ℕ, zero, suc, ◌+◌, ◌-◌, ◌*◌, ◌/◌, ◌^◌, ◌<◌, ◌≡◌, ◌∙◌, refl, ap, max, [],
  ◌∷◌, ◌++◌, leb, length, get_or, take, length-append, length-replicate, u32, inl, inr, arith,
  Bool-cases,
}
use homegrown.Shared.Text.{String, hex_string, hex_digits, ptr_to_string, string_with_min_size}

take-append : (s t : String) → take (length s) (s ++ t) ≡ s
take-append [] t = refl
take-append (c ∷ s) t = ap (λ (x : String). c ∷ x) (take-append s t)

take_all : (s : String) → take (length s) s ≡ s
take_all [] = refl
take_all (c ∷ s) = ap (λ (x : String). c ∷ x) (take_all s)

-- Padding to a size that a byte holds gives a string of that size, or the string's own where it
-- is longer, that starts with the string.
pub string_with_min_size-length :
    (s : String) (min_size : ℕ)
    → min_size < 2 ^ 8
    → (length (string_with_min_size s min_size) ≡ max (length s) min_size)
      × (take (length s) (string_with_min_size s min_size) ≡ s)
unfolding string_with_min_size
string_with_min_size-length s min_size small = elim (Bool-cases (leb min_size (length s))) [
  | inl long ↦ rw long (ground arith, take_all s)
  | inr short ↦
      let space : ℕ = 0x20 in
      rw short (
        length-append s _ ∙ rw (length-replicate (u32 (min_size - length s)) space) (ground arith),
        take-append s _,
      )
]

shifted : (u m : ℕ) → u / 2 ^ (4 * suc m) ≡ u / 16 / 2 ^ (4 * m)
shifted u m =
    let e : 4 * suc m ≡ 4 + 4 * m = omega arith in
    ap (λ (t : ℕ). u / 2 ^ t) e
    ∙ ap (λ (t : ℕ). u / t) (pow-add 4 (4 * m))
    ∙ sym (div-div-eq-div-mul u 16 (2 ^ (4 * m)))

upper_digits :
    (n u v : ℕ) → u / 16 ≡ v / 16 → take n (hex_digits (suc n) u) ≡ take n (hex_digits (suc n) v)
unfolding hex_digits
upper_digits zero u v same = refl
upper_digits (suc n) u v same =
    ap₂ ◌∷◌
      (ap (λ (t : ℕ). get_or hex_string (bit_and t 15) 0)
        (shifted u n ∙ ap (λ (t : ℕ). t / 2 ^ (4 * n)) same ∙ sym (shifted v n)))
      (upper_digits n u v same)

-- Pointers that differ in their last hexadecimal digit only are printed alike: the string stops
-- one digit short.
pub ptr_to_string_last : (u v : ℕ) → u / 16 ≡ v / 16 → ptr_to_string u ≡ ptr_to_string v
unfolding ptr_to_string
ptr_to_string_last u v same = ap (λ (s : String). 0x30 ∷ 0x78 ∷ s) (upper_digits 15 u v same)
