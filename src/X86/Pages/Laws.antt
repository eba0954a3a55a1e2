-- ===== src/X86/Pages/Laws.antt =====
-- The page sizes that are chosen hold the bytes asked for.
use mathlib.Core.Bool.{true≢false}
use homegrown.Prelude.{
  ℕ, zero, suc, ◌+◌, ◌-◌, ◌*◌, ◌%◌, ◌^◌, ◌≤◌, ◌<◌, ◌≡◌, ◌∙◌, refl, sym, ap, Bool, true, false, ◌&&◌,
  Option, none, some, leb, ◌==◌, ==_iff, max, u64, inl, inr, arith, Bool-cases,
}
use homegrown.Shared.Maths.{ceiling_div_value}
use homegrown.Shared.Maths.Align.{align_up_value-least, ceiling_div_value-least}
use homegrown.X86.Pages.{
  PageSizeConversion, convert_preferred_page_to_available_pages, is_valid_page_size_for_arch,
  alloc_and_map_size, refuse_large, explicit_request, get_virtual_memory,
}

-- A test on all numbers below a bound.
all_below : (ℕ → Bool) → ℕ → Bool
all_below f zero = true
all_below f (suc n) = f n && all_below f n

all_below-at : (f : ℕ → Bool) (n k : ℕ) → all_below f n ≡ true → k < n → f k ≡ true
unfolding all_below
all_below-at f zero k h small = absurd (omega arith)
all_below-at f (suc n) k h small = elim (Bool-cases (f n)) [
  | inr fails ↦ absurd (true≢false (sym h ∙ ap (λ (b : Bool). b && all_below f n) fails))
  | inl last ↦ elim (Bool-cases (k == n)) [
    | inl here ↦ let e : k ≡ n = ground arith in rw e last
    | inr before ↦
        all_below-at f n k (sym (ap (λ (b : Bool). b && all_below f n) last) ∙ h) (ground arith)
  ]
]

-- The pages together are as large as the size asked for, or as the smallest page.
abbrev holds : ℕ → Option PageSizeConversion → Bool
holds size none = false
holds size (some c) =
    (c.number_of_pages * c.page_size == max size 4096) && is_valid_page_size_for_arch c.page_size

holds_at : ℕ → Bool
holds_at k = holds (2 ^ k) (convert_preferred_page_to_available_pages (2 ^ k))

all_hold : all_below holds_at 64 ≡ true
unfolding all_below holds_at convert_preferred_page_to_available_pages is_valid_page_size_for_arch
all_hold = refl

and_split : (a b : Bool) → (a && b) ≡ true → (a ≡ true) × (b ≡ true)
and_split true b h = (refl, h)
and_split false b h = absurd (true≢false (sym h))

holds-some :
    (size : ℕ) (o : Option PageSizeConversion)
    → holds size o ≡ true
    → (c : PageSizeConversion) × (o ≡ some c)
      × (c.number_of_pages * c.page_size ≡ max size 4096)
      × (is_valid_page_size_for_arch c.page_size ≡ true)
holds-some size none h = absurd (true≢false (sym h))
holds-some size (some c) h =
    let (exact, valid) = and_split _ _ h in (c, refl, (==_iff _ _).0 exact, valid)

-- For each power of two the conversion ends, in pages of a size that the processor has, which
-- together are as large as the size asked for, or in one page of the smallest size.
pub convert_preferred-exact :
    (k : ℕ)
    → k < 64
    → (c : PageSizeConversion) × (convert_preferred_page_to_available_pages (2 ^ k) ≡ some c)
      × (c.number_of_pages * c.page_size ≡ max (2 ^ k) 4096)
      × (is_valid_page_size_for_arch c.page_size ≡ true)
unfolding holds_at
convert_preferred-exact k small = holds-some (2 ^ k) _ (all_below-at holds_at 64 k all_hold small)

one_page_of : ℕ → PageSizeConversion
one_page_of size = record { number_of_pages = 1; page_size = size }

own_sizes :
    (convert_preferred_page_to_available_pages 4096 ≡ some (one_page_of 4096))
    × (convert_preferred_page_to_available_pages 2097152 ≡ some (one_page_of 2097152))
    × (convert_preferred_page_to_available_pages 1073741824 ≡ some (one_page_of 1073741824))
unfolding convert_preferred_page_to_available_pages one_page_of
own_sizes = (refl, refl, refl)

-- A size of the processor is not converted.
accepted :
    (q size : ℕ)
    → convert_preferred_page_to_available_pages size ≡ some (one_page_of size)
    → q ≤ 512
    → explicit_request q size ≡ some (record { number_of_pages = q; page_size = size })
unfolding explicit_request one_page_of
accepted q size own few =
    let e : u64 (q * 1) ≡ q = omega arith in
    let test : leb q 512 ≡ true = ground arith in ap (refuse_large q) own ∙ rw (e, test) refl

-- For at most 2 ^ 39 bytes `allocAndMap` asks for no more than 512 pages, which hold the bytes, of
-- a size of the processor, so that the request is not refused.
pub alloc_and_map_size-explicit_request :
    (n : ℕ)
    → 1 ≤ n
    → n ≤ 2 ^ 39
    → (n ≤ (alloc_and_map_size n).number_of_pages * (alloc_and_map_size n).page_size)
      × (explicit_request (alloc_and_map_size n).number_of_pages (alloc_and_map_size n).page_size
          ≡ some (alloc_and_map_size n))
unfolding alloc_and_map_size
alloc_and_map_size-explicit_request n pos small =
    let (base_low, base_high) = ceiling_div_value-least 12 n (omega arith) (omega arith) in
    let (large_low, large_high) = ceiling_div_value-least 21 n (omega arith) (omega arith) in
    let (huge_low, huge_high) = ceiling_div_value-least 30 n (omega arith) (omega arith) in
    elim (Bool-cases (leb (ceiling_div_value n 4096) 256)) [
      | inl base ↦
          rw base (base_low, accepted (ceiling_div_value n 4096) 4096 own_sizes.0 (ground arith))
      | inr more ↦ elim (Bool-cases (leb (ceiling_div_value n 2097152) 256)) [
        | inl large ↦
            rw (more, large)
              (large_low, accepted (ceiling_div_value n 2097152) 2097152 own_sizes.1 (ground arith))
        | inr rest ↦
            rw (more, rest)
              (
                huge_low,
                accepted (ceiling_div_value n 1073741824) 1073741824 own_sizes.2 (omega arith),
              )
      ]
    ]

-- An address range is aligned, lies behind all that were given before, and the region's start
-- moves to its end, where the end does not pass the address space.
pub get_virtual_memory-fresh :
    (k size start : ℕ)
    → k < 64
    → start + (2 ^ k - 1) + size < 2 ^ 64
    → ((get_virtual_memory size (2 ^ k) start).0 % 2 ^ k ≡ 0)
      × (start ≤ (get_virtual_memory size (2 ^ k) start).0)
      × ((get_virtual_memory size (2 ^ k) start).1
          ≡ (get_virtual_memory size (2 ^ k) start).0 + size)
unfolding get_virtual_memory
get_virtual_memory-fresh k size start small room =
    let (aligned, low, high) = align_up_value-least k small start (omega arith) in
    (aligned, low, omega arith)
