-- ===== src/X86/Pages.antt =====
-- projects/shared/code/memory/converter/src/converter.c, for the page sizes of x86, and the choice
-- of a page size in projects/x86/memory/policy/code/src/policy.c.
pub mod Laws
mod Tests
use homegrown.Prelude.{
  ℕ, zero, suc, ◌+◌, ◌-◌, ◌*◌, ◌/◌, ◌^◌, Bool, true, false, not, Option, none, some, leb, ◌==◌,
  if◌then◌else◌, bit_and, u64, ◌<<<◌, ◌>>>◌, List, [], ◌∷◌, sub64,
}
use homegrown.Shared.Maths.{align_up_value, ceiling_div_value, ctz}
use homegrown.X86.Paging.{
  entries, page_frame_size, large_page_size, huge_page_size, PageSize, bytes, page_sizes,
}

-- `AVAILABLE_PAGE_SIZES_MASK`: the sizes are different powers of two.
abbrev pub available_page_sizes_mask : ℕ
available_page_sizes_mask = page_frame_size + large_page_size + huge_page_size

pub is_page_size_valid : ℕ → Bool
is_page_size_valid page_size = not (bit_and page_size available_page_sizes_mask == 0)

pub smallest_page_size : ℕ
unfolding ctz
smallest_page_size = 1 <<< ctz available_page_sizes_mask

-- `PageSizeConversion`
pub record PageSizeConversion : Type 0 where
  pub number_of_pages : ℕ
  pub page_size : ℕ

pub convert_loop : ℕ → ℕ → ℕ → Option PageSizeConversion
unfolding is_page_size_valid
convert_loop zero n size = none
convert_loop (suc fuel) n size =
    let rest = convert_loop fuel (u64 (n <<< 1)) (size >>> 1) in
    if is_page_size_valid size
    then some (record { number_of_pages = n; page_size = size })
    else rest

-- A word has 64 digits, so that 64 halvings are enough.
unfoldable pub convert_preferred_page_to_available_pages : ℕ → Option PageSizeConversion
unfolding convert_loop smallest_page_size
convert_preferred_page_to_available_pages size =
    if leb size smallest_page_size
    then some (record { number_of_pages = 1; page_size = smallest_page_size })
    else convert_loop 64 1 size

-- The loop of `convertBytesToPagesToMapSmartly` goes from the largest size to the smallest;
-- `none` is the end that is not reachable.
unfoldable pub convert_bytes_to_pages_to_map_smartly : ℕ → Option PageSizeConversion
unfolding smallest_page_size
convert_bytes_to_pages_to_map_smartly n =
    let of_size : ℕ → Option PageSizeConversion =
      λ size. some (record { number_of_pages = ceiling_div_value n size; page_size = size }) in
    if leb n smallest_page_size
    then some (record { number_of_pages = 1; page_size = smallest_page_size })
    else if leb (huge_page_size / 2) n
    then of_size huge_page_size
    else if leb (large_page_size / 2) n
    then of_size large_page_size
    else if leb (page_frame_size / 2) n
    then of_size page_frame_size
    else none

is_size_in : List PageSize → ℕ → Bool
is_size_in [] size = false
is_size_in (p ∷ ps) size = if bytes p == size then true else is_size_in ps size

unfoldable pub is_valid_page_size_for_arch : ℕ → Bool
unfolding is_size_in
is_valid_page_size_for_arch size = is_size_in page_sizes size

-- The page size that `allocAndMap` takes for a number of bytes, with the pages it asks for.
unfoldable pub alloc_and_map_size : ℕ → PageSizeConversion
alloc_and_map_size n =
    let in_pages = λ (size : ℕ). ceiling_div_value n size in
    if leb (in_pages page_frame_size) (entries / 2)
    then record { number_of_pages = in_pages page_frame_size; page_size = page_frame_size }
    else if leb (in_pages large_page_size) (entries / 2)
    then record { number_of_pages = in_pages large_page_size; page_size = large_page_size }
    else record { number_of_pages = in_pages huge_page_size; page_size = huge_page_size }

-- The number of pages that `allocAndMapExplicit` requests, with their size; `none` is
-- `interruptTooLargeAllocation`.
abbrev pub refuse_large : ℕ → Option PageSizeConversion → Option PageSizeConversion
refuse_large n none = none
refuse_large n (some c) =
    let pages = u64 (n * c.number_of_pages) in
    if leb pages entries
    then some (record { number_of_pages = pages; page_size = c.page_size })
    else none

unfoldable pub explicit_request : ℕ → ℕ → Option PageSizeConversion
explicit_request n preferred = refuse_large n (convert_preferred_page_to_available_pages preferred)

-- `getVirtualMemory`: the address, and the start of the region afterwards.
unfoldable pub get_virtual_memory : ℕ → ℕ → ℕ → ℕ × ℕ
get_virtual_memory size align_value start =
    let aligned = align_up_value start align_value in (aligned, u64 (aligned + size))
