-- ===== src/X86/Paging.antt =====
-- projects/x86/code/memory/include/x86/memory/definitions.h: page sizes and the blocks of pages
-- that the managers keep (`PagedMemory`, projects/shared/code/memory/management).
use homegrown.Prelude.{ℕ, ◌*◌, List, [], ◌∷◌}

-- `PageTableFormat.ENTRIES`
abbrev pub entries : ℕ
entries = 512

abbrev pub page_frame_shift : ℕ
page_frame_shift = 12

abbrev pub page_frame_size : ℕ
page_frame_size = 4096

abbrev pub large_page_size : ℕ
large_page_size = page_frame_size * entries

abbrev pub huge_page_size : ℕ
huge_page_size = large_page_size * entries

abbrev pub jumbo_page_size : ℕ
jumbo_page_size = huge_page_size * entries

abbrev pub wumbo_page_size : ℕ
wumbo_page_size = jumbo_page_size * entries

-- `enum PageSize : U64`, whose values are the sizes in bytes.
pub data PageSize : Type 0 where
  base_page large_page huge_page : PageSize

abbrev pub bytes : PageSize → ℕ
bytes base_page = page_frame_size
bytes large_page = large_page_size
bytes huge_page = huge_page_size

-- `pageSizes`, from the smallest to the largest.
abbrev pub page_sizes : List PageSize
page_sizes = base_page ∷ large_page ∷ huge_page ∷ []

pub record PagedMemory : Type 0 where
  pub page_start : ℕ
  pub number_of_pages : ℕ
