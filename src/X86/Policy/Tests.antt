-- ===== src/X86/Policy/Tests.antt =====
-- Regions of mapped pages that are freed.
use homegrown.Prelude.{ℕ, ◌+◌, ◌-◌, ◌*◌, ◌/◌, ◌≡◌, refl, arith, [], ◌∷◌, ltb, if◌then◌else◌, List}
use homegrown.X86.Paging.{base_page, large_page, huge_page, PagedMemory}
use homegrown.X86.Physical.{Managers, Run, ok, no_more_memory, out_of_fuel, alloc_contiguous}
use homegrown.X86.Physical.Alloc.{Ends}
use homegrown.X86.PageTables.{Machine, get_mapped_page}
use homegrown.Shared.Maths.{align_up_value}
use homegrown.X86.Policy.{free_mapped}
use homegrown.X86.Policy.Freed.{HasRoomFor, frames, IsFreed}
use homegrown.X86.Policy.Free.{free_mapped-IsFreed}

abbrev nothing_free : Managers
nothing_free = record {
  base = record {
    buf = 0x1000;
    blocks = [];
    cap = 256;
    used_base_pages = 1;
    page_size = base_page;
  };
  large = record {
    buf = 0x20_0000;
    blocks = [];
    cap = 256;
    used_base_pages = 1;
    page_size = large_page;
  };
  huge = record {
    buf = 0x20_1000;
    blocks = [];
    cap = 256;
    used_base_pages = 1;
    page_size = huge_page;
  };
}

-- One table on each level; the pages of the lowest have consecutive frames.
abbrev four_tables : ℕ → ℕ
four_tables a =
    if ltb a 0x2000
    then 0x2003
    else if ltb a 0x3000
    then 0x3003
    else if ltb a 0x4000
    then 0x4003
    else 0x10_0003 + (a - 0x4000) / 8 * 4096

abbrev mapped : Machine
mapped = record { words = four_tables; managers = nothing_free }

abbrev base_blocks : Run Machine → List PagedMemory
base_blocks (ok m) = m.managers.base.blocks
base_blocks no_more_memory = []
base_blocks out_of_fuel = []

-- The pages that the region cuts off at its start are kept; the others are freed at once.
free_three :
    base_blocks (free_mapped (alloc_contiguous 3) 2 0x1000 0x1800 0x3000 mapped)
    ≡ record { page_start = 0x10_2000; number_of_pages = 3 } ∷ []
unfolding free_mapped alloc_contiguous get_mapped_page align_up_value
    homegrown.X86.Physical.free_block
free_three = refl

-- Where no byte is to be freed, a page is.
free_none :
    base_blocks (free_mapped (alloc_contiguous 3) 0 0x1000 0x2000 0 mapped)
    ≡ record { page_start = 0x10_2000; number_of_pages = 1 } ∷ []
unfolding free_mapped alloc_contiguous get_mapped_page align_up_value
    homegrown.X86.Physical.free_block
free_none = refl

free_mapped-IsFreed_example :
    Ends
      (IsFreed mapped (
        frames 3 0x1000
          (align_up_value 0x1800 ((get_mapped_page 0x1000 0x1800 four_tables).page_size))
          0x4800
          four_tables))
      (free_mapped (alloc_contiguous 3) 2 0x1000 0x1800 0x3000 mapped)
unfolding HasRoomFor
free_mapped-IsFreed_example =
    free_mapped-IsFreed (alloc_contiguous 3) 2 0x1000 0x1800 0x3000 mapped (omega arith)
      (omega arith) (omega arith) (omega arith, omega arith, omega arith)
