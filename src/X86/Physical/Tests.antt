-- ===== src/X86/Physical/Tests.antt =====
-- Runs of the physical memory managers on small inputs.
use homegrown.Prelude.{refl, [], ◌∷◌, arith}
use homegrown.X86.Paging.{base_page, large_page, huge_page}
use homegrown.X86.Physical.{Managers, alloc_contiguous, decrease_pages}
use homegrown.X86.Physical.Take.{IsTaken, decrease_pages-IsTaken}
use homegrown.X86.Physical.Alloc.{Ends, IsManaged, IsAllocated, alloc_contiguous-IsAllocated}
use homegrown.X86.Physical.Request.{alloc_physical_pages}
use homegrown.X86.Physical.Request.Laws.{IsRequested}
use homegrown.X86.Physical.Request.Total.{alloc_physical_pages-IsRequested}

abbrev two_blocks : Managers
two_blocks = record {
  base = record {
    buf = 0x1000;
    blocks =
        record { page_start = 0x2000; number_of_pages = 3 }
        ∷ record { page_start = 0x8000; number_of_pages = 2 }
        ∷ [];
    cap = 256;
    used_base_pages = 1;
    page_size = base_page;
  };
  large = record {
    buf = 0x20_0000;
    blocks = [];
    cap = 256;
    used_base_pages = 1;
    page_size = large_page;
  };
  huge = record {
    buf = 0x20_1000;
    blocks = record { page_start = 0x4000_0000; number_of_pages = 2 } ∷ [];
    cap = 256;
    used_base_pages = 1;
    page_size = huge_page;
  };
}

two_blocks-IsManaged : IsManaged two_blocks
two_blocks-IsManaged = record {
  base_size = refl;
  large_size = refl;
  huge_size = refl;
  base_fit = (omega arith, (omega arith, tt));
  large_fit = tt;
  huge_fit = (omega arith, tt);
}

-- Seven pages are in no block: a huge page is split into large ones, and one of these again.
alloc_contiguous-IsAllocated_example :
    Ends (IsAllocated base_page 7 two_blocks) (alloc_contiguous 3 7 base_page two_blocks)
alloc_contiguous-IsAllocated_example =
    alloc_contiguous-IsAllocated 0 base_page 7 two_blocks (omega arith) two_blocks-IsManaged
      (omega arith, omega arith)

alloc_physical_pages-IsRequested_example :
    Ends
      (IsRequested base_page 7 two_blocks)
      (alloc_physical_pages (alloc_contiguous 3) 3 7 base_page two_blocks)
alloc_physical_pages-IsRequested_example =
    alloc_physical_pages-IsRequested (alloc_contiguous 3) 0 base_page 7 two_blocks (omega arith)
      (omega arith) two_blocks-IsManaged ((omega arith, (omega arith, tt)), tt, (omega arith, tt))
      (omega arith, omega arith)

decrease_pages-IsTaken_example :
    IsTaken base_page two_blocks.base 2 0x2000 (decrease_pages two_blocks.base 0 2)
decrease_pages-IsTaken_example =
    decrease_pages-IsTaken two_blocks.base 0 2 (omega arith, (omega arith, tt)) (omega arith)
      (omega arith)
