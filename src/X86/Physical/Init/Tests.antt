-- ===== src/X86/Physical/Init/Tests.antt =====
-- Runs of `initPMM` (physical.c) on small inputs.
use homegrown.Prelude.{ℕ, ◌≡◌, ◌≢◌, refl, [], ◌∷◌, arith}
use homegrown.X86.Paging.{base_page, large_page, huge_page}
use homegrown.X86.Physical.{Managers, alloc_contiguous, free_blocks, no_block, no_more_memory, ok}
use homegrown.X86.Physical.Cover.{cover}
use homegrown.X86.Physical.Alloc.{Ends, IsManaged}
use homegrown.X86.Physical.Init.{
  init_step, init_physical_memory_manager, conventional_memory, reserved_memory_type,
}
use homegrown.X86.Physical.Init.Promote.{IsPromoted, block}
use homegrown.X86.Physical.Init.Laws.{init_step-IsPromoted, init_step-conserved}

-- A block of base pages that starts one page behind a large page.
abbrev one_block : ℕ → ℕ → Managers
one_block start n = record {
  base = record {
    buf = 0x1000;
    blocks = block start n ∷ [];
    cap = 256;
    used_base_pages = 1;
    page_size = base_page;
  };
  large = record {
    buf = 0x2000;
    blocks = [];
    cap = 256;
    used_base_pages = 1;
    page_size = large_page;
  };
  huge = record {
    buf = 0x3000;
    blocks = [];
    cap = 256;
    used_base_pages = 1;
    page_size = huge_page;
  };
}

large_differs : large_page ≢ base_page
large_differs e = cc

unaligned-IsManaged : IsManaged (one_block 0x20_1000 1600)
unaligned-IsManaged = record {
  base_size = refl;
  large_size = refl;
  huge_size = refl;
  base_fit = (omega arith, tt);
  large_fit = tt;
  huge_fit = tt;
}

aligned-IsManaged : IsManaged (one_block 0x20_0000 1600)
aligned-IsManaged = record {
  base_size = refl;
  large_size = refl;
  huge_size = refl;
  base_fit = (omega arith, tt);
  large_fit = tt;
  huge_fit = tt;
}

init_step-IsPromoted_example :
    Ends
      (IsPromoted large_page (block 0x20_1000 1600) (one_block 0x20_1000 1600))
      (init_step (alloc_contiguous 3) large_page 0 (one_block 0x20_1000 1600))
unfolding homegrown.Shared.Maths.align_up_value
init_step-IsPromoted_example =
    init_step-IsPromoted (alloc_contiguous 3) large_page 0 (one_block 0x20_1000 1600) large_differs
      unaligned-IsManaged (omega arith) refl (omega arith) (omega arith) (omega arith) (omega arith)

init_step-conserved_example :
    Ends
      (λ t. (a : ℕ) → cover t a ≡ cover (one_block 0x20_0000 1600) a)
      (init_step (alloc_contiguous 3) large_page 0 (one_block 0x20_0000 1600))
unfolding homegrown.Shared.Maths.align_up_value
init_step-conserved_example =
    init_step-conserved (alloc_contiguous 3) large_page 0 (one_block 0x20_0000 1600) large_differs
      aligned-IsManaged (omega arith) refl (omega arith) (omega arith) (omega arith) (omega arith)
      (omega arith) refl

-- Base pages `0x2000` and `0x3000` become the buffers of the managers of larger pages.
init_physical_memory_manager_run :
    init_physical_memory_manager (alloc_contiguous 3) 5 (
      record { memory_type = reserved_memory_type; physical_start = 0; number_of_pages = 1 }
      ∷ record { memory_type = conventional_memory; physical_start = 0x1000; number_of_pages = 4 }
      ∷ [])
    ≡ ok (record {
      base = record {
        buf = 0x1000;
        blocks = block 0x4000 1 ∷ [];
        cap = 256;
        used_base_pages = 1;
        page_size = base_page;
      };
      large = record {
        buf = 0x2000;
        blocks = [];
        cap = 256;
        used_base_pages = 1;
        page_size = large_page;
      };
      huge = record {
        buf = 0x3000;
        blocks = [];
        cap = 256;
        used_base_pages = 1;
        page_size = huge_page;
      };
    })
unfolding init_physical_memory_manager free_blocks homegrown.X86.Physical.free_block
    alloc_contiguous homegrown.X86.Physical.first_fit homegrown.X86.Physical.take_block
    homegrown.X86.Physical.decrease_pages
init_physical_memory_manager_run = refl
