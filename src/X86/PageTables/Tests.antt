-- ===== src/X86/PageTables/Tests.antt =====
-- A page that is mapped from an empty table.
use homegrown.Prelude.{ℕ, refl, [], ◌∷◌, inl, arith, ◌==◌, if◌then◌else◌}
use homegrown.X86.Paging.{base_page, large_page, huge_page}
use homegrown.X86.Physical.{Managers, alloc_contiguous, first_fit, take_block, decrease_pages}
use homegrown.X86.Physical.Alloc.{Ends}
use homegrown.X86.PageTables.{Machine, map_virtual_region}
use homegrown.X86.PageTables.Walk.{Supplies}
use homegrown.X86.PageTables.Round.{IsFound, map_virtual_region-IsFound}

abbrev free_pages : Managers
free_pages = record {
  base = record {
    buf = 0x1000;
    blocks = record { page_start = 0x2000; number_of_pages = 8 } ∷ [];
    cap = 256;
    used_base_pages = 1;
    page_size = base_page;
  };
  large = record {
    buf = 0x20_0000;
    blocks = [];
    cap = 256;
    used_base_pages = 1;
    page_size = large_page;
  };
  huge = record {
    buf = 0x20_1000;
    blocks = [];
    cap = 256;
    used_base_pages = 1;
    page_size = huge_page;
  };
}

abbrev empty_table : Machine
empty_table = record { words = λ a. 0; managers = free_pages }

abbrev only_root : ℕ → ℕ
only_root a = if a == 0x10_0000 then 4 else 0

Supplies-three : Supplies (alloc_contiguous 3) 3 only_root free_pages
unfolding alloc_contiguous first_fit take_block decrease_pages
Supplies-three = (
  refl,
  refl,
  omega arith,
  λ l. (refl, refl, omega arith, λ l'. (refl, refl, omega arith, λ l''. tt)),
)

map_virtual_region-IsFound_example : Ends (IsFound 0x10_0000 0x4000_5000 0x7000_0000 base_page) (
    map_virtual_region
      (alloc_contiguous 3)
      0x10_0000
      0x4000_5000
      (record { page_start = 0x7000_0000; number_of_pages = 1 })
      base_page
      empty_table)
map_virtual_region-IsFound_example =
    map_virtual_region-IsFound (alloc_contiguous 3) base_page 0x10_0000 0x4000_5000 0x7000_0000
      only_root empty_table refl (omega arith) (omega arith) Supplies-three (refl, refl, inl refl)
