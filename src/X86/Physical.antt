-- ===== src/X86/Physical.antt =====
-- projects/x86/memory/physical/code/src/physical.c: three managers of free physical memory, one
-- for each page size. A manager's buffer is its list of blocks; the words of the buffer behind
-- `memory.len` are never read.
pub mod Cover
pub mod Take
pub mod Alloc
pub mod Request
pub mod Init
mod Tests
use homegrown.Prelude.{
  ℕ, zero, suc, ◌+◌, ◌-◌, ◌*◌, ◌/◌, Option, none, some, List, [], ◌∷◌, ◌++◌, leb, ◌==◌,
  if◌then◌else◌, length, get_or, set, drop_last, u32, u64, sub64,
}
use homegrown.X86.Paging.{
  entries, page_frame_size, PageSize, base_page, large_page, huge_page, bytes, PagedMemory,
}

-- `PhysicalMemoryManager`: `blocks` are `memory.buf[0 .. memory.len)`.
pub record Manager : Type 0 where
  pub buf : ℕ
  pub blocks : List PagedMemory
  pub cap : ℕ
  pub used_base_pages : ℕ
  pub page_size : PageSize

-- `basePMM`, `largePMM` and `hugePMM`.
pub record Managers : Type 0 where
  pub base : Manager
  pub large : Manager
  pub huge : Manager

-- The end of a run. `no_more_memory` is `interruptNoMorePhysicalMemory`, which does not return.
pub data Run {ℓ} (A : Type ℓ) : Type ℓ where
  ok : A → Run A
  no_more_memory : Run A
  out_of_fuel : Run A

infixl 5 ◌>>=◌
abbrev pub ◌>>=◌ {ℓ κ} : {A : Type ℓ} {B : Type κ} → Run A → (A → Run B) → Run B
ok a >>= f = f a
no_more_memory >>= f = no_more_memory
out_of_fuel >>= f = out_of_fuel

-- `getMemoryManager` gives a pointer: here a read and a write of the manager of a size.
abbrev pub get_memory_manager : PageSize → Managers → Manager
get_memory_manager base_page s = s.base
get_memory_manager large_page s = s.large
get_memory_manager huge_page s = s.huge

abbrev pub put_memory_manager : PageSize → Manager → Managers → Managers
put_memory_manager base_page m s = record s { base = m }
put_memory_manager large_page m s = record s { large = m }
put_memory_manager huge_page m s = record s { huge = m }

pub to_larger_pages : ℕ → ℕ
to_larger_pages n = n / entries

abbrev pub to_smaller_pages : ℕ → ℕ
to_smaller_pages n = u64 (n * entries)

-- The enumeration's value times `ENTRIES`; there is no size above `HUGE_PAGE`.
abbrev pub to_larger_page_size : PageSize → Option PageSize
to_larger_page_size base_page = some large_page
to_larger_page_size large_page = some huge_page
to_larger_page_size huge_page = none

abbrev pub no_block : PagedMemory
no_block = record { page_start = 0; number_of_pages = 0 }

-- `CEILING_DIV_VALUE(n, PageTableFormat.ENTRIES)`
abbrev pub ceiling_div_entries : ℕ → ℕ
ceiling_div_entries n = u64 (n + entries - 1) / entries

-- The block after `decreaseBy` pages were taken from its front.
abbrev pub shrink : PageSize → PagedMemory → ℕ → PagedMemory
shrink p e n = record {
  page_start = u64 (e.page_start + u64 (n * bytes p));
  number_of_pages = sub64 e.number_of_pages n;
}

-- `decreasePages`: a block that is used up is overwritten by the last one.
unfoldable pub decrease_pages : Manager → ℕ → ℕ → Manager
decrease_pages m index decrease_by =
    let e = get_or m.blocks index no_block in
    let last = get_or m.blocks (length m.blocks - 1) no_block in
    if e.number_of_pages == decrease_by
    then record m { blocks = drop_last (set m.blocks index last) }
    else record m { blocks = set m.blocks index (shrink m.page_size e decrease_by) }

-- The first block with `n` pages or more, by its index.
unfoldable pub first_fit : ℕ → List PagedMemory → Option ℕ
first_fit n [] = none
first_fit n (e ∷ es) =
    if leb n e.number_of_pages
    then some 0
    else elim (first_fit n es) [ none ↦ none | some i ↦ some (suc i) ]

-- An allocation of contiguous pages, as the other functions call it.
abbrev pub AllocContiguous : Type 0
AllocContiguous = ℕ → PageSize → Managers → Run (ℕ × Managers)

-- `MEMORY_ENTRIES_IN_BASE_PAGES`; a `PagedMemory` is 16 bytes.
abbrev pub memory_entries_in_base_pages : ℕ → ℕ
memory_entries_in_base_pages n = u64 (page_frame_size * n) / 16

-- The growth of a full buffer: a larger buffer, and the old one's pages put behind the blocks.
-- The allocation may change the manager that grows.
pub grow_buffer : AllocContiguous → PageSize → Managers → Run Managers
grow_buffer alloc p s = do
  let used = (get_memory_manager p s).used_base_pages
  (new_buf, s') ← alloc (u32 (used + 1)) base_page s
  let m = get_memory_manager p s'
  let old : PagedMemory = record { page_start = m.buf; number_of_pages = m.used_base_pages }
  let used' = u32 (m.used_base_pages + 1)
  ok (
      put_memory_manager p
        (record m {
          buf = new_buf;
          blocks = m.blocks ++ old ∷ [];
          used_base_pages = used';
          cap = memory_entries_in_base_pages used';
        })
        s')

abbrev pub append_block : PageSize → PagedMemory → Managers → Managers
append_block p e s =
    let m = get_memory_manager p s in
    put_memory_manager p (record m { blocks = m.blocks ++ e ∷ [] }) s

-- One round of the loop of `freePhysicalPagesWithManager`.
unfoldable pub free_block : AllocContiguous → PageSize → PagedMemory → Managers → Run Managers
free_block alloc p e s =
    let m = get_memory_manager p s in
    (if leb m.cap (length m.blocks) then grow_buffer alloc p s else ok s) >>= λ s'.
    ok (append_block p e s')

-- `freePhysicalPagesWithManager`
pub free_blocks : AllocContiguous → PageSize → List PagedMemory → Managers → Run Managers
free_blocks alloc p [] s = ok s
free_blocks alloc p (e ∷ es) s = free_block alloc p e s >>= free_blocks alloc p es

-- What is left over of larger pages is given back to the manager that asked.
give_rest : AllocContiguous → PageSize → ℕ → ℕ × Managers → Run (ℕ × Managers)
give_rest alloc p n (address, s) =
    let free_start = u64 (address + u64 (n * bytes p)) in
    let free_pages = sub64 (to_smaller_pages (ceiling_div_entries n)) n in
    free_block alloc p (record { page_start = free_start; number_of_pages = free_pages }) s
    >>= λ s'. ok (address, s')

-- The request that goes to the next larger size.
pub from_larger : AllocContiguous → AllocContiguous
from_larger alloc n p s = elim (to_larger_page_size p) [
  | none ↦ no_more_memory
  | some q ↦ alloc (ceiling_div_entries n) q s >>= give_rest alloc p n
]

unfoldable pub take_block : PageSize → ℕ → ℕ → Managers → ℕ × Managers
take_block p i n s =
    let m = get_memory_manager p s in
    ((get_or m.blocks i no_block).page_start, put_memory_manager p (decrease_pages m i n) s)

-- `allocContiguousPhysicalPages` and `allocContiguousPhysicalPagesWithManager`; the fuel bounds
-- how deep the calls nest.
unfoldable pub alloc_contiguous : ℕ → AllocContiguous
alloc_contiguous zero n p s = out_of_fuel
alloc_contiguous (suc fuel) n p s =
    let larger = from_larger (alloc_contiguous fuel) n p s in
    elim (first_fit n (get_memory_manager p s).blocks) [
      | some i ↦ ok (take_block p i n s)
      | none ↦ larger
    ]
