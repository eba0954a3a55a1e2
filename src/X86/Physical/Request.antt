-- ===== src/X86/Physical/Request.antt =====
-- `allocPhysicalPages` of projects/x86/memory/physical/code/src/physical.c: pages that need not
-- be contiguous. The caller's array is a list of the blocks written to it so far.
pub mod Collect
pub mod Laws
pub mod Refill
pub mod Total
use homegrown.Prelude.{
  ℕ, zero, suc, ◌+◌, ◌-◌, ◌*◌, ◌/◌, none, some, List, [], ◌∷◌, ◌++◌, leb, if◌then◌else◌, length,
  get_or, drop_last, map, u32, u64, sub64,
}
use homegrown.X86.Paging.{entries, PageSize, PagedMemory}
use homegrown.X86.Physical.{
  Manager, Managers, Run, ok, no_more_memory, out_of_fuel, ◌>>=◌, get_memory_manager,
  put_memory_manager, to_larger_page_size, ceiling_div_entries, no_block, decrease_pages,
  AllocContiguous, free_blocks,
}

-- How the loop over the blocks ends: with all pages, or with so many still to be had.
pub data Collected : Type 0 where
  found : List PagedMemory → Manager → Collected
  short : List PagedMemory → ℕ → Manager → Collected

-- The loop, from the last block down; the first argument is `memory.len`.
pub collect : ℕ → ℕ → List PagedMemory → Manager → Collected
collect zero requested pages m = short pages requested m
collect (suc i) requested pages m =
    let e = get_or m.blocks i no_block in
    let rest =
      collect i (u32 (sub64 requested e.number_of_pages)) (pages ++ e ∷ [])
        (record m { blocks = drop_last m.blocks }) in
    if leb requested e.number_of_pages
    then found (pages ++ record { page_start = e.page_start; number_of_pages = requested } ∷ [])
        (decrease_pages m i requested)
    else rest

-- A request, as the function that asks for larger pages calls it.
abbrev pub AllocPages : Type 0
AllocPages = ℕ → PageSize → Managers → Run (List PagedMemory × Managers)

-- `largerPage.buf[i].numberOfPages *= PageTableFormat.ENTRIES`
abbrev pub to_smaller : PagedMemory → PagedMemory
to_smaller e = record e { number_of_pages = u64 (e.number_of_pages * entries) }

pub to_smaller_all : List PagedMemory → List PagedMemory
to_smaller_all [] = []
to_smaller_all (e ∷ es) = to_smaller e ∷ to_smaller_all es

-- Larger pages are taken, given to the manager that asked, and the request is made again.
pub from_larger_pages :
    AllocContiguous
    → AllocPages
    → List PagedMemory
    → ℕ
    → PageSize
    → Managers
    → Run (List PagedMemory × Managers)
from_larger_pages contiguous pages_of pages requested p s = elim (to_larger_page_size p) [
  | none ↦ no_more_memory
  | some q ↦ do
    (larger, t) ← pages_of (ceiling_div_entries requested) q s
    u ← free_blocks contiguous p (to_smaller_all larger) t
    (added, v) ← pages_of requested p u
    ok (pages ++ added, v)
]

-- `allocPhysicalPages` and `allocPhysicalPagesWithManager`
pub alloc_physical_pages : AllocContiguous → ℕ → AllocPages
alloc_physical_pages contiguous zero len p s = out_of_fuel
alloc_physical_pages contiguous (suc fuel) len p s =
    let m = get_memory_manager p s in
    elim (collect (length m.blocks) (u32 len) [] m) [
      | found pages m' ↦ ok (pages, put_memory_manager p m' s)
      | short pages requested m' ↦
          from_larger_pages contiguous (alloc_physical_pages contiguous fuel) pages requested p
            (put_memory_manager p m' s)
    ]
