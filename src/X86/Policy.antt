-- ===== src/X86/Policy.antt =====
-- projects/x86/memory/policy/code/src/policy.c: memory that is allocated, mapped and freed together.
pub mod Sizes
pub mod Freed
pub mod Runs
pub mod Loop
pub mod Free
mod Tests
use homegrown.Prelude.{
  ℕ, zero, suc, ◌+◌, ◌-◌, ◌*◌, ◌/◌, Bool, true, false, ◌&&◌, Option, none, some, List, [], ◌∷◌, ltb,
  leb, ◌==◌, if◌then◌else◌, u64,
}
use homegrown.Shared.Maths.{ring_range_value, align_up_value}
use homegrown.X86.Paging.{
  page_frame_size, large_page_size, PageSize, base_page, large_page, huge_page, PagedMemory,
}
use homegrown.X86.Physical.{Managers, Run, ok, out_of_fuel, ◌>>=◌, AllocContiguous, free_block}
use homegrown.X86.Physical.Request.{AllocPages}
use homegrown.X86.Pages.{
  PageSizeConversion, explicit_request, alloc_and_map_size, get_virtual_memory,
}
use homegrown.X86.PageTables.{
  Machine, MappedPage, map_virtual_region, get_mapped_page, get_physical_address_frame,
}

-- A size in bytes as a `PageSize`; `getMemoryManager` knows no other sizes.
abbrev pub page_size_of : ℕ → PageSize
page_size_of n =
    if n == page_frame_size
    then base_page
    else if n == large_page_size
    then large_page
    else huge_page

-- `freePhysicalPage`, on the managers of the machine.
abbrev pub free_physical_page : AllocContiguous → PagedMemory → ℕ → Machine → Run Machine
free_physical_page alloc e size m =
    free_block alloc (page_size_of size) e m.managers >>= λ s. ok (record m { managers = s })

-- The run of pages that `freeMapped` has in hand.
pub record PageRun : Type 0 where
  pub paged_entry : PagedMemory
  pub previous_page_size : ℕ
  pub next_physical : ℕ

abbrev pub one_page : ℕ → ℕ → PageRun
one_page physical size = record {
  paged_entry = record { page_start = physical; number_of_pages = 1 };
  previous_page_size = size;
  next_physical = u64 (physical + size);
}

-- One more page behind the run.
abbrev pub longer_run : PageRun → PageRun
longer_run run = record {
  paged_entry = record (run.paged_entry) {
    number_of_pages = u64 ((run.paged_entry).number_of_pages + 1);
  };
  previous_page_size = run.previous_page_size;
  next_physical = u64 (run.next_physical + run.previous_page_size);
}

-- The loop of `freeMapped`, with fuel for its rounds; `root` is `level4PageTable`.
pub free_loop : AllocContiguous → ℕ → ℕ → ℕ → ℕ → PageRun → Machine → Run Machine
free_loop alloc zero root start end run m =
    if ltb start end
    then out_of_fuel
    else free_physical_page alloc run.paged_entry run.previous_page_size m
free_loop alloc (suc fuel) root start end run m =
    let page = get_mapped_page root start m.words in
    let physical = get_physical_address_frame page.entry in
    let longer = free_loop alloc fuel root (u64 (start + page.page_size)) end (longer_run run) m in
    let other =
      free_physical_page alloc run.paged_entry run.previous_page_size m
      >>= free_loop alloc fuel root (u64 (start + page.page_size)) end
          (one_page physical page.page_size) in
    if ltb start end
    then if physical == run.next_physical && run.previous_page_size == page.page_size
      then longer
      else other
    else free_physical_page alloc run.paged_entry run.previous_page_size m

-- From the page that `freeMapped` frees first on.
pub free_from : AllocContiguous → ℕ → ℕ → ℕ → ℕ → Machine → Run Machine
unfolding free_loop
free_from alloc fuel root start end m =
    let page = get_mapped_page root start m.words in
    free_loop alloc fuel root (u64 (start + page.page_size)) end
      (one_page (get_physical_address_frame page.entry) page.page_size) m

pub free_mapped : AllocContiguous → ℕ → ℕ → ℕ → ℕ → Machine → Run Machine
unfolding free_from ring_range_value align_up_value
free_mapped alloc fuel root start n m =
    let end = u64 (start + n) in
    let size = (get_mapped_page root start m.words).page_size in
    let up = align_up_value start size in
    if ring_range_value start size == 0
    then free_from alloc fuel root start end m
    else if leb end up
    then ok m
    else free_from alloc fuel root up end m

-- The loop of `allocAndMapExplicit` over the blocks it was given.
pub map_blocks : AllocContiguous → ℕ → PageSize → ℕ → List PagedMemory → ℕ → Machine → Run Machine
unfolding map_virtual_region
map_blocks alloc root p size [] virt m = ok m
map_blocks alloc root p size (e ∷ es) virt m =
    map_virtual_region alloc root virt e p m
    >>= map_blocks alloc root p size es (u64 (virt + u64 (e.number_of_pages * size)))

-- What is returned: the address, with the start of the region of addresses and the machine.
abbrev pub Mapping : Type 0
Mapping = ℕ × ℕ × Machine

-- `allocAndMapExplicit`; `none` is `interruptTooLargeAllocation`.
pub alloc_and_map_explicit :
    AllocContiguous → AllocPages → ℕ → ℕ → ℕ → ℕ → Machine → Run (Option Mapping)
unfolding explicit_request get_virtual_memory map_blocks
alloc_and_map_explicit contiguous pages_of root number_of_pages preferred region_start m =
    elim (explicit_request number_of_pages preferred) [
      | none ↦ ok none
      | some c ↦ do
        let p = page_size_of c.page_size
        let (virt, region') =
            get_virtual_memory (u64 (c.page_size * c.number_of_pages)) c.page_size region_start
        (pages, s) ← pages_of c.number_of_pages p m.managers
        m' ← map_blocks contiguous root p c.page_size pages virt (record m { managers = s })
        ok (some (virt, region', m'))
    ]

-- `allocAndMap`
pub alloc_and_map : AllocContiguous → AllocPages → ℕ → ℕ → ℕ → Machine → Run (Option Mapping)
unfolding alloc_and_map_size alloc_and_map_explicit
alloc_and_map contiguous pages_of root n region_start m =
    let c = alloc_and_map_size n in
    alloc_and_map_explicit contiguous pages_of root c.number_of_pages c.page_size region_start m

-- `allocContiguousAndMap`
pub alloc_contiguous_and_map : AllocContiguous → ℕ → ℕ → ℕ → ℕ → Machine → Run (Option Mapping)
unfolding explicit_request get_virtual_memory map_virtual_region
alloc_contiguous_and_map contiguous root number_of_pages preferred region_start m =
    elim (explicit_request number_of_pages preferred) [
      | none ↦ ok none
      | some c ↦ do
        let p = page_size_of c.page_size
        let (virt, region') =
            get_virtual_memory (u64 (c.number_of_pages * c.page_size)) c.page_size region_start
        (physical, s) ← contiguous c.number_of_pages p m.managers
        m' ←
            map_virtual_region contiguous root virt
              (record { page_start = physical; number_of_pages = c.number_of_pages }) p
              (record m { managers = s })
        ok (some (virt, region', m'))
    ]
