-- ===== src/X86/Physical/Init.antt =====
-- The start of the physical memory managers: `initPMM` moves runs of pages to the managers of
-- larger pages, and `initPhysicalMemoryManager` reads the firmware's memory map.
pub mod Promote
pub mod Large
pub mod Huge
pub mod Laws
mod Tests
use homegrown.Prelude.{
  ℕ, zero, suc, ◌+◌, ◌-◌, ◌*◌, ◌/◌, Bool, true, false, Option, none, some, List, [], ◌∷◌, ◌++◌, ltb,
  leb, ◌==◌, if◌then◌else◌, length, get_or, u64, sub64,
}
use homegrown.Shared.Maths.{align_up_value, align_down_value}
use homegrown.X86.Paging.{
  entries, page_frame_size, PageSize, base_page, large_page, huge_page, bytes, PagedMemory,
}
use homegrown.X86.Physical.{
  Manager, Managers, Run, ok, no_more_memory, out_of_fuel, ◌>>=◌, get_memory_manager,
  put_memory_manager, to_larger_pages, no_block, decrease_pages, AllocContiguous,
  memory_entries_in_base_pages, free_block, free_blocks,
}

-- `toSmallerPageSize`, for the sizes that are not the smallest.
abbrev pub to_smaller_page_size : PageSize → PageSize
to_smaller_page_size huge_page = large_page
to_smaller_page_size p = base_page

-- The pages between the block's start and the first larger page, and the pages from there on.
abbrev pub boundary_of : PageSize → PagedMemory → ℕ
boundary_of p e = align_up_value e.page_start (bytes p)

abbrev pub pages_moved : PageSize → PagedMemory → ℕ
pages_moved p e = sub64 (boundary_of p e) e.page_start / bytes (to_smaller_page_size p)

abbrev pub pages_from_align : PageSize → PagedMemory → ℕ
pages_from_align p e = sub64 e.number_of_pages (pages_moved p e)

-- The run of larger pages and the rest of the run are freed, each with its manager.
pub free_parts : AllocContiguous → PageSize → PagedMemory → PagedMemory → Managers → Run Managers
free_parts alloc p run rest s = free_block alloc p run s >>= λ t.
    if ltb 0 rest.number_of_pages then free_block alloc (to_smaller_page_size p) rest t else ok t

-- What moves up once the block gave up its pages.
pub promote : AllocContiguous → PageSize → PagedMemory → ℕ → Managers → Run Managers
unfolding free_parts
promote alloc p e i s =
    let q = to_smaller_page_size p in
    let from_align = pages_from_align p e in
    let aligned = align_down_value from_align entries in
    let m = get_memory_manager q s in
    free_parts alloc p
      (record { page_start = boundary_of p e; number_of_pages = to_larger_pages aligned })
      (record {
        page_start = u64 (boundary_of p e + u64 (aligned * bytes q));
        number_of_pages = sub64 from_align aligned;
      })
      (put_memory_manager q (decrease_pages m i from_align) s)

-- One round of the loop of `initPMM`.
pub init_step : AllocContiguous → PageSize → ℕ → Managers → Run Managers
unfolding promote
init_step alloc p i s =
    let e = get_or (get_memory_manager (to_smaller_page_size p) s).blocks i no_block in
    if leb entries e.number_of_pages
    then if leb entries (pages_from_align p e) then promote alloc p e i s else ok s
    else ok s

-- The loop, whose bound is read again in each round.
pub init_loop : AllocContiguous → ℕ → PageSize → ℕ → Managers → Run Managers
unfolding init_step
init_loop alloc zero p i s = out_of_fuel
init_loop alloc (suc fuel) p i s =
    let rest = init_step alloc p i s >>= init_loop alloc fuel p (i + 1) in
    if ltb i (length (get_memory_manager (to_smaller_page_size p) s).blocks) then rest else ok s

-- `initPMM`: the manager's buffer is allocated first.
pub init_pmm : AllocContiguous → ℕ → PageSize → Managers → Run Managers
unfolding init_loop
init_pmm alloc fuel p s = do
  let used = (get_memory_manager p s).used_base_pages
  (address, t) ← alloc used base_page s
  let m = get_memory_manager p t
  init_loop alloc fuel p 0
      (put_memory_manager p (record m { buf = address; cap = memory_entries_in_base_pages used }) t)

pub data MemoryType : Type 0 where
  reserved_memory_type loader_code loader_data boot_services_code : MemoryType
  boot_services_data runtime_services_code runtime_services_data : MemoryType
  conventional_memory unusable_memory acpi_reclaim_memory acpi_memory_nvs : MemoryType
  memory_mapped_io memory_mapped_io_port_space pal_code persistent_memory memory_type_n : MemoryType

-- `canBeUsedByOS`
pub can_be_used_by_os : MemoryType → Bool
can_be_used_by_os loader_code = true
can_be_used_by_os loader_data = true
can_be_used_by_os boot_services_code = true
can_be_used_by_os boot_services_data = true
can_be_used_by_os conventional_memory = true
can_be_used_by_os persistent_memory = true
can_be_used_by_os t = false

-- `MemoryDescriptor`, by the fields that are read.
pub record MemoryDescriptor : Type 0 where
  pub memory_type : MemoryType
  pub physical_start : ℕ
  pub number_of_pages : ℕ

-- `nextValidDescriptor`: the descriptor with those behind it.
pub next_valid_descriptor :
    List MemoryDescriptor → Option (MemoryDescriptor × List MemoryDescriptor)
unfolding can_be_used_by_os
next_valid_descriptor [] = none
next_valid_descriptor (d ∷ ds) =
    if can_be_used_by_os d.memory_type then some (d, ds) else next_valid_descriptor ds

abbrev pub to_block : MemoryDescriptor → PagedMemory
to_block d = record { page_start = d.physical_start; number_of_pages = d.number_of_pages }

-- The loop over the other descriptors, with the blocks that wait in the array.
pub free_descriptors :
    AllocContiguous → ℕ → List MemoryDescriptor → List PagedMemory → Managers → Run Managers
unfolding can_be_used_by_os
free_descriptors alloc max_capacity [] waiting s = free_blocks alloc base_page waiting s
free_descriptors alloc max_capacity (d ∷ ds) waiting s =
    let skipped = free_descriptors alloc max_capacity ds waiting s in
    let flushed =
      free_blocks alloc base_page waiting s
      >>= free_descriptors alloc max_capacity ds (to_block d ∷ []) in
    let kept = free_descriptors alloc max_capacity ds (waiting ++ to_block d ∷ []) s in
    if can_be_used_by_os d.memory_type
    then if leb max_capacity (length waiting) then flushed else kept
    else skipped

abbrev pub fresh_manager : PageSize → Manager
fresh_manager p = record { buf = 0; blocks = []; cap = 0; used_base_pages = 1; page_size = p }

-- From the descriptor that holds the array on: `ds` are the descriptors behind it.
pub init_with :
    AllocContiguous → ℕ → MemoryDescriptor → List MemoryDescriptor → Managers → Run Managers
unfolding free_descriptors init_pmm
init_with alloc fuel d ds s = do
  t ← free_descriptors alloc (memory_entries_in_base_pages d.number_of_pages) ds [] s
  u ← free_block alloc base_page (to_block d) t
  v ← init_pmm alloc fuel large_page u
  init_pmm alloc fuel huge_page v

-- `initPhysicalMemoryManager`: the first page of the first descriptor holds the base manager's
-- buffer.
pub init_physical_memory_manager : AllocContiguous → ℕ → List MemoryDescriptor → Run Managers
unfolding next_valid_descriptor init_with
init_physical_memory_manager alloc fuel descriptors = elim (next_valid_descriptor descriptors) [
  | none ↦ no_more_memory
  | some (d, ds) ↦
      let base : Manager = record (fresh_manager base_page) {
        buf = d.physical_start;
        cap = memory_entries_in_base_pages 1;
      } in
      let s : Managers = record {
        base = base;
        large = fresh_manager large_page;
        huge = fresh_manager huge_page;
      } in
      let rest : MemoryDescriptor = record d {
        physical_start = u64 (d.physical_start + page_frame_size);
        number_of_pages = sub64 d.number_of_pages 1;
      } in
      if rest.number_of_pages == 0
      then elim (next_valid_descriptor ds) [
        | none ↦ no_more_memory
        | some (d', ds') ↦ init_with alloc fuel d' ds' s
      ]
      else init_with alloc fuel rest ds s
]
