-- ===== src/X86/PageTables.antt =====
-- projects/x86/memory/virtual/code/src/virtual.c and `getMappedPage` of
-- projects/x86/memory/policy/code/src/virtual.c: the page tables. Physical memory is a function
-- from the addresses of 64-bit words to their values; all of it is mapped to itself.
pub mod Entries
pub mod Walk
pub mod Round
mod Tests
use homegrown.Prelude.{
  ℕ, zero, suc, ◌+◌, ◌-◌, ◌*◌, ◌/◌, Bool, true, false, ◌&&◌, ◌||◌, ltb, leb, ◌==◌, if◌then◌else◌,
  bit_and, bit_or, u64,
}
use homegrown.Shared.Maths.{align_down_exp, ring_range_value}
use homegrown.X86.Paging.{
  entries, page_frame_shift, page_frame_size, jumbo_page_size, PageSize, base_page, large_page,
  huge_page, bytes, PagedMemory,
}
use homegrown.X86.Physical.{Managers, Run, ok, out_of_fuel, ◌>>=◌, AllocContiguous}

-- `VirtualPageMasks`
abbrev pub page_present : ℕ
page_present = 1

abbrev pub page_writable : ℕ
page_writable = 2

abbrev pub page_extended_size : ℕ
page_extended_size = 128

abbrev pub frame_or_next_page_table : ℕ
frame_or_next_page_table = 0x000F_FFFF_FFFF_F000

pub record Machine : Type 0 where
  pub words : ℕ → ℕ
  pub managers : Managers

abbrev pub write_word : ℕ → ℕ → (ℕ → ℕ) → ℕ → ℕ
write_word address value words a = if a == address then value else words a

-- `memset((void *)address, 0, PAGE_FRAME_SIZE)`
abbrev pub clear_page : ℕ → (ℕ → ℕ) → ℕ → ℕ
clear_page page words a = if leb page a && ltb a (page + page_frame_size) then 0 else words a

-- `pageSizeToDepth`
abbrev pub page_size_to_depth : PageSize → ℕ
page_size_to_depth base_page = 4
page_size_to_depth large_page = 3
page_size_to_depth huge_page = 2

abbrev pub get_zero_base_page : AllocContiguous → Machine → Run (ℕ × Machine)
get_zero_base_page alloc m = alloc 1 base_page m.managers >>= λ r.
    ok (r.0, record { words = clear_page r.0 m.words; managers = r.1 })

-- `&(currentTable->pages[RING_RANGE_VALUE((virt / pageSize), PageTableFormat.ENTRIES)])`
pub entry_address : ℕ → ℕ → ℕ → ℕ
unfolding ring_range_value
entry_address table page_size virt = table + ring_range_value (virt / page_size) entries * 8

pub next_table : ℕ → ℕ
unfolding align_down_exp
next_table entry = align_down_exp entry page_frame_shift

-- `else if (!*address)`: the table below is created where there is none.
pub ensure_table : AllocContiguous → ℕ → Machine → Run Machine
ensure_table alloc address m =
    let created = get_zero_base_page alloc m >>= λ r. ok (record (r.1) {
      words = write_word address (bit_or (bit_or page_present page_writable) r.0) (r.1).words;
    }) in
    if m.words address == 0 then created else ok m

-- The inner loop of `mapVirtualRegionWithFlags`, by the levels that are left.
pub map_page : AllocContiguous → ℕ → ℕ → ℕ → ℕ → ℕ → Machine → Run Machine
unfolding entry_address next_table ensure_table
map_page alloc zero size table virt value m = ok m
map_page alloc (suc zero) size table virt value m =
    ok (record m { words = write_word (entry_address table size virt) value m.words })
map_page alloc (suc (suc k)) size table virt value m =
    let address = entry_address table size virt in
    ensure_table alloc address m >>= λ m'.
    map_page alloc (suc k) (size / entries) (next_table (m'.words address)) virt value m'

-- The entry that is written for a page.
pub entry_value : PageSize → ℕ → ℕ → ℕ
entry_value p physical flags =
    let value = bit_or (bit_or (bit_or page_present page_writable) physical) flags in
    elim p [
      | base_page ↦ value
      | large_page ↦ bit_or value page_extended_size
      | huge_page ↦ bit_or value page_extended_size
    ]

-- The outer loop, with fuel for its rounds.
pub map_pages : AllocContiguous → ℕ → PageSize → ℕ → ℕ → ℕ → ℕ → ℕ → Machine → Run Machine
unfolding map_page entry_value
map_pages alloc zero p root flags virt physical virtual_end m =
    if ltb virt virtual_end then out_of_fuel else ok m
map_pages alloc (suc fuel) p root flags virt physical virtual_end m =
    let step =
      map_page alloc (page_size_to_depth p) jumbo_page_size root virt (entry_value p physical flags)
        m
      >>= map_pages alloc fuel p root flags (u64 (virt + bytes p)) (u64 (physical + bytes p))
          virtual_end in
    if ltb virt virtual_end then step else ok m

-- `mapVirtualRegionWithFlags`; `root` is `level4PageTable`.
unfoldable pub map_virtual_region_with_flags :
    AllocContiguous → ℕ → ℕ → PagedMemory → PageSize → ℕ → Machine → Run Machine
unfolding map_pages
map_virtual_region_with_flags alloc root virt memory p flags =
    map_pages alloc memory.number_of_pages p root flags virt memory.page_start
      (u64 (virt + u64 (bytes p * memory.number_of_pages)))

-- `mapVirtualRegion`
unfoldable pub map_virtual_region :
    AllocContiguous → ℕ → ℕ → PagedMemory → PageSize → Machine → Run Machine
map_virtual_region alloc root virt memory p =
    map_virtual_region_with_flags alloc root virt memory p 0

-- `MappedPage`
pub record MappedPage : Type 0 where
  pub entry : ℕ
  pub page_size : ℕ

abbrev pub is_extended : ℕ → Bool
is_extended entry = if bit_and entry page_extended_size == 0 then false else true

-- The loop of `getMappedPage`, by the levels that are left: 3 and 2 may end it early.
unfoldable pub get_entry : ℕ → ℕ → ℕ → ℕ → (ℕ → ℕ) → MappedPage
unfolding entry_address next_table
get_entry zero size table virt words = record { entry = 0; page_size = size }
get_entry (suc zero) size table virt words = record {
  entry = words (entry_address table size virt);
  page_size = size;
}
get_entry (suc (suc k)) size table virt words =
    let entry = words (entry_address table size virt) in
    let below = get_entry (suc k) (size / entries) (next_table entry) virt words in
    if leb k 1 && is_extended entry then record { entry = entry; page_size = size } else below

unfoldable pub get_mapped_page : ℕ → ℕ → (ℕ → ℕ) → MappedPage
unfolding get_entry
get_mapped_page root virt words = get_entry 4 jumbo_page_size root virt words

-- `getPhysicalAddressFrame`
abbrev pub get_physical_address_frame : ℕ → ℕ
get_physical_address_frame virtual_page = bit_and virtual_page frame_or_next_page_table
