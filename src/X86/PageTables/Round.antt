-- ===== src/X86/PageTables/Round.antt =====
-- A page that `mapVirtualRegion` maps, as `getMappedPage` finds it.
use homegrown.Prelude.{
  ℕ, ◌+◌, ◌-◌, ◌*◌, ◌%◌, ◌^◌, ◌≤◌, ◌<◌, ◌≡◌, ◌∙◌, refl, ap, inl, inr, true, false, ltb, u64, arith,
}
use homegrown.X86.Paging.{PageSize, base_page, large_page, huge_page, bytes, jumbo_page_size}
use homegrown.X86.Physical.{AllocContiguous}
use homegrown.X86.Physical.Alloc.{Ends-map, Ends, Ends-bind}
use homegrown.X86.PageTables.{
  Machine, page_size_to_depth, map_page, map_pages, map_virtual_region_with_flags,
  map_virtual_region, MappedPage, is_extended, entry_value, get_mapped_page,
  get_physical_address_frame,
}
use homegrown.X86.PageTables.Entries.{
  entry_value_base, entry_value_large, entry_value_huge, is_extended_lem, frame_lem,
}
use homegrown.X86.PageTables.Walk.{Supplies, Ready, map_page-IsMapped}

-- The page is found with its frame and its size.
abbrev pub IsFound : ℕ → ℕ → ℕ → PageSize → Machine → Type 0
IsFound root virt physical p m =
    (get_physical_address_frame (get_mapped_page root virt m.words).entry ≡ physical)
    × ((get_mapped_page root virt m.words).page_size ≡ bytes p)

IsFound-at :
    (root virt physical value : ℕ) (p : PageSize) (after : Machine)
    → get_mapped_page root virt (after.words) ≡ record { entry = value; page_size = bytes p }
    → get_physical_address_frame value ≡ physical
    → IsFound root virt physical p after
IsFound-at root virt physical value p after found frame = (
  ap (λ (r : MappedPage). get_physical_address_frame (r.entry)) found ∙ frame,
  ap (λ (r : MappedPage). r.page_size) found,
)

module _ (alloc : AllocContiguous) (root virt physical : ℕ) (levels : ℕ → ℕ) (m : Machine)
    (aligned : physical % 4096 ≡ 0) (small : physical < 2 ^ 52) where
  extended : is_extended (physical + 131) ≡ true
  extended = is_extended_lem (physical + 131) ∙ (ground arith)

  -- One page, for each size.
  one_page :
      (p : PageSize)
      → Supplies alloc (page_size_to_depth p - 1) levels m.managers
      → Ready (page_size_to_depth p) jumbo_page_size root virt levels m.words
      → Ends (IsFound root virt physical p) (
          map_page alloc
            (page_size_to_depth p)
            jumbo_page_size
            root
            virt
            (entry_value p physical 0)
            m)
  unfolding get_mapped_page
  one_page base_page supplies ready = rw (entry_value_base physical aligned) (
      Ends-map _
        (map_page-IsMapped alloc 0 3 jumbo_page_size root virt (physical + 3) levels m (inl refl)
          supplies ready)
        λ after h.
          IsFound-at root virt physical (physical + 3) base_page after h.found
            (frame_lem physical 3 aligned (omega arith) small))
  one_page large_page supplies ready = rw (entry_value_large physical aligned) (
      Ends-map _
        (map_page-IsMapped alloc 1 2 jumbo_page_size root virt (physical + 131) levels m
          (inr (omega arith, extended)) supplies ready)
        λ after h.
          IsFound-at root virt physical (physical + 131) large_page after h.found
            (frame_lem physical 131 aligned (omega arith) small))
  one_page huge_page supplies ready = rw (entry_value_huge physical aligned) (
      Ends-map _
        (map_page-IsMapped alloc 2 1 jumbo_page_size root virt (physical + 131) levels m
          (inr (omega arith, extended)) supplies ready)
        λ after h.
          IsFound-at root virt physical (physical + 131) huge_page after h.found
            (frame_lem physical 131 aligned (omega arith) small))

bytes_pos : (p : PageSize) → 1 ≤ bytes p
bytes_pos base_page = omega arith
bytes_pos large_page = omega arith
bytes_pos huge_page = omega arith

-- A page of any size that is mapped at an address, where the walk for the address meets tables of
-- falling levels down to a missing one or the last, and the pages that the allocation gives for
-- missing tables are aligned and no tables yet: the run ends by itself, with no memory left or
-- with a machine in which the page is found with its frame and its size.
pub map_virtual_region-IsFound :
    (alloc : AllocContiguous) (p : PageSize) (root virt physical : ℕ) (levels : ℕ → ℕ) (m : Machine)
    → physical % 4096 ≡ 0
    → physical < 2 ^ 52
    → virt + bytes p < 2 ^ 64
    → Supplies alloc (page_size_to_depth p - 1) levels m.managers
    → Ready (page_size_to_depth p) jumbo_page_size root virt levels m.words
    → Ends (IsFound root virt physical p) (
        map_virtual_region alloc root virt
          (record { page_start = physical; number_of_pages = 1 })
          p
          m)
unfolding map_virtual_region map_virtual_region_with_flags map_pages
map_virtual_region-IsFound alloc p root virt physical levels m aligned small room supplies ready =
    let some_bytes = bytes_pos p in
    let e : u64 (virt + u64 (bytes p * 1)) ≡ virt + bytes p = omega arith in
    let start : ltb virt (virt + bytes p) ≡ true = ground arith in
    let stop : ltb (u64 (virt + bytes p)) (virt + bytes p) ≡ false = ground arith in
    rw (e, start)
      (Ends-bind (IsFound root virt physical p) _ _ _
        (one_page alloc root virt physical levels m aligned small p supplies ready)
        λ after h. rw stop h)
