-- ===== src/X86/Physical/Request/Total.antt =====
-- `allocPhysicalPages` for every page size.
use homegrown.Prelude.{ℕ, suc, ◌+◌, ◌^◌, ◌≤◌, ◌<◌, ◌≡◌, arith}
use homegrown.X86.Paging.{PageSize, base_page, large_page, huge_page}
use homegrown.X86.Physical.{Managers, ceiling_div_entries, AllocContiguous}
use homegrown.X86.Physical.Alloc.{Ends, IsManaged, levels}
use homegrown.X86.Physical.Request.{from_larger_pages, alloc_physical_pages}
use homegrown.X86.Physical.Request.Laws.{
  NoneEmpty, RoomFor, IsRequested, IsMoved-IsManaged, request_step, alone,
}
use homegrown.X86.Physical.Request.Refill.{refill_base, refill_large}

request_huge :
    (contiguous : AllocContiguous) (fuel n : ℕ) (s : Managers)
    → 1 ≤ n
    → n < 2 ^ 32
    → IsManaged s
    → NoneEmpty s
    → Ends (IsRequested huge_page n s) (alloc_physical_pages contiguous (suc fuel) n huge_page s)
unfolding from_larger_pages
request_huge contiguous fuel n s pos narrow v f =
    request_step contiguous fuel huge_page n s v f pos narrow (λ out left r t. tt)

request_large :
    (contiguous : AllocContiguous) (fuel n : ℕ) (s : Managers)
    → 1 ≤ n
    → n < 2 ^ 32
    → IsManaged s
    → NoneEmpty s
    → RoomFor large_page n s
    → Ends
        (IsRequested large_page n s)
        (alloc_physical_pages contiguous (suc (suc fuel)) n large_page s)
request_large contiguous fuel n s pos narrow v f room =
    request_step contiguous (suc fuel) large_page n s v f pos narrow λ out left r t.
      let (managed, filled) = IsMoved-IsManaged large_page s v f t.0 in
      refill_large contiguous (alloc_physical_pages contiguous (suc fuel)) s n v f narrow out left r
        t.1 t.3 t.0 (omega arith)
        (request_huge contiguous fuel (ceiling_div_entries left) (record s { large = r })
          (omega arith) (omega arith) managed filled)
        (λ u vu fu enough. alone contiguous fuel large_page left u vu fu t.2 (omega arith) enough)

request_base :
    (contiguous : AllocContiguous) (fuel n : ℕ) (s : Managers)
    → 1 ≤ n
    → n < 2 ^ 32
    → IsManaged s
    → NoneEmpty s
    → RoomFor base_page n s
    → Ends
        (IsRequested base_page n s)
        (alloc_physical_pages contiguous (suc (suc (suc fuel))) n base_page s)
request_base contiguous fuel n s pos narrow v f room =
    request_step contiguous (suc (suc fuel)) base_page n s v f pos narrow λ out left r t.
      let (managed, filled) = IsMoved-IsManaged base_page s v f t.0 in
      refill_base contiguous (alloc_physical_pages contiguous (suc (suc fuel))) s n v f narrow out
        left r t.1 t.3 t.0 (omega arith)
        (request_large contiguous fuel (ceiling_div_entries left) (record s { base = r })
          (omega arith) (omega arith) managed filled (omega arith))
        (λ u vu fu enough.
          alone contiguous (suc fuel) base_page left u vu fu t.2 (omega arith) enough)

-- A request for at least one page and fewer than 2 ^ 32, where no block is empty and the buffers
-- have room for the larger pages that it may bring in, ends. It either raises the interrupt for
-- exhausted memory, or fills the caller's array with blocks of exactly so many pages in all, none
-- of them empty; no smaller manager has changed, and each address was covered by free memory
-- before as often as by the given blocks and the free memory afterwards together.
pub alloc_physical_pages-IsRequested :
    (contiguous : AllocContiguous) (fuel : ℕ) (p : PageSize) (n : ℕ) (s : Managers)
    → 1 ≤ n
    → n < 2 ^ 32
    → IsManaged s
    → NoneEmpty s
    → RoomFor p n s
    → Ends (IsRequested p n s) (alloc_physical_pages contiguous (levels p + fuel) n p s)
alloc_physical_pages-IsRequested contiguous fuel base_page n s pos narrow v f room =
    let e : 3 + fuel ≡ suc (suc (suc fuel)) = omega arith in
    rw e (request_base contiguous fuel n s pos narrow v f room)
alloc_physical_pages-IsRequested contiguous fuel large_page n s pos narrow v f room =
    let e : 2 + fuel ≡ suc (suc fuel) = omega arith in
    rw e (request_large contiguous fuel n s pos narrow v f room)
alloc_physical_pages-IsRequested contiguous fuel huge_page n s pos narrow v f room =
    let e : 1 + fuel ≡ suc fuel = omega arith in
    rw e (request_huge contiguous fuel n s pos narrow v f)
