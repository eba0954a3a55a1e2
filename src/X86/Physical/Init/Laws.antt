-- ===== src/X86/Physical/Init/Laws.antt =====
-- A round of `initPMM` (physical.c), for large and for huge pages.
use homegrown.Prelude.{ℕ, ◌+◌, ◌*◌, ◌%◌, ◌^◌, ◌≤◌, ◌<◌, ◌≡◌, refl, true, leb, length, get_or, arith}
use homegrown.Shared.Maths.Align.{align_up_value-least}
use homegrown.X86.Paging.{PageSize, base_page, large_page, huge_page, bytes, PagedMemory}
use homegrown.X86.Physical.{Managers, get_memory_manager, no_block, AllocContiguous}
use homegrown.X86.Physical.Cover.{cover}
use homegrown.X86.Physical.Alloc.{Ends, Ends-map, IsManaged}
use homegrown.X86.Physical.Init.{to_smaller_page_size, pages_moved, pages_from_align, init_step}
use homegrown.X86.Physical.Init.Promote.{block, empty_covers, IsPromoted}
use homegrown.X86.Physical.Init.Large.{promote_large}
use homegrown.X86.Physical.Init.Huge.{promote_huge}
use homegrown.Prelude.{◌≢◌}

large_enough : (n : ℕ) → 512 ≤ n → leb 512 n ≡ true
large_enough n h = ground arith

-- A round of the loop of `initPMM` for large or huge pages on a block of the manager below, with
-- an aligned start, that reaches a run of larger pages, where both buffers have room: it ends,
-- and but for the pages between the block's start and the first page of the larger size, which
-- are given up, each address is covered as often as before; as many pages at the block's end are
-- covered once more.
pub init_step-IsPromoted :
    (alloc : AllocContiguous) (p : PageSize) (i : ℕ) (s : Managers)
    → p ≢ base_page
    → IsManaged s
    → i < length (get_memory_manager (to_smaller_page_size p) s).blocks
    → (get_or (get_memory_manager (to_smaller_page_size p) s).blocks i no_block).page_start
        % bytes (to_smaller_page_size p)
      ≡ 0
    → 512
      ≤ (get_or (get_memory_manager (to_smaller_page_size p) s).blocks i no_block).number_of_pages
    → 512
      ≤ pages_from_align p
          (get_or (get_memory_manager (to_smaller_page_size p) s).blocks i no_block)
    → length (get_memory_manager (to_smaller_page_size p) s).blocks
      < (get_memory_manager (to_smaller_page_size p) s).cap
    → length (get_memory_manager p s).blocks < (get_memory_manager p s).cap
    → Ends
        (IsPromoted p (get_or (get_memory_manager (to_smaller_page_size p) s).blocks i no_block) s)
        (init_step alloc p i s)
unfolding init_step
init_step-IsPromoted alloc base_page i s h v inside aligned run reaches room_below room =
    elim (h refl) [ ]
init_step-IsPromoted alloc large_page i s h v inside aligned run reaches room_below room =
    rw (large_enough _ run, large_enough _ reaches)
      (promote_large alloc i s v inside aligned run room_below room)
init_step-IsPromoted alloc huge_page i s h v inside aligned run reaches room_below room =
    rw (large_enough _ run, large_enough _ reaches)
      (promote_huge alloc i s v inside aligned run room_below room)

none_moved :
    (p : PageSize) (e : PagedMemory)
    → e.page_start < 2 ^ 63
    → e.page_start % bytes p ≡ 0
    → pages_moved p e ≡ 0
none_moved base_page e low aligned =
    omega (arith, align_up_value-least 12 (omega arith) e.page_start (omega arith))
none_moved large_page e low aligned =
    omega (arith, align_up_value-least 21 (omega arith) e.page_start (omega arith))
none_moved huge_page e low aligned =
    omega (arith, align_up_value-least 30 (omega arith) e.page_start (omega arith))

nothing_lost :
    (p : PageSize) (e : PagedMemory) (s t : Managers)
    → pages_moved p e ≡ 0
    → IsPromoted p e s t
    → (a : ℕ) → cover t a ≡ cover s a
nothing_lost p e s t z h a = omega (
  arith,
  h a,
  empty_covers (to_smaller_page_size p) (block e.page_start (pages_moved p e)) a z,
  empty_covers (to_smaller_page_size p)
      (block (e.page_start + pages_from_align p e * bytes (to_smaller_page_size p))
        (pages_moved p e))
      a z,
)

-- Such a round on a block in the lower half of the address space that starts at a page of the
-- larger size ends, and each address is covered by free memory as often as before.
pub init_step-conserved :
    (alloc : AllocContiguous) (p : PageSize) (i : ℕ) (s : Managers)
    → p ≢ base_page
    → IsManaged s
    → i < length (get_memory_manager (to_smaller_page_size p) s).blocks
    → (get_or (get_memory_manager (to_smaller_page_size p) s).blocks i no_block).page_start
        % bytes (to_smaller_page_size p)
      ≡ 0
    → 512
      ≤ (get_or (get_memory_manager (to_smaller_page_size p) s).blocks i no_block).number_of_pages
    → 512
      ≤ pages_from_align p
          (get_or (get_memory_manager (to_smaller_page_size p) s).blocks i no_block)
    → length (get_memory_manager (to_smaller_page_size p) s).blocks
      < (get_memory_manager (to_smaller_page_size p) s).cap
    → length (get_memory_manager p s).blocks < (get_memory_manager p s).cap
    → (get_or (get_memory_manager (to_smaller_page_size p) s).blocks i no_block).page_start < 2 ^ 63
    → (get_or (get_memory_manager (to_smaller_page_size p) s).blocks i no_block).page_start
        % bytes p
      ≡ 0
    → Ends (λ t. (a : ℕ) → cover t a ≡ cover s a) (init_step alloc p i s)
init_step-conserved alloc p i s h v inside aligned run reaches room_below room low whole =
    let e = get_or (get_memory_manager (to_smaller_page_size p) s).blocks i no_block in
    Ends-map {P = IsPromoted p e s} {Q = λ t. (a : ℕ) → cover t a ≡ cover s a}
      (init_step alloc p i s)
      (init_step-IsPromoted alloc p i s h v inside aligned run reaches room_below room)
      (λ t. nothing_lost p e s t (none_moved p e low whole))
