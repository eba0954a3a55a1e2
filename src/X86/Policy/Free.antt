-- ===== src/X86/Policy/Free.antt =====
-- `freeMapped`: consecutive frames are freed together, and what is freed are the frames of the
-- pages in the region.
use homegrown.Prelude.{
  bit_and_mask, ℕ, suc, ◌+◌, ◌*◌, ◌^◌, ◌≤◌, ◌<◌, ◌≡◌, refl, true, false, leb, ◌==◌, u64, arith,
  ==_iff, leb→le,
}
use homegrown.X86.Paging.{
  page_frame_size, huge_page_size, PageSize, base_page, large_page, huge_page, bytes,
}
use homegrown.Shared.Maths.{ring_range_value, align_up_value}
use homegrown.Shared.Maths.Align.{align_up_value-least}
use homegrown.X86.Physical.{AllocContiguous}
use homegrown.X86.Physical.Alloc.{Ends, Ends-map}
use homegrown.X86.PageTables.{Machine, get_mapped_page, get_physical_address_frame}
use homegrown.X86.Policy.{free_mapped, page_size_of, one_page, free_from}
use homegrown.X86.Policy.Sizes.{bytes_bound, bytes-page_size_of, frame_bound}
use homegrown.X86.Policy.Freed.{HasRoomFor, frames, IsFreed, frames_none}
use homegrown.X86.Policy.Runs.{one_page-IsRun}
use homegrown.X86.Policy.Loop.{Rest, Ends-if, IsLeft, next_page, frames_here, free_loop-IsLeft}

-- The pages from an address inside of the region.
free_from-IsFreed :
    (alloc : AllocContiguous) (rounds root start end : ℕ) (m : Machine)
    → start < end
    → end + huge_page_size ≤ 2 ^ 64
    → end ≤ start + suc rounds * page_frame_size
    → HasRoomFor (suc rounds) m.managers
    → Ends
        (IsFreed m (frames (suc rounds) root start end m.words))
        (free_from alloc rounds root start end m)
unfolding free_from IsLeft Rest
free_from-IsFreed alloc rounds root start end m before low enough room =
    let page = get_mapped_page root start m.words in
    let next = next_page alloc root end low rounds start before m enough in
    let frame = get_physical_address_frame page.entry in
    rw next.0 (
      Ends-map {Q = IsFreed m (frames (suc rounds) root start end m.words)} _
        (free_loop-IsLeft alloc root end low rounds (start + page.page_size)
          (one_page frame page.page_size) m
          (one_page-IsRun frame page.page_size (bytes-page_size_of root start m.words)
            (frame_bound page.entry))
          room next.1)
        (λ m' h. record {
          tables = h.tables;
          free = λ a.
              omega
                (arith, h.free a, frames_here alloc root end low rounds start before m enough a);
        }))

leb→gt : (a b : ℕ) → leb a b ≡ false → b < a
leb→gt a b h = ground arith

further : (start up n room : ℕ) → n ≤ room → start ≤ up → start + n ≤ up + room
further start up n room h k = omega arith

-- The first address of a page that is not cut off by the region.
start_up :
    (p : PageSize) (start : ℕ)
    → start + bytes p ≤ 2 ^ 64
    → (start ≤ align_up_value start (bytes p))
      × ((ring_range_value start (bytes p) == 0) ≡ true → align_up_value start (bytes p) ≡ start)
unfolding ring_range_value
start_up base_page start h =
    let least = align_up_value-least 12 (omega arith) start (omega arith) in
    (
      least.1,
      λ zero. omega (
        arith,
        least,
        bit_and_mask 12 start,
        (==_iff (ring_range_value start (bytes base_page)) 0).0 zero,
      ),
    )
start_up large_page start h =
    let least = align_up_value-least 21 (omega arith) start (omega arith) in
    (
      least.1,
      λ zero. omega (
        arith,
        least,
        bit_and_mask 21 start,
        (==_iff (ring_range_value start (bytes large_page)) 0).0 zero,
      ),
    )
start_up huge_page start h =
    let least = align_up_value-least 30 (omega arith) start (omega arith) in
    (
      least.1,
      λ zero. omega (
        arith,
        least,
        bit_and_mask 30 start,
        (==_iff (ring_range_value start (bytes huge_page)) 0).0 zero,
      ),
    )

-- Where consecutive frames are freed together or not, `freeMapped` of a region that is not empty
-- and that lies a huge page below the end of the address space frees exactly the frames of
-- the pages from the start, aligned up to the size of the page there, to the end: it ends, keeps
-- the page tables, and afterwards each address is covered by free memory as often as before and by
-- those frames together. The managers have room for a block for each base page of the region.
pub free_mapped-IsFreed :
    (alloc : AllocContiguous) (rounds root start n : ℕ) (m : Machine)
    → 0 < n
    → start + n + huge_page_size ≤ 2 ^ 64
    → n ≤ suc rounds * page_frame_size
    → HasRoomFor (suc rounds) m.managers
    → Ends
        (IsFreed m (
          frames
            (suc rounds)
            root
            (align_up_value start ((get_mapped_page root start m.words).page_size))
            (start + n)
            m.words))
        (free_mapped alloc rounds root start n m)
unfolding free_mapped
free_mapped-IsFreed alloc rounds root start n m some_bytes low enough room =
    let size = (get_mapped_page root start m.words).page_size in
    let p = page_size_of size in
    let b = bytes_bound p in
    let up =
      rw (bytes-page_size_of root start m.words) at (start_up p start (omega (arith, b.1))) in
    let end : u64 (start + n) ≡ start + n = omega arith in
    rw end (
      Ends-if _ (ring_range_value start size == 0) _ _
        (λ aligned. rw (up.1 aligned) (
          free_from-IsFreed alloc rounds root start (start + n) m (omega arith) low (omega arith)
            room))
        (λ cut.
          Ends-if _ (leb (start + n) (align_up_value start size)) _ _
            (λ over. record {
              tables = refl;
              free = λ a. omega (
                arith,
                frames_none (suc rounds) root (align_up_value start size) (start + n) m.words a
                    (leb→le _ _ over),
              );
            })
            (λ inside.
              free_from-IsFreed alloc rounds root (align_up_value start size) (start + n) m
                (leb→gt _ _ inside) low (further _ _ _ _ enough up.0) room)))
