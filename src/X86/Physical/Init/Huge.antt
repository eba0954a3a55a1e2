-- ===== src/X86/Physical/Init/Huge.antt =====
-- A round of `initPMM` (physical.c) that moves large pages to the manager of huge pages.
use homegrown.Prelude.{
  ℕ, ◌+◌, ◌-◌, ◌*◌, ◌/◌, ◌%◌, ◌^◌, ◌≤◌, ◌<◌, ◌≡◌, ◌∙◌, sym, ap, length, get_or, u64, sub64, arith,
}
use homegrown.Shared.Maths.{align_down_value}
use homegrown.Shared.Maths.Align.{align_up_value-least, align_down_value-greatest}
use homegrown.X86.Paging.{large_page, huge_page, PagedMemory}
use homegrown.X86.Physical.{
  Managers, Run, ok, ◌>>=◌, get_memory_manager, no_block, AllocContiguous, decrease_pages,
  free_block, append_block,
}
use homegrown.X86.Physical.Cover.{covers, cover, AllFit-get_or}
use homegrown.X86.Physical.Take.{IsTaken, decrease_pages-IsTaken}
use homegrown.X86.Physical.Alloc.{Ends, Ends-map, IsManaged}
use homegrown.X86.Physical.Init.{boundary_of, pages_moved, pages_from_align, free_parts, promote}
use homegrown.X86.Physical.Init.Promote.{
  block, covers-large, covers_cut, free_parts-huge, exact_large, IsPromoted,
}

module _ (alloc : AllocContiguous) (i : ℕ) (s : Managers) (v : IsManaged s) where
  module _ (inside : i < length s.large.blocks)
      (aligned : (get_or s.large.blocks i no_block).page_start % 2097152 ≡ 0)
      (huge_run : 512 ≤ (get_or s.large.blocks i no_block).number_of_pages)
      (large_room : length s.large.blocks < s.large.cap)
      (huge_room : length s.huge.blocks < s.huge.cap) where
    abbrev e : PagedMemory
    e = get_or s.large.blocks i no_block

    abbrev f : ℕ
    f = pages_from_align huge_page e

    abbrev d : ℕ
    d = align_down_value f 512

    e-Fits : e.page_start + e.number_of_pages * 2097152 ≤ 2 ^ 64
    e-Fits = AllFit-get_or large_page s.large.blocks i v.large_fit

    boundary : e.page_start + pages_moved huge_page e * 2097152 ≡ boundary_of huge_page e
    boundary =
        omega (
          arith,
          align_up_value-least 30 (omega arith) e.page_start (omega (arith, e-Fits)),
          e-Fits,
        )

    amount : f + pages_moved huge_page e ≡ e.number_of_pages
    amount =
        omega (
          arith,
          align_up_value-least 30 (omega arith) e.page_start (omega (arith, e-Fits)),
          e-Fits,
        )

    aligned_part : (d % 512 ≡ 0) × (d ≤ f)
    aligned_part =
        let g = align_down_value-greatest 9 (omega arith) f (omega (arith, amount, e-Fits)) in
        (g.0, g.1)

    front : IsTaken large_page s.large f e.page_start (decrease_pages s.large i f)
    front = rw (← v.large_size) (
        decrease_pages-IsTaken s.large i f (rw v.large_size v.large_fit) inside
          (omega (arith, amount)))

    cut :
        (a : ℕ)
        → covers large_page (block e.page_start (pages_moved huge_page e)) a
            + covers large_page (block (boundary_of huge_page e) f) a
          ≡ covers large_page (block e.page_start f) a
            + covers large_page (block (e.page_start + f * 2097152) (pages_moved huge_page e)) a
    cut a =
        ap
          (λ (x : ℕ).
            covers large_page (block e.page_start (pages_moved huge_page e)) a
            + covers large_page (block x f) a)
          (sym boundary)
        ∙ covers_cut large_page e.page_start (pages_moved huge_page e) f a

    fits : boundary_of huge_page e + f * 2097152 ≤ 2 ^ 64
    fits = omega (arith, boundary, amount, e-Fits)

    rest_exact :
        (a : ℕ)
        → covers large_page
            (block (u64 (boundary_of huge_page e + u64 (d * 2097152))) (sub64 f d))
            a
          ≡ covers large_page (block (boundary_of huge_page e + d * 2097152) (f - d)) a
    rest_exact a = exact_large (boundary_of huge_page e) f d a fits aligned_part.1

    pub promote_huge : Ends (IsPromoted huge_page e s) (promote alloc huge_page e i s)
    unfolding promote homegrown.X86.Physical.to_larger_pages align_down_value
    promote_huge =
        let run = block (boundary_of huge_page e) (d / 512) in
        let rest = block (u64 (boundary_of huge_page e + u64 (d * 2097152))) (sub64 f d) in
        let r : Managers = record s { large = decrease_pages s.large i f } in
        Ends-map
          {P = λ t.
            (a : ℕ) → cover t a ≡ cover r a + covers huge_page run a + covers large_page rest a}
          {Q = IsPromoted huge_page e s} (free_parts alloc huge_page run rest r)
          (free_parts-huge alloc run rest r huge_room
            (omega (arith, front.same_cap, front.shorter)))
          (λ t freed a. omega (
            arith,
            freed a,
            front.split a,
            rest_exact a,
            covers-large (boundary_of huge_page e) f d a fits aligned_part.1 aligned_part.0,
            cut a,
          ))
