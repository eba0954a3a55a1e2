-- ===== src/X86/Physical/Init/Large.antt =====
-- A round of `initPMM` (physical.c) that moves base pages to the manager of large pages.
use homegrown.Prelude.{
  ℕ, ◌+◌, ◌-◌, ◌*◌, ◌/◌, ◌%◌, ◌^◌, ◌≤◌, ◌<◌, ◌≡◌, ◌∙◌, sym, ap, length, get_or, u64, sub64, arith,
}
use homegrown.Shared.Maths.{align_down_value}
use homegrown.Shared.Maths.Align.{align_up_value-least, align_down_value-greatest}
use homegrown.X86.Paging.{base_page, large_page, PagedMemory}
use homegrown.X86.Physical.{
  Managers, Run, ok, ◌>>=◌, get_memory_manager, no_block, AllocContiguous, decrease_pages,
  free_block, append_block,
}
use homegrown.X86.Physical.Cover.{covers, cover, AllFit-get_or}
use homegrown.X86.Physical.Take.{IsTaken, decrease_pages-IsTaken}
use homegrown.X86.Physical.Alloc.{Ends, Ends-map, IsManaged}
use homegrown.X86.Physical.Init.{boundary_of, pages_moved, pages_from_align, free_parts, promote}
use homegrown.X86.Physical.Init.Promote.{
  block, covers-base, covers_cut, free_parts-large, exact_base, IsPromoted,
}

module _ (alloc : AllocContiguous) (i : ℕ) (s : Managers) (v : IsManaged s) where
  module _ (inside : i < length s.base.blocks)
      (aligned : (get_or s.base.blocks i no_block).page_start % 4096 ≡ 0)
      (large_run : 512 ≤ (get_or s.base.blocks i no_block).number_of_pages)
      (base_room : length s.base.blocks < s.base.cap)
      (large_room : length s.large.blocks < s.large.cap) where
    abbrev e : PagedMemory
    e = get_or s.base.blocks i no_block

    abbrev f : ℕ
    f = pages_from_align large_page e

    abbrev d : ℕ
    d = align_down_value f 512

    e-Fits : e.page_start + e.number_of_pages * 4096 ≤ 2 ^ 64
    e-Fits = AllFit-get_or base_page s.base.blocks i v.base_fit

    boundary : e.page_start + pages_moved large_page e * 4096 ≡ boundary_of large_page e
    boundary =
        omega (
          arith,
          align_up_value-least 21 (omega arith) e.page_start (omega (arith, e-Fits)),
          e-Fits,
        )

    amount : f + pages_moved large_page e ≡ e.number_of_pages
    amount =
        omega (
          arith,
          align_up_value-least 21 (omega arith) e.page_start (omega (arith, e-Fits)),
          e-Fits,
        )

    aligned_part : (d % 512 ≡ 0) × (d ≤ f)
    aligned_part =
        let g = align_down_value-greatest 9 (omega arith) f (omega (arith, amount, e-Fits)) in
        (g.0, g.1)

    front : IsTaken base_page s.base f e.page_start (decrease_pages s.base i f)
    front = rw (← v.base_size) (
        decrease_pages-IsTaken s.base i f (rw v.base_size v.base_fit) inside
          (omega (arith, amount)))

    cut :
        (a : ℕ)
        → covers base_page (block e.page_start (pages_moved large_page e)) a
            + covers base_page (block (boundary_of large_page e) f) a
          ≡ covers base_page (block e.page_start f) a
            + covers base_page (block (e.page_start + f * 4096) (pages_moved large_page e)) a
    cut a =
        ap
          (λ (x : ℕ).
            covers base_page (block e.page_start (pages_moved large_page e)) a
            + covers base_page (block x f) a)
          (sym boundary)
        ∙ covers_cut base_page e.page_start (pages_moved large_page e) f a

    fits : boundary_of large_page e + f * 4096 ≤ 2 ^ 64
    fits = omega (arith, boundary, amount, e-Fits)

    rest_exact :
        (a : ℕ)
        → covers base_page (block (u64 (boundary_of large_page e + u64 (d * 4096))) (sub64 f d)) a
          ≡ covers base_page (block (boundary_of large_page e + d * 4096) (f - d)) a
    rest_exact a = exact_base (boundary_of large_page e) f d a fits aligned_part.1

    pub promote_large : Ends (IsPromoted large_page e s) (promote alloc large_page e i s)
    unfolding promote homegrown.X86.Physical.to_larger_pages align_down_value
    promote_large =
        let run = block (boundary_of large_page e) (d / 512) in
        let rest = block (u64 (boundary_of large_page e + u64 (d * 4096))) (sub64 f d) in
        let r : Managers = record s { base = decrease_pages s.base i f } in
        Ends-map
          {P = λ t.
            (a : ℕ) → cover t a ≡ cover r a + covers large_page run a + covers base_page rest a}
          {Q = IsPromoted large_page e s} (free_parts alloc large_page run rest r)
          (free_parts-large alloc run rest r large_room
            (omega (arith, front.same_cap, front.shorter)))
          (λ t freed a. omega (
            arith,
            freed a,
            front.split a,
            rest_exact a,
            covers-base (boundary_of large_page e) f d a fits aligned_part.1 aligned_part.0,
            cut a,
          ))
