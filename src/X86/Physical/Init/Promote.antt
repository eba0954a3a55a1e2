-- ===== src/X86/Physical/Init/Promote.antt =====
-- What the managers cover before and after a round of `initPMM` (physical.c), and the parts that
-- are freed.
use homegrown.Prelude.{
  ℕ, ◌+◌, ◌-◌, ◌*◌, ◌/◌, ◌%◌, ◌^◌, ◌≤◌, ◌<◌, ◌≡◌, ◌∙◌, refl, sym, [], ◌∷◌, inl, inr, ltb, length,
  u64, sub64, arith, Bool-cases,
}
use homegrown.X86.Paging.{PageSize, base_page, large_page, huge_page, bytes, PagedMemory}
use homegrown.X86.Physical.{Managers, AllocContiguous, append_block}
use homegrown.X86.Physical.Cover.{covers, cover, sum_by-append}
use homegrown.X86.Physical.Alloc.{Ends, free_block_room}
use homegrown.X86.Physical.Init.{to_smaller_page_size, pages_moved, pages_from_align, free_parts}

abbrev pub block : ℕ → ℕ → PagedMemory
block start n = record { page_start = start; number_of_pages = n }

-- A run of base pages, as large pages and a rest.
pub covers-base :
    (start f d a : ℕ)
    → start + f * 4096 ≤ 2 ^ 64
    → d ≤ f
    → d % 512 ≡ 0
    → covers large_page (block start (d / 512)) a
        + covers base_page (block (start + d * 4096) (f - d)) a
      ≡ covers base_page (block start f) a
covers-base start f d a room part whole = ground arith

pub covers-large :
    (start f d a : ℕ)
    → start + f * 2097152 ≤ 2 ^ 64
    → d ≤ f
    → d % 512 ≡ 0
    → covers huge_page (block start (d / 512)) a
        + covers large_page (block (start + d * 2097152) (f - d)) a
      ≡ covers large_page (block start f) a
covers-large start f d a room part whole = ground arith

-- A run is cut in two places: `k` units in front, or at the end.
pub covers_cut :
    (p : PageSize) (start k f a : ℕ)
    → covers p (block start k) a + covers p (block (start + k * bytes p) f) a
      ≡ covers p (block start f) a + covers p (block (start + f * bytes p) k) a
covers_cut base_page start k f a = ground arith
covers_cut large_page start k f a = ground arith
covers_cut huge_page start k f a = ground arith

pub empty_covers :
    (p : PageSize) (e : PagedMemory) (a : ℕ) → e.number_of_pages ≡ 0 → covers p e a ≡ 0
empty_covers base_page e a z = ground arith
empty_covers large_page e a z = ground arith
empty_covers huge_page e a z = ground arith

pub exact_base :
    (start f d a : ℕ)
    → start + f * 4096 ≤ 2 ^ 64
    → d ≤ f
    → covers base_page (block (u64 (start + u64 (d * 4096))) (sub64 f d)) a
      ≡ covers base_page (block (start + d * 4096) (f - d)) a
exact_base start f d a room part =
    let difference : sub64 f d ≡ f - d = omega arith in
    elim (Bool-cases (ltb d f)) [
      | inl less ↦
          let low : start + d * 4096 < 2 ^ 64 = ground arith in
          let place : u64 (start + u64 (d * 4096)) ≡ start + d * 4096 = omega arith in
          rw (place, difference) refl
      | inr same ↦
          let none_left : f - d ≡ 0 = ground arith in
          rw difference (
            empty_covers base_page (block (u64 (start + u64 (d * 4096))) (f - d)) a none_left
            ∙ sym (empty_covers base_page (block (start + d * 4096) (f - d)) a none_left))
    ]

pub exact_large :
    (start f d a : ℕ)
    → start + f * 2097152 ≤ 2 ^ 64
    → d ≤ f
    → covers large_page (block (u64 (start + u64 (d * 2097152))) (sub64 f d)) a
      ≡ covers large_page (block (start + d * 2097152) (f - d)) a
exact_large start f d a room part =
    let difference : sub64 f d ≡ f - d = omega arith in
    elim (Bool-cases (ltb d f)) [
      | inl less ↦
          let low : start + d * 2097152 < 2 ^ 64 = ground arith in
          let place : u64 (start + u64 (d * 2097152)) ≡ start + d * 2097152 = omega arith in
          rw (place, difference) refl
      | inr same ↦
          let none_left : f - d ≡ 0 = ground arith in
          rw difference (
            empty_covers large_page (block (u64 (start + u64 (d * 2097152))) (f - d)) a none_left
            ∙ sym (empty_covers large_page (block (start + d * 2097152) (f - d)) a none_left))
    ]

-- The managers after a round of `initPMM` for `p` on a block: but for the `moved` pages between
-- its start and the first page of the larger size, which are given up, each address is covered as
-- often as before, and as many pages at the block's end are covered once more.
abbrev pub IsPromoted : PageSize → PagedMemory → Managers → Managers → Type 0
IsPromoted p e s t =
    (a : ℕ)
    → cover t a + covers (to_smaller_page_size p) (block e.page_start (pages_moved p e)) a
      ≡ cover s a
        + covers (to_smaller_page_size p)
            (block (e.page_start + pages_from_align p e * bytes (to_smaller_page_size p))
              (pages_moved p e))
            a

-- With room in both buffers what is freed is covered afterwards.
pub free_parts-large :
    (alloc : AllocContiguous) (run rest : PagedMemory) (s : Managers)
    → length s.large.blocks < s.large.cap
    → length s.base.blocks < s.base.cap
    → Ends
        (λ t. (a : ℕ) → cover t a ≡ cover s a + covers large_page run a + covers base_page rest a)
        (free_parts alloc large_page run rest s)
unfolding free_parts
free_parts-large alloc run rest s large_room base_room =
    rw (free_block_room alloc large_page run s large_room)
      (elim (Bool-cases (ltb 0 rest.number_of_pages)) [
        | inl more ↦
            let t = append_block large_page run s in
            rw (more, free_block_room alloc base_page rest t base_room)
              (λ a. omega (
                arith,
                sum_by-append (λ b. covers large_page b a) s.large.blocks (run ∷ []),
                sum_by-append (λ b. covers base_page b a) s.base.blocks (rest ∷ []),
              ))
        | inr empty ↦
            let z : rest.number_of_pages ≡ 0 = ground arith in
            rw empty (λ a. omega (
              arith,
              sum_by-append (λ b. covers large_page b a) s.large.blocks (run ∷ []),
              empty_covers base_page rest a z,
            ))
      ])

pub free_parts-huge :
    (alloc : AllocContiguous) (run rest : PagedMemory) (s : Managers)
    → length s.huge.blocks < s.huge.cap
    → length s.large.blocks < s.large.cap
    → Ends
        (λ t. (a : ℕ) → cover t a ≡ cover s a + covers huge_page run a + covers large_page rest a)
        (free_parts alloc huge_page run rest s)
unfolding free_parts
free_parts-huge alloc run rest s huge_room large_room =
    rw (free_block_room alloc huge_page run s huge_room)
      (elim (Bool-cases (ltb 0 rest.number_of_pages)) [
        | inl more ↦
            let t = append_block huge_page run s in
            rw (more, free_block_room alloc large_page rest t large_room)
              (λ a. omega (
                arith,
                sum_by-append (λ b. covers huge_page b a) s.huge.blocks (run ∷ []),
                sum_by-append (λ b. covers large_page b a) s.large.blocks (rest ∷ []),
              ))
        | inr empty ↦
            let z : rest.number_of_pages ≡ 0 = ground arith in
            rw empty (λ a. omega (
              arith,
              sum_by-append (λ b. covers huge_page b a) s.huge.blocks (run ∷ []),
              empty_covers large_page rest a z,
            ))
      ])
