-- ===== src/X86/Physical/Cover.antt =====
-- What a list of blocks and the managers stand for: how often each address is covered by free
-- memory. A block is `Fits` if its end does not pass the 64-bit address space.
use homegrown.Prelude.{
  ℕ, zero, suc, ◌+◌, ◌-◌, ◌*◌, ◌^◌, ◌≤◌, ◌<◌, ◌≡◌, ◌&&◌, List, [], ◌∷◌, ◌++◌, ltb, leb,
  if◌then◌else◌, length, get_or, set, drop_last, arith, length-set, get_or-set_copy,
}
use homegrown.X86.Paging.{PageSize, base_page, large_page, huge_page, bytes, PagedMemory}
use homegrown.X86.Physical.{Managers, no_block, shrink}

-- 1 if the block holds the byte at the address, else 0.
abbrev pub covers : PageSize → PagedMemory → ℕ → ℕ
covers p e a =
    if leb e.page_start a && ltb a (e.page_start + e.number_of_pages * bytes p) then 1 else 0

-- The sum of a number for each block.
abbrev pub sum_by : (PagedMemory → ℕ) → List PagedMemory → ℕ
sum_by w [] = 0
sum_by w (e ∷ es) = w e + sum_by w es

-- How many of the blocks hold the byte at the address.
abbrev pub cover_blocks : PageSize → List PagedMemory → ℕ → ℕ
cover_blocks p es a = sum_by (λ e. covers p e a) es

-- The number of pages in the blocks.
abbrev pub total : List PagedMemory → ℕ
total es = sum_by (λ e. e.number_of_pages) es

abbrev pub Fits : PageSize → PagedMemory → Type 0
Fits p e = e.page_start + e.number_of_pages * bytes p ≤ 2 ^ 64

abbrev pub AllFit : PageSize → List PagedMemory → Type 0
AllFit p [] = Unit
AllFit p (e ∷ es) = Fits p e × AllFit p es

-- The free memory of all three managers.
abbrev pub cover : Managers → ℕ → ℕ
cover s a =
    cover_blocks base_page s.base.blocks a
    + cover_blocks large_page s.large.blocks a
    + cover_blocks huge_page s.huge.blocks a

-- Taking pages from the front of a block splits what it covers.
pub covers-shrink :
    (p : PageSize) (e : PagedMemory) (n a : ℕ)
    → Fits p e
    → n < e.number_of_pages
    → covers p (shrink p e n) a
        + covers p (record { page_start = e.page_start; number_of_pages = n }) a
      ≡ covers p e a
covers-shrink base_page e n a f h = ground arith
covers-shrink large_page e n a f h = ground arith
covers-shrink huge_page e n a f h = ground arith

pub shrink-Fits :
    (p : PageSize) (e : PagedMemory) (n : ℕ)
    → Fits p e
    → n < e.number_of_pages
    → Fits p (shrink p e n)
shrink-Fits base_page e n f h = omega arith
shrink-Fits large_page e n f h = omega arith
shrink-Fits huge_page e n f h = omega arith

-- A part of a block fits, too.
pub Fits-part :
    (p : PageSize) (e : PagedMemory) (n : ℕ)
    → Fits p e
    → n ≤ e.number_of_pages
    → e.page_start + n * bytes p ≤ 2 ^ 64
Fits-part base_page e n f h = omega arith
Fits-part large_page e n f h = omega arith
Fits-part huge_page e n f h = omega arith

module _ (w : PagedMemory → ℕ) where
  pub sum_by-append : (es fs : List PagedMemory) → sum_by w (es ++ fs) ≡ sum_by w es + sum_by w fs
  sum_by-append [] fs = omega arith
  sum_by-append (e ∷ es) fs = omega (arith, sum_by-append es fs)

  pub sum_by-set :
      (es : List PagedMemory) (i : ℕ) (v : PagedMemory)
      → i < length es
      → sum_by w (set es i v) + w (get_or es i no_block) ≡ sum_by w es + w v
  sum_by-set [] i v h = absurd (omega arith)
  sum_by-set (e ∷ es) zero v h = omega arith
  sum_by-set (e ∷ es) (suc i) v h = omega (arith, sum_by-set es i v (omega arith))

  pub sum_by-drop_last :
      (es : List PagedMemory)
      → 0 < length es
      → sum_by w (drop_last es) + w (get_or es (length es - 1) no_block) ≡ sum_by w es
  sum_by-drop_last [] h = absurd (omega arith)
  sum_by-drop_last (e ∷ []) h = omega arith
  sum_by-drop_last (e ∷ f ∷ es) h =
      let outer : suc (suc (length es)) - 1 ≡ suc (length es) = omega arith in
      let inner : suc (length es) - 1 ≡ length es = omega arith in
      let ih = rw inner at (sum_by-drop_last (f ∷ es) (omega arith)) in rw outer (omega arith)

  -- Overwriting a block by the last one and dropping the last one removes the block.
  pub sum_by-swap_remove :
      (es : List PagedMemory) (i : ℕ)
      → i < length es
      → sum_by w (drop_last (set es i (get_or es (length es - 1) no_block)))
          + w (get_or es i no_block)
        ≡ sum_by w es
  sum_by-swap_remove es i h =
      let last = get_or es (length es - 1) no_block in
      let dropped = sum_by-drop_last (set es i last) (rw length-set (omega arith)) in
      let dropped' =
        rw (length-set es i last, get_or-set_copy es i (length es - 1) no_block) at dropped in
      omega (arith, sum_by-set es i last h)

pub AllFit-append :
    (p : PageSize) (es fs : List PagedMemory) → AllFit p es → AllFit p fs → AllFit p (es ++ fs)
AllFit-append p [] fs h k = k
AllFit-append p (e ∷ es) fs h k = (h.0, AllFit-append p es fs h.1 k)

pub AllFit-get_or :
    (p : PageSize) (es : List PagedMemory) (i : ℕ) → AllFit p es → Fits p (get_or es i no_block)
AllFit-get_or p [] i h = omega arith
AllFit-get_or p (e ∷ es) zero h = h.0
AllFit-get_or p (e ∷ es) (suc i) h = AllFit-get_or p es i h.1

pub AllFit-set :
    (p : PageSize) (es : List PagedMemory) (i : ℕ) (v : PagedMemory)
    → AllFit p es
    → Fits p v
    → AllFit p (set es i v)
AllFit-set p [] i v h f = tt
AllFit-set p (e ∷ es) zero v h f = (f, h.1)
AllFit-set p (e ∷ es) (suc i) v h f = (h.0, AllFit-set p es i v h.1 f)

pub AllFit-drop_last :
    (p : PageSize) (es : List PagedMemory) → AllFit p es → AllFit p (drop_last es)
AllFit-drop_last p [] h = tt
AllFit-drop_last p (e ∷ []) h = tt
AllFit-drop_last p (e ∷ f ∷ es) h = (h.0, AllFit-drop_last p (f ∷ es) h.1)
