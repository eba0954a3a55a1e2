-- ===== src/X86/Physical/Take.antt =====
-- `decreasePages` at the block that the search found: what the manager covers is split in two.
use mathlib.Core.Logic.{inl, inr}
use homegrown.Prelude.{
  ℕ, zero, suc, ◌+◌, ◌-◌, ◌*◌, ◌≤◌, ◌<◌, ◌^◌, ◌≡◌, refl, some, List, [], ◌∷◌, ◌==◌, length, get_or,
  set, length-set, length-drop_last, arith, Bool-cases, ==_iff,
}
use homegrown.X86.Paging.{base_page, large_page, huge_page, PageSize, bytes, PagedMemory}
use homegrown.X86.Physical.{Manager, no_block, shrink, decrease_pages, first_fit}
use homegrown.X86.Physical.Cover.{
  covers, cover_blocks, Fits, AllFit, covers-shrink, shrink-Fits, total, sum_by-set,
  sum_by-swap_remove, AllFit-get_or, AllFit-set, AllFit-drop_last, Fits-part,
}

-- The search gives a block that exists and is large enough.
pub first_fit-fits :
    (n : ℕ) (es : List PagedMemory) (i : ℕ)
    → first_fit n es ≡ some i
    → (i < length es) × (n ≤ (get_or es i no_block).number_of_pages)
unfolding first_fit
first_fit-fits n [] i h = ground arith
first_fit-fits n (e ∷ es) zero h = ground arith
first_fit-fits n (e ∷ es) (suc i) h = ground (arith, first_fit-fits n es i)

-- `n` pages at `address` were taken from the manager `m` of page size `p`, and left `r`.
pub record IsTaken (p : PageSize) (m : Manager) (n address : ℕ) (r : Manager) : Type 0 where
  pub same_size : r.page_size ≡ p
  pub same_cap : r.cap ≡ m.cap
  pub shorter : length r.blocks ≤ length m.blocks
  pub fit : AllFit p r.blocks
  pub room : address + n * bytes p ≤ 2 ^ 64
  pub pages : total r.blocks + n ≡ total m.blocks
  pub split :
      (a : ℕ)
      → cover_blocks p r.blocks a
          + covers p (record { page_start = address; number_of_pages = n }) a
        ≡ cover_blocks p m.blocks a

pub Fits-small : (p : PageSize) (e : PagedMemory) → Fits p e → e.number_of_pages < 2 ^ 64
Fits-small base_page e f = omega arith
Fits-small large_page e f = omega arith
Fits-small huge_page e f = omega arith

module _ (m : Manager) (i n : ℕ) (fit : AllFit m.page_size m.blocks) (inside : i < length m.blocks)
    (enough : n ≤ (get_or m.blocks i no_block).number_of_pages) where
  abbrev e : PagedMemory
  e = get_or m.blocks i no_block

  abbrev last : PagedMemory
  last = get_or m.blocks (length m.blocks - 1) no_block

  e-Fits : Fits m.page_size e
  e-Fits = AllFit-get_or m.page_size m.blocks i fit

  -- The allocated pages and what the manager keeps together cover what it covered before.
  pub decrease_pages-IsTaken : IsTaken m.page_size m n e.page_start (decrease_pages m i n)
  unfolding decrease_pages
  decrease_pages-IsTaken = elim (Bool-cases (e.number_of_pages == n)) [
    | inl all ↦ rw all (record {
      same_size = refl;
      same_cap = refl;
      shorter = omega (arith, length-set m.blocks i last, length-drop_last (set m.blocks i last));
      fit =
          AllFit-drop_last m.page_size (set m.blocks i last)
            (AllFit-set m.page_size m.blocks i last fit (AllFit-get_or m.page_size m.blocks _ fit));
      room = Fits-part m.page_size e n e-Fits enough;
      pages =
          rw (← (==_iff e.number_of_pages n).0 all)
            (sum_by-swap_remove (λ b. b.number_of_pages) m.blocks i inside);
      split = λ a.
          rw (← (==_iff e.number_of_pages n).0 all)
            (sum_by-swap_remove (λ b. covers m.page_size b a) m.blocks i inside);
    })
    | inr more ↦ rw more (record {
      same_size = refl;
      same_cap = refl;
      shorter = omega (arith, length-set m.blocks i (shrink m.page_size e n));
      fit =
          AllFit-set m.page_size m.blocks i (shrink m.page_size e n) fit
            (shrink-Fits m.page_size e n e-Fits (ground arith));
      room = Fits-part m.page_size e n e-Fits enough;
      pages = omega (
        arith,
        sum_by-set (λ b. b.number_of_pages) m.blocks i (shrink m.page_size e n) inside,
        Fits-small m.page_size e e-Fits,
      );
      split = λ a. omega (
        arith,
        sum_by-set (λ b. covers m.page_size b a) m.blocks i (shrink m.page_size e n) inside,
        covers-shrink m.page_size e n a e-Fits (ground arith),
      );
    })
  ]

-- What the search and the decrease do together.
pub taken :
    (p : PageSize) (m : Manager) (n i : ℕ)
    → m.page_size ≡ p
    → AllFit p m.blocks
    → first_fit n m.blocks ≡ some i
    → IsTaken p m n (get_or m.blocks i no_block).page_start (decrease_pages m i n)
taken p m n i size fit found =
    let (inside, enough) = first_fit-fits n m.blocks i found in
    rw (← size) (decrease_pages-IsTaken m i n (rw size fit) inside enough)
