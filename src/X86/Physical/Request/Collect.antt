-- ===== src/X86/Physical/Request/Collect.antt =====
-- The loop of `allocPhysicalPagesWithManager`: what it moves out of the manager.
use homegrown.Prelude.{
  ℕ, zero, suc, ◌+◌, ◌-◌, ◌^◌, ◌≤◌, ◌<◌, ◌≡◌, refl, List, [], ◌∷◌, ◌++◌, inl, inr, leb, ◌==◌,
  length, get_or, set, drop_last, length-drop_last, u32, sub64, arith, Bool-cases, leb→le,
}
use homegrown.X86.Paging.{PageSize, PagedMemory}
use homegrown.X86.Physical.{Manager, no_block, shrink, decrease_pages}
use homegrown.X86.Physical.Cover.{
  covers, cover_blocks, Fits, AllFit, AllFit-append, total, sum_by-append, sum_by-drop_last,
  AllFit-drop_last, AllFit-get_or,
}
use homegrown.X86.Physical.Take.{Fits-small, decrease_pages-IsTaken}
use homegrown.X86.Physical.Request.{Collected, found, short, collect}

-- No block is empty.
abbrev pub AllSome : List PagedMemory → Type 0
AllSome [] = Unit
AllSome (e ∷ es) = (1 ≤ e.number_of_pages) × AllSome es

pub length-le-total : (es : List PagedMemory) → AllSome es → length es ≤ total es
length-le-total [] h = omega arith
length-le-total (e ∷ es) h = omega (arith, length-le-total es h.1)

pub AllSome-append : (es fs : List PagedMemory) → AllSome es → AllSome fs → AllSome (es ++ fs)
AllSome-append [] fs h k = k
AllSome-append (e ∷ es) fs h k = (h.0, AllSome-append es fs h.1 k)

AllSome-drop_last : (es : List PagedMemory) → AllSome es → AllSome (drop_last es)
AllSome-drop_last [] h = tt
AllSome-drop_last (e ∷ []) h = tt
AllSome-drop_last (e ∷ f ∷ es) h = (h.0, AllSome-drop_last (f ∷ es) h.1)

AllSome-set :
    (es : List PagedMemory) (i : ℕ) (v : PagedMemory)
    → AllSome es
    → 1 ≤ v.number_of_pages
    → AllSome (set es i v)
AllSome-set [] i v h k = tt
AllSome-set (e ∷ es) zero v h k = (k, h.1)
AllSome-set (e ∷ es) (suc i) v h k = (h.0, AllSome-set es i v h.1 k)

AllSome-get_or :
    (es : List PagedMemory) (i : ℕ)
    → AllSome es
    → i < length es
    → 1 ≤ (get_or es i no_block).number_of_pages
AllSome-get_or [] i h k = absurd (omega arith)
AllSome-get_or (e ∷ es) zero h k = h.0
AllSome-get_or (e ∷ es) (suc i) h k = AllSome-get_or es i h.1 (omega arith)

-- What the loop has moved from the manager `m` into `pages`: the blocks `out` with `left` pages
-- of the request still to be had, and the manager `r`.
pub record IsMoved (p : PageSize) (m : Manager) (pages : List PagedMemory) (requested : ℕ)
    (out : List PagedMemory) (left : ℕ) (r : Manager) : Type 0 where
  pub same_size : r.page_size ≡ p
  pub same_cap : r.cap ≡ m.cap
  pub fit : AllFit p r.blocks
  pub filled : AllSome r.blocks
  pub out_fit : AllFit p out
  pub out_filled : AllSome out
  pub amount : total out + left ≡ total pages + requested
  pub pages_split : total r.blocks + total out ≡ total m.blocks + total pages
  pub split :
      (a : ℕ)
      → cover_blocks p r.blocks a + cover_blocks p out a
        ≡ cover_blocks p m.blocks a + cover_blocks p pages a

abbrev pub Moves : PageSize → Manager → List PagedMemory → ℕ → Collected → Type 0
Moves p m pages requested (found out r) = IsMoved p m pages requested out 0 r
Moves p m pages requested (short out left r) =
    IsMoved p m pages requested out left r × (r.blocks ≡ []) × (1 ≤ left) × (left ≤ requested)

-- A decrease leaves no empty block.
decrease_pages-AllSome :
    (m : Manager) (i n : ℕ)
    → AllSome m.blocks
    → i < length m.blocks
    → n ≤ (get_or m.blocks i no_block).number_of_pages
    → (get_or m.blocks i no_block).number_of_pages < 2 ^ 64
    → AllSome (decrease_pages m i n).blocks
unfolding decrease_pages
decrease_pages-AllSome m i n filled inside enough small =
    let e = get_or m.blocks i no_block in
    let last = get_or m.blocks (length m.blocks - 1) no_block in
    elim (Bool-cases (e.number_of_pages == n)) [
      | inl all ↦ rw all (
          AllSome-drop_last (set m.blocks i last)
            (AllSome-set m.blocks i last filled (AllSome-get_or m.blocks _ filled (omega arith))))
      | inr more ↦ rw more (AllSome-set m.blocks i (shrink m.page_size e n) filled (ground arith))
    ]

module _ (m : Manager) (i requested : ℕ) (pages : List PagedMemory)
    (counted : length m.blocks ≡ suc i) (fit : AllFit m.page_size m.blocks)
    (filled : AllSome m.blocks) (pages_fit : AllFit m.page_size pages)
    (pages_filled : AllSome pages) (positive : 1 ≤ requested) (narrow : requested < 2 ^ 32) where
  abbrev e : PagedMemory
  e = get_or m.blocks i no_block

  abbrev part : PagedMemory
  part = record { page_start = e.page_start; number_of_pages = requested }

  e-Fits : Fits m.page_size e
  e-Fits = AllFit-get_or m.page_size m.blocks i fit

  -- The block has all that is asked for.
  last_block :
      requested ≤ e.number_of_pages
      → IsMoved m.page_size m pages requested (pages ++ part ∷ []) 0 (decrease_pages m i requested)
  last_block enough =
      let t = decrease_pages-IsTaken m i requested fit (omega arith) enough in
      record {
        same_size = t.same_size;
        same_cap = t.same_cap;
        fit = t.fit;
        filled =
            decrease_pages-AllSome m i requested filled (omega arith) enough
              (Fits-small m.page_size e e-Fits);
        out_fit = AllFit-append m.page_size pages (part ∷ []) pages_fit (t.room, tt);
        out_filled = AllSome-append pages (part ∷ []) pages_filled (positive, tt);
        amount = omega (arith, sum_by-append (λ b. b.number_of_pages) pages (part ∷ []));
        pages_split =
            omega (arith, t.pages, sum_by-append (λ b. b.number_of_pages) pages (part ∷ []));
        split = λ a.
            omega (arith, t.split a, sum_by-append (λ b. covers m.page_size b a) pages (part ∷ []));
      }

  -- The block is moved whole: what the rest of the loop does to the manager without it.
  abbrev shorter : Manager
  shorter = record m { blocks = drop_last m.blocks }

  abbrev left : ℕ
  left = u32 (sub64 requested e.number_of_pages)

  left_lem : e.number_of_pages < requested → left + e.number_of_pages ≡ requested
  left_lem h = omega arith

  whole_block :
      {out : List PagedMemory} {rest : ℕ} {r : Manager}
      → e.number_of_pages < requested
      → IsMoved m.page_size shorter (pages ++ e ∷ []) left out rest r
      → IsMoved m.page_size m pages requested out rest r
  whole_block less t =
      let index : length m.blocks - 1 ≡ i = omega arith in
      record {
        same_size = t.same_size;
        same_cap = t.same_cap;
        fit = t.fit;
        filled = t.filled;
        out_fit = t.out_fit;
        out_filled = t.out_filled;
        amount =
            omega (
              arith,
              t.amount,
              sum_by-append (λ b. b.number_of_pages) pages (e ∷ []),
              left_lem less,
            );
        pages_split = omega (
          arith,
          t.pages_split,
          sum_by-append (λ b. b.number_of_pages) pages (e ∷ []),
          rw index at (sum_by-drop_last (λ b. b.number_of_pages) m.blocks (omega arith)),
        );
        split = λ a. omega (
          arith,
          t.split a,
          sum_by-append (λ b. covers m.page_size b a) pages (e ∷ []),
          rw index at (sum_by-drop_last (λ b. covers m.page_size b a) m.blocks (omega arith)),
        );
      }

  whole_block-Moves :
      (c : Collected)
      → e.number_of_pages < requested
      → Moves m.page_size shorter (pages ++ e ∷ []) left c
      → Moves m.page_size m pages requested c
  whole_block-Moves (found out r) less t = whole_block less t
  whole_block-Moves (short out rest r) less t =
      (whole_block less t.0, t.1, t.2, omega (arith, left_lem less, t.3))

empty_of_length : (es : List PagedMemory) → length es ≡ 0 → es ≡ []
empty_of_length [] h = refl
empty_of_length (e ∷ es) h = absurd (omega arith)

-- The loop moves blocks from the manager to the output: no page is lost or doubled, and the
-- number of pages in the output is the request, less what is still to be had.
pub collect-Moves :
    (k : ℕ) (m : Manager) (requested : ℕ) (pages : List PagedMemory)
    → length m.blocks ≡ k
    → AllFit m.page_size m.blocks
    → AllSome m.blocks
    → AllFit m.page_size pages
    → AllSome pages
    → 1 ≤ requested
    → requested < 2 ^ 32
    → Moves m.page_size m pages requested (collect k requested pages m)
unfolding collect
collect-Moves zero m requested pages counted fit filled pages_fit pages_filled positive narrow = (
  record {
    same_size = refl;
    same_cap = refl;
    fit = fit;
    filled = filled;
    out_fit = pages_fit;
    out_filled = pages_filled;
    amount = refl;
    pages_split = refl;
    split = λ a. refl;
  },
  empty_of_length m.blocks counted,
  positive,
  omega arith,
)
collect-Moves (suc i) m requested pages counted fit filled pages_fit pages_filled positive narrow =
    let e = get_or m.blocks i no_block in
    elim (Bool-cases (leb requested e.number_of_pages)) [
      | inl enough ↦
          rw (enough, Moves)
            (last_block m i requested pages counted fit filled pages_fit pages_filled positive
              narrow (leb→le _ _ enough))
      | inr more ↦
          let less : e.number_of_pages < requested = ground arith in
          let now =
            left_lem m i requested pages counted fit filled pages_fit pages_filled positive narrow
              less in
          rw (more, Moves)
            (whole_block-Moves m i requested pages counted fit filled pages_fit pages_filled
              positive narrow _ less
              (collect-Moves i (record m { blocks = drop_last m.blocks }) _ (pages ++ e ∷ [])
                (omega (arith, length-drop_last m.blocks))
                (AllFit-drop_last m.page_size m.blocks fit) (AllSome-drop_last m.blocks filled)
                (AllFit-append m.page_size pages (e ∷ []) pages_fit
                  (AllFit-get_or m.page_size m.blocks i fit, tt))
                (AllSome-append pages (e ∷ []) pages_filled
                  (AllSome-get_or m.blocks i filled (omega arith), tt))
                (omega arith) (omega arith)))
    ]
