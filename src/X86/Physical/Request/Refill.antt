-- ===== src/X86/Physical/Request/Refill.antt =====
-- `allocPhysicalPages` where the manager has too few pages: larger pages are cut up, given to the
-- manager, and the request is made again.
use mathlib.Core.List.{append-nil, append_assoc}
use homegrown.Prelude.{
  ℕ, ◌+◌, ◌*◌, ◌^◌, ◌≤◌, ◌<◌, ◌≡◌, refl, ap, ◌∙◌, List, [], ◌∷◌, ◌++◌, length, length-append, arith,
}
use homegrown.X86.Paging.{PageSize, base_page, large_page, huge_page, PagedMemory}
use homegrown.X86.Physical.{
  Manager, Managers, ok, get_memory_manager, put_memory_manager, ceiling_div_entries,
  AllocContiguous, append_block, free_blocks,
}
use homegrown.X86.Physical.Cover.{covers, cover_blocks, total, AllFit, AllFit-append, sum_by-append}
use homegrown.X86.Physical.Alloc.{Ends, Ends-bind, IsManaged, free_block_room}
use homegrown.X86.Physical.Request.{to_smaller_all, from_larger_pages, AllocPages}
use homegrown.X86.Physical.Request.Collect.{AllSome, AllSome-append, length-le-total, IsMoved}
use homegrown.X86.Physical.Request.Laws.{NoneEmpty, IsRequested, IsMoved-cover}

append_all : PageSize → List PagedMemory → Managers → Managers
append_all p es s =
    let m = get_memory_manager p s in put_memory_manager p (record m { blocks = m.blocks ++ es }) s

-- Freeing blocks into a buffer with room only appends them.
free_blocks_base :
    (alloc : AllocContiguous) (es : List PagedMemory) (s : Managers)
    → length s.base.blocks + length es ≤ s.base.cap
    → free_blocks alloc base_page es s ≡ ok (append_all base_page es s)
unfolding free_blocks append_all
free_blocks_base alloc [] s h = rw append-nil
free_blocks_base alloc (e ∷ es) s h = rw (free_block_room alloc base_page e s (omega arith)) (
    free_blocks_base alloc es (append_block base_page e s)
      (omega (arith, length-append s.base.blocks (e ∷ [])))
    ∙ rw append_assoc)

free_blocks_large :
    (alloc : AllocContiguous) (es : List PagedMemory) (s : Managers)
    → length s.large.blocks + length es ≤ s.large.cap
    → free_blocks alloc large_page es s ≡ ok (append_all large_page es s)
unfolding free_blocks append_all
free_blocks_large alloc [] s h = rw append-nil
free_blocks_large alloc (e ∷ es) s h = rw (free_block_room alloc large_page e s (omega arith)) (
    free_blocks_large alloc es (append_block large_page e s)
      (omega (arith, length-append s.large.blocks (e ∷ [])))
    ∙ rw append_assoc)

-- Cutting larger pages up changes neither the memory nor the number of blocks.
record IsCut (p q : PageSize) (es : List PagedMemory) : Type 0 where
  fit : AllFit p (to_smaller_all es)
  filled : AllSome (to_smaller_all es)
  amount : total (to_smaller_all es) ≡ 512 * total es
  same : length (to_smaller_all es) ≡ length es
  covered : (a : ℕ) → cover_blocks p (to_smaller_all es) a ≡ cover_blocks q es a

IsCut-base :
    (es : List PagedMemory) → AllFit large_page es → AllSome es → IsCut base_page large_page es
unfolding to_smaller_all
IsCut-base [] h k = record {
  fit = tt;
  filled = tt;
  amount = refl;
  same = refl;
  covered = λ a. refl;
}
IsCut-base (e ∷ es) h k =
    let rest = IsCut-base es h.1 k.1 in
    record {
      fit = (omega arith, rest.fit);
      filled = (omega arith, rest.filled);
      amount = omega (arith, rest.amount);
      same = omega (arith, rest.same);
      covered = λ a. ground (arith, rest.covered a);
    }

IsCut-large :
    (es : List PagedMemory) → AllFit huge_page es → AllSome es → IsCut large_page huge_page es
unfolding to_smaller_all
IsCut-large [] h k = record {
  fit = tt;
  filled = tt;
  amount = refl;
  same = refl;
  covered = λ a. refl;
}
IsCut-large (e ∷ es) h k =
    let rest = IsCut-large es h.1 k.1 in
    record {
      fit = (omega arith, rest.fit);
      filled = (omega arith, rest.filled);
      amount = omega (arith, rest.amount);
      same = omega (arith, rest.same);
      covered = λ a. ground (arith, rest.covered a);
    }

module _ (contiguous : AllocContiguous) (pages_of : AllocPages) (s : Managers) (n : ℕ)
    (managed : IsManaged s) (filled : NoneEmpty s) (narrow : n < 2 ^ 32) (out : List PagedMemory)
    (left : ℕ) (r : Manager) (none_left : r.blocks ≡ []) (at_most : left ≤ n) where
  pub refill_base :
      IsMoved base_page s.base [] n out left r
      → ceiling_div_entries left ≤ s.base.cap
      → (let s₁ = put_memory_manager base_page r s in
          Ends
            (IsRequested large_page (ceiling_div_entries left) s₁)
            (pages_of (ceiling_div_entries left) large_page s₁))
      → ((u : Managers)
          → IsManaged u
          → NoneEmpty u
          → left ≤ total u.base.blocks
          → Ends (IsRequested base_page left u) (pages_of left base_page u))
      → Ends (IsRequested base_page n s) (
          from_larger_pages contiguous pages_of out left base_page
            (put_memory_manager base_page r s))
  unfolding from_larger_pages append_all
  refill_base moved room larger again =
      Ends-bind _ _ (pages_of (ceiling_div_entries left) large_page (record s { base = r })) _
        larger
        λ (more, t) w.
          let cut = IsCut-base more w.out_fit w.out_filled in
          let pieces = to_smaller_all more in
          let empty : t.base.blocks ≡ [] = ap (λ (m : Manager). m.blocks) w.kept ∙ none_left in
          let cap : t.base.cap ≡ s.base.cap = ap (λ (m : Manager). m.cap) w.kept ∙ moved.same_cap in
          let joined = λ (a : ℕ). sum_by-append (λ b. covers base_page b a) t.base.blocks pieces in
          let counted = sum_by-append (λ b. b.number_of_pages) t.base.blocks pieces in
          rw
            (free_blocks_base contiguous pieces t (
              omega
                (arith, ap length empty, cut.same, length-le-total more w.out_filled, w.amount)))
            (Ends-bind _ _ (pages_of left base_page (append_all base_page pieces t)) _
              (again (append_all base_page pieces t)
                (record {
                  base_size = w.managed.base_size;
                  large_size = w.managed.large_size;
                  huge_size = w.managed.huge_size;
                  base_fit =
                      AllFit-append base_page t.base.blocks pieces w.managed.base_fit cut.fit;
                  large_fit = w.managed.large_fit;
                  huge_fit = w.managed.huge_fit;
                })
                (AllSome-append t.base.blocks pieces w.filled.0 cut.filled, w.filled.1, w.filled.2)
                (omega (arith, counted, cut.amount, w.amount)))
              λ (added, v) x. record {
                managed = x.managed;
                filled = x.filled;
                kept = tt;
                out_fit = AllFit-append base_page out added moved.out_fit x.out_fit;
                out_filled = AllSome-append out added moved.out_filled x.out_filled;
                amount = omega (
                  arith,
                  moved.amount,
                  x.amount,
                  sum_by-append (λ b. b.number_of_pages) out added,
                );
                split = λ a. omega (
                  arith,
                  sum_by-append (λ b. covers base_page b a) out added,
                  x.split a,
                  joined a,
                  cut.covered a,
                  w.split a,
                  IsMoved-cover base_page s moved a,
                );
              })

  pub refill_large :
      IsMoved large_page s.large [] n out left r
      → ceiling_div_entries left ≤ s.large.cap
      → (let s₁ = put_memory_manager large_page r s in
          Ends
            (IsRequested huge_page (ceiling_div_entries left) s₁)
            (pages_of (ceiling_div_entries left) huge_page s₁))
      → ((u : Managers)
          → IsManaged u
          → NoneEmpty u
          → left ≤ total u.large.blocks
          → Ends (IsRequested large_page left u) (pages_of left large_page u))
      → Ends (IsRequested large_page n s) (
          from_larger_pages contiguous pages_of out left large_page
            (put_memory_manager large_page r s))
  unfolding from_larger_pages append_all
  refill_large moved room larger again =
      Ends-bind _ _ (pages_of (ceiling_div_entries left) huge_page (record s { large = r })) _
        larger
        λ (more, t) w.
          let cut = IsCut-large more w.out_fit w.out_filled in
          let pieces = to_smaller_all more in
          let empty : t.large.blocks ≡ [] = ap (λ (m : Manager). m.blocks) w.kept.1 ∙ none_left in
          let cap : t.large.cap ≡ s.large.cap =
            ap (λ (m : Manager). m.cap) w.kept.1 ∙ moved.same_cap in
          let joined =
            λ (a : ℕ). sum_by-append (λ b. covers large_page b a) t.large.blocks pieces in
          let counted = sum_by-append (λ b. b.number_of_pages) t.large.blocks pieces in
          rw
            (free_blocks_large contiguous pieces t (
              omega
                (arith, ap length empty, cut.same, length-le-total more w.out_filled, w.amount)))
            (Ends-bind _ _ (pages_of left large_page (append_all large_page pieces t)) _
              (again (append_all large_page pieces t)
                (record {
                  base_size = w.managed.base_size;
                  large_size = w.managed.large_size;
                  huge_size = w.managed.huge_size;
                  base_fit = w.managed.base_fit;
                  large_fit =
                      AllFit-append large_page t.large.blocks pieces w.managed.large_fit cut.fit;
                  huge_fit = w.managed.huge_fit;
                })
                (w.filled.0, AllSome-append t.large.blocks pieces w.filled.1 cut.filled, w.filled.2)
                (omega (arith, counted, cut.amount, w.amount)))
              λ (added, v) x. record {
                managed = x.managed;
                filled = x.filled;
                kept = x.kept ∙ w.kept.0;
                out_fit = AllFit-append large_page out added moved.out_fit x.out_fit;
                out_filled = AllSome-append out added moved.out_filled x.out_filled;
                amount = omega (
                  arith,
                  moved.amount,
                  x.amount,
                  sum_by-append (λ b. b.number_of_pages) out added,
                );
                split = λ a. omega (
                  arith,
                  sum_by-append (λ b. covers large_page b a) out added,
                  x.split a,
                  joined a,
                  cut.covered a,
                  w.split a,
                  IsMoved-cover large_page s moved a,
                );
              })
