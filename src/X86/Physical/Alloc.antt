-- ===== src/X86/Physical/Alloc.antt =====
-- `allocContiguousPhysicalPages`, from the managers' point of view: memory is neither lost nor
-- given out twice while the buffers have room.
use homegrown.Prelude.{
  ℕ, suc, ◌+◌, ◌*◌, ◌^◌, ◌≤◌, ◌<◌, ◌≡◌, refl, some, [], ◌∷◌, inl, inr, length, u64, sub64, arith,
  Option-cases,
}
use homegrown.X86.Paging.{PageSize, base_page, large_page, huge_page, bytes, PagedMemory}
use homegrown.X86.Physical.{
  Managers, Run, ok, no_more_memory, out_of_fuel, ◌>>=◌, get_memory_manager, ceiling_div_entries,
  to_smaller_pages, first_fit, AllocContiguous, append_block, free_block, give_rest, from_larger,
  take_block, alloc_contiguous,
}
use homegrown.X86.Physical.Cover.{covers, cover, Fits, AllFit, AllFit-append, sum_by-append}
use homegrown.X86.Physical.Take.{taken}

-- The run ends by itself, with or without memory, and a result satisfies `P`.
abbrev pub Ends {ℓ} : {A : Type ℓ} → (A → Type 0) → Run A → Type 0
Ends P (ok a) = P a
Ends P no_more_memory = Unit
Ends P out_of_fuel = ⊥

pub Ends-bind {ℓ κ} :
    {A : Type ℓ} {B : Type κ} (P : A → Type 0) (Q : B → Type 0) (m : Run A) (f : A → Run B)
    → Ends P m
    → ((a : A) → P a → Ends Q (f a))
    → Ends Q (m >>= f)
Ends-bind P Q (ok a) f h k = k a h
Ends-bind P Q no_more_memory f h k = tt
Ends-bind P Q out_of_fuel f h k = elim h [ ]

pub Ends-map :
    {A : Type 0} {P Q : A → Type 0} (run : Run A) → Ends P run → ((a : A) → P a → Q a) → Ends Q run
Ends-map (ok a) h f = f a h
Ends-map no_more_memory h f = tt
Ends-map out_of_fuel h f = h

-- Each manager has its page size, and no block passes the end of the address space.
pub record IsManaged (s : Managers) : Type 0 where
  pub base_size : s.base.page_size ≡ base_page
  pub large_size : s.large.page_size ≡ large_page
  pub huge_size : s.huge.page_size ≡ huge_page
  pub base_fit : AllFit base_page s.base.blocks
  pub large_fit : AllFit large_page s.large.blocks
  pub huge_fit : AllFit huge_page s.huge.blocks

-- The managers of smaller pages are as they were.
abbrev pub SmallerKept : PageSize → Managers → Managers → Type 0
SmallerKept base_page s t = Unit
SmallerKept large_page s t = t.base ≡ s.base
SmallerKept huge_page s t = (t.base ≡ s.base) × (t.large ≡ s.large)

-- The buffers have room for one more block, from the size `p` upwards; the largest needs none.
abbrev pub HasRoom : PageSize → Managers → Type 0
HasRoom base_page s = (length s.base.blocks < s.base.cap) × (length s.large.blocks < s.large.cap)
HasRoom large_page s = length s.large.blocks < s.large.cap
HasRoom huge_page s = Unit

-- `r` is an allocation of `n` pages of size `p` out of the free memory of `s`.
pub record IsAllocated (p : PageSize) (n : ℕ) (s : Managers) (r : ℕ × Managers) : Type 0 where
  pub managed : IsManaged r.1
  pub kept : SmallerKept p s r.1
  pub room : r.0 + n * bytes p ≤ 2 ^ 64
  pub split :
      (a : ℕ)
      → cover r.1 a + covers p (record { page_start = r.0; number_of_pages = n }) a ≡ cover s a

-- Taking pages from a manager that has them.
take_block-IsAllocated :
    (p : PageSize) (n i : ℕ) (s : Managers)
    → IsManaged s
    → first_fit n (get_memory_manager p s).blocks ≡ some i
    → IsAllocated p n s (take_block p i n s)
unfolding take_block
take_block-IsAllocated base_page n i s v found =
    let t = taken base_page s.base n i v.base_size v.base_fit found in
    record {
      managed = record {
        base_size = t.same_size;
        base_fit = t.fit;
        large_size = v.large_size;
        large_fit = v.large_fit;
        huge_size = v.huge_size;
        huge_fit = v.huge_fit;
      };
      kept = tt;
      room = t.room;
      split = λ a. omega (arith, t.split a);
    }
take_block-IsAllocated large_page n i s v found =
    let t = taken large_page s.large n i v.large_size v.large_fit found in
    record {
      managed = record {
        base_size = v.base_size;
        base_fit = v.base_fit;
        large_size = t.same_size;
        large_fit = t.fit;
        huge_size = v.huge_size;
        huge_fit = v.huge_fit;
      };
      kept = refl;
      room = t.room;
      split = λ a. omega (arith, t.split a);
    }
take_block-IsAllocated huge_page n i s v found =
    let t = taken huge_page s.huge n i v.huge_size v.huge_fit found in
    record {
      managed = record {
        base_size = v.base_size;
        base_fit = v.base_fit;
        large_size = v.large_size;
        large_fit = v.large_fit;
        huge_size = t.same_size;
        huge_fit = t.fit;
      };
      kept = (refl, refl);
      room = t.room;
      split = λ a. omega (arith, t.split a);
    }

-- Giving pages back to a manager with room.
pub free_block_room :
    (alloc : AllocContiguous) (p : PageSize) (e : PagedMemory) (s : Managers)
    → length (get_memory_manager p s).blocks < (get_memory_manager p s).cap
    → free_block alloc p e s ≡ ok (append_block p e s)
unfolding free_block
free_block_room alloc p e s h = ground arith

-- The pages of the next larger size, cut at `n` pages.
module _ (address n : ℕ) (few : n + 511 < 2 ^ 64) where
  abbrev rest : PageSize → PagedMemory
  rest p = record {
    page_start = u64 (address + u64 (n * bytes p));
    number_of_pages = sub64 (to_smaller_pages (ceiling_div_entries n)) n;
  }

  rest-Fits-base :
      address + ceiling_div_entries n * bytes large_page ≤ 2 ^ 64
      → Fits base_page (rest base_page) × (address + n * bytes base_page ≤ 2 ^ 64)
  rest-Fits-base h = omega arith

  rest-Fits-large :
      address + ceiling_div_entries n * bytes huge_page ≤ 2 ^ 64
      → Fits large_page (rest large_page) × (address + n * bytes large_page ≤ 2 ^ 64)
  rest-Fits-large h = omega arith

  rest_base :
      (a : ℕ)
      → address + ceiling_div_entries n * bytes large_page ≤ 2 ^ 64
      → covers base_page (rest base_page) a
          + covers base_page (record { page_start = address; number_of_pages = n }) a
        ≡ covers large_page
            (record { page_start = address; number_of_pages = ceiling_div_entries n })
            a
  rest_base a h = ground arith

  rest_large :
      (a : ℕ)
      → address + ceiling_div_entries n * bytes huge_page ≤ 2 ^ 64
      → covers large_page (rest large_page) a
          + covers large_page (record { page_start = address; number_of_pages = n }) a
        ≡ covers huge_page
            (record { page_start = address; number_of_pages = ceiling_div_entries n })
            a
  rest_large a h = ground arith

module _ (alloc : AllocContiguous) (n : ℕ) (few : n + 511 < 2 ^ 64) (s : Managers) where
  give_rest_base :
      HasRoom base_page s
      → (r : ℕ × Managers) → IsAllocated large_page (ceiling_div_entries n) s r
      → Ends (IsAllocated base_page n s) (give_rest alloc base_page n r)
  unfolding give_rest
  give_rest_base free (address, t) w =
      let e = rest address n few base_page in
      let (fits, room) = rest-Fits-base address n few w.room in
      rw (free_block_room alloc base_page e t (rw w.kept free.0)) (record {
        managed = record {
          base_size = w.managed.base_size;
          large_size = w.managed.large_size;
          huge_size = w.managed.huge_size;
          base_fit = AllFit-append base_page t.base.blocks (e ∷ []) w.managed.base_fit (fits, tt);
          large_fit = w.managed.large_fit;
          huge_fit = w.managed.huge_fit;
        };
        kept = tt;
        room = room;
        split = λ a. omega (
          arith,
          sum_by-append (λ b. covers base_page b a) t.base.blocks (e ∷ []),
          rest_base address n few a w.room,
          w.split a,
        );
      })

  give_rest_large :
      HasRoom large_page s
      → (r : ℕ × Managers) → IsAllocated huge_page (ceiling_div_entries n) s r
      → Ends (IsAllocated large_page n s) (give_rest alloc large_page n r)
  unfolding give_rest
  give_rest_large free (address, t) w =
      let e = rest address n few large_page in
      let (fits, room) = rest-Fits-large address n few w.room in
      rw (free_block_room alloc large_page e t (rw w.kept.1 free)) (record {
        managed = record {
          base_size = w.managed.base_size;
          large_size = w.managed.large_size;
          huge_size = w.managed.huge_size;
          base_fit = w.managed.base_fit;
          large_fit =
              AllFit-append large_page t.large.blocks (e ∷ []) w.managed.large_fit (fits, tt);
          huge_fit = w.managed.huge_fit;
        };
        kept = w.kept.0;
        room = room;
        split = λ a. omega (
          arith,
          sum_by-append (λ b. covers large_page b a) t.large.blocks (e ∷ []),
          rest_large address n few a w.room,
          w.split a,
        );
      })

-- How deep an allocation at a size nests while the buffers have room.
abbrev pub levels : PageSize → ℕ
levels base_page = 3
levels large_page = 2
levels huge_page = 1

-- An allocation in the manager, or from the next larger size where it fails.
alloc_step :
    (fuel : ℕ) (p : PageSize) (n : ℕ) (s : Managers)
    → IsManaged s
    → Ends (IsAllocated p n s) (from_larger (alloc_contiguous fuel) n p s)
    → Ends (IsAllocated p n s) (alloc_contiguous (suc fuel) n p s)
unfolding alloc_contiguous
alloc_step fuel p n s v larger = elim (Option-cases (first_fit n (get_memory_manager p s).blocks)) [
  | inl missing ↦ rw (missing, Ends) larger
  | inr (i, found) ↦ rw (found, Ends) (take_block-IsAllocated p n i s v found)
]

alloc_huge :
    (fuel n : ℕ) (s : Managers)
    → IsManaged s
    → Ends (IsAllocated huge_page n s) (alloc_contiguous (suc fuel) n huge_page s)
alloc_huge fuel n s v = alloc_step fuel huge_page n s v (unfold from_larger in tt)

alloc_large :
    (fuel n : ℕ) (s : Managers)
    → n + 511 < 2 ^ 64
    → IsManaged s
    → HasRoom large_page s
    → Ends (IsAllocated large_page n s) (alloc_contiguous (suc (suc fuel)) n large_page s)
unfolding from_larger
alloc_large fuel n s few v free = alloc_step (suc fuel) large_page n s v (
    Ends-bind _ _ (alloc_contiguous (suc fuel) (ceiling_div_entries n) huge_page s) _
      (alloc_huge fuel (ceiling_div_entries n) s v)
      (give_rest_large (alloc_contiguous (suc fuel)) n few s free))

alloc_base :
    (fuel n : ℕ) (s : Managers)
    → n + 511 < 2 ^ 64
    → IsManaged s
    → HasRoom base_page s
    → Ends (IsAllocated base_page n s) (alloc_contiguous (suc (suc (suc fuel))) n base_page s)
unfolding from_larger
alloc_base fuel n s few v free = alloc_step (suc (suc fuel)) base_page n s v (
    Ends-bind _ _ (alloc_contiguous (suc (suc fuel)) (ceiling_div_entries n) large_page s) _
      (alloc_large fuel (ceiling_div_entries n) s (omega arith) v free.1)
      (give_rest_base (alloc_contiguous (suc (suc fuel))) n few s free))

-- While the buffers have room, `allocContiguousPhysicalPages` ends: it either raises the
-- interrupt for exhausted memory, or gives an address such that the given pages do not pass the
-- address space, no smaller manager has changed, and each address was covered by free memory
-- before as often as by the given pages and the free memory afterwards together.
pub alloc_contiguous-IsAllocated :
    (fuel : ℕ) (p : PageSize) (n : ℕ) (s : Managers)
    → n + 511 < 2 ^ 64
    → IsManaged s
    → HasRoom p s
    → Ends (IsAllocated p n s) (alloc_contiguous (levels p + fuel) n p s)
alloc_contiguous-IsAllocated fuel base_page n s few v free =
    let e : 3 + fuel ≡ suc (suc (suc fuel)) = omega arith in rw e (alloc_base fuel n s few v free)
alloc_contiguous-IsAllocated fuel large_page n s few v free =
    let e : 2 + fuel ≡ suc (suc fuel) = omega arith in rw e (alloc_large fuel n s few v free)
alloc_contiguous-IsAllocated fuel huge_page n s few v free =
    let e : 1 + fuel ≡ suc fuel = omega arith in rw e (alloc_huge fuel n s v)
