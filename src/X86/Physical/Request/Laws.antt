-- ===== src/X86/Physical/Request/Laws.antt =====
-- `allocPhysicalPages` as a whole: what the caller's array holds, and what the managers keep.
use homegrown.Prelude.{ℕ, suc, ◌+◌, ◌^◌, ◌≤◌, ◌<◌, ◌≡◌, refl, ap, List, [], length, u32, arith}
use homegrown.X86.Paging.{PageSize, base_page, large_page, huge_page, PagedMemory}
use homegrown.X86.Physical.{
  Manager, Managers, ok, get_memory_manager, put_memory_manager, ceiling_div_entries,
  AllocContiguous,
}
use homegrown.X86.Physical.Cover.{cover_blocks, cover, total, AllFit}
use homegrown.X86.Physical.Alloc.{Ends, IsManaged, SmallerKept}
use homegrown.X86.Physical.Request.{
  Collected, found, short, collect, from_larger_pages, alloc_physical_pages,
}
use homegrown.X86.Physical.Request.Collect.{AllSome, IsMoved, Moves, collect-Moves}

abbrev pub NoneEmpty : Managers → Type 0
NoneEmpty s = AllSome s.base.blocks × AllSome s.large.blocks × AllSome s.huge.blocks

-- The buffers have room for the larger pages that a request for `n` pages may bring in.
abbrev pub RoomFor : PageSize → ℕ → Managers → Type 0
RoomFor base_page n s =
    (ceiling_div_entries n ≤ s.base.cap)
    × (ceiling_div_entries (ceiling_div_entries n) ≤ s.large.cap)
RoomFor large_page n s = ceiling_div_entries n ≤ s.large.cap
RoomFor huge_page n s = Unit

-- `r` is a request for `n` pages of size `p` met out of the free memory of `s`.
pub record IsRequested (p : PageSize) (n : ℕ) (s : Managers) (r : List PagedMemory × Managers)
    : Type 0 where
  pub managed : IsManaged r.1
  pub filled : NoneEmpty r.1
  pub kept : SmallerKept p s r.1
  pub out_fit : AllFit p r.0
  pub out_filled : AllSome r.0
  pub amount : total r.0 ≡ n
  pub split : (a : ℕ) → cover r.1 a + cover_blocks p r.0 a ≡ cover s a

pub IsMoved-IsManaged :
    (p : PageSize) (s : Managers) {pages : List PagedMemory} {n left : ℕ} {out : List PagedMemory}
    {r : Manager}
    → IsManaged s
    → NoneEmpty s
    → IsMoved p (get_memory_manager p s) pages n out left r
    → IsManaged (put_memory_manager p r s) × NoneEmpty (put_memory_manager p r s)
IsMoved-IsManaged base_page s v f t = (
  record {
    base_size = t.same_size;
    large_size = v.large_size;
    huge_size = v.huge_size;
    base_fit = t.fit;
    large_fit = v.large_fit;
    huge_fit = v.huge_fit;
  },
  (t.filled, f.1, f.2),
)
IsMoved-IsManaged large_page s v f t = (
  record {
    base_size = v.base_size;
    large_size = t.same_size;
    huge_size = v.huge_size;
    base_fit = v.base_fit;
    large_fit = t.fit;
    huge_fit = v.huge_fit;
  },
  (f.0, t.filled, f.2),
)
IsMoved-IsManaged huge_page s v f t = (
  record {
    base_size = v.base_size;
    large_size = v.large_size;
    huge_size = t.same_size;
    base_fit = v.base_fit;
    large_fit = v.large_fit;
    huge_fit = t.fit;
  },
  (f.0, f.1, t.filled),
)

pub IsMoved-kept :
    (p : PageSize) (s : Managers) (r : Manager) → SmallerKept p s (put_memory_manager p r s)
IsMoved-kept base_page s r = tt
IsMoved-kept large_page s r = refl
IsMoved-kept huge_page s r = (refl, refl)

pub IsMoved-cover :
    (p : PageSize) (s : Managers) {n left : ℕ} {out : List PagedMemory} {r : Manager}
    → IsMoved p (get_memory_manager p s) [] n out left r
    → (a : ℕ) → cover (put_memory_manager p r s) a + cover_blocks p out a ≡ cover s a
IsMoved-cover base_page s t a = omega (arith, t.split a)
IsMoved-cover large_page s t a = omega (arith, t.split a)
IsMoved-cover huge_page s t a = omega (arith, t.split a)

collect-Moves_at :
    (p : PageSize) (m : Manager) (n : ℕ)
    → m.page_size ≡ p
    → AllFit p m.blocks
    → AllSome m.blocks
    → 1 ≤ n
    → n < 2 ^ 32
    → Moves p m [] n (collect (length m.blocks) (u32 n) [] m)
collect-Moves_at p m n size fit filled pos narrow =
    let e : u32 n ≡ n = omega arith in
    rw (e, ← size)
      (collect-Moves (length m.blocks) m n [] refl (rw size fit) filled tt tt pos narrow)

-- The loop on a manager of the state.
pub collect_at :
    (p : PageSize) (s : Managers) (n : ℕ)
    → IsManaged s
    → NoneEmpty s
    → 1 ≤ n
    → n < 2 ^ 32
    → let m = get_memory_manager p s in Moves p m [] n (collect (length m.blocks) (u32 n) [] m)
collect_at base_page s n v f = collect-Moves_at base_page s.base n v.base_size v.base_fit f.0
collect_at large_page s n v f = collect-Moves_at large_page s.large n v.large_size v.large_fit f.1
collect_at huge_page s n v f = collect-Moves_at huge_page s.huge n v.huge_size v.huge_fit f.2

pub found-IsRequested :
    (p : PageSize) (s : Managers) {n : ℕ} {out : List PagedMemory} {r : Manager}
    → IsManaged s
    → NoneEmpty s
    → IsMoved p (get_memory_manager p s) [] n out 0 r
    → IsRequested p n s (out, put_memory_manager p r s)
found-IsRequested p s {r} v f t =
    let (managed, filled) = IsMoved-IsManaged p s v f t in
    record {
      managed = managed;
      filled = filled;
      kept = IsMoved-kept p s r;
      out_fit = t.out_fit;
      out_filled = t.out_filled;
      amount = omega (arith, t.amount);
      split = IsMoved-cover p s t;
    }

-- The request, given what happens where the manager alone has too few pages.
pub request_step :
    (contiguous : AllocContiguous) (fuel : ℕ) (p : PageSize) (n : ℕ) (s : Managers)
    → IsManaged s
    → NoneEmpty s
    → 1 ≤ n
    → n < 2 ^ 32
    → ((out : List PagedMemory) (left : ℕ) (r : Manager)
        → Moves p (get_memory_manager p s) [] n (short out left r)
        → Ends (IsRequested p n s) (
            from_larger_pages contiguous
              (alloc_physical_pages contiguous fuel)
              out
              left
              p
              (put_memory_manager p r s)))
    → Ends (IsRequested p n s) (alloc_physical_pages contiguous (suc fuel) n p s)
unfolding alloc_physical_pages
request_step contiguous fuel p n s v f pos narrow refill =
    go (collect (length m.blocks) (u32 n) [] m) (collect_at p s n v f pos narrow)
  where
    m : Manager
    m = get_memory_manager p s

    go :
        (c : Collected)
        → Moves p m [] n c
        → Ends (IsRequested p n s) (elim c [
          | found pages m' ↦ ok (pages, put_memory_manager p m' s)
          | short pages requested m' ↦
              from_larger_pages contiguous
                (alloc_physical_pages contiguous fuel)
                pages
                requested
                p
                (put_memory_manager p m' s)
        ])
    go (found out r) t = found-IsRequested p s v f t
    go (short out left r) t = refill out left r t

-- A manager that has the pages meets the request alone.
pub alone :
    (contiguous : AllocContiguous) (fuel : ℕ) (p : PageSize) (n : ℕ) (s : Managers)
    → IsManaged s
    → NoneEmpty s
    → 1 ≤ n
    → n < 2 ^ 32
    → n ≤ total (get_memory_manager p s).blocks
    → Ends (IsRequested p n s) (alloc_physical_pages contiguous (suc fuel) n p s)
alone contiguous fuel p n s v f pos narrow enough =
    request_step contiguous fuel p n s v f pos narrow
      λ out left r t. absurd (omega (arith, t.0.amount, t.0.pages_split, ap total t.1))
