-- ===== src/X86/Policy/Freed.antt =====
-- What it means that `freeMapped` frees memory, and the freeing of one run of pages.
use homegrown.Prelude.{
  ℕ, zero, suc, ◌+◌, ◌≤◌, ◌≡◌, refl, ◌∙◌, ltb, if◌then◌else◌, length, length-append, arith, [], ◌∷◌,
}
use homegrown.X86.Paging.{PageSize, base_page, large_page, huge_page, PagedMemory}
use homegrown.X86.Physical.{Managers, ok, AllocContiguous, append_block, free_block}
use homegrown.X86.Physical.Cover.{covers, cover, sum_by-append}
use homegrown.X86.Physical.Alloc.{Ends, free_block_room}
use homegrown.X86.PageTables.{Machine, get_mapped_page, get_physical_address_frame}
use homegrown.X86.Policy.{page_size_of, free_physical_page}

-- Each manager has room for `k` more blocks.
unfoldable pub HasRoomFor : ℕ → Managers → Type 0
HasRoomFor k s =
    (length s.base.blocks + k ≤ s.base.cap)
    × (length s.large.blocks + k ≤ s.large.cap)
    × (length s.huge.blocks + k ≤ s.huge.cap)

-- How often the frames of the pages from `start` to `end` cover an address; there are at most
-- `rounds` of them.
unfoldable pub frames : ℕ → ℕ → ℕ → ℕ → (ℕ → ℕ) → ℕ → ℕ
frames zero root start end words a = 0
frames (suc rounds) root start end words a =
    let page = get_mapped_page root start words in
    let frame : PagedMemory = record {
      page_start = get_physical_address_frame page.entry;
      number_of_pages = 1;
    } in
    let rest = frames rounds root (start + page.page_size) end words a in
    if ltb start end then covers (page_size_of page.page_size) frame a + rest else 0

-- The memory `freed` is free in `m'`, in addition to what is free in `m`; the tables are kept.
pub record IsFreed (m : Machine) (freed : ℕ → ℕ) (m' : Machine) : Type 0 where
  pub tables : m'.words ≡ m.words
  pub free : (a : ℕ) → cover m'.managers a ≡ cover m.managers a + freed a

append_block-cover :
    (p : PageSize) (e : PagedMemory) (s : Managers) (a : ℕ)
    → cover (append_block p e s) a ≡ cover s a + covers p e a
append_block-cover base_page e s a =
    omega (arith, sum_by-append (λ b. covers base_page b a) s.base.blocks (e ∷ []))
append_block-cover large_page e s a =
    omega (arith, sum_by-append (λ b. covers large_page b a) s.large.blocks (e ∷ []))
append_block-cover huge_page e s a =
    omega (arith, sum_by-append (λ b. covers huge_page b a) s.huge.blocks (e ∷ []))

append_block-HasRoomFor :
    (p : PageSize) (e : PagedMemory) (s : Managers) (k : ℕ)
    → HasRoomFor (suc k) s
    → HasRoomFor k (append_block p e s)
unfolding HasRoomFor
append_block-HasRoomFor base_page e s k h = (
  omega (arith, h.0, length-append s.base.blocks (e ∷ [])),
  omega (arith, h.1),
  omega (arith, h.2),
)
append_block-HasRoomFor large_page e s k h = (
  omega (arith, h.0),
  omega (arith, h.1, length-append s.large.blocks (e ∷ [])),
  omega (arith, h.2),
)
append_block-HasRoomFor huge_page e s k h = (
  omega (arith, h.0),
  omega (arith, h.1),
  omega (arith, h.2, length-append s.huge.blocks (e ∷ [])),
)

pub fewer-HasRoomFor : (k : ℕ) (s : Managers) → HasRoomFor (suc k) s → HasRoomFor k s
unfolding HasRoomFor
fewer-HasRoomFor k s h = (omega (arith, h.0), omega (arith, h.1), omega (arith, h.2))

free_block-ok :
    (alloc : AllocContiguous) (p : PageSize) (e : PagedMemory) (s : Managers) (k : ℕ)
    → HasRoomFor (suc k) s
    → free_block alloc p e s ≡ ok (append_block p e s)
unfolding HasRoomFor
free_block-ok alloc base_page e s k h = free_block_room alloc base_page e s (omega (arith, h.0))
free_block-ok alloc large_page e s k h = free_block_room alloc large_page e s (omega (arith, h.1))
free_block-ok alloc huge_page e s k h = free_block_room alloc huge_page e s (omega (arith, h.2))

-- A run is freed, and what follows has one block less to put.
pub free_physical_page-Ends :
    (alloc : AllocContiguous) (e : PagedMemory) (size k : ℕ) (m : Machine)
    → HasRoomFor (suc k) m.managers
    → Ends
        (λ m'. IsFreed m (covers (page_size_of size) e) m' × HasRoomFor k m'.managers)
        (free_physical_page alloc e size m)
free_physical_page-Ends alloc e size k m room =
    rw (free_block-ok alloc (page_size_of size) e m.managers k room) (
      record { tables = refl; free = append_block-cover (page_size_of size) e m.managers },
      append_block-HasRoomFor (page_size_of size) e m.managers k room,
    )

pub IsFreed-then :
    (m m' m'' : Machine) (f g : ℕ → ℕ)
    → IsFreed m f m'
    → IsFreed m' g m''
    → IsFreed m (λ a. f a + g a) m''
IsFreed-then m m' m'' f g h k = record {
  tables = k.tables ∙ h.tables;
  free = λ a. omega (arith, h.free a, k.free a);
}

pub frames_none :
    (rounds root start end : ℕ) (words : ℕ → ℕ) (a : ℕ)
    → end ≤ start
    → frames rounds root start end words a ≡ 0
unfolding frames
frames_none zero root start end words a over = refl
frames_none (suc rounds) root start end words a over = ground arith
