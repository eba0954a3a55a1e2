-- ===== src/X86/Policy/Loop.antt =====
-- The loop of `freeMapped`.
use homegrown.Prelude.{
  ℕ, zero, suc, ◌+◌, ◌*◌, ◌^◌, ◌≤◌, ◌<◌, ◌≡◌, refl, ap, sym, ◌∙◌, Bool, true, false, ◌&&◌, ltb,
  ◌==◌, if◌then◌else◌, u64, arith, ltb→lt, lt→ltb,
}
use homegrown.X86.Paging.{page_frame_size, huge_page_size}
use homegrown.X86.Physical.{Run, ◌>>=◌, AllocContiguous}
use homegrown.X86.Physical.Cover.{covers}
use homegrown.X86.Physical.Alloc.{Ends, Ends-map, Ends-bind}
use homegrown.X86.PageTables.{Machine, get_mapped_page, get_physical_address_frame}
use homegrown.X86.Policy.{
  page_size_of, free_physical_page, PageRun, one_page, longer_run, free_loop,
}
use homegrown.X86.Policy.Sizes.{bytes_bound, bytes-page_size_of, frame_bound}
use homegrown.X86.Policy.Freed.{
  HasRoomFor, frames, IsFreed, free_physical_page-Ends, fewer-HasRoomFor, frames_none,
}
use homegrown.X86.Policy.Runs.{IsRun, longer_run-IsRun, one_page-IsRun, covers-longer_run}

pub Ends-if {ℓ} :
    {A : Type ℓ} (P : A → Type 0) (b : Bool) (x y : Run A)
    → (b ≡ true → Ends P x)
    → (b ≡ false → Ends P y)
    → Ends P (if b then x else y)
Ends-if P true x y h k = h refl
Ends-if P false x y h k = k refl

ltb→ge : (a b : ℕ) → ltb a b ≡ false → b ≤ a
ltb→ge a b h = ground arith

both_equal : (a b c d : ℕ) → (a == b && c == d) ≡ true → (a ≡ b) × (c ≡ d)
both_equal a b c d h = ground arith

-- The loop, with a run in hand that is still to be freed.
module _ (alloc : AllocContiguous) (root end : ℕ) (low : end + huge_page_size ≤ 2 ^ 64) where
  unfoldable pub IsLeft : ℕ → ℕ → PageRun → Machine → Machine → Type 0
  IsLeft rounds start run m m' =
      IsFreed m
        (λ a.
          covers (page_size_of run.previous_page_size) run.paged_entry a
          + frames rounds root start end m.words a)
        m'

  free_run-IsLeft :
      (rounds start : ℕ) (run : PageRun) (m : Machine)
      → HasRoomFor (suc rounds) m.managers
      → end ≤ start
      → Ends
          (IsLeft rounds start run m)
          (free_physical_page alloc run.paged_entry run.previous_page_size m)
  unfolding IsLeft
  free_run-IsLeft rounds start run m room over =
      Ends-map {Q = IsLeft rounds start run m} _
        (free_physical_page-Ends alloc run.paged_entry run.previous_page_size rounds m room)
        (λ m' h. record {
          tables = h.0.tables;
          free = λ a. omega (arith, h.0.free a, frames_none rounds root start end m.words a over);
        })

  unfoldable pub Rest : ℕ → Type 0
  Rest rounds =
      (start : ℕ) (run : PageRun) (m : Machine)
      → IsRun run
      → HasRoomFor (suc rounds) m.managers
      → end ≤ start + rounds * page_frame_size
      → Ends (IsLeft rounds start run m) (free_loop alloc rounds root start end run m)

  -- What the loop does with the page at `start`, if the rounds behind it free what is left.
  module _ (rounds start : ℕ) (before : start < end) (m : Machine)
      (enough : end ≤ start + suc rounds * page_frame_size) where
    abbrev size : ℕ
    size = (get_mapped_page root start m.words).page_size

    abbrev physical : ℕ
    physical = get_physical_address_frame ((get_mapped_page root start m.words).entry)

    pub next_page :
        (u64 (start + size) ≡ start + size) × (end ≤ start + size + rounds * page_frame_size)
    next_page =
        let e = bytes-page_size_of root start m.words in
        let b = bytes_bound (page_size_of size) in (omega (arith, e, b.1), omega (arith, e, b.0))

    physical_bound : physical < 2 ^ 52
    physical_bound = frame_bound ((get_mapped_page root start m.words).entry)

    pub frames_here :
        (a : ℕ)
        → frames (suc rounds) root start end m.words a
          ≡ covers (page_size_of size) (record { page_start = physical; number_of_pages = 1 }) a
            + frames rounds root (start + size) end m.words a
    unfolding frames
    frames_here a = rw (lt→ltb start end before) refl

    module _ (rest : Rest rounds) (run : PageRun) (r : IsRun run)
        (room : HasRoomFor (suc (suc rounds)) m.managers) where
      grown :
          physical ≡ run.next_physical
          → run.previous_page_size ≡ size
          → (a : ℕ)
          → covers (page_size_of run.previous_page_size) ((longer_run run).paged_entry) a
            ≡ covers (page_size_of run.previous_page_size) run.paged_entry a
              + covers (page_size_of size) (record { page_start = physical; number_of_pages = 1 }) a
      grown same_place same_size a =
          let b : run.next_physical < 2 ^ 52 = rw (sym same_place) physical_bound in
          covers-longer_run run a r b
          ∙ ap (λ (t : ℕ). covers (page_size_of run.previous_page_size) run.paged_entry a + t)
              (ap
                  (λ (t : ℕ).
                    covers (page_size_of run.previous_page_size)
                      (record { page_start = t; number_of_pages = 1 }) a)
                  (sym same_place)
                ∙ ap
                    (λ (t : ℕ).
                      covers (page_size_of t)
                        (record { page_start = physical; number_of_pages = 1 }) a)
                    same_size)

      free_longer-IsLeft :
          physical ≡ run.next_physical
          → run.previous_page_size ≡ size
          → Ends
              (IsLeft (suc rounds) start run m)
              (free_loop alloc rounds root (u64 (start + size)) end (longer_run run) m)
      unfolding IsLeft Rest
      free_longer-IsLeft same_place same_size =
          let b : run.next_physical < 2 ^ 52 = rw (sym same_place) physical_bound in
          rw next_page.0 (
            Ends-map {Q = IsLeft (suc rounds) start run m} _
              (rest (start + size) (longer_run run) m (longer_run-IsRun run r b)
                (fewer-HasRoomFor (suc rounds) m.managers room) next_page.1)
              (λ m' h. record {
                tables = h.tables;
                free = λ a. omega (arith, h.free a, frames_here a, grown same_place same_size a);
              }))

      free_other-IsLeft : Ends (IsLeft (suc rounds) start run m) (
          free_physical_page alloc run.paged_entry run.previous_page_size m
          >>= free_loop alloc rounds root (u64 (start + size)) end (one_page physical size))
      unfolding IsLeft Rest
      free_other-IsLeft = rw next_page.0 (
          Ends-bind _ (IsLeft (suc rounds) start run m)
            (free_physical_page alloc run.paged_entry run.previous_page_size m) _
            (free_physical_page-Ends alloc run.paged_entry run.previous_page_size (suc rounds) m
              room)
            (λ m' h.
              Ends-map {Q = IsLeft (suc rounds) start run m} _
                (rest (start + size) (one_page physical size) m'
                  (one_page-IsRun physical size (bytes-page_size_of root start m.words)
                    physical_bound)
                  h.1 next_page.1)
                (λ m'' k. record {
                  tables = k.tables ∙ h.0.tables;
                  free = λ a. omega (
                    arith,
                    h.0.free a,
                    k.free a,
                    frames_here a,
                    ap (λ (w : ℕ → ℕ). frames rounds root (start + size) end w a) h.0.tables,
                  );
                })))

  pub free_loop-IsLeft : (rounds : ℕ) → Rest rounds
  unfolding free_loop Rest
  free_loop-IsLeft zero start run m r room enough =
      Ends-if _ (ltb start end) _ _ (λ before. absurd (omega (arith, ltb→lt start end before)))
        (λ over. free_run-IsLeft zero start run m room (omega arith))
  free_loop-IsLeft (suc rounds) start run m r room enough =
      let page = get_mapped_page root start m.words in
      Ends-if _ (ltb start end) _ _
        (λ before.
          let lt = ltb→lt start end before in
          let ih = free_loop-IsLeft rounds in
          Ends-if _
            (get_physical_address_frame page.entry == run.next_physical
              && run.previous_page_size == page.page_size)
            _ _
            (λ same.
              let (place, same_size) = both_equal _ _ _ _ same in
              free_longer-IsLeft rounds start lt m enough ih run r room place same_size)
            (λ other. free_other-IsLeft rounds start lt m enough ih run r room))
        (λ over. free_run-IsLeft (suc rounds) start run m room (ltb→ge start end over))
