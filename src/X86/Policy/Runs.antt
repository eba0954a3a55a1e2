-- ===== src/X86/Policy/Runs.antt =====
-- The run of pages that `freeMapped` has in hand.
use homegrown.Prelude.{ℕ, ◌+◌, ◌*◌, ◌^◌, ◌≤◌, ◌<◌, ◌≡◌, u64, arith}
use homegrown.X86.Paging.{huge_page_size, PageSize, base_page, large_page, huge_page, bytes}
use homegrown.X86.Physical.Cover.{covers}
use homegrown.X86.Policy.{page_size_of, PageRun, one_page, longer_run}

-- The run in hand is of pages of one size, and the address behind it does not wrap around.
pub record IsRun (run : PageRun) : Type 0 where
  size : bytes (page_size_of run.previous_page_size) ≡ run.previous_page_size
  next :
      run.next_physical
      ≡ (run.paged_entry).page_start
        + (run.paged_entry).number_of_pages * bytes (page_size_of run.previous_page_size)
  bound : run.next_physical ≤ 2 ^ 52 + huge_page_size

covers-longer :
    (p : PageSize) (start n a : ℕ)
    → covers p (record { page_start = start; number_of_pages = n + 1 }) a
      ≡ covers p (record { page_start = start; number_of_pages = n }) a
        + covers p (record { page_start = start + n * bytes p; number_of_pages = 1 }) a
covers-longer base_page start n a = ground arith
covers-longer large_page start n a = ground arith
covers-longer huge_page start n a = ground arith

longer_bounds :
    (p : PageSize) (start n next size : ℕ)
    → bytes p ≡ size
    → next ≡ start + n * bytes p
    → next < 2 ^ 52
    → (u64 (n + 1) ≡ n + 1)
      × (u64 (next + size) ≡ start + (n + 1) * bytes p)
      × (u64 (next + size) ≤ 2 ^ 52 + huge_page_size)
longer_bounds base_page start n next size e h b = (omega arith, omega arith, omega arith)
longer_bounds large_page start n next size e h b = (omega arith, omega arith, omega arith)
longer_bounds huge_page start n next size e h b = (omega arith, omega arith, omega arith)

pub longer_run-IsRun :
    (run : PageRun) → IsRun run → run.next_physical < 2 ^ 52 → IsRun (longer_run run)
longer_run-IsRun run r b =
    let w =
      longer_bounds (page_size_of run.previous_page_size) (run.paged_entry).page_start
        (run.paged_entry).number_of_pages run.next_physical run.previous_page_size r.size r.next
        b in
    record { size = r.size; next = rw w.0 w.1; bound = w.2 }

pub one_page-IsRun :
    (physical size : ℕ)
    → bytes (page_size_of size) ≡ size
    → physical < 2 ^ 52
    → IsRun (one_page physical size)
one_page-IsRun physical size e b =
    let w = longer_bounds (page_size_of size) physical 0 physical size e (omega arith) b in
    record { size = e; next = w.1; bound = w.2 }

-- The page behind the run is the one by which it grows.
pub covers-longer_run :
    (run : PageRun) (a : ℕ)
    → IsRun run
    → run.next_physical < 2 ^ 52
    → covers (page_size_of run.previous_page_size) ((longer_run run).paged_entry) a
      ≡ covers (page_size_of run.previous_page_size) run.paged_entry a
        + covers
            (page_size_of run.previous_page_size)
            (record { page_start = run.next_physical; number_of_pages = 1 })
            a
covers-longer_run run a r b =
    let w =
      longer_bounds (page_size_of run.previous_page_size) (run.paged_entry).page_start
        (run.paged_entry).number_of_pages run.next_physical run.previous_page_size r.size r.next
        b in
    rw (w.0, r.next)
      (covers-longer (page_size_of run.previous_page_size) (run.paged_entry).page_start
        (run.paged_entry).number_of_pages a)
