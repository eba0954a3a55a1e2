-- ===== src/Shared/Arena/Tests.antt =====
-- Runs of `alloc` of arena.c.
use homegrown.Prelude.{◌^◌, ◌≡◌, some, arith}
use homegrown.Freestanding.Memory.{Memory}
use homegrown.Shared.Arena.{Arena, Outcome, allocated, alloc}
use homegrown.Shared.Arena.Laws.{IsGiven, alloc-IsGiven, alloc_past_end}

abbrev pages : Arena
pages = record { cur_free = 0x1003; beg = 0x1000; end = 0x2000 }

abbrev nearly_full : Arena
nearly_full = record { cur_free = 0x1FF9; beg = 0x1000; end = 0x1FFC }

abbrev blank : Memory
blank a = 0xAA

alloc-IsGiven_example :
    (o : Outcome) × (alloc pages 4 (2 ^ 3) 10 1 blank ≡ some o)
    × IsGiven pages (2 ^ 3) 4 10 1 blank o
alloc-IsGiven_example =
    alloc-IsGiven 3 (omega arith) pages (omega arith) (omega arith) 4 10 1 blank (omega arith)
      (omega arith)

alloc_past_end_example :
    (b : Arena) × (mem' : Memory) × (alloc nearly_full 8 (2 ^ 3) 2 2 blank
      ≡ some (allocated 0x2000 b mem'))
alloc_past_end_example =
    alloc_past_end 3 (omega arith) nearly_full (omega arith) (omega arith) 8 2 2 blank (omega arith)
      (omega arith) (omega arith)
