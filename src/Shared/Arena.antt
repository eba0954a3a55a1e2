-- ===== src/Shared/Arena.antt =====
-- arena.c of projects/shared/code/memory/allocator: the allocator that moves a pointer forward, as
-- built outside of POSIX.
pub mod Laws
mod Tests
use homegrown.Prelude.{
  ℕ, ◌+◌, ◌-◌, ◌*◌, ◌/◌, Bool, true, false, Option, none, some, ltb, if◌then◌else◌, u64, sub64,
  ◌==◌, bit_and,
}
use homegrown.Freestanding.Memory.{Memory, memset}
use mathlib.Core.Option.{map as map_some}

-- `Arena`; the target of the jump is the caller's.
pub record Arena : Type 0 where
  pub cur_free : ℕ
  pub beg : ℕ
  pub end : ℕ

abbrev pub zero_memory : ℕ
zero_memory = 1

abbrev pub nullptr_on_fail : ℕ
nullptr_on_fail = 2

-- How an allocation ends: with a pointer, the arena and the memory, with `nullptr`, or with the
-- jump to the arena's buffer.
pub data Outcome : Type 0 where
  allocated : ℕ → Arena → Memory → Outcome
  null_pointer long_jump : Outcome

abbrev pub padding_of : Arena → ℕ → ℕ
padding_of a align = bit_and (sub64 0 a.cur_free) (sub64 align 1)

-- `memset`, or the memory as it is.
pub cleared : ℕ → ℕ → ℕ → Memory → Option Memory
unfolding memset
cleared flags p total mem =
    if bit_and flags zero_memory == 0 then some mem else memset p 0 total mem

-- `alloc`
unfoldable pub alloc : Arena → ℕ → ℕ → ℕ → ℕ → Memory → Option Outcome
unfolding cleared
alloc a size align count flags mem =
    let avail = sub64 a.end a.cur_free in
    let padding = padding_of a align in
    let total = u64 (size * count) in
    let p = u64 (a.cur_free + padding) in
    let moved : Arena = record a { cur_free = u64 (a.cur_free + u64 (padding + total)) } in
    let given = map_some (allocated p moved) (cleared flags p total mem) in
    let failed = if bit_and flags nullptr_on_fail == 0 then long_jump else null_pointer in
    if ltb (sub64 avail padding / size) count then some failed else given
