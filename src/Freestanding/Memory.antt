-- ===== src/Freestanding/Memory.antt =====
-- projects/freestanding/code/memory/manipulation/src/manipulation.c: memcpy, memmove, memset and
-- memcmp. A memory gives the byte at each address; pointers are addresses.
pub mod Ranges
pub mod Copy
pub mod Set
pub mod Move
pub mod Compare
mod Tests
use mathlib.Core.Option.{map as map_some}
use homegrown.Prelude.{
  ℕ, zero, suc, ◌+◌, ◌-◌, ◌*◌, ◌/◌, ◌%◌, ◌^◌, Bool, true, false, not, ◌&&◌, Option, none, some, ltb,
  leb, ◌==◌, if◌then◌else◌, u8, u32, u64, sub64, sub32,
}

abbrev pub Memory : Type 0
Memory = ℕ → ℕ

-- `*(T *)d = *(T *)s` for a `T` of `w` bytes: all are read before one is written.
abbrev pub copy_word : ℕ → ℕ → ℕ → Memory → Memory
copy_word w d s mem a = if leb d a && ltb a (d + w) then mem (s + (a - d)) else mem a

-- `*(T *)p = value` for an integer of `w` bytes, the lowest first.
abbrev pub store_word : ℕ → ℕ → ℕ → Memory → Memory
store_word w p value mem a = if leb p a && ltb a (p + w) then value / 256 ^ (a - p) % 256 else mem a

-- `*(T *)p = {X, X, ..}` for `w` bytes.
abbrev pub stamp : ℕ → ℕ → ℕ → Memory → Memory
stamp w p x mem a = if leb p a && ltb a (p + w) then x else mem a

-- The loop of `memcpy`, from the round after the first: whole chunks up to the last one.
pub memcpy_chunks : ℕ → ℕ → ℕ → ℕ → Memory → Option Memory
memcpy_chunks zero d s last_word_d mem = none
memcpy_chunks (suc fuel) d s last_word_d mem =
    let stamped = copy_word 32 d s mem in
    let rest = memcpy_chunks fuel (d + 32) (s + 32) last_word_d stamped in
    if ltb (d + 32) last_word_d then rest else some stamped

-- `memcpy` for fewer than 5 bytes.
pub memcpy_few : ℕ → ℕ → ℕ → Memory → Memory
memcpy_few d s n mem =
    let ends = copy_word 1 (d + n - 1) (s + n - 1) (copy_word 1 d s mem) in
    if n == 0
    then mem
    else if leb n 2
    then ends
    else copy_word 1 (d + 2) (s + 2) (copy_word 1 (d + 1) (s + 1) ends)

-- Two words that overlap in the middle.
abbrev pub copy_ends : ℕ → ℕ → ℕ → ℕ → Memory → Memory
copy_ends w d s n mem = copy_word w (d + n - w) (s + n - w) (copy_word w d s mem)

unfoldable pub memcpy : ℕ → ℕ → ℕ → Memory → Option Memory
memcpy d s n mem =
    let chunks = memcpy_chunks n d s (d + n - 32) mem in
    let many = map_some (copy_word 32 (d + n - 32) (s + n - 32)) chunks in
    if ltb n 5
    then some (memcpy_few d s n mem)
    else if leb n 16
    then some (if leb 8 n then copy_ends 8 d s n mem else copy_ends 4 d s n mem)
    else if leb n 32
    then some (copy_ends 16 d s n mem)
    else many

-- How the alignment of `memmove` ends: with all bytes moved, or with pointers and a count.
pub data Aligned : Type 0 where
  returned : Memory → Aligned
  aligned : ℕ → ℕ → ℕ → Memory → Aligned
  out_of_fuel : Aligned

-- `while ((U64)d % WS)`
pub align_forward : ℕ → ℕ → ℕ → ℕ → Memory → Aligned
align_forward zero d s n mem = out_of_fuel
align_forward (suc fuel) d s n mem =
    let rest = align_forward fuel (d + 1) (s + 1) (n - 1) (copy_word 1 d s mem) in
    if d % 8 == 0 then aligned d s n mem else if n == 0 then returned mem else rest

-- `for (; (U64)n >= WS; n -= WS, d += WS, s += WS)` and the bytes that remain.
pub bytes_forward : ℕ → ℕ → ℕ → Memory → Memory
bytes_forward zero d s mem = mem
bytes_forward (suc n) d s mem = bytes_forward n (d + 1) (s + 1) (copy_word 1 d s mem)

pub words_forward : ℕ → ℕ → ℕ → ℕ → Memory → Option Memory
words_forward zero d s n mem = none
words_forward (suc fuel) d s n mem =
    let rest = words_forward fuel (d + 8) (s + 8) (n - 8) (copy_word 8 d s mem) in
    if leb 8 n then rest else some (bytes_forward n d s mem)

-- `while ((U64)(d + n) % WS)`
pub align_backward : ℕ → ℕ → ℕ → ℕ → Memory → Aligned
align_backward zero d s n mem = out_of_fuel
align_backward (suc fuel) d s n mem =
    let rest = align_backward fuel d s (n - 1) (copy_word 1 (d + (n - 1)) (s + (n - 1)) mem) in
    if (d + n) % 8 == 0 then aligned d s n mem else if n == 0 then returned mem else rest

pub bytes_backward : ℕ → ℕ → ℕ → Memory → Memory
bytes_backward zero d s mem = mem
bytes_backward (suc n) d s mem = bytes_backward n d s (copy_word 1 (d + n) (s + n) mem)

pub words_backward : ℕ → ℕ → ℕ → ℕ → Memory → Option Memory
words_backward zero d s n mem = none
words_backward (suc fuel) d s n mem =
    let rest = words_backward fuel d s (n - 8) (copy_word 8 (d + (n - 8)) (s + (n - 8)) mem) in
    if leb 8 n then rest else some (bytes_backward n d s mem)

abbrev pub then_words : (ℕ → ℕ → ℕ → Memory → Option Memory) → Aligned → Option Memory
then_words f (returned mem) = some mem
then_words f (aligned d s n mem) = f d s n mem
then_words f out_of_fuel = none

-- `(U64)s - (U64)d - n <= -2ULL * n`
abbrev pub no_overlap : ℕ → ℕ → ℕ → Bool
no_overlap d s n = leb (sub64 (sub64 s d) n) (u64 ((2 ^ 64 - 2) * n))

unfoldable pub memmove : ℕ → ℕ → ℕ → Memory → Option Memory
memmove d s n mem =
    let forward = then_words (words_forward (suc n)) (align_forward 9 d s n mem) in
    let backward = then_words (words_backward (suc n)) (align_backward 9 d s n mem) in
    let copied = memcpy d s n mem in
    if d == s
    then some mem
    else if no_overlap d s n
    then copied
    else if ltb d s
    then if s % 8 == d % 8 then forward else some (bytes_forward n d s mem)
    else if s % 8 == d % 8
    then backward
    else some (bytes_backward n d s mem)

-- `val8`, a byte in each of the eight places.
abbrev pub eight_times : ℕ → ℕ
eight_times c = u64 (0x0101_0101_0101_0101 * u8 c)

pub small_memset : ℕ → ℕ → ℕ → Memory → Memory
small_memset s c n mem =
    let ends = stamp 1 (s + n - 1) (u8 c) (stamp 1 s (u8 c) mem) in
    if ltb n 5
    then if n == 0
      then mem
      else if leb n 2
      then ends
      else stamp 1 (s + 2) (u8 c) (stamp 1 (s + 1) (u8 c) ends)
    else if leb n 16
    then if leb 8 n
      then store_word 8 (s + n - 8) (eight_times c) (store_word 8 s (eight_times c) mem)
      else store_word 4 (s + n - 4) (u32 (eight_times c)) (store_word 4 s (u32 (eight_times c)) mem)
    else stamp 16 s (u8 c) (stamp 16 (s + n - 16) (u8 c) mem)

-- The unrolled loop of `huge_memset`; it gives the pointer where it stops.
pub stamp_fives : ℕ → ℕ → ℕ → ℕ → Memory → Option (ℕ × Memory)
stamp_fives zero p buffer_end x mem = none
stamp_fives (suc fuel) p buffer_end x mem =
    let rest = stamp_fives fuel (p + 160) buffer_end x (
      stamp 32 (p + 128) x
        (stamp 32 (p + 96) x (stamp 32 (p + 64) x (stamp 32 (p + 32) x (stamp 32 p x mem))))) in
    if ltb (p + 160) buffer_end then rest else some (p, mem)

-- `TRY_STAMP_32_BYTES`
abbrev pub try_stamp : ℕ → ℕ → ℕ × Memory → ℕ × Memory
try_stamp last_word x (p, mem) = if ltb p last_word then (p + 32, stamp 32 p x mem) else (p, mem)

pub huge_memset : ℕ → ℕ → ℕ → Memory → Option Memory
huge_memset s c n mem =
    let first_aligned = s + 32 - s % 32 in
    let last_word = s + n - 32 in
    let try = try_stamp last_word (u8 c) in
    map_some (λ (r : ℕ × Memory). stamp 32 last_word (u8 c) (try (try (try (try r)))).1)
      (stamp_fives n first_aligned (s + n) (u8 c) (stamp 32 s (u8 c) mem))

pub memset_chunks : ℕ → ℕ → ℕ → ℕ → Memory → Option Memory
memset_chunks zero p last_word x mem = none
memset_chunks (suc fuel) p last_word x mem =
    let stamped = stamp 32 p x mem in
    let rest = memset_chunks fuel (p + 32) last_word x stamped in
    if ltb (p + 32) last_word then rest else some stamped

unfoldable pub memset : ℕ → ℕ → ℕ → Memory → Option Memory
memset s c n mem =
    let chunks = memset_chunks n s (s + n - 32) (u8 c) mem in
    let middle = map_some (stamp 32 (s + n - 32) (u8 c)) chunks in
    let huge = huge_memset s c n mem in
    if ltb n 32 then some (small_memset s c n mem) else if ltb 160 n then huge else middle

-- `memcmp`: the loop stops at the first difference; an `int` holds it modulo 2 ^ 32.
pub memcmp_loop : ℕ → ℕ → ℕ → Memory → ℕ
memcmp_loop zero s1 s2 mem = 0
memcmp_loop (suc n) s1 s2 mem =
    let rest = memcmp_loop n (s1 + 1) (s2 + 1) mem in
    if mem s1 == mem s2 then rest else sub32 (mem s1) (mem s2)

unfoldable pub memcmp : ℕ → ℕ → ℕ → Memory → ℕ
memcmp s1 s2 n mem = if s1 == s2 then 0 else memcmp_loop n s1 s2 mem
