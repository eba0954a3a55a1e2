-- ===== src/Freestanding/Memory/Tests.antt =====
-- Runs of the memory functions on small memories.
use homegrown.Prelude.{ℕ, ◌+◌, ◌%◌, ◌<◌, ◌≡◌, ◌↔◌, inl, some, arith}
use native.Mathlib.Nat.{mod-lt}
use homegrown.Freestanding.Memory.{Memory, copy_word, stamp, memcpy, memmove, memset, memcmp}
use homegrown.Freestanding.Memory.Copy.{memcpy-copy_word}
use homegrown.Freestanding.Memory.Set.{memset-stamp}
use homegrown.Freestanding.Memory.Move.{memmove-copy_word}
use homegrown.Freestanding.Memory.Compare.{memcmp_iff}

abbrev counted : Memory
counted a = a % 256

memcpy-copy_word_example : memcpy 1000 100 45 counted ≡ some (copy_word 45 1000 100 counted)
memcpy-copy_word_example = memcpy-copy_word 1000 100 45 counted (inl (omega arith))

memmove-copy_word_example : memmove 104 100 45 counted ≡ some (copy_word 45 104 100 counted)
memmove-copy_word_example =
    memmove-copy_word 104 100 45 counted (omega arith) (omega arith) (omega arith)

memset-stamp_example : memset 1000 7 500 counted ≡ some (stamp 500 1000 7 counted)
memset-stamp_example = memset-stamp 1000 7 500 counted

memcmp_iff_example :
    (memcmp 1 257 3 counted ≡ 0) ↔ ((i : ℕ) → i < 3 → counted (1 + i) ≡ counted (257 + i))
memcmp_iff_example = memcmp_iff 1 257 3 counted (λ a. mod-lt a (omega arith))
