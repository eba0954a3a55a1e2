-- ===== src/Freestanding/Memory/Ranges.antt =====
-- Ranges of bytes that are written in pieces: what two writes come to.
use std.Path.{fun_ext}
use homegrown.Prelude.{ℕ, ◌+◌, ◌≤◌, ◌<◌, ◌≡◌, ◌⊎◌, inl, inr, arith}
use homegrown.Freestanding.Memory.{Memory, copy_word, stamp}

pub copy_word-zero : (d s : ℕ) (mem : Memory) → copy_word 0 d s mem ≡ mem
copy_word-zero d s mem = fun_ext (λ a. ground arith)

-- `copy_word n d s mem` is the memory with all `n` bytes copied. After the first `i` of them, the
-- `w` bytes from the `k`-th on are copied, which neither leave a gap nor read a copied byte.
pub copy_word-copy_word :
    (w k i d s : ℕ) (mem : Memory)
    → k ≤ i
    → i ≤ k + w
    → (s + k + w ≤ d) ⊎ (d + i ≤ s + k)
    → copy_word w (d + k) (s + k) (copy_word i d s mem) ≡ copy_word (k + w) d s mem
copy_word-copy_word w k i d s mem low high clear = fun_ext (λ a. ground arith)

-- The same from the end: `i` bytes from the `k`-th on were copied, `w` bytes before them follow.
pub copy_word-before :
    (w k i d s : ℕ) (mem : Memory)
    → s ≤ d
    → copy_word w d s (copy_word i (d + w) (s + w) mem) ≡ copy_word (w + i) d s mem
copy_word-before w k i d s mem below = fun_ext (λ a. ground arith)

-- Bytes whose sources and targets are apart can be copied in either order.
pub copy_word-swap :
    (j k d s : ℕ) (mem : Memory)
    → j < k
    → (s + k < d + j) ⊎ (d + k < s + j)
    → copy_word 1 (d + j) (s + j) (copy_word 1 (d + k) (s + k) mem)
      ≡ copy_word 1 (d + k) (s + k) (copy_word 1 (d + j) (s + j) mem)
copy_word-swap j k d s mem below (inl apart) = fun_ext (λ a. ground arith)
copy_word-swap j k d s mem below (inr apart) = fun_ext (λ a. ground arith)

pub stamp-zero : (p x : ℕ) (mem : Memory) → stamp 0 p x mem ≡ mem
stamp-zero p x mem = fun_ext (λ a. ground arith)

pub stamp-stamp :
    (w k i p x : ℕ) (mem : Memory)
    → k ≤ i
    → i ≤ k + w
    → stamp w (p + k) x (stamp i p x mem) ≡ stamp (k + w) p x mem
stamp-stamp w k i p x mem low high = fun_ext (λ a. ground arith)

pub stamp-before :
    (w k i p x : ℕ) (mem : Memory)
    → k ≤ w
    → w ≤ k + i
    → stamp w p x (stamp i (p + k) x mem) ≡ stamp (k + i) p x mem
stamp-before w k i p x mem low high = fun_ext (λ a. ground arith)
