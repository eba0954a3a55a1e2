-- ===== src/Freestanding/Memory/Copy.antt =====
-- `memcpy` on ranges that do not overlap.
use mathlib.Core.Option.{map as map_some}
use homegrown.Prelude.{
  ℕ, zero, suc, ◌+◌, ◌-◌, ◌*◌, ◌≤◌, ◌<◌, ◌≡◌, refl, sym, ap, ◌⊎◌, inl, inr, some, ltb, ltb→lt, leb,
  arith, Bool-cases,
}
use homegrown.Freestanding.Memory.{Memory, copy_word, copy_ends, memcpy_chunks, memcpy_few, memcpy}
use homegrown.Freestanding.Memory.Ranges.{copy_word-zero, copy_word-copy_word, copy_word-swap}

abbrev pub Apart : ℕ → ℕ → ℕ → Type 0
Apart d s n = (s + n ≤ d) ⊎ (d + n ≤ s)

module _ (d s n : ℕ) (mem : Memory) (apart : Apart d s n) where
  -- After the first `i` bytes, `w` bytes from the `k`-th on.
  next :
      (w k i : ℕ)
      → k ≤ i
      → i ≤ k + w
      → k + w ≤ n
      → copy_word w (d + k) (s + k) (copy_word i d s mem) ≡ copy_word (k + w) d s mem
  next w k i low high inside = copy_word-copy_word w k i d s mem low high (where_apart apart)
    where
      where_apart : Apart d s n → (s + k + w ≤ d) ⊎ (d + i ≤ s + k)
      where_apart (inl h) = inl (omega arith)
      where_apart (inr h) = inr (omega arith)

  ends : (w : ℕ) → w ≤ n → n ≤ w + w → copy_ends w d s n mem ≡ copy_word n d s mem
  ends w low high =
      let e : d + n - w ≡ d + (n - w) = omega arith in
      let f : s + n - w ≡ s + (n - w) = omega arith in
      let g : n - w + w ≡ n = omega arith in
      rw (e, f, next w (n - w) w (omega arith) (omega arith) (omega arith), g) refl

  chunks :
      (fuel i : ℕ)
      → i + 32 ≤ n
      → n ≤ i + 32 * fuel
      → (k : ℕ) × (memcpy_chunks fuel (d + i) (s + i) (d + n - 32) (copy_word i d s mem)
          ≡ some (copy_word k d s mem))
        × (n ≤ k + 32)
        × (k ≤ n)
  unfolding memcpy_chunks
  chunks zero i inside enough = absurd (omega arith)
  chunks (suc fuel) i inside enough =
      let step = next 32 i i (omega arith) (omega arith) inside in
      let e : d + i + 32 ≡ d + (i + 32) = omega arith in
      let f : s + i + 32 ≡ s + (i + 32) = omega arith in
      elim (Bool-cases (ltb (d + i + 32) (d + n - 32))) [
        | inl more ↦
            let (k, run, low, high) = chunks fuel (i + 32) (ground arith) (omega arith) in
            (k, rw (more, step, e, f, run) refl, low, high)
        | inr last ↦ (i + 32, rw (last, step) refl, ground arith, omega arith)
      ]

  whole :
      32 < n
      → map_some (copy_word 32 (d + n - 32) (s + n - 32)) (memcpy_chunks n d s (d + n - 32) mem)
        ≡ some (copy_word n d s mem)
  whole large =
      let (k, run, low, high) = chunks n 0 (omega arith) (omega arith) in
      let d_zero : d + 0 ≡ d = omega arith in
      let s_zero : s + 0 ≡ s = omega arith in
      let run' : memcpy_chunks n d s (d + n - 32) mem ≡ some (copy_word k d s mem) =
        rw (d_zero, s_zero, copy_word-zero d s mem) at run in
      let e : d + n - 32 ≡ d + (n - 32) = omega arith in
      let f : s + n - 32 ≡ s + (n - 32) = omega arith in
      let g : n - 32 + 32 ≡ n = omega arith in
      rw run'
        (ap some (rw (e, f, next 32 (n - 32) k (omega arith) (omega arith) (omega arith), g) refl))

module _ (d s : ℕ) (mem : Memory) where
  Apart-at : (n j k : ℕ) → Apart d s n → j ≤ k → k < n → (s + k < d + j) ⊎ (d + k < s + j)
  Apart-at n j k (inl h) low high = inl (omega arith)
  Apart-at n j k (inr h) low high = inr (omega arith)

  few_one : Apart d s 1 → memcpy_few d s 1 mem ≡ copy_word 1 d s mem
  unfolding memcpy_few
  few_one apart =
      let e : d + 1 - 1 ≡ d + 0 = omega arith in
      let f : s + 1 - 1 ≡ s + 0 = omega arith in
      rw (e, f, next d s 1 mem apart 1 0 1 (omega arith) (omega arith) (omega arith)) refl

  few_two : Apart d s 2 → memcpy_few d s 2 mem ≡ copy_word 2 d s mem
  unfolding memcpy_few
  few_two apart =
      let e : d + 2 - 1 ≡ d + 1 = omega arith in
      let f : s + 2 - 1 ≡ s + 1 = omega arith in
      rw (e, f, next d s 2 mem apart 1 1 1 (omega arith) (omega arith) (omega arith)) refl

  few_three : Apart d s 3 → memcpy_few d s 3 mem ≡ copy_word 3 d s mem
  unfolding memcpy_few
  few_three apart =
      let e : d + 3 - 1 ≡ d + 2 = omega arith in
      let f : s + 3 - 1 ≡ s + 2 = omega arith in
      rw
        (
          e,
          f,
          copy_word-swap 1 2 d s (copy_word 1 d s mem) (omega arith)
              (Apart-at 3 1 2 apart (omega arith) (omega arith)),
          next d s 3 mem apart 1 1 1 (omega arith) (omega arith) (omega arith),
          next d s 3 mem apart 1 2 2 (omega arith) (omega arith) (omega arith),
          next d s 3 mem apart 1 2 3 (omega arith) (omega arith) (omega arith),
        )
        refl

  few_four : Apart d s 4 → memcpy_few d s 4 mem ≡ copy_word 4 d s mem
  unfolding memcpy_few
  few_four apart =
      let e : d + 4 - 1 ≡ d + 3 = omega arith in
      let f : s + 4 - 1 ≡ s + 3 = omega arith in
      rw
        (
          e,
          f,
          copy_word-swap 1 3 d s (copy_word 1 d s mem) (omega arith)
              (Apart-at 4 1 3 apart (omega arith) (omega arith)),
          next d s 4 mem apart 1 1 1 (omega arith) (omega arith) (omega arith),
          copy_word-swap 2 3 d s (copy_word 2 d s mem) (omega arith)
              (Apart-at 4 2 3 apart (omega arith) (omega arith)),
          next d s 4 mem apart 1 2 2 (omega arith) (omega arith) (omega arith),
          next d s 4 mem apart 1 3 3 (omega arith) (omega arith) (omega arith),
        )
        refl

few-zero : (d s : ℕ) (mem : Memory) → memcpy_few d s 0 mem ≡ copy_word 0 d s mem
unfolding memcpy_few
few-zero d s mem = sym (copy_word-zero d s mem)

-- The fewer than 5 bytes, one by one.
few : (d s n : ℕ) (mem : Memory) → Apart d s n → n < 5 → memcpy_few d s n mem ≡ copy_word n d s mem
few d s zero mem apart small = few-zero d s mem
few d s (suc zero) mem apart small = few_one d s mem apart
few d s (suc (suc zero)) mem apart small = few_two d s mem apart
few d s (suc (suc (suc zero))) mem apart small = few_three d s mem apart
few d s (suc (suc (suc (suc zero)))) mem apart small = few_four d s mem apart
few d s (suc (suc (suc (suc (suc n))))) mem apart small = absurd (omega arith)

-- The bytes at `s` are copied to `d`, and no other byte is changed.
pub memcpy-copy_word :
    (d s n : ℕ) (mem : Memory) → Apart d s n → memcpy d s n mem ≡ some (copy_word n d s mem)
unfolding memcpy
memcpy-copy_word d s n mem apart = elim (Bool-cases (ltb n 5)) [
  | inl tiny ↦ rw tiny (ap some (few d s n mem apart (ltb→lt n 5 tiny)))
  | inr more ↦ elim (Bool-cases (leb n 16)) [
    | inl small ↦ elim (Bool-cases (leb 8 n)) [
      | inl eight ↦
          rw (more, small, eight) (ap some (ends d s n mem apart 8 (ground arith) (ground arith)))
      | inr four ↦
          rw (more, small, four) (ap some (ends d s n mem apart 4 (ground arith) (ground arith)))
    ]
    | inr large ↦ elim (Bool-cases (leb n 32)) [
      | inl sixteen ↦
          rw (more, large, sixteen)
            (ap some (ends d s n mem apart 16 (ground arith) (ground arith)))
      | inr huge ↦ rw (more, large, huge) (whole d s n mem apart (ground arith))
    ]
  ]
]
