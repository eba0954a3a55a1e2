-- ===== src/Freestanding/Memory/Move.antt =====
-- `memmove` on ranges that may overlap.
use std.Path.{fun_ext}
use homegrown.Prelude.{
  ℕ, zero, suc, ◌+◌, ◌-◌, ◌%◌, ◌^◌, ◌≤◌, ◌<◌, ◌≡◌, ◌≢◌, refl, sym, ap, ◌∙◌, inl, inr, true, some,
  ltb, leb, ◌==◌, if◌then◌else◌, arith, Bool-cases,
}
use homegrown.Freestanding.Memory.{
  Memory, copy_word, align_forward, bytes_forward, words_forward, align_backward, bytes_backward,
  words_backward, then_words, no_overlap, memmove,
}
use homegrown.Freestanding.Memory.Ranges.{copy_word-zero, copy_word-copy_word, copy_word-before}
use homegrown.Freestanding.Memory.Copy.{Apart, memcpy-copy_word}

copy_word_self : (d n : ℕ) (mem : Memory) → copy_word n d d mem ≡ mem
copy_word_self d n mem = fun_ext (λ a. ground arith)

-- From the front, where the source is the higher of the two.
module _ (d s : ℕ) (mem : Memory) (below : d ≤ s) where
  step : (w i : ℕ) → copy_word w (d + i) (s + i) (copy_word i d s mem) ≡ copy_word (i + w) d s mem
  step w i = copy_word-copy_word w i i d s mem (omega arith) (omega arith) (inr (omega arith))

  bytes_forward_lem :
      (n i : ℕ) → bytes_forward n (d + i) (s + i) (copy_word i d s mem) ≡ copy_word (i + n) d s mem
  unfolding bytes_forward
  bytes_forward_lem zero i = ap (λ (t : ℕ). copy_word t d s mem) (omega arith)
  bytes_forward_lem (suc n) i =
      let e : d + i + 1 ≡ d + (i + 1) = omega arith in
      let f : s + i + 1 ≡ s + (i + 1) = omega arith in
      let g : i + 1 + n ≡ i + suc n = omega arith in
      rw (e, f, step 1 i, bytes_forward_lem n (i + 1), g) refl

  words_forward_lem :
      (fuel n i : ℕ)
      → n < fuel
      → words_forward fuel (d + i) (s + i) n (copy_word i d s mem)
        ≡ some (copy_word (i + n) d s mem)
  unfolding words_forward
  words_forward_lem zero n i enough = absurd (omega arith)
  words_forward_lem (suc fuel) n i enough = elim (Bool-cases (leb 8 n)) [
    | inr few ↦ rw few (ap some (bytes_forward_lem n i))
    | inl more ↦
        let e : d + i + 8 ≡ d + (i + 8) = omega arith in
        let f : s + i + 8 ≡ s + (i + 8) = omega arith in
        let g : i + 8 + (n - 8) ≡ i + n = ground arith in
        rw (more, e, f, step 8 i, words_forward_lem fuel (n - 8) (i + 8) (ground arith), g) refl
  ]

  forward :
      (fuel words n i : ℕ)
      → (8 - (d + i) % 8) % 8 < fuel
      → n < words
      → then_words
          (words_forward words)
          (align_forward fuel (d + i) (s + i) n (copy_word i d s mem))
        ≡ some (copy_word (i + n) d s mem)
  unfolding align_forward
  forward zero words n i near enough = absurd (omega arith)
  forward (suc fuel) words n i near enough = elim (Bool-cases ((d + i) % 8 == 0)) [
    | inl even ↦ rw even (words_forward_lem words n i enough)
    | inr odd ↦ elim (Bool-cases (n == 0)) [
      | inl none_left ↦
          let g : i ≡ i + n = ground arith in
          rw (odd, none_left) (ap (λ (t : ℕ). some (copy_word t d s mem)) g)
      | inr more ↦
          let e : d + i + 1 ≡ d + (i + 1) = omega arith in
          let f : s + i + 1 ≡ s + (i + 1) = omega arith in
          let g : i + 1 + (n - 1) ≡ i + n = ground arith in
          rw
            (
              odd,
              more,
              e,
              f,
              step 1 i,
              forward fuel words (n - 1) (i + 1) (ground arith) (omega arith),
              g,
            )
            refl
    ]
  ]

-- From the end, where the source is the lower of the two.
module _ (d s : ℕ) (mem : Memory) (below : s ≤ d) where
  back :
      (w n k : ℕ)
      → copy_word w (d + n) (s + n) (copy_word k (d + (n + w)) (s + (n + w)) mem)
        ≡ copy_word (w + k) (d + n) (s + n) mem
  back w n k =
      let e : d + (n + w) ≡ d + n + w = omega arith in
      let f : s + (n + w) ≡ s + n + w = omega arith in
      rw (e, f) (copy_word-before w n k (d + n) (s + n) mem (omega arith))

  bytes_backward_lem :
      (n k : ℕ) → bytes_backward n d s (copy_word k (d + n) (s + n) mem) ≡ copy_word (n + k) d s mem
  unfolding bytes_backward
  bytes_backward_lem zero k =
      let e : d + 0 ≡ d = omega arith in
      let f : s + 0 ≡ s = omega arith in let g : 0 + k ≡ k = omega arith in rw (e, f, g) refl
  bytes_backward_lem (suc n) k =
      let e : suc n ≡ n + 1 = omega arith in
      let g : n + (1 + k) ≡ n + 1 + k = omega arith in
      rw (e, back 1 n k, bytes_backward_lem n (1 + k), g) refl

  words_backward_lem :
      (fuel n k : ℕ)
      → n < fuel
      → words_backward fuel d s n (copy_word k (d + n) (s + n) mem)
        ≡ some (copy_word (n + k) d s mem)
  unfolding words_backward
  words_backward_lem zero n k enough = absurd (omega arith)
  words_backward_lem (suc fuel) n k enough = elim (Bool-cases (leb 8 n)) [
    | inr few ↦ rw few (ap some (bytes_backward_lem n k))
    | inl more ↦
        let e : n ≡ n - 8 + 8 = ground arith in
        let g : n - 8 + (8 + k) ≡ n + k = ground arith in
        let step : copy_word 8 (d + (n - 8)) (s + (n - 8)) (copy_word k (d + n) (s + n) mem)
            ≡ copy_word (8 + k) (d + (n - 8)) (s + (n - 8)) mem =
          ap (λ (t : ℕ). copy_word 8 (d + (n - 8)) (s + (n - 8)) (copy_word k (d + t) (s + t) mem))
            e
          ∙ back 8 (n - 8) k in
        rw (more, step, words_backward_lem fuel (n - 8) (8 + k) (ground arith), g) refl
  ]

  backward :
      (fuel words n k : ℕ)
      → (d + n) % 8 < fuel
      → n < words
      → then_words
          (words_backward words)
          (align_backward fuel d s n (copy_word k (d + n) (s + n) mem))
        ≡ some (copy_word (n + k) d s mem)
  unfolding align_backward
  backward zero words n k near enough = absurd (omega arith)
  backward (suc fuel) words n k near enough = elim (Bool-cases ((d + n) % 8 == 0)) [
    | inl even ↦ rw even (words_backward_lem words n k enough)
    | inr odd ↦ elim (Bool-cases (n == 0)) [
      | inl none_left ↦
          let z : n ≡ 0 = ground arith in
          let e : d + 0 ≡ d = omega arith in
          let f : s + 0 ≡ s = omega arith in
          let g : 0 + k ≡ k = omega arith in rw (odd, none_left) (rw (z, e, f, g) refl)
      | inr more ↦
          let e : n ≡ n - 1 + 1 = ground arith in
          let g : n - 1 + (1 + k) ≡ n + k = ground arith in
          let step : copy_word 1 (d + (n - 1)) (s + (n - 1)) (copy_word k (d + n) (s + n) mem)
              ≡ copy_word (1 + k) (d + (n - 1)) (s + (n - 1)) mem =
            ap
              (λ (t : ℕ). copy_word 1 (d + (n - 1)) (s + (n - 1)) (copy_word k (d + t) (s + t) mem))
              e
            ∙ back 1 (n - 1) k in
          rw (odd, more, step, backward fuel words (n - 1) (1 + k) (ground arith) (omega arith), g)
            refl
    ]
  ]

from_front :
    (d s n : ℕ) (mem : Memory)
    → d ≤ s
    → (if s % 8 == d % 8
        then then_words (words_forward (suc n)) (align_forward 9 d s n mem)
        else some (bytes_forward n d s mem))
      ≡ some (copy_word n d s mem)
from_front d s n mem below =
    let e : d + 0 ≡ d = omega arith in
    let f : s + 0 ≡ s = omega arith in
    let z = copy_word-zero d s mem in
    let g : 0 + n ≡ n = omega arith in
    elim (Bool-cases (s % 8 == d % 8)) [
      | inl alike ↦
          let run = forward d s mem below 9 (suc n) n 0 (omega arith) (omega arith) in
          rw alike (rw (e, f, z, g) at run)
      | inr unlike ↦
          let run = bytes_forward_lem d s mem below n 0 in
          rw unlike (ap some (rw (e, f, z, g) at run))
    ]

from_end :
    (d s n : ℕ) (mem : Memory)
    → s ≤ d
    → (if s % 8 == d % 8
        then then_words (words_backward (suc n)) (align_backward 9 d s n mem)
        else some (bytes_backward n d s mem))
      ≡ some (copy_word n d s mem)
from_end d s n mem below =
    let z = copy_word-zero (d + n) (s + n) mem in
    let g : n + 0 ≡ n = omega arith in
    elim (Bool-cases (s % 8 == d % 8)) [
      | inl alike ↦
          let run = backward d s mem below 9 (suc n) n 0 (omega arith) (omega arith) in
          rw alike (rw (z, g) at run)
      | inr unlike ↦
          let run = bytes_backward_lem d s mem below n 0 in rw unlike (ap some (rw (z, g) at run))
    ]

-- The test of `memmove` accepts only ranges that do not overlap.
no_overlap-Apart :
    (d s n : ℕ)
    → d + n ≤ 2 ^ 64
    → s + n ≤ 2 ^ 64
    → n ≤ 2 ^ 63
    → d ≢ s
    → no_overlap d s n ≡ true
    → Apart d s n
no_overlap-Apart d s n d_room s_room small ne test = elim (Bool-cases (leb (s + n) d)) [
  | inl before ↦ inl (ground arith)
  | inr more ↦ inr (ground arith)
]

-- On ranges that do not pass the address space, and of at most half of it, `memmove` ends, and
-- the bytes at `s` as they were before are copied to `d`, whether the ranges overlap or not. No
-- other byte is changed.
pub memmove-copy_word :
    (d s n : ℕ) (mem : Memory)
    → d + n ≤ 2 ^ 64
    → s + n ≤ 2 ^ 64
    → n ≤ 2 ^ 63
    → memmove d s n mem ≡ some (copy_word n d s mem)
unfolding memmove
memmove-copy_word d s n mem d_room s_room small = elim (Bool-cases (d == s)) [
  | inl same ↦
      let e : d ≡ s = ground arith in rw same (ap some (sym (rw e (copy_word_self s n mem))))
  | inr other ↦ elim (Bool-cases (no_overlap d s n)) [
    | inl apart ↦
        rw (other, apart)
          (memcpy-copy_word d s n mem
            (no_overlap-Apart d s n d_room s_room small (ground arith) apart))
    | inr near ↦ elim (Bool-cases (ltb d s)) [
      | inl low ↦ rw (other, near, low) (from_front d s n mem (ground arith))
      | inr high ↦ rw (other, near, high) (from_end d s n mem (ground arith))
    ]
  ]
]
