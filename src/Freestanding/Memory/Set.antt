-- ===== src/Freestanding/Memory/Set.antt =====
-- `memset` for every length.
use std.Path.{fun_ext}
use mathlib.Core.Option.{map as map_some}
use homegrown.Prelude.{
  ℕ, zero, suc, ◌+◌, ◌-◌, ◌*◌, ◌/◌, ◌%◌, ◌^◌, ◌≤◌, ◌<◌, ◌≡◌, refl, sym, ap, inl, inr, some, false,
  ltb, ltb→lt, leb, ◌==◌, u8, u32, arith, Bool-cases,
}
use homegrown.Freestanding.Memory.{
  Memory, store_word, stamp, eight_times, small_memset, stamp_fives, try_stamp, huge_memset,
  memset_chunks, memset,
}
use homegrown.Freestanding.Memory.Ranges.{stamp-zero, stamp-stamp}

eight_times-byte : (c j : ℕ) → j < 8 → eight_times c / 256 ^ j % 256 ≡ u8 c
eight_times-byte c zero h = omega arith
eight_times-byte c (suc zero) h = omega arith
eight_times-byte c (suc (suc zero)) h = omega arith
eight_times-byte c (suc (suc (suc zero))) h = omega arith
eight_times-byte c (suc (suc (suc (suc zero)))) h = omega arith
eight_times-byte c (suc (suc (suc (suc (suc zero))))) h = omega arith
eight_times-byte c (suc (suc (suc (suc (suc (suc zero)))))) h = omega arith
eight_times-byte c (suc (suc (suc (suc (suc (suc (suc zero))))))) h = omega arith
eight_times-byte c (suc (suc (suc (suc (suc (suc (suc (suc j)))))))) h = absurd (omega arith)

four_times-byte : (c j : ℕ) → j < 4 → u32 (eight_times c) / 256 ^ j % 256 ≡ u8 c
four_times-byte c zero h = omega arith
four_times-byte c (suc zero) h = omega arith
four_times-byte c (suc (suc zero)) h = omega arith
four_times-byte c (suc (suc (suc zero))) h = omega arith
four_times-byte c (suc (suc (suc (suc j)))) h = absurd (omega arith)

-- A stored word whose bytes are all the same is a stamp.
store_word-stamp :
    (w p value x : ℕ) (mem : Memory)
    → ((j : ℕ) → j < w → value / 256 ^ j % 256 ≡ x)
    → store_word w p value mem ≡ stamp w p x mem
store_word-stamp w p value x mem bytes = fun_ext at_address
  where
    at_address : (a : ℕ) → store_word w p value mem a ≡ stamp w p x mem a
    at_address a = elim (Bool-cases (leb p a)) [
      | inr before ↦ rw before refl
      | inl from ↦ elim (Bool-cases (ltb a (p + w))) [
        | inr after ↦ rw (from, after) refl
        | inl inside ↦ rw (from, inside) (bytes (a - p) (ground arith))
      ]
    ]

module _ (s c n : ℕ) (mem : Memory) where
  next :
      (w k i : ℕ)
      → k ≤ i
      → i ≤ k + w
      → stamp w (s + k) (u8 c) (stamp i s (u8 c) mem) ≡ stamp (k + w) s (u8 c) mem
  next w k i low high = stamp-stamp w k i s (u8 c) mem low high

  last_of :
      (w i : ℕ)
      → n ≤ i + w
      → w ≤ n
      → i ≤ n
      → stamp w (s + n - w) (u8 c) (stamp i s (u8 c) mem) ≡ stamp n s (u8 c) mem
  last_of w i low high inside = fun_ext (λ a. ground arith)

  bytes :
      3 ≤ n
      → n < 5
      → stamp 1
          (s + 2)
          (u8 c)
          (stamp 1 (s + 1) (u8 c) (stamp 1 (s + n - 1) (u8 c) (stamp 1 s (u8 c) mem)))
        ≡ stamp n s (u8 c) mem
  bytes low high = fun_ext (λ a. ground arith)

  both :
      (16 < n) × (n ≤ 32)
      → stamp 16 s (u8 c) (stamp 16 (s + n - 16) (u8 c) mem) ≡ stamp n s (u8 c) mem
  both (low, high) = fun_ext (λ a. ground arith)

  small : n < 32 → small_memset s c n mem ≡ stamp n s (u8 c) mem
  unfolding small_memset
  small narrow = elim (Bool-cases (ltb n 5)) [
    | inl tiny ↦ elim (Bool-cases (n == 0)) [
      | inl empty ↦
          let z : n ≡ 0 = ground arith in rw (tiny, empty) (rw z (sym (stamp-zero s (u8 c) mem)))
      | inr more ↦ elim (Bool-cases (leb n 2)) [
        | inl two ↦ rw (tiny, more, two) (last_of 1 1 (ground arith) (ground arith) (ground arith))
        | inr four ↦ rw (tiny, more, four) (bytes (ground arith) (ground arith))
      ]
    ]
    | inr more ↦ elim (Bool-cases (leb n 16)) [
      | inl words ↦ elim (Bool-cases (leb 8 n)) [
        | inl eight ↦
            rw
              (
                more,
                words,
                eight,
                store_word-stamp 8 s (eight_times c) (u8 c) mem (eight_times-byte c),
                store_word-stamp 8 (s + n - 8) (eight_times c) (u8 c) (stamp 8 s (u8 c) mem)
                    (eight_times-byte c),
              )
              (last_of 8 8 (ground arith) (ground arith) (ground arith))
        | inr four ↦
            rw
              (
                more,
                words,
                four,
                store_word-stamp 4 s (u32 (eight_times c)) (u8 c) mem (four_times-byte c),
                store_word-stamp 4 (s + n - 4) (u32 (eight_times c)) (u8 c) (stamp 4 s (u8 c) mem)
                    (four_times-byte c),
              )
              (last_of 4 4 (ground arith) (ground arith) (ground arith))
      ]
      | inr sixteen ↦ rw (more, sixteen) (both (ground arith))
    ]
  ]

  chunks :
      (fuel i : ℕ)
      → i + 32 ≤ n
      → n ≤ i + 32 * fuel
      → (k : ℕ) × (memset_chunks fuel (s + i) (s + n - 32) (u8 c) (stamp i s (u8 c) mem)
          ≡ some (stamp k s (u8 c) mem))
        × (n ≤ k + 32)
        × (k ≤ n)
  unfolding memset_chunks
  chunks zero i inside enough = absurd (omega arith)
  chunks (suc fuel) i inside enough =
      let step = next 32 i i (omega arith) (omega arith) in
      let e : s + i + 32 ≡ s + (i + 32) = omega arith in
      elim (Bool-cases (ltb (s + i + 32) (s + n - 32))) [
        | inl more ↦
            let (k, run, low, high) = chunks fuel (i + 32) (ground arith) (omega arith) in
            (k, rw (more, step, e, run) refl, low, high)
        | inr last ↦ (i + 32, rw (last, step) refl, ground arith, omega arith)
      ]

  -- The pointer is at the `i`-th byte, with the first `m` set and at most `b` to go.
  abbrev Reached : ℕ → ℕ × Memory → Type 0
  Reached b r =
      (i m : ℕ) × (r ≡ (s + i, stamp m s (u8 c) mem))
      × (i ≤ m)
      × (m ≤ i + 32)
      × (m ≤ n)
      × (n ≤ i + b)

  tried :
      (b : ℕ) (r : ℕ × Memory)
      → 32 ≤ n
      → 32 ≤ b
      → Reached (32 + b) r
      → Reached b (try_stamp (s + n - 32) (u8 c) r)
  tried b r wide room (i, m, at, low, near, inside, left) =
      elim (Bool-cases (ltb (s + i) (s + n - 32))) [
        | inl more ↦
            let e : s + i + 32 ≡ s + (i + 32) = omega arith in
            (
              i + 32,
              i + 32,
              rw (at, more, next 32 i m low near, e) refl,
              omega arith,
              omega arith,
              ground arith,
              omega arith,
            )
        | inr last ↦ (i, m, rw (at, last) refl, low, near, inside, ground arith)
      ]

  five :
      (i m : ℕ)
      → i ≤ m
      → m ≤ i + 32
      → stamp 32 (s + i + 128) (u8 c) (
          stamp 32 (s + i + 96) (u8 c) (
            stamp 32
              (s + i + 64)
              (u8 c)
              (stamp 32 (s + i + 32) (u8 c) (stamp 32 (s + i) (u8 c) (stamp m s (u8 c) mem)))))
        ≡ stamp (i + 160) s (u8 c) mem
  five i m low near =
      let sum : (k : ℕ) → i + k + 32 ≡ i + (k + 32) = λ k. omega arith in
      let at : (k : ℕ) → s + i + k ≡ s + (i + k) = λ k. omega arith in
      rw
        (
          at 32,
          at 64,
          at 96,
          at 128,
          next 32 i m low near,
          next 32 (i + 32) (i + 32) (omega arith) (omega arith),
          sum 32,
          next 32 (i + 64) (i + 64) (omega arith) (omega arith),
          sum 64,
          next 32 (i + 96) (i + 96) (omega arith) (omega arith),
          sum 96,
          next 32 (i + 128) (i + 128) (omega arith) (omega arith),
          sum 128,
        )
        refl

  fives :
      (fuel i m : ℕ)
      → i ≤ m
      → m ≤ i + 32
      → m ≤ n
      → n < i + fuel * 160 + 160
      → (r : ℕ × Memory) × (stamp_fives (suc fuel) (s + i) (s + n) (u8 c) (stamp m s (u8 c) mem)
          ≡ some r)
        × Reached 160 r
  unfolding stamp_fives
  fives zero i m low near inside enough =
      let stop : ltb (s + i + 160) (s + n) ≡ false = ground arith in
      ((s + i, stamp m s (u8 c) mem), rw stop refl, (i, m, refl, low, near, inside, omega arith))
  fives (suc fuel) i m low near inside enough = elim (Bool-cases (ltb (s + i + 160) (s + n))) [
    | inr last ↦
        ((s + i, stamp m s (u8 c) mem), rw last refl, (i, m, refl, low, near, inside, ground arith))
    | inl more ↦
        let e : s + i + 160 ≡ s + (i + 160) = omega arith in
        let (r, run, reached) =
          fives fuel (i + 160) (i + 160) (omega arith) (omega arith) (ground arith) (omega arith) in
        (r, rw (more, five i m low near, e, run) refl, reached)
  ]

  whole : 160 < n → huge_memset s c n mem ≡ some (stamp n s (u8 c) mem)
  unfolding huge_memset
  whole large =
      let i = 32 - s % 32 in
      let e : s + 32 - s % 32 ≡ s + i = omega arith in
      let f : n ≡ suc (n - 1) = omega arith in
      let (r, run, reached) =
        fives (n - 1) i 32 (omega arith) (omega arith) (omega arith) (omega arith) in
      let try = try_stamp (s + n - 32) (u8 c) in
      let run' : stamp_fives n (s + i) (s + n) (u8 c) (stamp 32 s (u8 c) mem) ≡ some r =
        rw (← f) at run in
      let (j, m, at, low, near, inside, left) =
        tried 32 (try (try (try r))) (omega arith) (omega arith) (
          tried 64 (try (try r)) (omega arith) (omega arith) (
            tried 96 (try r) (omega arith) (omega arith)
              (tried 128 r (omega arith) (omega arith) reached))) in
      rw (e, run') (ap some (rw at (last_of 32 m (omega arith) (omega arith) inside)))

  middle :
      32 ≤ n
      → map_some (stamp 32 (s + n - 32) (u8 c)) (memset_chunks n s (s + n - 32) (u8 c) mem)
        ≡ some (stamp n s (u8 c) mem)
  middle large =
      let (k, run, low, high) = chunks n 0 (omega arith) (omega arith) in
      let e : s + 0 ≡ s = omega arith in
      let run' : memset_chunks n s (s + n - 32) (u8 c) mem ≡ some (stamp k s (u8 c) mem) =
        rw (e, stamp-zero s (u8 c) mem) at run in
      rw run' (ap some (last_of 32 k (omega arith) (omega arith) (omega arith)))

-- `memset` sets the `n` bytes at `s`, and changes no other byte.
pub memset-stamp : (s c n : ℕ) (mem : Memory) → memset s c n mem ≡ some (stamp n s (u8 c) mem)
unfolding memset
memset-stamp s c n mem = elim (Bool-cases (ltb n 32)) [
  | inl narrow ↦ rw narrow (ap some (small s c n mem (ltb→lt n 32 narrow)))
  | inr more ↦ elim (Bool-cases (ltb 160 n)) [
    | inl large ↦ rw (more, large) (whole s c n mem (ltb→lt 160 n large))
    | inr few ↦ rw (more, few) (middle s c n mem (ground arith))
  ]
]
