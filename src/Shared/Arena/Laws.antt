-- ===== src/Shared/Arena/Laws.antt =====
-- What `alloc` of arena.c gives.
use native.Mathlib.Nat.{
  one-le-pow, pow-le-pow_right, le-div_iff_mul-le, mul-mod_left, mod-lt, div-add-mod', mul_comm,
  zero-mod, div-lt_iff_lt-mul,
}
use homegrown.Prelude.{
  ℕ, ◌+◌, ◌-◌, ◌*◌, ◌/◌, ◌%◌, ◌^◌, ◌≤◌, ◌<◌, ◌≡◌, refl, ap, ◌∙◌, true, false, some, ltb,
  if◌then◌else◌, u64, sub64, ◌==◌, bit_and, bit_and_mask, arith, Bool-cases, ltb→lt, inl, inr,
}
use homegrown.Freestanding.Memory.{Memory, stamp}
use homegrown.Freestanding.Memory.Set.{memset-stamp}
use homegrown.Shared.Maths.Align.{word_split}
use homegrown.Shared.Arena.{
  Arena, Outcome, allocated, null_pointer, long_jump, padding_of, cleared, alloc, zero_memory,
  nullptr_on_fail,
}

abbrev after_clear : ℕ → ℕ → ℕ → Memory → Memory
after_clear flags p total mem = if bit_and flags zero_memory == 0 then mem else stamp total p 0 mem

cleared-after_clear :
    (flags p total : ℕ) (mem : Memory)
    → cleared flags p total mem ≡ some (after_clear flags p total mem)
unfolding cleared
cleared-after_clear flags p total mem = elim (Bool-cases (bit_and flags zero_memory == 0)) [
  | inl off ↦ rw off refl
  | inr on ↦ rw on (memset-stamp p 0 total mem)
]

-- What each end of `alloc` means.
abbrev pub IsGiven : Arena → ℕ → ℕ → ℕ → ℕ → Memory → Outcome → Type 0
IsGiven a align size count flags mem (allocated p b mem') =
    (p % align ≡ 0)
    × (a.cur_free ≤ p)
    × (p < a.cur_free + align)
    × (p + size * count ≤ a.end)
    × (b ≡ record a { cur_free = p + size * count })
    × (mem' ≡ after_clear flags p (size * count) mem)
IsGiven a align size count flags mem null_pointer =
    (bit_and flags nullptr_on_fail == 0 ≡ false)
    × (a.end < a.cur_free + padding_of a align + size * count)
IsGiven a align size count flags mem long_jump =
    (bit_and flags nullptr_on_fail == 0 ≡ true)
    × (a.end < a.cur_free + padding_of a align + size * count)

module _ (k : ℕ) (small : k < 64) (a : Arena) (before : a.cur_free ≤ a.end)
    (word : a.end < 2 ^ 64) where
  range : (1 ≤ 2 ^ k) × (2 ^ k ≤ 9223372036854775808)
  range = (
    one-le-pow k 2 (omega arith),
    let e : k ≤ 63 = omega arith in pow-le-pow_right {n = 2} (omega arith) e,
  )

  padding_mod : padding_of a (2 ^ k) ≡ u64 (2 ^ 64 - a.cur_free) % 2 ^ k
  padding_mod =
      let one : sub64 (2 ^ k) 1 ≡ 2 ^ k - 1 = omega (arith, range) in
      let minus : sub64 0 a.cur_free ≡ u64 (2 ^ 64 - a.cur_free) = omega arith in
      rw (one, minus) (bit_and_mask k _)

  padding_bound : padding_of a (2 ^ k) < 2 ^ k
  padding_bound = rw padding_mod (mod-lt _ range.0)

  padded_aligned : (a.cur_free + padding_of a (2 ^ k)) % 2 ^ k ≡ 0
  padded_aligned = elim (Bool-cases (ltb 0 a.cur_free)) [
    | inl positive ↦
        let m = 2 ^ k in
        let w = 2 ^ (64 - k) in
        let y = 2 ^ 64 - a.cur_free in
        let q = y / m in
        let narrow : u64 y ≡ y = ground arith in
        let pad : padding_of a m ≡ y % m = padding_mod ∙ ap (λ (x : ℕ). x % m) narrow in
        let whole : y % m + m * q ≡ y = omega (arith, div-add-mod' y m) in
        let bound : q < w + 1 =
          (div-lt_iff_lt-mul range.0).1 (omega (arith, word_split k small, range)) in
        let split : w ≡ (w - q) + q = omega arith in
        let e : a.cur_free + padding_of a m ≡ (w - q) * m =
          ground
            (arith, pad, whole, word_split k small, ap (λ (x : ℕ). x * m) split, mul_comm m q) in
        rw e (mul-mod_left (w - q) m)
    | inr start ↦
        let z : a.cur_free ≡ 0 = ground arith in
        let nothing : padding_of a (2 ^ k) ≡ 0 =
          padding_mod ∙ ap (λ (x : ℕ). u64 (2 ^ 64 - x) % 2 ^ k) z ∙ zero-mod _ in
        rw (nothing, z) (zero-mod _)
  ]

  module _ (size count flags : ℕ) (mem : Memory) (sized : 0 < size) where
    abbrev p : ℕ
    p = a.cur_free + padding_of a (2 ^ k)

    abbrev room : ℕ
    room = sub64 (sub64 a.end a.cur_free) (padding_of a (2 ^ k))

    room_exact : p ≤ a.end → room ≡ a.end - a.cur_free - padding_of a (2 ^ k)
    room_exact fits = omega (arith, fits)

    given :
        ltb (room / size) count ≡ false
        → p + size * count < 2 ^ 64
        → alloc a size (2 ^ k) count flags mem
          ≡ some (
              allocated p
                (record a { cur_free = p + size * count })
                (after_clear flags p (size * count) mem))
    unfolding alloc
    given enough inside =
        let total : u64 (size * count) ≡ size * count = omega arith in
        let start : u64 p ≡ p = omega arith in
        let moved : u64 (a.cur_free + u64 (padding_of a (2 ^ k) + size * count))
            ≡ p + size * count =
          omega arith in
        rw (enough, total, start, moved, cleared-after_clear flags p (size * count) mem) refl

    -- For an alignment that is a power of two, parts that are not empty and an arena that does not
    -- end inside the padding, `alloc` ends. A part that it gives is aligned, starts less than an
    -- alignment behind the free pointer and does not pass the arena's end; the free pointer is then
    -- where the part ends, and exactly the part is cleared, if the flags ask for it. If it gives
    -- `nullptr` or jumps, as the flags say, the parts do not fit.
    pub alloc-IsGiven :
        a.cur_free + padding_of a (2 ^ k) ≤ a.end
        → (o : Outcome) × (alloc a size (2 ^ k) count flags mem ≡ some o)
          × IsGiven a (2 ^ k) size count flags mem o
    unfolding alloc
    alloc-IsGiven fits = elim (Bool-cases (ltb (room / size) count)) [
      | inl full ↦
          let over : a.end < a.cur_free + padding_of a (2 ^ k) + size * count =
            let h : room < count * size =
              (div-lt_iff_lt-mul sized).0 (ltb→lt (room / size) count full) in
            omega (arith, h, room_exact fits, mul_comm count size, fits) in
          elim (Bool-cases (bit_and flags nullptr_on_fail == 0)) [
            | inl jump ↦ (long_jump, rw (full, jump) refl, (jump, over))
            | inr null ↦ (null_pointer, rw (full, null) refl, (null, over))
          ]
      | inr enough ↦
          let h : count * size ≤ room = (le-div_iff_mul-le sized).0 (ground arith) in
          let inside : p + size * count ≤ a.end =
            omega (arith, h, room_exact fits, mul_comm count size, fits) in
          (
            allocated p (record a { cur_free = p + size * count })
                (after_clear flags p (size * count) mem),
            given enough (omega (arith, inside)),
            (padded_aligned, omega arith, omega (arith, padding_bound), inside, refl, refl),
          )
    ]

    -- In an arena that ends inside the padding, `alloc` gives a part behind the end of the arena,
    -- whatever its flags, as long as the part does not reach the end of the address space.
    pub alloc_past_end :
        a.end < a.cur_free + padding_of a (2 ^ k)
        → a.cur_free + padding_of a (2 ^ k) + size * count < 2 ^ 64
        → (b : Arena) × (mem' : Memory) × (alloc a size (2 ^ k) count flags mem
            ≡ some (allocated (a.cur_free + padding_of a (2 ^ k)) b mem'))
    alloc_past_end past low =
        let wrapped : room ≡ 2 ^ 64 - (p - a.end) = omega (arith, padding_bound, range) in
        let h : count ≤ room / size =
          (le-div_iff_mul-le sized).1 (omega (arith, wrapped, mul_comm count size)) in
        (
          record a { cur_free = p + size * count },
          after_clear flags p (size * count) mem,
          given (ground arith) low,
        )
