-- ===== src/Freestanding/Screen/Search.antt =====
-- `I8IndexToLogicalLine` finds the logical line of a character.
use native.Mathlib.Nat.{pow-suc}
use homegrown.Prelude.{
  ℕ, zero, suc, ◌+◌, ◌-◌, ◌/◌, ◌%◌, ◌^◌, ◌≤◌, ◌<◌, ◌≡◌, ◌∙◌, refl, ap, sym, arith, Bool, true,
  false, some, inl, inr, ◌⊎◌, ltb, leb, if◌then◌else◌, Bool-cases, bit_and_mask, u64, ltb→lt,
  leb→le,
}
use homegrown.Shared.Maths.{ring_plus, ring_minus, ring_increment}
use homegrown.Freestanding.Screen.{
  Terminal, search_line, index_to_logical_line, max_scrollback_lines,
}

-- The slot of the line that is `j` lines younger than the one in the slot `oldest`.
abbrev pub line_slot : ℕ → ℕ → ℕ
line_slot oldest j = (oldest + j) % 8192

line_distance :
    (oldest l r : ℕ)
    → l ≤ r
    → r < 8192
    → ring_minus (line_slot oldest r) (line_slot oldest l) max_scrollback_lines ≡ r - l
unfolding ring_minus
line_distance oldest l r order last =
    bit_and_mask 13 (u64 (line_slot oldest r + 2 ^ 64 - line_slot oldest l)) ∙ omega arith

line_between :
    (oldest l d : ℕ)
    → d < 8192
    → ring_plus (line_slot oldest l) d max_scrollback_lines ≡ line_slot oldest (l + d)
unfolding ring_plus
line_between oldest l d small = bit_and_mask 13 (u64 (line_slot oldest l + d)) ∙ omega arith

oldest_lem :
    (write : ℕ) → write < 8192 → ring_increment write max_scrollback_lines ≡ (write + 1) % 8192
unfolding ring_increment
oldest_lem write small = bit_and_mask 13 (u64 (write + 1)) ∙ omega arith

ltb→ge : (a b : ℕ) → ltb a b ≡ false → b ≤ a
ltb→ge a b h = ground arith

leb→gt : (a b : ℕ) → leb a b ≡ false → b < a
leb→gt a b h = ground arith

-- The line `j` holds the character, or the character was before the oldest line.
pub record IsLine (t : Terminal) (oldest index j : ℕ) : Type 0 where
  pub inside : j < 8192
  pub starts : (j ≡ 0) ⊎ (t.logical_lines (line_slot oldest j) ≤ index)
  pub ends : (j ≡ 8191) ⊎ (index < t.logical_lines (line_slot oldest (j + 1)))

module _ (t : Terminal) (oldest index : ℕ) where
  line_start : ℕ → ℕ
  line_start j = t.logical_lines (line_slot oldest j)

  Found : ℕ → ℕ → ℕ → Type 0
  Found fuel l r =
      (j : ℕ) × (search_line fuel t index (line_slot oldest l) (line_slot oldest r)
        ≡ some (line_slot oldest j))
      × IsLine t oldest index j

  -- The search is over where the line in hand is next to one that is too young.
  search_done :
      (fuel l r : ℕ)
      → r ≡ l + 1
      → r < 8192
      → index < line_start r
      → (l ≡ 0) ⊎ (line_start l ≤ index)
      → Found fuel l r
  unfolding search_line Found line_start
  search_done zero l r next last young old = (
    l,
    rw (line_distance oldest l r (omega arith) last) (ground arith),
    record { inside = omega arith; starts = old; ends = inr (rw (← next) young) },
  )
  search_done (suc fuel) l r next last young old = (
    l,
    rw (line_distance oldest l r (omega arith) last) (ground arith),
    record { inside = omega arith; starts = old; ends = inr (rw (← next) young) },
  )

  -- One halving, from what the search finds in either half.
  search_half :
      (fuel l r : ℕ)
      → l + 1 < r
      → r < 8192
      → (index < line_start (l + (r - l) / 2) → Found fuel l (l + (r - l) / 2))
      → (line_start (l + (r - l) / 2) ≤ index → Found fuel (l + (r - l) / 2) r)
      → Found (suc fuel) l r
  unfolding search_line Found line_start
  search_half fuel l r far last lower upper =
      let distance = line_distance oldest l r (omega arith) last in
      let between = line_between oldest l ((r - l) / 2) (omega arith) in
      let long : ltb 1 (r - l) ≡ true = ground arith in
      elim (Bool-cases (ltb index (line_start (l + (r - l) / 2)))) [
        | inl young ↦
            let (j, e, h) = lower (ltb→lt _ _ young) in
            (j, rw (distance, long, between, young) e, h)
        | inr old ↦
            let (j, e, h) = upper (ltb→ge _ _ old) in (j, rw (distance, long, between, old) e, h)
      ]

  search_line-Found :
      (fuel l r : ℕ)
      → l < r
      → r < 8192
      → r - l ≤ 2 ^ fuel
      → index < line_start r
      → (l ≡ 0) ⊎ (line_start l ≤ index)
      → Found fuel l r
  search_line-Found zero l r order last few young old =
      search_done zero l r (omega arith) last young old
  search_line-Found (suc fuel) l r order last few young old = elim (Bool-cases (ltb (l + 1) r)) [
    | inl far ↦
        let halves = rw pow-suc at few in
        let apart = ltb→lt _ _ far in
        search_half fuel l r apart last
          (λ y.
            search_line-Found fuel l (l + (r - l) / 2) (omega (arith, apart)) (omega (arith, apart))
              (omega (arith, halves)) y old)
          (λ o.
            search_line-Found fuel (l + (r - l) / 2) r (omega (arith, apart)) last
              (omega (arith, halves)) young (inr o))
    | inr near ↦ search_done (suc fuel) l r (omega (arith, ltb→ge _ _ near)) last young old
  ]

-- The search through all lines.
search_all :
    (t : Terminal) (index : ℕ)
    → t.logical_line_to_write < 8192
    → index < t.logical_lines t.logical_line_to_write
    → (j : ℕ) × (search_line 13 t index
          (ring_increment t.logical_line_to_write max_scrollback_lines)
          t.logical_line_to_write
        ≡ some (line_slot (ring_increment t.logical_line_to_write max_scrollback_lines) j))
      × IsLine t (ring_increment t.logical_line_to_write max_scrollback_lines) index j
unfolding Found line_start
search_all t index small before =
    let write = t.logical_line_to_write in
    let oldest = ring_increment write max_scrollback_lines in
    let first = oldest_lem write small in
    let first_slot : line_slot oldest 0 ≡ oldest = omega (arith, first) in
    let last_slot : line_slot oldest 8191 ≡ write = omega (arith, first) in
    let young : index < t.logical_lines (line_slot oldest 8191) = rw last_slot before in
    let (j, e, h) =
      search_line-Found t oldest index 13 0 8191 (omega arith) (omega arith) (omega arith) young
        (inl refl) in
    (
      j,
      ap (λ (a : ℕ). search_line 13 t index a write) (sym first_slot)
          ∙ ap (search_line 13 t index (line_slot oldest 0)) (sym last_slot)
          ∙ e,
      h,
    )

-- The search for the logical line of a character ends within 13 halvings. It gives a line whose
-- start is not behind the character, or the oldest line, and behind which the next line
-- starts behind the character, if the line is not the youngest; the starts need not be in order.
pub index_to_logical_line-IsLine :
    (t : Terminal) (index : ℕ)
    → t.logical_line_to_write < 8192
    → (j : ℕ) × (index_to_logical_line t index
        ≡ some (line_slot (ring_increment t.logical_line_to_write max_scrollback_lines) j))
      × IsLine t (ring_increment t.logical_line_to_write max_scrollback_lines) index j
unfolding index_to_logical_line
index_to_logical_line-IsLine t index small =
    let write = t.logical_line_to_write in
    let oldest = ring_increment write max_scrollback_lines in
    let first = oldest_lem write small in
    let last_slot : line_slot oldest 8191 ≡ write = omega (arith, first) in
    elim (Bool-cases (leb (t.logical_lines write) index)) [
      | inl here ↦ (
        8191,
        rw (here, last_slot) refl,
        record {
          inside = omega arith;
          starts = inr (rw last_slot (leb→le _ _ here));
          ends = inl refl;
        },
      )
      | inr before ↦
          let (j, e, h) = search_all t index small (leb→gt _ _ before) in
          (
            j,
            ap (λ (b : Bool). if b then some write else search_line 13 t index oldest write) before
                ∙ e,
            h,
          )
    ]
