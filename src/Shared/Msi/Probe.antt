-- ===== src/Shared/Msi/Probe.antt =====
-- Where the search of a value ends.
use homegrown.Prelude.{
  ℕ, zero, suc, ◌^◌, ◌<◌, ◌≡◌, refl, arith, Bool, true, false, some, Bool-cases, inl, inr,
}
use homegrown.Shared.Msi.{MsiSet, Stop, vacant, present, index_lookup, probe}
use homegrown.Shared.Msi.Visits.{visited, visited-inside}

pub not_both : (b : Bool) → b ≡ true → b ≡ false → ⊥
not_both true h k = ground arith
not_both false h k = ground arith

module _ {ℓ} {A : Type ℓ} (is_vacant : A → Bool) (same : A → A → Bool) (value : A) (hash : ℕ)
    (index : MsiSet A) where
  -- The first `m` slots hold other values.
  unfoldable pub Passed : ℕ → ℕ → Type 0
  Passed idx m =
      (i : ℕ)
      → i < m
      → (is_vacant (index.buf (visited hash index.exp idx i)) ≡ false)
        × (same (index.buf (visited hash index.exp idx i)) value ≡ false)

  unfoldable pub IsStop : ℕ → Stop → Type 0
  IsStop idx (vacant x) =
      (m : ℕ) × (visited hash index.exp idx m ≡ x) × (is_vacant (index.buf x) ≡ true) × Passed idx m
  IsStop idx (present x) =
      (x < 2 ^ index.exp) × (is_vacant (index.buf x) ≡ false) × (same (index.buf x) value ≡ true)

  Passed-suc :
      (idx m : ℕ)
      → is_vacant (index.buf (index_lookup hash index.exp idx)) ≡ false
      → same (index.buf (index_lookup hash index.exp idx)) value ≡ false
      → Passed (index_lookup hash index.exp idx) m
      → Passed idx (suc m)
  unfolding Passed visited
  Passed-suc idx m full other h zero lt = (full, other)
  Passed-suc idx m full other h (suc i) lt = h i (omega (arith, lt))

  IsStop-suc :
      (idx : ℕ) (stop : Stop)
      → is_vacant (index.buf (index_lookup hash index.exp idx)) ≡ false
      → same (index.buf (index_lookup hash index.exp idx)) value ≡ false
      → IsStop (index_lookup hash index.exp idx) stop
      → IsStop idx stop
  unfolding IsStop visited
  IsStop-suc idx (vacant x) full other (m, at, free, h) =
      (suc m, at, free, Passed-suc idx m full other h)
  IsStop-suc idx (present x) full other h = h

  Stops : ℕ → ℕ → Type 0
  Stops fuel idx =
      (stop : Stop) × (probe is_vacant same fuel hash value idx index ≡ some stop) × IsStop idx stop

  module _ (small : index.exp < 32) where
    -- One lookup, if what is behind it stops.
    probe_step :
        (fuel idx : ℕ)
        → (is_vacant (index.buf (index_lookup hash index.exp idx)) ≡ false
            → Stops fuel (index_lookup hash index.exp idx))
        → Stops (suc fuel) idx
    unfolding probe Stops IsStop visited Passed
    probe_step fuel idx rest =
        let i = index_lookup hash index.exp idx in
        elim (Bool-cases (is_vacant (index.buf i))) [
          | inl free ↦ (vacant i, rw free refl, (0, refl, free, λ j lt. absurd (omega (arith, lt))))
          | inr full ↦ elim (Bool-cases (same (index.buf i) value)) [
            | inl found ↦ (
              present i,
              rw (full, found) refl,
              (visited-inside hash index.exp small 0 idx, full, found),
            )
            | inr other ↦
                let (stop, e, h) = rest full in
                (stop, rw (full, other) e, IsStop-suc idx stop full other h)
          ]
        ]

    -- A free slot on the way ends the search, whatever stands before it.
    pub probe-IsStop :
        (fuel n idx : ℕ)
        → n < fuel
        → is_vacant (index.buf (visited hash index.exp idx n)) ≡ true
        → (stop : Stop) × (probe is_vacant same fuel hash value idx index ≡ some stop)
          × IsStop idx stop
    unfolding visited Stops
    probe-IsStop zero n idx lt free = absurd (omega (arith, lt))
    probe-IsStop (suc fuel) zero idx lt free =
        probe_step fuel idx (λ full. elim (not_both _ free full) [ ])
    probe-IsStop (suc fuel) (suc n) idx lt free =
        probe_step fuel idx
          (λ full. probe-IsStop fuel n (index_lookup hash index.exp idx) (omega (arith, lt)) free)
