-- ===== src/Shared/Msi/Laws.antt =====
-- What a set answers and what an insertion changes, for each type of values.
use homegrown.Prelude.{
  ℕ, ◌^◌, ◌<◌, ◌≡◌, ◌∙◌, ◌↔◌, refl, ap, sym, arith, Bool, true, false, some, inl, inr, ◌⊎◌, u32,
}
use mathlib.Core.Option.{map as map_some}
use homegrown.Shared.Msi.{MsiSet, Stop, vacant, present, probe, contains, is_present}
use homegrown.Shared.Msi.Visits.{visited, visited-all}
use homegrown.Shared.Msi.Probe.{Passed, IsStop, probe-IsStop, not_both}

order : (a b : ℕ) → (a < b) ⊎ ((a ≡ b) ⊎ (b < a))
order a b = ground arith

module _ {ℓ} {A : Type ℓ} (is_vacant : A → Bool) (same : A → A → Bool) (hash_of : A → ℕ) where
  -- The value is in a slot of the table.
  unfoldable pub Holds : MsiSet A → A → Type ℓ
  Holds index value = (x : ℕ) × (x < 2 ^ index.exp) × (index.buf x ≡ value)

  unfoldable pub HasVacancy : MsiSet A → Type 0
  HasVacancy index = (x : ℕ) × (x < 2 ^ index.exp) × (is_vacant (index.buf x) ≡ true)

  -- Each value stands where its search ends: no slot that is looked at before is free.
  unfoldable pub IsProbed : MsiSet A → Type ℓ
  IsProbed index =
      (value : A) (x : ℕ)
      → x < 2 ^ index.exp
      → index.buf x ≡ value
      → is_vacant value ≡ false
      → (m : ℕ) × (visited (hash_of value) index.exp (u32 (hash_of value)) m ≡ x)
        × ((i : ℕ)
            → i < m
            → is_vacant (index.buf (visited (hash_of value) index.exp (u32 (hash_of value)) i))
              ≡ false)

  module _ (same_iff : (a b : A) → (same a b ≡ true) ↔ (a ≡ b)) (index : MsiSet A)
      (small : index.exp < 32) (vacancy : HasVacancy index) where
    -- The search of a value ends.
    pub search_ends :
        (value : A)
        → (stop : Stop) × (probe is_vacant same
              (2 ^ index.exp)
              (hash_of value)
              value
              (u32 (hash_of value))
              index
            ≡ some stop)
          × IsStop is_vacant same value (hash_of value) index (u32 (hash_of value)) stop
    unfolding HasVacancy
    search_ends value =
        let (x, inside, free) = vacancy in
        let (n, few, at) =
          visited-all (hash_of value) index.exp small (u32 (hash_of value)) x inside in
        probe-IsStop is_vacant same value (hash_of value) index small (2 ^ index.exp) n
          (u32 (hash_of value)) few (rw at free)

    -- A search that ends at a free slot is for a value that the set does not hold.
    pub vacant_absent :
        (value : A) (x : ℕ)
        → IsProbed index
        → is_vacant value ≡ false
        → IsStop is_vacant same value (hash_of value) index (u32 (hash_of value)) (vacant x)
        → ¬ Holds index value
    unfolding IsProbed Holds IsStop Passed
    vacant_absent value x probed full (m, at, free, passed) (y, inside, e) =
        let (k, at', before) = probed value y inside e full in
        elim (order k m) [
          | inl less ↦ not_both _ ((same_iff _ value).1 (ap index.buf at' ∙ e)) (passed k less).1
          | inr (inl equal) ↦
              let there : x ≡ y =
                sym at
                ∙ ap (visited (hash_of value) index.exp (u32 (hash_of value))) (sym equal)
                ∙ at' in
              not_both _ free
                (ap (λ (z : ℕ). is_vacant (index.buf z)) there ∙ ap is_vacant e ∙ full)
          | inr (inr more) ↦
              not_both _ (ap (λ (z : ℕ). is_vacant (index.buf z)) at ∙ free) (before m more)
        ]

    -- A search that ends at the value finds it.
    pub present_held :
        (value : A) (x : ℕ)
        → IsStop is_vacant same value (hash_of value) index (u32 (hash_of value)) (present x)
        → Holds index value
    unfolding Holds IsStop
    present_held value x (inside, full, found) = (x, inside, (same_iff _ value).0 found)

    contains_stop :
        (value : A) (stop : Stop)
        → IsProbed index
        → is_vacant value ≡ false
        → IsStop is_vacant same value (hash_of value) index (u32 (hash_of value)) stop
        → (is_present stop ≡ true) ↔ Holds index value
    contains_stop value (vacant x) probed full h =
        (λ e. ground arith, λ held. elim (vacant_absent value x probed full h held) [ ])
    contains_stop value (present x) probed full h = (λ e. present_held value x h, λ held. refl)

    pub contains-answers :
        (value : A)
        → IsProbed index
        → is_vacant value ≡ false
        → (b : Bool) × (contains is_vacant same value (hash_of value) index ≡ some b)
          × ((b ≡ true) ↔ Holds index value)
    unfolding contains
    contains-answers value probed full =
        let (stop, e, h) = search_ends value in
        (is_present stop, ap (map_some is_present) e, contains_stop value stop probed full h)
