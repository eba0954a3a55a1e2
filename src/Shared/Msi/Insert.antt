-- ===== src/Shared/Msi/Insert.antt =====
-- What an insertion changes, for each type of values.
use homegrown.Prelude.{
  ℕ, ◌+◌, ◌^◌, ◌<◌, ◌≡◌, ◌∙◌, ◌↔◌, refl, ap, sym, arith, Bool, true, false, some, Bool-cases, inl,
  inr, ◌⊎◌, u32, u64, ◌==◌, if◌then◌else◌, ==_iff,
}
use mathlib.Core.Option.{map as map_some}
use homegrown.Shared.Msi.{MsiSet, Stop, vacant, present, insert, insert_at, write_slot}
use homegrown.Shared.Msi.Visits.{visited-inside}
use homegrown.Shared.Msi.Probe.{Passed, IsStop, not_both}
use homegrown.Shared.Msi.Laws.{
  Holds, HasVacancy, IsProbed, search_ends, vacant_absent, present_held,
}

write_slot-cases {ℓ} :
    {A : Type ℓ} (x : ℕ) (value : A) (buf : ℕ → A) (j : ℕ)
    → ((j ≡ x) × (write_slot x value buf j ≡ value)) ⊎ (write_slot x value buf j ≡ buf j)
write_slot-cases x value buf j = elim (Bool-cases (j == x)) [
  | inl e ↦ inl ((==_iff j x).0 e, rw e refl)
  | inr e ↦ inr (rw e refl)
]

module _ {ℓ} {A : Type ℓ} (is_vacant : A → Bool) (same : A → A → Bool) (hash_of : A → ℕ) where
  -- `r` is the answer of an insertion with the set afterwards: it tells whether the value was new,
  -- the set holds the value besides what it held, and still finds each.
  pub record IsInserted (value : A) (index : MsiSet A) (r : Bool × MsiSet A) : Type ℓ where
    pub answer : (r.0 ≡ true) ↔ (¬ Holds is_vacant same hash_of index value)
    pub probed : IsProbed is_vacant same hash_of r.1
    pub members :
        (w : A)
        → is_vacant w ≡ false
        → Holds is_vacant same hash_of r.1 w ↔ (Holds is_vacant same hash_of index w ⊎ (w ≡ value))
    pub same_size : (r.1).exp ≡ index.exp
    pub counted : (r.1).len ≡ (if r.0 then u64 (index.len + 1) else index.len)

  module _ (same_iff : (a b : A) → (same a b ≡ true) ↔ (a ≡ b)) (index : MsiSet A)
      (small : index.exp < 32) (vacancy : HasVacancy is_vacant same hash_of index) (value : A)
      (probed : IsProbed is_vacant same hash_of index) (full : is_vacant value ≡ false) where
    present-IsInserted :
        (x : ℕ)
        → IsStop is_vacant same value (hash_of value) index (u32 (hash_of value)) (present x)
        → IsInserted value index (false, index)
    present-IsInserted x h =
        let held = present_held is_vacant same hash_of same_iff index small vacancy value x h in
        record {
          answer = (λ e. ground arith, λ absent. elim (absent held) [ ]);
          probed = probed;
          members = λ w filled. (λ k. inl k, λ k. elim k [ inl l ↦ l | inr e ↦ rw e held ]);
          same_size = refl;
          counted = refl;
        }

    module _ (x : ℕ)
        (h : IsStop is_vacant same value
          (hash_of value)
          index
          (u32 (hash_of value))
          (vacant x)) where
      after : MsiSet A
      after = record index { buf = write_slot x value index.buf; len = u64 (index.len + 1) }

      still_full : (j : ℕ) → is_vacant (index.buf j) ≡ false → is_vacant (after.buf j) ≡ false
      unfolding after
      still_full j e = elim (write_slot-cases x value index.buf j) [
        | inl (at, here) ↦ ap is_vacant here ∙ full
        | inr there ↦ ap is_vacant there ∙ e
      ]

      inside : x < 2 ^ index.exp
      unfolding IsStop
      inside =
          let (m, at, free, passed) = h in
          rw (← at) (visited-inside (hash_of value) index.exp small m (u32 (hash_of value)))

      written : after.buf x ≡ value
      unfolding after
      written = rw ((==_iff x x).1 refl) refl

      kept : (j : ℕ) → is_vacant (index.buf j) ≡ false → after.buf j ≡ index.buf j
      unfolding after IsStop
      kept j e = elim (write_slot-cases x value index.buf j) [
        | inl (at, here) ↦
            let (m, place, free, passed) = h in
            elim (not_both _ free (ap (λ (z : ℕ). is_vacant (index.buf z)) (sym at) ∙ e)) [ ]
        | inr there ↦ there
      ]

      after-IsProbed : IsProbed is_vacant same hash_of after
      unfolding IsProbed IsStop Passed after
      after-IsProbed w y y_inside e filled = elim (write_slot-cases x value index.buf y) [
        | inl (at, here) ↦
            let (m, place, free, passed) = h in
            let same_value : w ≡ value = sym e ∙ here in
            rw same_value (m, place ∙ sym at, λ i lt. still_full _ (passed i lt).0)
        | inr there ↦
            let (k, place, before) = probed w y y_inside (sym there ∙ e) filled in
            (k, place, λ i lt. still_full _ (before i lt))
      ]

      after-Holds :
          (w : A)
          → is_vacant w ≡ false
          → Holds is_vacant same hash_of after w
            ↔ (Holds is_vacant same hash_of index w ⊎ (w ≡ value))
      unfolding Holds after
      after-Holds w filled = (
        λ held.
            let (y, y_inside, e) = held in
            elim (write_slot-cases x value index.buf y) [
              | inl (at, here) ↦ inr (sym e ∙ here)
              | inr there ↦ inl (y, y_inside, sym there ∙ e)
            ],
        λ k. elim k [
          | inl (y, y_inside, e) ↦ (y, y_inside, kept y (ap is_vacant e ∙ filled) ∙ e)
          | inr e ↦ (x, inside, written ∙ sym e)
        ],
      )

      vacant-IsInserted : IsInserted value index (true, after)
      unfolding after
      vacant-IsInserted = record {
        answer = (
          λ e.
              vacant_absent is_vacant same hash_of same_iff index small vacancy value x probed full
                h,
          λ absent. refl,
        );
        probed = after-IsProbed;
        members = after-Holds;
        same_size = refl;
        counted = refl;
      }

    insert_at-IsInserted :
        (stop : Stop)
        → IsStop is_vacant same value (hash_of value) index (u32 (hash_of value)) stop
        → IsInserted value index (insert_at value index stop)
    unfolding insert_at after
    insert_at-IsInserted (vacant x) h = vacant-IsInserted x h
    insert_at-IsInserted (present x) h = present-IsInserted x h

    pub insert-ends :
        (r : Bool × MsiSet A) × (insert is_vacant same value (hash_of value) index ≡ some r)
        × IsInserted value index r
    unfolding insert
    insert-ends =
        let (stop, e, h) = search_ends is_vacant same hash_of same_iff index small vacancy value in
        (
          insert_at value index stop,
          ap (map_some (insert_at value index)) e,
          insert_at-IsInserted stop h,
        )
