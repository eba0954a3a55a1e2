-- ===== src/ImageBuilder/Fat/Slots.antt =====
-- Where the search for an entry in a directory of partitions/efi.c stops.
use homegrown.Prelude.{
  ℕ, zero, suc, ◌+◌, ◌*◌, ◌≤◌, ◌<◌, ◌≡◌, ◌≢◌, ◌∙◌, ◌⊎◌, inl, inr, refl, sym, ap, true, false, List,
  arith, Bool-cases,
}
use homegrown.Freestanding.Memory.{Memory}
use homegrown.Shared.Text.{string_equals}
use homegrown.Shared.Text.Equality.{string_equals_iff}
use homegrown.ImageBuilder.Fat.{taken, vacant, unreachable, find_slot, name_at, zero_name}
use homegrown.ImageBuilder.Fat.Entries.{name_at_ext}

-- One step of the search, by what the entry's name is.
module _ (n : ℕ) (name : List ℕ) (entry : ℕ) (mem : Memory) where
  find_slot-taken : name_at entry mem ≡ name → find_slot (suc n) name entry mem ≡ taken entry
  unfolding find_slot
  find_slot-taken e = rw ((string_equals_iff (name_at entry mem) name).1 e) refl

  find_slot-vacant :
      string_equals (name_at entry mem) name ≡ false
      → name_at entry mem ≡ zero_name
      → find_slot (suc n) name entry mem ≡ vacant entry
  unfolding find_slot
  find_slot-vacant other e = rw (other, (string_equals_iff (name_at entry mem) zero_name).1 e) refl

  find_slot-suc :
      string_equals (name_at entry mem) name ≡ false
      → string_equals (name_at entry mem) zero_name ≡ false
      → find_slot (suc n) name entry mem ≡ find_slot n name (entry + 32) mem
  unfolding find_slot
  find_slot-suc other used = rw (other, used) refl

  abbrev Steps : Type 0
  Steps =
      (name_at entry mem ≡ name)
      ⊎ ((string_equals (name_at entry mem) name ≡ false) × (name_at entry mem ≡ zero_name))
      ⊎ ((string_equals (name_at entry mem) name ≡ false)
          × (string_equals (name_at entry mem) zero_name ≡ false))

  steps : Steps
  steps = elim (Bool-cases (string_equals (name_at entry mem) name)) [
    | inl e ↦ inl ((string_equals_iff (name_at entry mem) name).0 e)
    | inr other ↦ elim (Bool-cases (string_equals (name_at entry mem) zero_name)) [
      | inl e ↦ inr (inl (other, (string_equals_iff (name_at entry mem) zero_name).0 e))
      | inr used ↦ inr (inr (other, used))
    ]
  ]

taken_ne : {a b : ℕ} → taken a ≢ vacant b
taken_ne h = cc

abbrev IsVacant : ℕ → ℕ → ℕ → Memory → Type 0
IsVacant n entry e mem = (entry ≤ e) × (e + 32 ≤ entry + 32 * n) × (name_at e mem ≡ zero_name)

vacant_eq : (a b : ℕ) → vacant a ≡ vacant b → a ≡ b
vacant_eq a b h = cc

pub find_slot-IsVacant :
    (n : ℕ) (name : List ℕ) (entry : ℕ) (mem : Memory) (e : ℕ)
    → find_slot n name entry mem ≡ vacant e
    → IsVacant n entry e mem
unfolding find_slot
find_slot-IsVacant zero name entry mem e h = cc
find_slot-IsVacant (suc n) name entry mem e h = elim (steps n name entry mem) [
  | inl t ↦ absurd (taken_ne (sym (find_slot-taken n name entry mem t) ∙ h))
  | inr (inl (other, z)) ↦
      let p : entry ≡ e = vacant_eq entry e (sym (find_slot-vacant n name entry mem other z) ∙ h) in
      (omega arith, omega arith, rw (← p) z)
  | inr (inr (other, used)) ↦
      let ih =
        find_slot-IsVacant n name (entry + 32) mem e
          (sym (find_slot-suc n name entry mem other used) ∙ h) in
      (omega arith, omega arith, ih.2)
]

-- A search that stops at an unused entry stops there for the name that is written there, if nothing
-- before it has changed.
pub find_slot_ext :
    (n : ℕ) (name : List ℕ) (entry : ℕ) (mem mem' : Memory) (e : ℕ)
    → find_slot n name entry mem ≡ vacant e
    → ((a : ℕ) → entry ≤ a → a < e → mem' a ≡ mem a)
    → name_at e mem' ≡ name
    → find_slot n name entry mem' ≡ taken e
unfolding find_slot
find_slot_ext zero name entry mem mem' e h same named = cc
find_slot_ext (suc n) name entry mem mem' e h same named = elim (steps n name entry mem) [
  | inl t ↦ absurd (taken_ne (sym (find_slot-taken n name entry mem t) ∙ h))
  | inr (inl (other, z)) ↦
      let p : entry ≡ e = vacant_eq entry e (sym (find_slot-vacant n name entry mem other z) ∙ h) in
      find_slot-taken n name entry mem' (rw p named) ∙ ap taken p
  | inr (inr (other, used)) ↦
      let on = sym (find_slot-suc n name entry mem other used) ∙ h in
      let low = (find_slot-IsVacant n name (entry + 32) mem e on).0 in
      let kept : name_at entry mem' ≡ name_at entry mem =
        name_at_ext entry mem mem' (λ a l u. same a l (omega (arith, low))) in
      find_slot-suc n name entry mem' (rw kept other) (rw kept used)
      ∙ find_slot_ext n name (entry + 32) mem mem' e on (λ a l u. same a (omega arith) u) named
]

taken_reach : {a : ℕ} → taken a ≢ unreachable
taken_reach h = cc

vacant_reach : {a : ℕ} → vacant a ≢ unreachable
vacant_reach h = cc

clash : false ≢ true
clash h = cc

-- A search through a cluster with an unused entry stops.
pub find_slot-ne-unreachable :
    (n : ℕ) (name : List ℕ) (entry : ℕ) (mem : Memory) (j : ℕ)
    → j < n
    → name_at (entry + 32 * j) mem ≡ zero_name
    → find_slot n name entry mem ≢ unreachable
unfolding find_slot
find_slot-ne-unreachable zero name entry mem j h unused = absurd (omega arith)
find_slot-ne-unreachable (suc n) name entry mem zero h unused = λ r. elim (steps n name entry mem) [
  | inl t ↦ taken_reach (sym (find_slot-taken n name entry mem t) ∙ r)
  | inr (inl (other, z)) ↦ vacant_reach (sym (find_slot-vacant n name entry mem other z) ∙ r)
  | inr (inr (other, used)) ↦
      let p : entry + 32 * 0 ≡ entry = omega arith in
      let z = rw p at unused in
      clash (sym used ∙ (string_equals_iff (name_at entry mem) zero_name).1 z)
]
find_slot-ne-unreachable (suc n) name entry mem (suc j) h unused = λ r.
    elim (steps n name entry mem) [
      | inl t ↦ taken_reach (sym (find_slot-taken n name entry mem t) ∙ r)
      | inr (inl (other, z)) ↦ vacant_reach (sym (find_slot-vacant n name entry mem other z) ∙ r)
      | inr (inr (other, used)) ↦
          find_slot-ne-unreachable n name (entry + 32) mem j (omega arith)
            (let p : entry + 32 * suc j ≡ entry + 32 + 32 * j = omega arith in rw p at unused)
            (sym (find_slot-suc n name entry mem other used) ∙ r)
    ]
