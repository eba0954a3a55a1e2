-- ===== src/Shared/Msi/Tests.antt =====
-- Sets with one string.
use homegrown.Prelude.{
  ℕ, ◌+◌, ◌≡◌, ◌∙◌, refl, sym, arith, ap, Bool, true, false, none, some, [], inl, inr, codes, ◌==◌,
  ==_iff, if◌then◌else◌, Bool-cases, u32, length,
}
use mathlib.Core.Option.{map as map_some}
use homegrown.Shared.Text.{String, string_equals}
use homegrown.Shared.Msi.{MsiSet, is_empty, insert_string, insert_u16, contains_u16, index_lookup}
use homegrown.Shared.Msi.Visits.{visited}
use homegrown.Shared.Msi.Laws.{HasVacancy, IsProbed}
use homegrown.Shared.Msi.Probe.{not_both}
use homegrown.Shared.Msi.Insert.{IsInserted}
use homegrown.Shared.Msi.Strings.{HasRoom, IsHashed, insert_string-IsInserted}

abbrev key : String
key = codes "a"

abbrev only_key : ℕ → MsiSet String
only_key slot = record { buf = λ x. if x == slot then key else []; exp = 2; len = 1 }

only_key-IsHashed :
    (hash_of : String → ℕ) (slot : ℕ)
    → visited (hash_of key) 2 (u32 (hash_of key)) 0 ≡ slot
    → IsHashed hash_of (only_key slot)
unfolding IsProbed
only_key-IsHashed hash_of slot place value x inside e filled = elim (Bool-cases (x == slot)) [
  | inl at ↦
      let same_value : value ≡ key = sym e ∙ (rw at refl) in
      rw same_value (0, place ∙ sym ((==_iff x slot).0 at), λ i lt. absurd (omega (arith, lt)))
  | inr other ↦
      let none : value ≡ [] = sym e ∙ (rw other refl) in
      elim (not_both (is_empty value) (ap is_empty none) filled) [ ]
]

only_key-HasRoom :
    (hash_of : String → ℕ) (slot : ℕ) → (1 == slot) ≡ false → HasRoom hash_of (only_key slot)
unfolding HasVacancy
only_key-HasRoom hash_of slot other = (1, omega arith, rw other refl)

by_length : String → ℕ
by_length s = length s

first_slot : visited (by_length key) 2 (u32 (by_length key)) 0 ≡ 2
unfolding visited index_lookup by_length
first_slot = refl

insert_string-IsInserted_example :
    (r : Bool × MsiSet String) × (insert_string (codes "b") (by_length (codes "b")) (only_key 2)
      ≡ some r)
    × IsInserted is_empty string_equals by_length (codes "b") (only_key 2) r
insert_string-IsInserted_example =
    insert_string-IsInserted by_length (only_key 2) (codes "b") (omega arith)
      (only_key-HasRoom by_length 2 refl) (only_key-IsHashed by_length 2 first_slot) refl

abbrev result_of : Bool × MsiSet String → Bool × String × String × ℕ
result_of (fresh, index) = (fresh, index.buf 2, index.buf 3, index.len)

-- The slot of the other string is taken, so that the next one is used.
insert_other :
    map_some result_of (insert_string (codes "b") 1 (only_key 2))
    ≡ some (true, codes "a", codes "b", 2)
unfolding insert_string homegrown.Shared.Msi.insert homegrown.Shared.Msi.probe index_lookup
    string_equals
insert_other = refl

insert_again :
    map_some result_of (insert_string (codes "a") 1 (only_key 2)) ≡ some (false, codes "a", [], 1)
unfolding insert_string homegrown.Shared.Msi.insert homegrown.Shared.Msi.probe index_lookup
    string_equals
insert_again = refl

-- A set without a free slot does not end the search of another value.
full_set : contains_u16 7 0 (record { buf = λ x. x + 1; exp = 1; len = 2 }) ≡ none
unfolding contains_u16 homegrown.Shared.Msi.contains homegrown.Shared.Msi.probe index_lookup
full_set = refl
