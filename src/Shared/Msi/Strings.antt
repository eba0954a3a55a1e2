-- ===== src/Shared/Msi/Strings.antt =====
-- `msi_insertString` and `msi_containsString`.
use homegrown.Prelude.{ℕ, ◌<◌, ◌≡◌, ◌↔◌, Bool, true, false, some}
use homegrown.Shared.Text.{String, string_equals}
use homegrown.Shared.Text.Equality.{string_equals_iff}
use homegrown.Shared.Msi.{MsiSet, is_empty, insert_string, contains_string}
use homegrown.Shared.Msi.Laws.{Holds, HasVacancy, IsProbed, contains-answers}
use homegrown.Shared.Msi.Insert.{IsInserted, insert-ends}

module _ (hash_of : String → ℕ) where
  abbrev pub HoldsString : MsiSet String → String → Type 0
  HoldsString = Holds is_empty string_equals hash_of

  abbrev pub HasRoom : MsiSet String → Type 0
  HasRoom = HasVacancy is_empty string_equals hash_of

  abbrev pub IsHashed : MsiSet String → Type 0
  IsHashed = IsProbed is_empty string_equals hash_of

pub contains_string-answers :
    (hash_of : String → ℕ) (index : MsiSet String) (value : String)
    → index.exp < 32
    → HasRoom hash_of index
    → IsHashed hash_of index
    → is_empty value ≡ false
    → (b : Bool) × (contains_string value (hash_of value) index ≡ some b)
      × ((b ≡ true) ↔ HoldsString hash_of index value)
unfolding contains_string
contains_string-answers hash_of index value small room hashed filled =
    contains-answers is_empty string_equals hash_of string_equals_iff index small room value hashed
      filled

-- If a set of strings of up to 2 ^ 31 slots has a free slot and each string is where its search ends, the
-- insertion of a string that is not empty, with its hash, ends after at most as many lookups as there are slots, tells
-- whether the string was new, and gives a set of the same size, again with each string where its search
-- ends, that holds the string and what was held before, with a length that is one more if
-- the string was new.
pub insert_string-IsInserted :
    (hash_of : String → ℕ) (index : MsiSet String) (value : String)
    → index.exp < 32
    → HasRoom hash_of index
    → IsHashed hash_of index
    → is_empty value ≡ false
    → (r : Bool × MsiSet String) × (insert_string value (hash_of value) index ≡ some r)
      × IsInserted is_empty string_equals hash_of value index r
unfolding insert_string
insert_string-IsInserted hash_of index value small room hashed filled =
    insert-ends is_empty string_equals hash_of string_equals_iff index small room value hashed
      filled
