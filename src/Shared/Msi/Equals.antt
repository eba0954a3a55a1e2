-- ===== src/Shared/Msi/Equals.antt =====
-- `msi_equalsStringSet` compares the strings that two sets hold.
use homegrown.Prelude.{ℕ, ◌+◌, ◌≤◌, ◌<◌, ◌≡◌, ◌↔◌, Bool, true, false, some}
use homegrown.Shared.Text.{String}
use homegrown.Shared.Hash.{hash_string_skeeto}
use homegrown.Shared.Msi.{MsiSet, is_empty, all_contained}
use homegrown.Shared.Msi.Strings.{HoldsString}

-- The strings in the slots from `i` to `i + left` of one set are in the other.
AllHeld : ℕ → ℕ → MsiSet String → MsiSet String → Type 0
AllHeld i left set1 set2 =
    (x : ℕ)
    → i ≤ x
    → x < i + left
    → is_empty (set1.buf x) ≡ false
    → HoldsString hash_string_skeeto set2 (set1.buf x)

Answers : ℕ → ℕ → MsiSet String → MsiSet String → Type 0
Answers left i set1 set2 =
    (b : Bool) × (all_contained left i set1 set2 ≡ some b) × ((b ≡ true) ↔ AllHeld i left set1 set2)

-- The one set holds the strings of the other.
unfoldable pub IsIncluded : MsiSet String → MsiSet String → Type 0
IsIncluded set1 set2 =
    (w : String)
    → is_empty w ≡ false
    → HoldsString hash_string_skeeto set1 w
    → HoldsString hash_string_skeeto set2 w
