-- ===== src/Shared/Msi.antt =====
-- The sets with open addressing of projects/shared/code/hash: msi/common.c, msi/string-set.c,
-- msi/u16-set.c and their headers. A free slot holds the value that the memory is cleared to.
pub mod Steps
pub mod Visits
pub mod Probe
pub mod Laws
pub mod Insert
pub mod Strings
pub mod Equals
mod Tests
use homegrown.Prelude.{
  ℕ, zero, suc, ◌+◌, ◌-◌, ◌*◌, ◌^◌, Bool, true, false, Option, none, some, ltb, leb, ◌==◌,
  if◌then◌else◌, length, bit_and, bit_or, u8, u32, u64, sub32, ◌<<<◌, ◌>>>◌,
}
use mathlib.Core.Option.{map as map_some}
use homegrown.Shared.Text.{String, string_equals}
use homegrown.Shared.Hash.{hash_string_skeeto}
use homegrown.Shared.Arena.{Arena, Outcome, allocated, null_pointer, long_jump, alloc, zero_memory}
use homegrown.Freestanding.Memory.{Memory, memset}

-- `MSI_SET(T)`: `buf` are the slots by their index.
pub record MsiSet {ℓ} (A : Type ℓ) : Type ℓ where
  pub buf : ℕ → A
  pub exp : ℕ
  pub len : ℕ

-- The step of `indexLookup`
abbrev pub step_of : ℕ → ℕ → ℕ
step_of hash exp = bit_or (u32 (hash >>> (64 - exp))) 1

-- `indexLookup`
unfoldable pub index_lookup : ℕ → ℕ → ℕ → ℕ
index_lookup hash exp idx = bit_and (u32 (idx + step_of hash exp)) (sub32 (u32 (1 <<< exp)) 1)

-- Where a search ends: at a free slot, or at the slot of the value.
pub data Stop : Type 0 where
  vacant present : ℕ → Stop

abbrev pub write_slot {ℓ} : {A : Type ℓ} → ℕ → A → (ℕ → A) → ℕ → A
write_slot i value buf j = if j == i then value else buf j

-- What an insertion does where its loop ends.
unfoldable pub insert_at {ℓ} : {A : Type ℓ} → A → MsiSet A → Stop → Bool × MsiSet A
insert_at value index (vacant i) =
    (true, record index { buf = write_slot i value index.buf; len = u64 (index.len + 1) })
insert_at value index (present i) = (false, index)

abbrev pub is_present : Stop → Bool
is_present (vacant i) = false
is_present (present i) = true

-- The sets of all types of values have the same loops, with a test for a free slot and one for
-- equal values.
module _ {ℓ} {A : Type ℓ} (is_vacant : A → Bool) (same : A → A → Bool) where
  -- The loop of the insertions and the searches, with fuel for the slots it looks at.
  pub probe : ℕ → ℕ → A → ℕ → MsiSet A → Option Stop
  unfolding index_lookup
  probe zero hash value idx index = none
  probe (suc fuel) hash value idx index =
      let i = index_lookup hash index.exp idx in
      let next = probe fuel hash value i index in
      if is_vacant (index.buf i)
      then some (vacant i)
      else if same (index.buf i) value
      then some (present i)
      else next

  -- No more slots are looked at than there are.
  pub insert : A → ℕ → MsiSet A → Option (Bool × MsiSet A)
  unfolding probe insert_at
  insert value hash index =
      map_some (insert_at value index) (probe (2 ^ index.exp) hash value (u32 hash) index)

  pub contains : A → ℕ → MsiSet A → Option Bool
  unfolding probe
  contains value hash index =
      map_some is_present (probe (2 ^ index.exp) hash value (u32 hash) index)

abbrev pub is_zero : ℕ → Bool
is_zero n = n == 0

abbrev pub is_empty : String → Bool
is_empty s = length s == 0

-- `msi_insertU16` and `msi_containsU16`
pub insert_u16 : ℕ → ℕ → MsiSet ℕ → Option (Bool × MsiSet ℕ)
unfolding insert
insert_u16 = insert is_zero (λ a b. a == b)

pub contains_u16 : ℕ → ℕ → MsiSet ℕ → Option Bool
unfolding contains
contains_u16 = contains is_zero (λ a b. a == b)

-- `msi_insertString` and `msi_containsString`
pub insert_string : String → ℕ → MsiSet String → Option (Bool × MsiSet String)
unfolding insert string_equals
insert_string = insert is_empty string_equals

pub contains_string : String → ℕ → MsiSet String → Option Bool
unfolding contains string_equals
contains_string = contains is_empty string_equals

-- `HashComparisonStatus`
pub data HashComparisonStatus : Type 0 where
  success different_sizes different_content : HashComparisonStatus

-- `FOR_EACH_MSI_STRING(element, set1)` in `msi_equalsStringSet`, from a slot on: whether the other
-- set has all strings that are left.
pub all_contained : ℕ → ℕ → MsiSet String → MsiSet String → Option Bool
unfolding contains_string hash_string_skeeto
all_contained zero i set1 set2 = some true
all_contained (suc left) i set1 set2 =
    let element = set1.buf i in
    let rest = all_contained left (i + 1) set1 set2 in
    if is_empty element
    then rest
    else elim (contains_string element (hash_string_skeeto element) set2) [
      | none ↦ none
      | some found ↦ if found then rest else some false
    ]

-- `msi_equalsStringSet`
pub equals_string_set : MsiSet String → MsiSet String → Option HashComparisonStatus
unfolding all_contained
equals_string_set set1 set2 =
    let second = all_contained (2 ^ set2.exp) 0 set2 set1 in
    let status = λ (b : Bool). if b then success else different_content in
    if set1.len == set2.len
    then elim (all_contained (2 ^ set1.exp) 0 set1 set2) [
      | none ↦ none
      | some same ↦ if same then map_some status second else some different_content
    ]
    else some different_sizes

-- `SetSlice`, whose `buf` is an address.
pub record SetSlice : Type 0 where
  pub buf : ℕ
  pub exp : ℕ
  pub len : ℕ

-- How `msi_newSet` ends.
pub data NewSet : Type 0 where
  made : SetSlice → Arena → Memory → NewSet
  out_of_memory : NewSet

-- The set is moved to what the arena gave.
abbrev pub placed : SetSlice → Option Outcome → Option NewSet
placed replica none = none
placed replica (some (allocated p a mem)) = some (made (record replica { buf = p }) a mem)
placed replica (some null_pointer) = some out_of_memory
placed replica (some long_jump) = some out_of_memory

-- The set is where it was.
abbrev pub keep : SetSlice → Option Outcome → Option NewSet
keep replica none = none
keep replica (some (allocated p a mem)) = some (made replica a mem)
keep replica (some null_pointer) = some out_of_memory
keep replica (some long_jump) = some out_of_memory

-- The same number of slots again behind the set, whose own slots are cleared.
extend : SetSlice → Arena → ℕ → ℕ → Option Memory → Option NewSet
unfolding alloc
extend larger a size cap none = none
extend larger a size cap (some cleared) = keep larger (alloc a size 1 cap zero_memory cleared)

-- `msi_newSet`
pub new_set : SetSlice → ℕ → ℕ → Arena → Memory → Option NewSet
unfolding alloc memset extend
new_set replica size align a mem =
    let cap = 1 <<< replica.exp in
    let larger : SetSlice = record replica { exp = u8 (replica.exp + 1); len = 0 } in
    let fresh = placed replica (alloc a size align cap zero_memory mem) in
    let moved = placed larger (alloc a (u64 (2 * size)) align cap zero_memory mem) in
    let extended = extend larger a size cap (memset replica.buf 0 (u64 (size * cap)) mem) in
    if leb 31 replica.exp
    then some out_of_memory
    else if replica.buf == 0
    then fresh
    else if a.beg == u64 (replica.buf + u64 (size * cap))
    then extended
    else moved
