-- ===== src/Shared/Trie.antt =====
-- The tries of projects/shared/code/hash: string-set.c, string-u16-map.c, string-auto-u16-map.c,
-- uint16-set.c, and the iterators of common-iterator.h.
pub mod Lookup
pub mod Numbering
pub mod Iterator
mod Tests
use homegrown.Prelude.{
  ℕ, zero, suc, ◌+◌, ◌*◌, ◌%◌, ◌^◌, Bool, true, false, Option, none, some, List, [], ◌∷◌, ◌==◌,
  if◌then◌else◌, u16, u64, u16_max, ◌>>>◌,
}
use homegrown.Freestanding.Memory.{Memory}
use homegrown.Shared.Arena.{Arena, alloc, allocated, zero_memory}
use homegrown.Shared.Text.{String, string_equals}
use homegrown.Shared.Hash.{hash_string_skeeto, hash_u16}

-- A node with its four children; `empty` is the null pointer.
pub data Trie {ℓ} (D : Type ℓ) : Type ℓ where
  empty : Trie D
  node : D → Trie D → Trie D → Trie D → Trie D → Trie D

-- The child for the highest two bits of the hash.
pub data Slot : Type 0 where
  slot_0 slot_1 slot_2 slot_3 : Slot

abbrev pub slot_of : ℕ → Slot
slot_of zero = slot_0
slot_of (suc zero) = slot_1
slot_of (suc (suc zero)) = slot_2
slot_of (suc (suc (suc n))) = slot_3

-- What the walk of an insertion comes to: a node that has the key, or the trie with the new node
-- in the place of the null pointer.
pub data Placed {ℓ} (D : Type ℓ) : Type ℓ where
  found : D → Placed D
  placed : Trie D → Placed D

abbrev pub rebuild {ℓ} : {D : Type ℓ} → (Trie D → Trie D) → Placed D → Placed D
rebuild f (found d) = found d
rebuild f (placed t) = placed (f t)

-- The walk, for hashes of `w` bits.
module _ {ℓ} {D : Type ℓ} (same : D → Bool) (w : ℕ) where
  pub place : D → Trie D → ℕ → Placed D
  place new empty hash = placed (node new empty empty empty empty)
  place new (node d t0 t1 t2 t3) hash = elim (same d) [
    | true ↦ found d
    | false ↦ elim (slot_of (hash >>> w)) [
      | slot_0 ↦ rebuild (λ t. node d t t1 t2 t3) (place new t0 (hash * 4 % 2 ^ (w + 2)))
      | slot_1 ↦ rebuild (λ t. node d t0 t t2 t3) (place new t1 (hash * 4 % 2 ^ (w + 2)))
      | slot_2 ↦ rebuild (λ t. node d t0 t1 t t3) (place new t2 (hash * 4 % 2 ^ (w + 2)))
      | slot_3 ↦ rebuild (λ t. node d t0 t1 t2 t) (place new t3 (hash * 4 % 2 ^ (w + 2)))
    ]
  ]

  pub search : Trie D → ℕ → Option D
  search empty hash = none
  search (node d t0 t1 t2 t3) hash = elim (same d) [
    | true ↦ some d
    | false ↦ elim (slot_of (hash >>> w)) [
      | slot_0 ↦ search t0 (hash * 4 % 2 ^ (w + 2))
      | slot_1 ↦ search t1 (hash * 4 % 2 ^ (w + 2))
      | slot_2 ↦ search t2 (hash * 4 % 2 ^ (w + 2))
      | slot_3 ↦ search t3 (hash * 4 % 2 ^ (w + 2))
    ]
  ]

-- `NEW(perm, T, 1, ZERO_MEMORY)`: the node is a value of the model, so that of the memory only the
-- arena is kept. `none` is the jump to the arena's buffer.
pub new_node : ℕ → Arena → Option Arena
unfolding alloc
new_node size perm = elim (alloc perm size 8 1 zero_memory (λ a. 0)) [
  | some (allocated p perm' mem) ↦ some perm'
  | other ↦ none
]

-- What an insertion returns, with the trie and the arena, if it returns.
abbrev pub Inserted {ℓ κ} : Type ℓ → Type κ → Type (ℓ ⊔ κ)
Inserted R T = Option (R × T × Arena)

abbrev pub inserted {ℓ κ} :
    {R : Type ℓ} {D : Type κ} → (D → R) → R → ℕ → Trie D → Arena → Placed D → Inserted R (Trie D)
inserted old fresh size set perm (found d) = some (old d, set, perm)
inserted old fresh size set perm (placed t) = elim (new_node size perm) [
  | some perm' ↦ some (fresh, t, perm')
  | none ↦ none
]

-- string-set.c: `sizeof(trie_stringSet)` is 48.
pub insert_string_set : String → Trie String → Arena → Inserted Bool (Trie String)
unfolding new_node place hash_string_skeeto
insert_string_set key set perm =
    inserted (λ d. false) true 48 set perm
      (place (string_equals key) 62 key set (hash_string_skeeto key))

-- `trie_stringU16Data` and `trie_stringAutoU16Data`
pub record Entry : Type 0 where
  pub key : String
  pub value : ℕ

abbrev pub has_key : String → Entry → Bool
has_key key d = string_equals key d.key

abbrev pub entry : String → ℕ → Entry
entry k v = record { key = k; value = v }

-- string-u16-map.c: a fresh key returns `true` as a number.
pub insert_string_u16_map : String → ℕ → Trie Entry → Arena → Inserted ℕ (Trie Entry)
unfolding new_node place hash_string_skeeto
insert_string_u16_map key value set perm =
    inserted (λ d. d.value) 1 56 set perm
      (place (has_key key) 62 (entry key value) set (hash_string_skeeto key))

-- uint16-set.c, whose hashes have 16 bits
pub insert_u16_set : ℕ → Trie ℕ → Arena → Inserted Bool (Trie ℕ)
unfolding new_node place hash_u16
insert_u16_set key set perm =
    inserted (λ d. false) true 40 set perm (place (λ d. key == d) 14 key set (hash_u16 key))

-- `trie_stringAutoU16Map`
pub record AutoMap : Type 0 where
  pub node_count : ℕ
  pub nodes : Trie Entry

-- `NewStringInsert`
pub record NewStringInsert : Type 0 where
  pub was_inserted : Bool
  pub entry_index : ℕ

-- string-auto-u16-map.c: the end of the insertion.
pub auto_inserted : AutoMap → ℕ → Arena → Placed Entry → Inserted NewStringInsert AutoMap
auto_inserted set next perm (found d) =
    some (record { was_inserted = false; entry_index = d.value }, set, perm)
auto_inserted set next perm (placed t) =
    if set.node_count == u16_max then none else elim (new_node 56 perm) [
      | some perm' ↦ some (
        record { was_inserted = true; entry_index = next },
        record { node_count = next; nodes = t },
        perm',
      )
      | none ↦ none
    ]

pub insert_string_auto_u16_map : String → AutoMap → Arena → Inserted NewStringInsert AutoMap
unfolding new_node place hash_string_skeeto auto_inserted
insert_string_auto_u16_map key set perm =
    let next = u16 (set.node_count + 1) in
    auto_inserted set next perm
      (place (has_key key) 62 (entry key next) set.nodes (hash_string_skeeto key))

pub contains_string_auto_u16_map : String → AutoMap → ℕ
unfolding search hash_string_skeeto
contains_string_auto_u16_map key set =
    elim (search (has_key key) 62 set.nodes (hash_string_skeeto key)) [
      | some d ↦ d.value
      | none ↦ 0
    ]
