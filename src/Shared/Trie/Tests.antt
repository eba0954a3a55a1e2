-- ===== src/Shared/Trie/Tests.antt =====
-- Runs of the tries of projects/shared/code/hash.
use homegrown.Prelude.{◌≡◌, ◌==◌, refl, Bool, false, Option, some, none, [], ◌∷◌, length, arith}
use homegrown.Shared.Arena.{Arena}
use homegrown.Shared.Text.{String}
use homegrown.Shared.Trie.{
  Trie, empty, node, AutoMap, NewStringInsert, Entry, entry, insert_string_auto_u16_map,
  contains_string_auto_u16_map, insert_string_set, insert_u16_set, insert_string_u16_map,
}
use homegrown.Shared.Trie.Iterator.{for_each, visited}
use homegrown.Shared.Trie.Numbering.{IsNumbered, IsInserted, insert_string_auto_u16_map-IsInserted}

abbrev room : Arena
room = record { cur_free = 0x1000; beg = 0x1000; end = 0x2000 }

abbrev ab : String
ab = b'a' ∷ b'b' ∷ []

abbrev cd : String
cd = b'c' ∷ b'd' ∷ []

abbrev no_keys : AutoMap
no_keys = record { node_count = 0; nodes = empty }

no_keys-IsNumbered : IsNumbered no_keys
unfolding contains_string_auto_u16_map
no_keys-IsNumbered = record {
  counted = λ k. omega arith;
  word = omega arith;
  distinct = λ j k ne e. absurd (ne refl);
}

insert_string_auto_u16_map-IsInserted_example :
    IsInserted ab no_keys room (insert_string_auto_u16_map ab no_keys room)
insert_string_auto_u16_map-IsInserted_example =
    insert_string_auto_u16_map-IsInserted ab no_keys room no_keys-IsNumbered

abbrev is_empty : String → Bool
is_empty s = length s == 0

abbrev three_strings : Trie String
three_strings =
    node ab empty (node cd empty empty (node (b'e' ∷ []) empty empty empty empty) empty) empty empty

for_each_run : for_each is_empty 19 three_strings room ≡ visited (ab ∷ cd ∷ (b'e' ∷ []) ∷ [])
unfolding for_each homegrown.Shared.Trie.new_node
for_each_run = refl

abbrev result {ℓ κ} : {R : Type ℓ} {T : Type κ} → Option (R × T × Arena) → Option R
result none = none
result (some (r, t, perm)) = some r

insert_string_u16_map_run :
    result (insert_string_u16_map ab 7 (node (entry ab 3) empty empty empty empty) room) ≡ some 3
unfolding insert_string_u16_map homegrown.Shared.Text.string_equals
insert_string_u16_map_run = refl

insert_twice : result (insert_u16_set 5 (node 5 empty empty empty empty) room) ≡ some false
unfolding insert_u16_set
insert_twice = refl

insert_string_set_run : result (insert_string_set ab three_strings room) ≡ some false
unfolding insert_string_set homegrown.Shared.Text.string_equals
insert_string_set_run = refl

contains_run :
    contains_string_auto_u16_map ab
      (record { node_count = 1; nodes = node (entry ab 1) empty empty empty empty })
    ≡ 1
unfolding contains_string_auto_u16_map homegrown.Shared.Text.string_equals
contains_run = refl
