-- ===== src/Shared/Trie/Numbering.antt =====
-- The map of string-auto-u16-map.c numbers its keys.
use homegrown.Prelude.{
  ℕ, ◌+◌, ◌≤◌, ◌≡◌, ◌≢◌, ◌⊎◌, sym, refl, false, none, some, ◌==◌, if◌then◌else◌, u16, u16_max,
  Bool-cases, Option-cases, inl, inr, arith,
}
use homegrown.Shared.Arena.{Arena}
use homegrown.Shared.Text.{String, string_equals}
use homegrown.Shared.Text.Equality.{string_equals_iff}
use homegrown.Shared.Hash.{hash_string_skeeto}
use homegrown.Shared.Trie.{
  Placed, found, placed, place, search, new_node, Inserted, Entry, entry, has_key, AutoMap,
  NewStringInsert, auto_inserted, insert_string_auto_u16_map, contains_string_auto_u16_map,
}
use homegrown.Shared.Trie.Lookup.{IsPlaced, place-IsPlaced}

-- No key has a number above the count, and no two keys have the same number.
pub record IsNumbered (set : AutoMap) : Type 0 where
  pub counted : (k : String) → contains_string_auto_u16_map k set ≤ set.node_count
  pub word : set.node_count ≤ u16_max
  pub distinct :
      (j k : String)
      → contains_string_auto_u16_map j set ≢ 0
      → contains_string_auto_u16_map j set ≡ contains_string_auto_u16_map k set
      → j ≡ k

-- The map after an insertion, as a function from keys to numbers.
abbrev pub Reads : String → ℕ → AutoMap → AutoMap → Type 0
Reads key n set set' =
    (k : String)
    → contains_string_auto_u16_map k set'
      ≡ (if string_equals k key then n else contains_string_auto_u16_map k set)

-- An insertion that returns a number, for a fresh key or for one that is there, or that jumps.
abbrev pub IsInserted : String → AutoMap → Arena → Inserted NewStringInsert AutoMap → Type 0
IsInserted key set perm none =
    (contains_string_auto_u16_map key set ≡ 0)
    × ((set.node_count ≡ u16_max) ⊎ (new_node 56 perm ≡ none))
IsInserted key set perm (some (r, set', perm')) =
    Reads key r.entry_index set set'
    × IsNumbered set'
    × (r.entry_index
        ≡ (if r.was_inserted then set.node_count + 1 else contains_string_auto_u16_map key set))
    × (set'.node_count ≡ (if r.was_inserted then set.node_count + 1 else set.node_count))
    × (contains_string_auto_u16_map key set ≡ (if r.was_inserted then 0 else r.entry_index))

numbered :
    (key : String) (n : ℕ) (set set' : AutoMap)
    → IsNumbered set
    → n ≡ set.node_count + 1
    → set'.node_count ≡ n
    → n ≤ u16_max
    → Reads key n set set'
    → IsNumbered set'
numbered key n set set' v fresh count word reads = record {
  counted = λ k. ground (arith, reads k, v.counted k);
  word = omega arith;
  distinct = λ j k ne e. ground (
    arith,
    reads j,
    reads k,
    v.counted j,
    v.counted k,
    v.distinct j k,
    (string_equals_iff j key).0,
    (string_equals_iff k key).0,
  );
}

contains-some :
    (k : String) (set : AutoMap) (d : Entry)
    → search (has_key k) 62 set.nodes (hash_string_skeeto k) ≡ some d
    → contains_string_auto_u16_map k set ≡ d.value
unfolding contains_string_auto_u16_map
contains-some k set d e = rw (e, contains_string_auto_u16_map) refl

contains-none :
    (k : String) (set : AutoMap)
    → search (has_key k) 62 set.nodes (hash_string_skeeto k) ≡ none
    → contains_string_auto_u16_map k set ≡ 0
unfolding contains_string_auto_u16_map
contains-none k set e = rw (e, contains_string_auto_u16_map) refl

contains-eq :
    (k : String) (set set' : AutoMap)
    → search (has_key k) 62 set'.nodes (hash_string_skeeto k)
      ≡ search (has_key k) 62 set.nodes (hash_string_skeeto k)
    → contains_string_auto_u16_map k set' ≡ contains_string_auto_u16_map k set
unfolding contains_string_auto_u16_map
contains-eq k set set' e = rw (e, contains_string_auto_u16_map) refl

reads_at :
    (key k : String) (n : ℕ) (set set' : AutoMap)
    → contains_string_auto_u16_map key set' ≡ n
    → (string_equals k key ≡ false
        → contains_string_auto_u16_map k set' ≡ contains_string_auto_u16_map k set)
    → contains_string_auto_u16_map k set'
      ≡ (if string_equals k key then n else contains_string_auto_u16_map k set)
reads_at key k n set set' there other = elim (Bool-cases (string_equals k key)) [
  | inl same ↦ rw same (rw ((string_equals_iff k key).0 same) there)
  | inr new ↦ rw new (other new)
]

inserted_lem :
    (key : String) (set : AutoMap) (perm : Arena) (p : Placed Entry)
    → IsNumbered set
    → IsPlaced
        (has_key key)
        62
        (entry key (u16 (set.node_count + 1)))
        set.nodes
        (hash_string_skeeto key)
        p
    → IsInserted key set perm (auto_inserted set (u16 (set.node_count + 1)) perm p)
unfolding auto_inserted contains_string_auto_u16_map
inserted_lem key set perm (found d) v e = (
  λ k. reads_at key k d.value set set (contains-some key set d e) (λ other. refl),
  v,
  sym (contains-some key set d e),
  refl,
  contains-some key set d e,
)
inserted_lem key set perm (placed t) v (missed, now, kept) =
    elim (Bool-cases (set.node_count == u16_max)) [
      | inl full ↦ rw full (contains-none key set missed, inl (ground arith))
      | inr more ↦ elim (Option-cases (new_node 56 perm)) [
        | inl out ↦ rw (more, out) (contains-none key set missed, inr out)
        | inr (perm', given) ↦
            let n = u16 (set.node_count + 1) in
            let set' : AutoMap = record { node_count = n; nodes = t } in
            let count : n ≡ set.node_count + 1 = ground (arith, v.word) in
            let reads : Reads key n set set' = λ k.
              reads_at key k n set set' (contains-some key set' (entry key n) now)
                (λ other. contains-eq k set set' (kept (has_key k) (hash_string_skeeto k) other)) in
            rw (more, given)
              (
                reads,
                numbered key n set set' v count refl (ground (arith, v.word)) reads,
                count,
                count,
                contains-none key set missed,
              )
      ]
    ]

-- For a map whose keys have different numbers up to its count, an insertion into an arena that may
-- be full does one of two things. It returns a number, which the key then has while every other
-- key keeps its own: the number the key had before, with the count unchanged, or the next number
-- for a key that had none; the map's keys again have different numbers up to its count. Or it
-- jumps, only for a key that has no number, and if the count is at its maximum or the arena has no
-- room for a node.
pub insert_string_auto_u16_map-IsInserted :
    (key : String) (set : AutoMap) (perm : Arena)
    → IsNumbered set
    → IsInserted key set perm (insert_string_auto_u16_map key set perm)
unfolding insert_string_auto_u16_map contains_string_auto_u16_map
insert_string_auto_u16_map-IsInserted key set perm v =
    inserted_lem key set perm
      (place (has_key key) 62 (entry key (u16 (set.node_count + 1))) set.nodes
        (hash_string_skeeto key))
      v
      (place-IsPlaced (has_key key) 62 (entry key (u16 (set.node_count + 1)))
        ((string_equals_iff key key).1 refl) set.nodes (hash_string_skeeto key))
