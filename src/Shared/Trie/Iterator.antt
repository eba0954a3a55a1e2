-- ===== src/Shared/Trie/Iterator.antt =====
-- The iterators over a trie of projects/shared/code/hash: common-iterator.h and the loops that the
-- headers of the tries define with them.
pub mod Laws
use homegrown.Prelude.{
  ℕ, zero, suc, ◌+◌, ◌*◌, ◌%◌, ◌^◌, Bool, true, false, Option, none, some, List, [], ◌∷◌, ◌==◌,
  if◌then◌else◌, u16, u64, u16_max, ◌>>>◌,
}
use homegrown.Freestanding.Memory.{Memory}
use homegrown.Shared.Arena.{Arena, alloc, allocated, zero_memory}
use homegrown.Shared.Text.{String, string_equals}
use homegrown.Shared.Hash.{hash_string_skeeto, hash_u16}
use homegrown.Shared.Trie.{Trie, empty, node, new_node}

-- common-iterator.h: a node of the iterator, whose `next` is the rest of its list.
pub record IterNode {ℓ} (D : Type ℓ) : Type ℓ where
  pub set : Trie D
  pub index : ℕ

pub record Iterator {ℓ} (D : Type ℓ) : Type ℓ where
  pub head : List (IterNode D)
  pub free : List (IterNode D)

-- How a call of an iterator ends: with data, with the zero value at the end of the trie, or with
-- the jump to the arena's buffer; a null pointer that is read, or fuel that is used up, is a fault.
pub data Next {ℓ} (D : Type ℓ) : Type ℓ where
  element : D → Iterator D → Arena → Next D
  finished : Iterator D → Arena → Next D
  no_room fault : Next D

abbrev pub child_of {ℓ} : {D : Type ℓ} → ℕ → Trie D → Trie D → Trie D → Trie D → Trie D
child_of zero t0 t1 t2 t3 = t0
child_of (suc zero) t0 t1 t2 t3 = t1
child_of (suc (suc zero)) t0 t1 t2 t3 = t2
child_of (suc (suc (suc i))) t0 t1 t2 t3 = t3

module _ {ℓ} {D : Type ℓ} where
  -- `TRIE_NEW_ITERATOR`: the iterator has 16 bytes and a node of it 24.
  pub with_head : Trie D → Option Arena → Option (Iterator D × Arena)
  with_head root none = none
  with_head root (some perm) =
      some (record { head = record { set = root; index = 0 } ∷ []; free = [] }, perm)

  pub with_iterator : Trie D → Option Arena → Option (Iterator D × Arena)
  unfolding with_head
  with_iterator root none = none
  with_iterator empty (some perm) = some (record { head = []; free = [] }, perm)
  with_iterator (node d t0 t1 t2 t3) (some perm) = with_head (node d t0 t1 t2 t3) (new_node 24 perm)

  pub create_iterator : Trie D → Arena → Option (Iterator D × Arena)
  unfolding with_iterator
  create_iterator root perm = with_iterator root (new_node 16 perm)

  -- A new node of the iterator, if the arena had room.
  pub push_new : (Iterator D → Arena → Next D) → Trie D → List (IterNode D) → Option Arena → Next D
  push_new go child head none = no_room
  push_new go child head (some perm) =
      go (record { head = record { set = child; index = 0 } ∷ head; free = [] }) perm

  -- On to a child: a null pointer is passed over, a node is pushed, from the free list or the
  -- arena.
  pub descend :
      (Iterator D → Arena → Next D)
      → Trie D
      → List (IterNode D)
      → List (IterNode D)
      → Arena
      → Next D
  unfolding push_new
  descend go empty head free perm = go (record { head = head; free = free }) perm
  descend go (node d t0 t1 t2 t3) head [] perm =
      push_new go (node d t0 t1 t2 t3) head (new_node 24 perm)
  descend go (node d t0 t1 t2 t3) head (dead ∷ free) perm =
      go (record { head = record { set = node d t0 t1 t2 t3; index = 0 } ∷ head; free = free }) perm

  -- One round of the loop of `TRIE_NEXT_ITERATOR`, on the head's set and its index.
  pub next_round :
      (Iterator D → Arena → Next D)
      → Trie D
      → ℕ
      → List (IterNode D)
      → List (IterNode D)
      → Arena
      → Next D
  unfolding descend
  next_round go empty index rest free perm = fault
  next_round go (node d t0 t1 t2 t3) zero rest free perm =
      element d
        (record { head = record { set = node d t0 t1 t2 t3; index = 1 } ∷ rest; free = free }) perm
  next_round go (node d t0 t1 t2 t3) (suc i) rest free perm =
      let here : IterNode D = record { set = node d t0 t1 t2 t3; index = suc i + 1 } in
      if i == 4
      then go (record { head = rest; free = here ∷ free }) perm
      else descend go (child_of i t0 t1 t2 t3) (here ∷ rest) free perm

  pub next_iterator : ℕ → Iterator D → Arena → Next D
  unfolding next_round
  next_iterator zero it perm = fault
  next_iterator (suc fuel) it perm = elim it.head [
    | [] ↦ finished it perm
    | here ∷ rest ↦ next_round (next_iterator fuel) here.set here.index rest it.free perm
  ]

-- What a loop over a trie comes to: the data it ran over, or the jump; reads of null pointers and
-- used-up fuel are faults.
pub data Visited {ℓ} (D : Type ℓ) : Type ℓ where
  visited : List D → Visited D
  jumped failed : Visited D

abbrev pub before {ℓ} : {D : Type ℓ} → D → Visited D → Visited D
before d (visited ds) = visited (d ∷ ds)
before d jumped = jumped
before d failed = failed

module _ {ℓ} {D : Type ℓ} (is_zero : D → Bool) where
  -- The loop of `FOR_EACH_TRIE_STRING` and its like, which stops at data that counts as zero.
  pub visit_next : (Iterator D → Arena → Visited D) → Next D → Visited D
  visit_next go (element d it perm) = if is_zero d then visited [] else before d (go it perm)
  visit_next go (finished it perm) = visited []
  visit_next go no_room = jumped
  visit_next go fault = failed

  pub visit : ℕ → ℕ → Iterator D → Arena → Visited D
  unfolding next_iterator visit_next
  visit fuel zero it perm = failed
  visit fuel (suc rounds) it perm = visit_next (visit fuel rounds) (next_iterator fuel it perm)

  pub visit_all : ℕ → Option (Iterator D × Arena) → Visited D
  unfolding visit
  visit_all fuel none = jumped
  visit_all fuel (some (it, perm)) = visit fuel fuel it perm

  unfoldable pub for_each : ℕ → Trie D → Arena → Visited D
  unfolding visit_all create_iterator
  for_each fuel root perm = visit_all fuel (create_iterator root perm)
