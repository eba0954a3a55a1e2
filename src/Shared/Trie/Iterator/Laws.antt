-- ===== src/Shared/Trie/Iterator/Laws.antt =====
-- The iterators of common-iterator.h run over the elements of a trie.
use homegrown.Prelude.{
  ℕ, zero, suc, ◌+◌, ◌≤◌, ◌<◌, ◌≡◌, ◌⊎◌, Bool, false, Option, none, some, List, [], ◌∷◌, ◌++◌,
}
use homegrown.Shared.Arena.{Arena}
use homegrown.Shared.Trie.{Trie, empty, node}
use homegrown.Shared.Trie.Iterator.{
  IterNode, Iterator, Next, element, finished, no_room, fault, Visited, visited, jumped,
}

module _ {D : Type 0} where
  -- The data of a trie, each node before its children.
  abbrev pub elements : Trie D → List D
  elements empty = []
  elements (node d t0 t1 t2 t3) = d ∷ (elements t0 ++ (elements t1 ++ (elements t2 ++ elements t3)))

  -- The rounds that run through a trie.
  abbrev pub work : Trie D → ℕ
  work empty = 0
  work (node d t0 t1 t2 t3) = 6 + (work t0 + (work t1 + (work t2 + work t3)))

  -- The data and the rounds that are left at an index; a set of an iterator is no null pointer.
  abbrev left : Trie D → ℕ → List D
  left empty i = []
  left (node d t0 t1 t2 t3) zero = elements (node d t0 t1 t2 t3)
  left (node d t0 t1 t2 t3) (suc zero) =
      elements t0 ++ (elements t1 ++ (elements t2 ++ elements t3))
  left (node d t0 t1 t2 t3) (suc (suc zero)) = elements t1 ++ (elements t2 ++ elements t3)
  left (node d t0 t1 t2 t3) (suc (suc (suc zero))) = elements t2 ++ elements t3
  left (node d t0 t1 t2 t3) (suc (suc (suc (suc zero)))) = elements t3
  left (node d t0 t1 t2 t3) (suc (suc (suc (suc (suc i))))) = []

  abbrev work_left : Trie D → ℕ → ℕ
  work_left empty i = 0
  work_left (node d t0 t1 t2 t3) zero = work (node d t0 t1 t2 t3)
  work_left (node d t0 t1 t2 t3) (suc zero) = 5 + (work t0 + (work t1 + (work t2 + work t3)))
  work_left (node d t0 t1 t2 t3) (suc (suc zero)) = 4 + (work t1 + (work t2 + work t3))
  work_left (node d t0 t1 t2 t3) (suc (suc (suc zero))) = 3 + (work t2 + work t3)
  work_left (node d t0 t1 t2 t3) (suc (suc (suc (suc zero)))) = 2 + work t3
  work_left (node d t0 t1 t2 t3) (suc (suc (suc (suc (suc i))))) = 1

  abbrev IsLeft : Trie D → ℕ → Type 0
  IsLeft empty i = ⊥
  IsLeft (node d t0 t1 t2 t3) i = i ≤ 5

  abbrev pending : List (IterNode D) → List D
  pending [] = []
  pending (n ∷ ns) = left n.set n.index ++ pending ns

  abbrev rounds_left : List (IterNode D) → ℕ
  rounds_left [] = 0
  rounds_left (n ∷ ns) = work_left n.set n.index + rounds_left ns

  abbrev AllLeft : List (IterNode D) → Type 0
  AllLeft [] = Unit
  AllLeft (n ∷ ns) = IsLeft n.set n.index × AllLeft ns

  -- What a call of the iterator gives, against the data and the rounds that were left.
  abbrev Continues : List D → ℕ → Next D → Type 0
  Continues ds n (element d it perm) =
      (ds ≡ d ∷ pending it.head) × AllLeft it.head × (rounds_left it.head < n)
  Continues ds n (finished it perm) = ds ≡ []
  Continues ds n no_room = Unit
  Continues ds n fault = ⊥

  -- An iterator that has the whole trie before it.
  abbrev Starts : Trie D → Option (Iterator D × Arena) → Type 0
  Starts t none = Unit
  Starts t (some (it, perm)) =
      (pending it.head ≡ elements t) × AllLeft it.head × (rounds_left it.head ≤ work t)

  abbrev pub AllNonzero : (D → Bool) → List D → Type 0
  AllNonzero is_zero [] = Unit
  AllNonzero is_zero (d ∷ ds) = (is_zero d ≡ false) × AllNonzero is_zero ds

  module _ (is_zero : D → Bool) where
    -- A loop that runs over the data that is left, or jumps.
    abbrev pub Runs : List D → Visited D → Type 0
    Runs ds v = (v ≡ jumped) ⊎ (v ≡ visited ds)
