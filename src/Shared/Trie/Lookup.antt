-- ===== src/Shared/Trie/Lookup.antt =====
-- What a trie holds after an insertion.
use homegrown.Prelude.{
  ℕ, ◌+◌, ◌*◌, ◌%◌, ◌^◌, ◌≡◌, ◌∙◌, sym, refl, Bool, true, false, none, some, ◌>>>◌, Bool-cases, inl,
  inr,
}
use homegrown.Shared.Trie.{
  Trie, empty, node, Slot, slot_of, slot_0, slot_1, slot_2, slot_3, Placed, found, placed, rebuild,
  place, search,
}

-- What the walk of an insertion says of the trie: the entry that has the key, or the trie in which
-- the new entry is found, while every other search has the outcome that it had.
abbrev pub IsPlaced {ℓ} : {D : Type ℓ} → (D → Bool) → ℕ → D → Trie D → ℕ → Placed D → Type ℓ
IsPlaced same w new t hash (found d) = search same w t hash ≡ some d
IsPlaced {D = D} same w new t hash (placed t') =
    (search same w t hash ≡ none)
    × (search same w t' hash ≡ some new)
    × ((test : D → Bool) (hash' : ℕ)
        → test new ≡ false
        → search test w t' hash' ≡ search test w t hash')

module _ {ℓ} {D : Type ℓ} where
  abbrev child : Slot → Trie D → Trie D → Trie D → Trie D → Trie D
  child slot_0 t0 t1 t2 t3 = t0
  child slot_1 t0 t1 t2 t3 = t1
  child slot_2 t0 t1 t2 t3 = t2
  child slot_3 t0 t1 t2 t3 = t3

  abbrev with_child : Slot → D → Trie D → Trie D → Trie D → Trie D → Trie D → Trie D
  with_child slot_0 d t0 t1 t2 t3 t = node d t t1 t2 t3
  with_child slot_1 d t0 t1 t2 t3 t = node d t0 t t2 t3
  with_child slot_2 d t0 t1 t2 t3 t = node d t0 t1 t t3
  with_child slot_3 d t0 t1 t2 t3 t = node d t0 t1 t2 t

  module _ (d : D) (t0 t1 t2 t3 : Trie D) (w : ℕ) where
    search_hit :
        (test : D → Bool) (hash : ℕ)
        → test d ≡ true
        → search test w (node d t0 t1 t2 t3) hash ≡ some d
    unfolding search
    search_hit test hash e = rw (e, search) refl

    step :
        (test : D → Bool) (hash : ℕ) (s : Slot)
        → test d ≡ false
        → slot_of (hash >>> w) ≡ s
        → search test w (node d t0 t1 t2 t3) hash
          ≡ search test w (child s t0 t1 t2 t3) (hash * 4 % 2 ^ (w + 2))
    unfolding search
    step test hash slot_0 e f = rw (e, f, search) refl
    step test hash slot_1 e f = rw (e, f, search) refl
    step test hash slot_2 e f = rw (e, f, search) refl
    step test hash slot_3 e f = rw (e, f, search) refl

    place_step :
        (same : D → Bool) (new : D) (hash : ℕ) (s : Slot)
        → same d ≡ false
        → slot_of (hash >>> w) ≡ s
        → place same w new (node d t0 t1 t2 t3) hash
          ≡ rebuild
              (with_child s d t0 t1 t2 t3)
              (place same w new (child s t0 t1 t2 t3) (hash * 4 % 2 ^ (w + 2)))
    unfolding place
    place_step same new hash slot_0 e f = rw (e, f, place) refl
    place_step same new hash slot_1 e f = rw (e, f, place) refl
    place_step same new hash slot_2 e f = rw (e, f, place) refl
    place_step same new hash slot_3 e f = rw (e, f, place) refl

    place_hit :
        (same : D → Bool) (new : D) (hash : ℕ)
        → same d ≡ true
        → place same w new (node d t0 t1 t2 t3) hash ≡ found d
    unfolding place
    place_hit same new hash e = rw (e, place) refl

  none_below :
      (w hash : ℕ) (test : D → Bool) (s : Slot)
      → search test w (child s empty empty empty empty) hash ≡ none
  unfolding search
  none_below w hash test slot_0 = refl
  none_below w hash test slot_1 = refl
  none_below w hash test slot_2 = refl
  none_below w hash test slot_3 = refl

  -- The search through the new child.
  step_now :
      (d : D) (t0 t1 t2 t3 t : Trie D) (w : ℕ) (test : D → Bool) (hash : ℕ) (s : Slot)
      → test d ≡ false
      → slot_of (hash >>> w) ≡ s
      → search test w (with_child s d t0 t1 t2 t3 t) hash ≡ search test w t (hash * 4 % 2 ^ (w + 2))
  step_now d t0 t1 t2 t3 t w test hash slot_0 e f = step d t t1 t2 t3 w test hash slot_0 e f
  step_now d t0 t1 t2 t3 t w test hash slot_1 e f = step d t0 t t2 t3 w test hash slot_1 e f
  step_now d t0 t1 t2 t3 t w test hash slot_2 e f = step d t0 t1 t t3 w test hash slot_2 e f
  step_now d t0 t1 t2 t3 t w test hash slot_3 e f = step d t0 t1 t2 t w test hash slot_3 e f

  hit_now :
      (d : D) (t0 t1 t2 t3 t : Trie D) (w : ℕ) (test : D → Bool) (hash : ℕ) (s : Slot)
      → test d ≡ true
      → search test w (with_child s d t0 t1 t2 t3 t) hash ≡ some d
  hit_now d t0 t1 t2 t3 t w test hash slot_0 e = search_hit d t t1 t2 t3 w test hash e
  hit_now d t0 t1 t2 t3 t w test hash slot_1 e = search_hit d t0 t t2 t3 w test hash e
  hit_now d t0 t1 t2 t3 t w test hash slot_2 e = search_hit d t0 t1 t t3 w test hash e
  hit_now d t0 t1 t2 t3 t w test hash slot_3 e = search_hit d t0 t1 t2 t w test hash e

  -- The search in another child, or in the new one.
  past_now :
      (d : D) (t0 t1 t2 t3 t : Trie D) (w : ℕ) (test : D → Bool) (hash : ℕ) (s s' : Slot)
      → test d ≡ false
      → slot_of (hash >>> w) ≡ s'
      → ((h : ℕ) → search test w t h ≡ search test w (child s t0 t1 t2 t3) h)
      → search test w (with_child s d t0 t1 t2 t3 t) hash ≡ search test w (node d t0 t1 t2 t3) hash
  past_now d t0 t1 t2 t3 t w test hash slot_0 slot_0 e f h =
      step d t t1 t2 t3 w test hash slot_0 e f
      ∙ h _
      ∙ sym (step d t0 t1 t2 t3 w test hash slot_0 e f)
  past_now d t0 t1 t2 t3 t w test hash slot_0 slot_1 e f h =
      step d t t1 t2 t3 w test hash slot_1 e f ∙ sym (step d t0 t1 t2 t3 w test hash slot_1 e f)
  past_now d t0 t1 t2 t3 t w test hash slot_0 slot_2 e f h =
      step d t t1 t2 t3 w test hash slot_2 e f ∙ sym (step d t0 t1 t2 t3 w test hash slot_2 e f)
  past_now d t0 t1 t2 t3 t w test hash slot_0 slot_3 e f h =
      step d t t1 t2 t3 w test hash slot_3 e f ∙ sym (step d t0 t1 t2 t3 w test hash slot_3 e f)
  past_now d t0 t1 t2 t3 t w test hash slot_1 slot_0 e f h =
      step d t0 t t2 t3 w test hash slot_0 e f ∙ sym (step d t0 t1 t2 t3 w test hash slot_0 e f)
  past_now d t0 t1 t2 t3 t w test hash slot_1 slot_1 e f h =
      step d t0 t t2 t3 w test hash slot_1 e f
      ∙ h _
      ∙ sym (step d t0 t1 t2 t3 w test hash slot_1 e f)
  past_now d t0 t1 t2 t3 t w test hash slot_1 slot_2 e f h =
      step d t0 t t2 t3 w test hash slot_2 e f ∙ sym (step d t0 t1 t2 t3 w test hash slot_2 e f)
  past_now d t0 t1 t2 t3 t w test hash slot_1 slot_3 e f h =
      step d t0 t t2 t3 w test hash slot_3 e f ∙ sym (step d t0 t1 t2 t3 w test hash slot_3 e f)
  past_now d t0 t1 t2 t3 t w test hash slot_2 slot_0 e f h =
      step d t0 t1 t t3 w test hash slot_0 e f ∙ sym (step d t0 t1 t2 t3 w test hash slot_0 e f)
  past_now d t0 t1 t2 t3 t w test hash slot_2 slot_1 e f h =
      step d t0 t1 t t3 w test hash slot_1 e f ∙ sym (step d t0 t1 t2 t3 w test hash slot_1 e f)
  past_now d t0 t1 t2 t3 t w test hash slot_2 slot_2 e f h =
      step d t0 t1 t t3 w test hash slot_2 e f
      ∙ h _
      ∙ sym (step d t0 t1 t2 t3 w test hash slot_2 e f)
  past_now d t0 t1 t2 t3 t w test hash slot_2 slot_3 e f h =
      step d t0 t1 t t3 w test hash slot_3 e f ∙ sym (step d t0 t1 t2 t3 w test hash slot_3 e f)
  past_now d t0 t1 t2 t3 t w test hash slot_3 slot_0 e f h =
      step d t0 t1 t2 t w test hash slot_0 e f ∙ sym (step d t0 t1 t2 t3 w test hash slot_0 e f)
  past_now d t0 t1 t2 t3 t w test hash slot_3 slot_1 e f h =
      step d t0 t1 t2 t w test hash slot_1 e f ∙ sym (step d t0 t1 t2 t3 w test hash slot_1 e f)
  past_now d t0 t1 t2 t3 t w test hash slot_3 slot_2 e f h =
      step d t0 t1 t2 t w test hash slot_2 e f ∙ sym (step d t0 t1 t2 t3 w test hash slot_2 e f)
  past_now d t0 t1 t2 t3 t w test hash slot_3 slot_3 e f h =
      step d t0 t1 t2 t w test hash slot_3 e f
      ∙ h _
      ∙ sym (step d t0 t1 t2 t3 w test hash slot_3 e f)

  -- A search through a node with one new child: only the searches in the child can change.
  search-with_child :
      (d : D) (t0 t1 t2 t3 t : Trie D) (w : ℕ) (s : Slot) (test : D → Bool) (hash : ℕ)
      → ((h : ℕ) → search test w t h ≡ search test w (child s t0 t1 t2 t3) h)
      → search test w (with_child s d t0 t1 t2 t3 t) hash ≡ search test w (node d t0 t1 t2 t3) hash
  search-with_child d t0 t1 t2 t3 t w s test hash h = elim (Bool-cases (test d)) [
    | inl hit ↦
        hit_now d t0 t1 t2 t3 t w test hash s hit ∙ sym (search_hit d t0 t1 t2 t3 w test hash hit)
    | inr miss ↦ past_now d t0 t1 t2 t3 t w test hash s (slot_of (hash >>> w)) miss refl h
  ]

  lift :
      (d : D) (t0 t1 t2 t3 : Trie D) (w : ℕ) (same : D → Bool) (new : D) (hash : ℕ) (s : Slot)
      (r : Placed D)
      → same d ≡ false
      → slot_of (hash >>> w) ≡ s
      → IsPlaced same w new (child s t0 t1 t2 t3) (hash * 4 % 2 ^ (w + 2)) r
      → IsPlaced same w new (node d t0 t1 t2 t3) hash (rebuild (with_child s d t0 t1 t2 t3) r)
  lift d t0 t1 t2 t3 w same new hash s (found d') e f p = step d t0 t1 t2 t3 w same hash s e f ∙ p
  lift d t0 t1 t2 t3 w same new hash s (placed t') e f (missed, now, kept) = (
    step d t0 t1 t2 t3 w same hash s e f ∙ missed,
    step_now d t0 t1 t2 t3 t' w same hash s e f ∙ now,
    λ test hash' other. search-with_child d t0 t1 t2 t3 t' w s test hash' (λ h. kept test h other),
  )

module _ {ℓ} {D : Type ℓ} (same : D → Bool) (w : ℕ) (new : D) (self : same new ≡ true) where
  pub place-IsPlaced :
      (t : Trie D) (hash : ℕ) → IsPlaced same w new t hash (place same w new t hash)
  unfolding place search
  place-IsPlaced empty hash = (
    refl,
    search_hit new empty empty empty empty w same hash self,
    λ test hash' other.
        step new empty empty empty empty w test hash' (slot_of (hash' >>> w)) other refl
        ∙ none_below w _ test (slot_of (hash' >>> w)),
  )
  place-IsPlaced (node d t0 t1 t2 t3) hash = elim (Bool-cases (same d)) [
    | inl hit ↦
        rw (place_hit d t0 t1 t2 t3 w same new hash hit) (search_hit d t0 t1 t2 t3 w same hash hit)
    | inr miss ↦
        let next = hash * 4 % 2 ^ (w + 2) in
        let ih : (s : Slot)
            → IsPlaced same w new (child s t0 t1 t2 t3) next
                (place same w new (child s t0 t1 t2 t3) next) =
          λ s.
            elim s
              as (λ k.
                IsPlaced same w new (child k t0 t1 t2 t3) next
                  (place same w new (child k t0 t1 t2 t3) next)) [
                    | slot_0 ↦ place-IsPlaced t0 next
                    | slot_1 ↦ place-IsPlaced t1 next
                    | slot_2 ↦ place-IsPlaced t2 next
                    | slot_3 ↦ place-IsPlaced t3 next
                  ] in
        let s = slot_of (hash >>> w) in
        rw (place_step d t0 t1 t2 t3 w same new hash s miss refl)
          (lift d t0 t1 t2 t3 w same new hash s _ miss refl (ih s))
  ]
