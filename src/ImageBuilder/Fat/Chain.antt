-- ===== src/ImageBuilder/Fat/Chain.antt =====
-- The chains of clusters that createContiguousSpaceForNewEntry of partitions/efi.c makes.
use homegrown.Prelude.{
  ℕ, zero, suc, ◌+◌, ◌-◌, ◌*◌, ◌^◌, ◌≤◌, ◌<◌, ◌≡◌, ◌∙◌, ◌⊎◌, inl, inr, refl, ap, Bool-cases, ltb→lt,
  ltb, leb, ◌==◌, ◌&&◌, if◌then◌else◌, arith, u32, sub32,
}
use native.Mathlib.Nat.{one-le-pow, pow-le-pow_right, le-mul_of_pos_right}
use homegrown.Shared.Maths.{ceiling_div_value}
use homegrown.Shared.Maths.Align.{ceiling_div_value-least}
use homegrown.ImageBuilder.Fat.{
  Volume, end_of_chain_marker, link_clusters, required_clusters,
  create_contiguous_space_for_new_entry,
}

link_clusters_lem :
    (n i last : ℕ) (fat : ℕ → ℕ) (a : ℕ)
    → i + n < 2 ^ 32
    → link_clusters n i last fat a ≡ (
        if leb i a && ltb a (i + n)
        then (if a == last then end_of_chain_marker else a + 1)
        else fat a)
unfolding link_clusters
link_clusters_lem zero i last fat a h = ground arith
link_clusters_lem (suc n) i last fat a h =
    let e : u32 (i + 1) ≡ i + 1 = omega arith in
    let next =
      λ (b : ℕ). if b == i then (if i == last then end_of_chain_marker else i + 1) else fat b in
    rw e (link_clusters_lem n (i + 1) last next a (omega arith) ∙ ground arith)

-- The chain from `start` on, `n` clusters one after the other, of which the last has the marker,
-- where all other entries of the table are as before, and the free clusters start behind it.
abbrev pub IsChain : ℕ → ℕ → Volume → Volume → Type 0
IsChain start n v w =
    (start ≡ v.current_free)
    × (w.current_free ≡ v.current_free + n)
    × (w.primary_fat (v.current_free + n - 1) ≡ end_of_chain_marker)
    × ((i : ℕ) → i + 1 < n → w.primary_fat (v.current_free + i) ≡ v.current_free + i + 1)
    × ((a : ℕ)
        → (a < v.current_free) ⊎ (v.current_free + n ≤ a)
        → w.primary_fat a ≡ v.primary_fat a)
    × (w.clusters ≡ v.clusters)

pub required :
    (k bytes : ℕ)
    → k < 16
    → 0 < bytes
    → bytes < 2 ^ 31
    → (0 < required_clusters (2 ^ k) bytes)
      × (bytes ≤ required_clusters (2 ^ k) bytes * 2 ^ k)
      × (required_clusters (2 ^ k) bytes * 2 ^ k < bytes + 2 ^ k)
required k bytes narrow some_bytes few =
    let c = ceiling_div_value bytes (2 ^ k) in
    let e : k ≤ 15 = omega arith in
    let high : 2 ^ k ≤ 32768 = pow-le-pow_right {n = 2} (omega arith) e in
    let low = one-le-pow k 2 (omega arith) in
    let least = ceiling_div_value-least k bytes (omega arith) (omega (arith, high)) in
    let small : c ≤ c * 2 ^ k = le-mul_of_pos_right c low in
    let exact : u32 c ≡ c = omega (arith, small, least.1, high) in
    let some_clusters : 0 < c = elim (Bool-cases (ltb 0 c)) [
      | inl positive ↦ ltb→lt 0 c positive
      | inr zero_clusters ↦
          let z : c ≡ 0 = ground arith in
          absurd (omega (arith, ap (λ (x : ℕ). x * 2 ^ k) z, least.0))
    ] in
    rw exact (some_clusters, least.0, least.1)

-- For a sector of a power of two bytes, and bytes and clusters that do not reach the end of the
-- numbers of 32 bits, `createContiguousSpaceForNewEntry` makes such a chain from the first free
-- cluster on, with the least number of clusters that hold the bytes, which is not 0.
pub create_contiguous_space_for_new_entry-IsChain :
    (k bytes : ℕ) (v : Volume)
    → k < 16
    → 0 < bytes
    → bytes < 2 ^ 31
    → v.current_free + required_clusters (2 ^ k) bytes < 2 ^ 31
    → let (start, w) = create_contiguous_space_for_new_entry (2 ^ k) bytes v in
      let n = required_clusters (2 ^ k) bytes in
      (0 < n) × (bytes ≤ n * 2 ^ k) × (n * 2 ^ k < bytes + 2 ^ k) × IsChain start n v w
unfolding create_contiguous_space_for_new_entry
create_contiguous_space_for_new_entry-IsChain k bytes v narrow some_bytes few fits =
    let n = required_clusters (2 ^ k) bytes in
    let size = required k bytes narrow some_bytes few in
    let last = v.current_free + n - 1 in
    let steps : u32 (v.current_free + n) - v.current_free ≡ n = omega (arith, fits) in
    let end : sub32 (u32 (v.current_free + n)) 1 ≡ last = omega (arith, fits, size.0) in
    let links =
      λ (a : ℕ). link_clusters_lem n v.current_free last v.primary_fat a (omega (arith, fits)) in
    rw (steps, end)
      (
        size.0,
        size.1,
        size.2,
        (
          refl,
          omega (arith, fits),
          ground (arith, links last, size.0),
          λ i h. ground (arith, links (v.current_free + i)),
          λ a h. ground (arith, links a),
          refl,
        ),
      )
