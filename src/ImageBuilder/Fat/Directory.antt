-- ===== src/ImageBuilder/Fat/Directory.antt =====
-- createOrGetDirectory of partitions/efi.c: a directory is made once, and found afterwards.
use homegrown.Prelude.{ℕ, ◌+◌, ◌*◌, ◌^◌, ◌≤◌, ◌<◌, ◌≡◌, ◌≢◌, ◌⊎◌, some, List, length}
use homegrown.Freestanding.Memory.{Memory}
use homegrown.ImageBuilder.Fat.{
  Volume, name_at, cluster_at, zero_name, dot, dotdot, end_of_chain_marker, write_directory_entry,
  write_dot_entries, get_data_cluster, create_contiguous_space_for_new_entry,
  create_or_get_directory,
}

-- A directory's cluster starts with the entries for itself and for its parent.
abbrev pub HasDots : ℕ → ℕ → ℕ → Memory → Type 0
HasDots p c parent mem =
    (name_at p mem ≡ dot)
    × (cluster_at p mem ≡ c)
    × (name_at (p + 32) mem ≡ dotdot)
    × (cluster_at (p + 32) mem ≡ parent)

-- A new directory: the first free cluster, marked as the end of a chain, with its two entries; of
-- the table nothing else changed, and of the clusters nothing but these entries and one in `parent`.
abbrev pub IsMade : ℕ → ℕ → Volume → ℕ → Volume → Type 0
IsMade m parent v c w =
    (c ≡ v.current_free)
    × (w.current_free ≡ c + 1)
    × (w.primary_fat c ≡ end_of_chain_marker)
    × ((a : ℕ) → a ≢ c → w.primary_fat a ≡ v.primary_fat a)
    × HasDots (get_data_cluster m c) c parent w.clusters
    × (e : ℕ) × (get_data_cluster m parent ≤ e)
    × (e + 32 ≤ get_data_cluster m parent + m)
    × (name_at e v.clusters ≡ zero_name)
    × ((a : ℕ)
        → (a < e) ⊎ ((e + 32 ≤ a) × (a < get_data_cluster m c)) ⊎ (get_data_cluster m c + 64 ≤ a)
        → w.clusters a ≡ v.clusters a)

abbrev pub IsKept : ℕ → ℕ → List ℕ → Volume → Type 0
IsKept m parent name v =
    (c : ℕ) × (w : Volume) × (create_or_get_directory m name parent v ≡ some (c, w))
    × (create_or_get_directory m name parent w ≡ some (c, w))
    × ((w ≡ v) ⊎ IsMade m parent v c w)

module _ (k parent : ℕ) (name : List ℕ) (v : Volume) (wide : 6 ≤ k) (narrow : k < 16)
    (named : length name ≡ 11) (low : 2 ≤ parent) (early : parent < v.current_free)
    (fits : 2 ^ k * v.current_free < 2 ^ 32) where
  abbrev m : ℕ
  m = 2 ^ k

  abbrev free : ℕ
  free = v.current_free

  -- The volume after the writes of a new directory at an unused entry.
  module _ (e : ℕ)
      (inside : (get_data_cluster m parent ≤ e) × (e + 32 ≤ get_data_cluster m parent + m)) where
    abbrev w : Volume
    w =
        let r = create_contiguous_space_for_new_entry m 32 v in
        record r.1 {
          clusters =
              write_dot_entries (get_data_cluster m free) free parent
                (write_directory_entry e free name v.clusters);
        }
