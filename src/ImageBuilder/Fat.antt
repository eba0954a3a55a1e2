-- ===== src/ImageBuilder/Fat.antt =====
-- projects/image-builder/code/src/partitions/efi.c: the file allocation table, the directories and
-- the files. `PRIMARY_FAT` is a function from clusters to entries, and `DATA_CLUSTERS` a memory
-- whose addresses start at its first byte.
pub mod Chain
pub mod Entries
pub mod Slots
pub mod Directory
pub mod Partition
mod Tests
use homegrown.Prelude.{
  ℕ, zero, suc, ◌+◌, ◌-◌, ◌*◌, ◌/◌, ◌%◌, Bool, true, false, ◌&&◌, Option, none, some, List, [], ◌∷◌,
  ◌++◌, ltb, leb, ◌==◌, if◌then◌else◌, length, get_or, replicate, u32, u32_max, sub32, le_bytes,
  ◌^◌,
}
use homegrown.Freestanding.Memory.{Memory}
use homegrown.Shared.Maths.{ceiling_div_value}
use homegrown.Shared.Text.{String, string_equals, tokenize_string}

abbrev pub end_of_chain_marker : ℕ
end_of_chain_marker = 0xFFFF_FFFF

abbrev pub reserved_cluster_indices : ℕ
reserved_cluster_indices = 2

abbrev pub root_cluster_fat_index : ℕ
root_cluster_fat_index = 2

abbrev pub fat32_short_name_len : ℕ
fat32_short_name_len = 11

abbrev pub zero_name : List ℕ
zero_name = replicate fat32_short_name_len 0

abbrev pub attr_directory : ℕ
attr_directory = 0x10

-- `StandardDirectory`
abbrev pub dot : List ℕ
dot = b'.' ∷ replicate 10 b' '

abbrev pub dotdot : List ℕ
dotdot = b'.' ∷ b'.' ∷ replicate 9 b' '

pub record DirEntryShortName : Type 0 where
  pub name : List ℕ
  pub attributes : ℕ
  pub reserved : ℕ
  pub crt_time_tenth : ℕ
  pub crt_time : ℕ
  pub crt_date : ℕ
  pub last_access_date : ℕ
  pub high_cluster_number : ℕ
  pub write_time : ℕ
  pub write_date : ℕ
  pub low_cluster_number : ℕ
  pub file_size : ℕ

-- The packed structure in memory.
pub dir_entry_bytes : DirEntryShortName → List ℕ
dir_entry_bytes d =
    d.name
    ++ d.attributes
      ∷ d.reserved
      ∷ d.crt_time_tenth
      ∷ (le_bytes 2 d.crt_time
          ++ le_bytes 2 d.crt_date
          ++ le_bytes 2 d.last_access_date
          ++ le_bytes 2 d.high_cluster_number
          ++ le_bytes 2 d.write_time
          ++ le_bytes 2 d.write_date
          ++ le_bytes 2 d.low_cluster_number
          ++ le_bytes 4 d.file_size)

abbrev pub new_entry : List ℕ → ℕ → ℕ → ℕ → DirEntryShortName
new_entry name attributes cluster size = record {
  name = name;
  attributes = attributes;
  reserved = 0;
  crt_time_tenth = 0;
  crt_time = 0;
  crt_date = 0;
  last_access_date = 0;
  high_cluster_number = cluster / 2 ^ 16;
  write_time = 0;
  write_date = 0;
  low_cluster_number = cluster % 2 ^ 16;
  file_size = size;
}

-- The variables of the file that the functions change.
pub record Volume : Type 0 where
  pub primary_fat : ℕ → ℕ
  pub current_free : ℕ
  pub clusters : Memory

-- `memcpy` from a structure, and reads of its fields.
pub write_bytes : ℕ → List ℕ → Memory → Memory
write_bytes p bs mem a = if leb p a && ltb a (p + length bs) then get_or bs (a - p) 0 else mem a

abbrev pub bytes_at : ℕ → ℕ → Memory → List ℕ
bytes_at zero p mem = []
bytes_at (suc n) p mem = mem p ∷ bytes_at n (p + 1) mem

-- The `name`, and the cluster of the entry at an address.
pub name_at : ℕ → Memory → List ℕ
name_at p mem = bytes_at fat32_short_name_len p mem

pub cluster_at : ℕ → Memory → ℕ
cluster_at p mem =
    mem (p + 26) + mem (p + 27) * 2 ^ 8 + mem (p + 20) * 2 ^ 16 + mem (p + 21) * 2 ^ 24

-- `getDataCluster`, as an offset in the data clusters
pub get_data_cluster : ℕ → ℕ → ℕ
get_data_cluster bytes_per_sector index =
    u32 (bytes_per_sector * sub32 index reserved_cluster_indices)

pub write_directory_entry : ℕ → ℕ → List ℕ → Memory → Memory
unfolding write_bytes dir_entry_bytes
write_directory_entry buffer cluster name =
    write_bytes buffer (dir_entry_bytes (new_entry name attr_directory cluster 0))

pub write_dot_entries : ℕ → ℕ → ℕ → Memory → Memory
unfolding write_directory_entry
write_dot_entries buffer current parent mem =
    write_directory_entry (buffer + 32) parent dotdot (write_directory_entry buffer current dot mem)

-- The loop of `createContiguousSpaceForNewEntry`, over the clusters that are left.
pub link_clusters : ℕ → ℕ → ℕ → (ℕ → ℕ) → ℕ → ℕ
link_clusters zero i last fat a = fat a
link_clusters (suc n) i last fat a =
    link_clusters n (u32 (i + 1)) last
      (λ b. if b == i then (if i == last then end_of_chain_marker else u32 (i + 1)) else fat b) a

abbrev pub required_clusters : ℕ → ℕ → ℕ
required_clusters bytes_per_sector bytes = u32 (ceiling_div_value bytes bytes_per_sector)

pub create_contiguous_space_for_new_entry : ℕ → ℕ → Volume → ℕ × Volume
unfolding link_clusters
create_contiguous_space_for_new_entry bytes_per_sector bytes v =
    let exclusive_last = u32 (v.current_free + required_clusters bytes_per_sector bytes) in
    let last = sub32 exclusive_last 1 in
    (
      v.current_free,
      record v {
        primary_fat =
            link_clusters (exclusive_last - v.current_free) v.current_free last v.primary_fat;
        current_free = exclusive_last;
      },
    )

-- Where the search through a directory's cluster stops: at an entry of the name or at an unused
-- entry; `unreachable` is the end of the cluster.
pub data Slot : Type 0 where
  taken vacant : ℕ → Slot
  unreachable : Slot

-- The loop of `createOrGetDirectory`, over the entries that are left.
pub find_slot : ℕ → List ℕ → ℕ → Memory → Slot
unfolding name_at
find_slot zero name entry mem = unreachable
find_slot (suc n) name entry mem =
    let rest = find_slot n name (entry + 32) mem in
    if string_equals (name_at entry mem) name
    then taken entry
    else if string_equals (name_at entry mem) zero_name
    then vacant entry
    else rest

-- The body of the loop, where it returns.
pub use_slot : ℕ → List ℕ → ℕ → Volume → Slot → Option (ℕ × Volume)
unfolding create_contiguous_space_for_new_entry write_dot_entries cluster_at get_data_cluster
use_slot bytes_per_sector name parent v (taken entry) = some (cluster_at entry v.clusters, v)
use_slot bytes_per_sector name parent v (vacant entry) =
    let (created, w) = create_contiguous_space_for_new_entry bytes_per_sector 32 v in
    some (
      created,
      record w {
        clusters =
            write_dot_entries (get_data_cluster bytes_per_sector created) created parent
              (write_directory_entry entry created name w.clusters);
      },
    )
use_slot bytes_per_sector name parent v unreachable = none

pub create_or_get_directory : ℕ → List ℕ → ℕ → Volume → Option (ℕ × Volume)
unfolding find_slot use_slot get_data_cluster
create_or_get_directory bytes_per_sector name parent v =
    use_slot bytes_per_sector name parent v
      (find_slot (bytes_per_sector / 32) name (get_data_cluster bytes_per_sector parent) v.clusters)

-- The loop of `getNewFileEntryLocation`
pub find_vacant : ℕ → ℕ → Memory → Option ℕ
unfolding name_at
find_vacant zero entry mem = none
find_vacant (suc n) entry mem =
    let rest = find_vacant n (entry + 32) mem in
    if string_equals (name_at entry mem) zero_name then some entry else rest

pub get_new_file_entry_location : ℕ → ℕ → Volume → Option ℕ
unfolding find_vacant get_data_cluster
get_new_file_entry_location bytes_per_sector parent v =
    find_vacant (bytes_per_sector / 32) (get_data_cluster bytes_per_sector parent) v.clusters

pub write_file_entry : ℕ → List ℕ → ℕ → Volume → Volume
unfolding write_bytes dir_entry_bytes
write_file_entry buffer name size v = record v {
  clusters = write_bytes buffer (dir_entry_bytes (new_entry name 0 v.current_free size)) v.clusters;
}

pub create_file_entry_after_writing_data : ℕ → List ℕ → ℕ → ℕ → Volume → Option Volume
unfolding get_new_file_entry_location create_contiguous_space_for_new_entry write_file_entry
create_file_entry_after_writing_data bytes_per_sector name parent size v =
    elim (get_new_file_entry_location bytes_per_sector parent v) [
      | none ↦ none
      | some buffer ↦
          some
            (create_contiguous_space_for_new_entry bytes_per_sector size
              (write_file_entry buffer name size v)).1
    ]

-- `createPath`, whose tokens have the length of a name: the loop over the tokens.
pub create_directories : ℕ → List String → ℕ → Volume → Option (ℕ × Volume)
unfolding create_or_get_directory
create_directories bytes_per_sector [] start v = some (start, v)
create_directories bytes_per_sector (name ∷ names) start v =
    elim (create_or_get_directory bytes_per_sector name start v) [
      | none ↦ none
      | some (cluster, w) ↦ create_directories bytes_per_sector names cluster w
    ]

pub create_path : ℕ → String → ℕ → Volume → Option (ℕ × Volume)
unfolding create_directories tokenize_string
create_path bytes_per_sector path start v = elim (tokenize_string path b'/') [
  | none ↦ none
  | some names ↦ create_directories bytes_per_sector names start v
]

-- `CREATE_FAT32_FILE`, with the bytes that its body writes.
pub create_fat32_file : ℕ → List ℕ → ℕ → List ℕ → Volume → Option Volume
unfolding create_file_entry_after_writing_data write_bytes get_data_cluster
create_fat32_file bytes_per_sector name parent content v =
    create_file_entry_after_writing_data bytes_per_sector name parent (u32 (length content))
      (record v {
        clusters =
            write_bytes (get_data_cluster bytes_per_sector v.current_free) content v.clusters;
      })
