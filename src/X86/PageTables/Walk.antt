-- ===== src/X86/PageTables/Walk.antt =====
-- A page that is mapped is found by a walk through the tables.
use homegrown.Prelude.{
  ℕ, zero, suc, ◌+◌, ◌*◌, ◌/◌, ◌%◌, ◌^◌, ◌≤◌, ◌<◌, ◌≡◌, ◌≢◌, ◌∙◌, ◌⊎◌, refl, sym, ap, inl, inr,
  true, false, ◌&&◌, leb, ltb, ◌==◌, if◌then◌else◌, bit_or, arith, Bool-cases,
}
use homegrown.X86.Paging.{base_page}
use homegrown.X86.Physical.{Managers, Run, ok, no_more_memory, out_of_fuel, ◌>>=◌, AllocContiguous}
use homegrown.X86.Physical.Alloc.{Ends-map, Ends, Ends-bind}
use homegrown.X86.PageTables.{
  Machine, write_word, clear_page, entry_address, next_table, ensure_table, map_page, MappedPage,
  is_extended, get_entry,
}
use homegrown.X86.PageTables.Entries.{
  entry_address-inside, next_table_lem, table_entry, is_extended_lem,
}

-- The page that an address lies in.
abbrev pub page_of : ℕ → ℕ
page_of a = a / 4096 * 4096

-- The level of each table, 0 for other pages, with one more table.
abbrev pub mark : ℕ → ℕ → (ℕ → ℕ) → ℕ → ℕ
mark page level levels a = if a == page then level else levels a

-- The next `n` pages that are allocated are aligned, in the address space, and no tables.
abbrev pub Supplies : AllocContiguous → ℕ → (ℕ → ℕ) → Managers → Type 0
Supplies alloc zero levels s = Unit
Supplies alloc (suc n) levels s =
    Ends
      (λ r.
        (levels r.0 ≡ 0)
        × (r.0 % 4096 ≡ 0)
        × (r.0 + 4096 ≤ 2 ^ 64)
        × ((level : ℕ) → Supplies alloc n (mark r.0 level levels) r.1))
      (alloc 1 base_page s)

-- The walk from the table for an address meets tables of falling levels, down to one where a
-- table is missing or the last level.
abbrev pub Ready : ℕ → ℕ → ℕ → ℕ → (ℕ → ℕ) → (ℕ → ℕ) → Type 0
Ready zero size table virt levels words = Unit
Ready (suc zero) size table virt levels words = (levels table ≡ 1) × (table % 4096 ≡ 0)
Ready (suc (suc k)) size table virt levels words =
    (levels table ≡ suc (suc k))
    × (table % 4096 ≡ 0)
    × ((words (entry_address table size virt) ≡ 0)
        ⊎ ((words (entry_address table size virt) ≢ 0)
            × (is_extended (words (entry_address table size virt)) ≡ false)
            × Ready (suc k) (size / 512) (next_table (words (entry_address table size virt))) virt
                levels words))

-- `c` levels and `k` more.
abbrev pub plus : ℕ → ℕ → ℕ
plus c zero = c
plus c (suc k) = suc (plus c k)

-- The page size at the last of the levels.
abbrev pub last_size : ℕ → ℕ → ℕ
last_size zero size = size
last_size (suc zero) size = size
last_size (suc (suc k)) size = last_size (suc k) (size / 512)

-- The entry ends a walk that has `c` levels left below it.
abbrev pub Stops : ℕ → ℕ → Type 0
Stops c value = (c ≡ 0) ⊎ ((c ≤ 2) × (is_extended value ≡ true))

-- The entry is found, and tables of higher levels have not changed.
pub record IsMapped (c k size table virt value : ℕ) (levels : ℕ → ℕ) (before after : Machine)
    : Type 0 where
  pub found :
      get_entry (plus c k) size table virt (after.words)
      ≡ record { entry = value; page_size = last_size k size }
  pub above : (a : ℕ) → k < levels (page_of a) → after.words a ≡ before.words a

page_of-entry_address :
    (table size virt : ℕ) → table % 4096 ≡ 0 → page_of (entry_address table size virt) ≡ table
page_of-entry_address table size virt aligned = omega (arith, entry_address-inside table size virt)

stop_entry :
    (c size table virt value : ℕ) (words : ℕ → ℕ)
    → Stops c value
    → words (entry_address table size virt) ≡ value
    → get_entry (suc c) size table virt words ≡ record { entry = value; page_size = size }
unfolding get_entry
stop_entry zero size table virt value words stops read =
    ap (λ (t : ℕ). record { entry = t; page_size = size }) read
stop_entry (suc c) size table virt value words (inl none_left) read = absurd (omega arith)
stop_entry (suc c) size table virt value words (inr (few, extended)) read =
    let test : leb c 1 ≡ true = ground arith in rw (read, extended, test) refl

-- An entry that names a table is followed.
follow :
    (k size table virt next : ℕ) (words : ℕ → ℕ) (r : MappedPage)
    → is_extended (words (entry_address table size virt)) ≡ false
    → next_table (words (entry_address table size virt)) ≡ next
    → get_entry (suc k) (size / 512) next virt words ≡ r
    → get_entry (suc (suc k)) size table virt words ≡ r
unfolding get_entry
follow k size table virt next words r plain down below = elim (Bool-cases (leb k 1)) [
  | inl low ↦ rw (low, plain, down) below
  | inr high ↦ rw (high, down) below
]

Supplies-less :
    (alloc : AllocContiguous) (n : ℕ) (levels : ℕ → ℕ) (s : Managers)
    → Supplies alloc (suc n) levels s
    → Supplies alloc n levels s
Supplies-less alloc zero levels s h = tt
Supplies-less alloc (suc n) levels s h =
    Ends-map (alloc 1 base_page s) h (λ r t.
      (t.0, t.1, t.2, λ level. Supplies-less alloc n (mark r.0 level levels) r.1 (t.3 level)))

-- A table that was created for the entry at the address.
record IsCreated (alloc : AllocContiguous) (n : ℕ) (levels : ℕ → ℕ) (address : ℕ) (m m' : Machine)
    : Type 0 where
  pub page : ℕ
  pub unknown : levels page ≡ 0
  pub aligned : page % 4096 ≡ 0
  pub room : page + 4096 ≤ 2 ^ 64
  pub written : m'.words ≡ write_word address (page + 3) (clear_page page m.words)
  pub supplies : (level : ℕ) → Supplies alloc n (mark page level levels) m'.managers

-- The two steps behind the allocation.
abbrev zeroed : Machine → ℕ × Managers → Run (ℕ × Machine)
zeroed m r = ok (r.0, record { words = clear_page r.0 m.words; managers = r.1 })

abbrev linked : ℕ → ℕ × Machine → Run Machine
linked address r = ok (record (r.1) { words = write_word address (bit_or 3 r.0) (r.1).words })

ensure_table-IsCreated :
    (alloc : AllocContiguous) (n : ℕ) (levels : ℕ → ℕ) (address : ℕ) (m : Machine)
    → m.words address ≡ 0
    → Supplies alloc (suc n) levels m.managers
    → Ends (IsCreated alloc n levels address m) (ensure_table alloc address m)
unfolding ensure_table
ensure_table-IsCreated alloc n levels address m empty supplies =
    let test : (m.words address == 0) ≡ true = ground arith in
    rw test (go (alloc 1 base_page m.managers) supplies)
  where
    go :
        (run : Run (ℕ × Managers))
        → Ends
            (λ r.
              (levels r.0 ≡ 0)
              × (r.0 % 4096 ≡ 0)
              × (r.0 + 4096 ≤ 2 ^ 64)
              × ((level : ℕ) → Supplies alloc n (mark r.0 level levels) r.1))
            run
        → Ends (IsCreated alloc n levels address m) (run >>= zeroed m >>= linked address)
    go (ok (page, s)) t = record {
      page = page;
      unknown = t.0;
      aligned = t.1;
      room = t.2;
      written =
          ap (λ (e : ℕ). write_word address e (clear_page page m.words)) (table_entry page t.1);
      supplies = t.3;
    }
    go no_more_memory t = tt
    go out_of_fuel t = t

-- The last level: the entry is written.
map_last :
    (alloc : AllocContiguous) (c size table virt value : ℕ) (levels : ℕ → ℕ) (m : Machine)
    → Stops c value
    → Ready 1 size table virt levels m.words
    → Ends (IsMapped c 1 size table virt value levels m) (map_page alloc 1 size table virt value m)
unfolding map_page
map_last alloc c size table virt value levels m stops (level, aligned) =
    let address = entry_address table size virt in
    let here : (address == address) ≡ true = ground arith in
    record {
      found =
          stop_entry c size table virt value (write_word address value m.words) stops
            (rw here refl);
      above = λ a high. elim (Bool-cases (a == address)) [
        | inr other ↦ rw other refl
        | inl same ↦
            let e : a ≡ address = ground arith in
            absurd (
              omega (
                arith,
                ap (λ (t : ℕ). levels (page_of t)) e,
                ap levels (page_of-entry_address table size virt aligned),
              ))
      ];
    }

-- A table of zeros is ready at each level.
fresh-Ready :
    (k size page virt : ℕ) (levels words : ℕ → ℕ)
    → levels page ≡ suc k
    → page % 4096 ≡ 0
    → ((a : ℕ) → page ≤ a → a < page + 4096 → words a ≡ 0)
    → Ready (suc k) size page virt levels words
fresh-Ready zero size page virt levels words level aligned zeros = (level, aligned)
fresh-Ready (suc k) size page virt levels words level aligned zeros =
    let inside = entry_address-inside page size virt in
    (level, aligned, inl (zeros (entry_address page size virt) inside.0 inside.1))

mark_self : (page level : ℕ) (levels : ℕ → ℕ) → mark page level levels page ≡ level
mark_self page level levels = let here : (page == page) ≡ true = ground arith in rw here refl

mark_other : (page level a : ℕ) (levels : ℕ → ℕ) → a ≢ page → mark page level levels a ≡ levels a
mark_other page level a levels other = let test : (a == page) ≡ false = ground arith in rw test refl

-- A level above: the table below is there or is created, and the walk goes on from it.
module _ (alloc : AllocContiguous) (c k size table virt value : ℕ) (levels : ℕ → ℕ) (m : Machine)
    (level : levels table ≡ suc (suc k)) (aligned : table % 4096 ≡ 0) where
  abbrev address : ℕ
  address = entry_address table size virt

  own_page : page_of address ≡ table
  own_page = page_of-entry_address table size virt aligned

  -- The table was there.
  through_old :
      (after : Machine)
      → is_extended (m.words address) ≡ false
      → IsMapped c (suc k) (size / 512) (next_table (m.words address)) virt value levels m after
      → IsMapped c (suc (suc k)) size table virt value levels m after
  through_old after plain h =
      let kept : after.words address ≡ m.words address =
        h.above address (omega (arith, ap levels own_page)) in
      record {
        found =
            follow (plus c k) size table virt (next_table (m.words address)) (after.words) _
              (ap is_extended kept ∙ plain) (ap next_table kept) h.found;
        above = λ a high. h.above a (omega arith);
      }

  -- The table is new.
  module _ (m' : Machine) (n : ℕ) (t : IsCreated alloc n levels address m m') where
    apart : t.page ≢ table
    apart e = absurd (omega (arith, ap levels e, t.unknown))

    entry_read : m'.words address ≡ t.page + 3
    entry_read =
        let here : (address == address) ≡ true = ground arith in
        ap (λ (f : ℕ → ℕ). f address) t.written ∙ rw here refl

    other_read : (a : ℕ) → a ≢ address → m'.words a ≡ clear_page t.page m.words a
    other_read a other =
        let test : (a == address) ≡ false = ground arith in
        ap (λ (f : ℕ → ℕ). f a) t.written ∙ rw test refl

    zeros : (a : ℕ) → t.page ≤ a → a < t.page + 4096 → m'.words a ≡ 0
    zeros a low high =
        let other : a ≢ address = λ e. apart (omega (arith, ap page_of e, own_page, t.aligned)) in
        let from : leb t.page a ≡ true = ground arith in
        let to : ltb a (t.page + 4096) ≡ true = ground arith in
        other_read a other ∙ rw (from, to) refl

    old_read : (a : ℕ) → suc (suc k) < levels (page_of a) → m'.words a ≡ m.words a
    old_read a high =
        let other : a ≢ address =
          λ e. absurd (omega (arith, ap (λ (x : ℕ). levels (page_of x)) e, ap levels own_page)) in
        let elsewhere : page_of a ≢ t.page = λ e. absurd (omega (arith, ap levels e, t.unknown)) in
        other_read a other ∙ outside (Bool-cases (leb t.page a && ltb a (t.page + 4096))) elsewhere
      where
        outside :
            ((leb t.page a && ltb a (t.page + 4096)) ≡ true)
              ⊎ ((leb t.page a && ltb a (t.page + 4096)) ≡ false)
            → page_of a ≢ t.page
            → clear_page t.page m.words a ≡ m.words a
        outside (inl inside) elsewhere = absurd (elsewhere (ground (arith, t.aligned)))
        outside (inr out) elsewhere = rw out refl

    below-Ready : Ready (suc k) (size / 512) t.page virt (mark t.page (suc k) levels) m'.words
    below-Ready =
        fresh-Ready k (size / 512) t.page virt (mark t.page (suc k) levels) m'.words
          (mark_self t.page (suc k) levels) t.aligned zeros

    through_new :
        (after : Machine)
        → IsMapped c (suc k) (size / 512) t.page virt value (mark t.page (suc k) levels) m' after
        → IsMapped c (suc (suc k)) size table virt value levels m after
    through_new after h =
        let level' : mark t.page (suc k) levels (page_of address) ≡ suc (suc k) =
          ap (mark t.page (suc k) levels) own_page
          ∙ mark_other t.page (suc k) table levels (λ e. apart (sym e))
          ∙ level in
        let read : after.words address ≡ t.page + 3 =
          h.above address (omega (arith, level')) ∙ entry_read in
        let plain : is_extended (t.page + 3) ≡ false =
          is_extended_lem (t.page + 3) ∙ (ground (arith, t.aligned)) in
        let down : next_table (t.page + 3) ≡ t.page =
          next_table_lem (t.page + 3) (omega (arith, t.room)) ∙ omega (arith, t.aligned) in
        record {
          found =
              follow (plus c k) size table virt t.page (after.words) _ (ap is_extended read ∙ plain)
                (ap next_table read ∙ down) h.found;
          above = λ a high.
              let elsewhere : page_of a ≢ t.page =
                λ e. absurd (omega (arith, ap levels e, t.unknown)) in
              let same = mark_other t.page (suc k) (page_of a) levels elsewhere in
              h.above a (omega (arith, same)) ∙ old_read a high;
        }

ensure_table-kept :
    (alloc : AllocContiguous) (address : ℕ) (m : Machine)
    → m.words address ≢ 0
    → ensure_table alloc address m ≡ ok m
unfolding ensure_table
ensure_table-kept alloc address m filled =
    let test : (m.words address == 0) ≡ false = ground arith in rw test refl

-- The walk: by the levels that are left.
pub map_page-IsMapped :
    (alloc : AllocContiguous) (c k size table virt value : ℕ) (levels : ℕ → ℕ) (m : Machine)
    → Stops c value
    → Supplies alloc k levels m.managers
    → Ready (suc k) size table virt levels m.words
    → Ends
        (IsMapped c (suc k) size table virt value levels m)
        (map_page alloc (suc k) size table virt value m)
unfolding map_page
map_page-IsMapped alloc c zero size table virt value levels m stops supplies ready =
    map_last alloc c size table virt value levels m stops ready
map_page-IsMapped alloc c (suc k) size table virt value levels m stops supplies
      (level, aligned, inl empty) =
    Ends-bind (IsCreated alloc k levels (entry_address table size virt) m) _
      (ensure_table alloc (entry_address table size virt) m) _
      (ensure_table-IsCreated alloc k levels (entry_address table size virt) m empty supplies)
      λ m' t.
        let next : next_table (m'.words (entry_address table size virt)) ≡ t.page =
          ap next_table (entry_read alloc c k size table virt value levels m level aligned m' k t)
          ∙ next_table_lem (t.page + 3) (omega (arith, t.room))
          ∙ omega (arith, t.aligned) in
        rw next (
          Ends-map (map_page alloc (suc k) (size / 512) t.page virt value m')
            (map_page-IsMapped alloc c k (size / 512) t.page virt value (mark t.page (suc k) levels)
              m' stops (t.supplies (suc k))
              (below-Ready alloc c k size table virt value levels m level aligned m' k t))
            (through_new alloc c k size table virt value levels m level aligned m' k t))
map_page-IsMapped alloc c (suc k) size table virt value levels m stops supplies
      (level, aligned, inr (filled, plain, below)) =
    rw (ensure_table-kept alloc (entry_address table size virt) m filled) (
      Ends-map
        (map_page alloc (suc k) (size / 512) (next_table (m.words (entry_address table size virt)))
          virt value m)
        (map_page-IsMapped alloc c k (size / 512)
          (next_table (m.words (entry_address table size virt))) virt value levels m stops
          (Supplies-less alloc k levels m.managers supplies) below)
        (λ after. through_old alloc c k size table virt value levels m level aligned after plain))
