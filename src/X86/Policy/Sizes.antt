-- ===== src/X86/Policy/Sizes.antt =====
-- The pages that getMappedPage finds: their sizes and their frames.
use native.Mathlib.Nat.{mod-lt}
use homegrown.Prelude.{
  ℕ, ◌-◌, ◌*◌, ◌/◌, ◌%◌, ◌^◌, ◌≤◌, ◌<◌, ◌≡◌, ◌∙◌, refl, ap, sym, arith, Bool, true, false,
  if◌then◌else◌, bit_and_shift, bit_and_mask,
}
use homegrown.X86.Paging.{
  page_frame_size, large_page_size, jumbo_page_size, huge_page_size, PageSize, base_page,
  large_page, huge_page, bytes,
}
use homegrown.X86.PageTables.{
  MappedPage, entry_address, next_table, get_entry, get_mapped_page, get_physical_address_frame,
  is_extended,
}
use homegrown.X86.Policy.{page_size_of}

page_size_of-bytes : (p : PageSize) → page_size_of (bytes p) ≡ p
page_size_of-bytes base_page = refl
page_size_of-bytes large_page = refl
page_size_of-bytes huge_page = refl

pub bytes_bound : (p : PageSize) → (page_frame_size ≤ bytes p) × (bytes p ≤ huge_page_size)
bytes_bound base_page = omega arith
bytes_bound large_page = omega arith
bytes_bound huge_page = omega arith

HasPageSize : MappedPage → Type 0
HasPageSize page = (p : PageSize) × (page.page_size ≡ bytes p)

either-HasPageSize :
    (b : Bool) (x y : MappedPage) → HasPageSize x → HasPageSize y → HasPageSize (if b then x else y)
either-HasPageSize true x y h k = h
either-HasPageSize false x y h k = k

page-HasPageSize :
    (p : PageSize) (entry : ℕ) → HasPageSize (record { entry = entry; page_size = bytes p })
unfolding HasPageSize
page-HasPageSize p entry = (p, refl)

module _ (virt : ℕ) (words : ℕ → ℕ) where
  get_base-HasPageSize : (table : ℕ) → HasPageSize (get_entry 1 page_frame_size table virt words)
  unfolding get_entry
  get_base-HasPageSize table =
      page-HasPageSize base_page (words (entry_address table page_frame_size virt))

  get_large-HasPageSize : (table : ℕ) → HasPageSize (get_entry 2 large_page_size table virt words)
  unfolding get_entry
  get_large-HasPageSize table =
      let entry = words (entry_address table large_page_size virt) in
      either-HasPageSize (is_extended entry) (record { entry = entry; page_size = large_page_size })
        (get_entry 1 page_frame_size (next_table entry) virt words)
        (page-HasPageSize large_page entry) (get_base-HasPageSize (next_table entry))

  get_huge-HasPageSize : (table : ℕ) → HasPageSize (get_entry 3 huge_page_size table virt words)
  unfolding get_entry
  get_huge-HasPageSize table =
      let entry = words (entry_address table huge_page_size virt) in
      either-HasPageSize (is_extended entry) (record { entry = entry; page_size = huge_page_size })
        (get_entry 2 large_page_size (next_table entry) virt words)
        (page-HasPageSize huge_page entry) (get_large-HasPageSize (next_table entry))

  get_mapped_page-HasPageSize : (root : ℕ) → HasPageSize (get_mapped_page root virt words)
  unfolding get_mapped_page get_entry
  get_mapped_page-HasPageSize root =
      get_huge-HasPageSize (next_table (words (entry_address root jumbo_page_size virt)))

-- The size that is found is the size of its `PageSize`.
pub bytes-page_size_of :
    (root virt : ℕ) (words : ℕ → ℕ)
    → bytes (page_size_of ((get_mapped_page root virt words).page_size))
      ≡ (get_mapped_page root virt words).page_size
unfolding HasPageSize
bytes-page_size_of root virt words =
    let (p, e) = get_mapped_page-HasPageSize virt words root in
    ap (λ (n : ℕ). bytes (page_size_of n)) e ∙ ap bytes (page_size_of-bytes p) ∙ sym e

pub frame_bound : (entry : ℕ) → get_physical_address_frame entry < 2 ^ 52
frame_bound entry =
    let e : get_physical_address_frame entry ≡ entry / 2 ^ 12 % 2 ^ 40 * 2 ^ 12 =
      bit_and_shift 12 entry (2 ^ 40 - 1)
      ∙ ap (λ (t : ℕ). t * 2 ^ 12) (bit_and_mask 40 (entry / 2 ^ 12)) in
    let low : entry / 2 ^ 12 % 2 ^ 40 < 2 ^ 40 = mod-lt (entry / 2 ^ 12) (omega arith) in
    rw e (omega (arith, low))
