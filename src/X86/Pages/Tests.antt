-- ===== src/X86/Pages/Tests.antt =====
-- Page sizes for concrete numbers of bytes.
use homegrown.Prelude.{◌+◌, ◌*◌, ◌%◌, ◌^◌, ◌≤◌, ◌≡◌, true, some, max, arith}
use homegrown.X86.Pages.{
  PageSizeConversion, convert_preferred_page_to_available_pages, is_valid_page_size_for_arch,
  alloc_and_map_size, explicit_request, get_virtual_memory,
}
use homegrown.X86.Pages.Laws.{
  convert_preferred-exact, alloc_and_map_size-explicit_request, get_virtual_memory-fresh,
}

convert_preferred-exact_example :
    (c : PageSizeConversion) × (convert_preferred_page_to_available_pages (2 ^ 23) ≡ some c)
    × (c.number_of_pages * c.page_size ≡ max (2 ^ 23) 4096)
    × (is_valid_page_size_for_arch c.page_size ≡ true)
convert_preferred-exact_example = convert_preferred-exact 23 (omega arith)

alloc_and_map_size-explicit_request_example :
    (5000000
      ≤ (alloc_and_map_size 5000000).number_of_pages * (alloc_and_map_size 5000000).page_size)
    × (explicit_request
          (alloc_and_map_size 5000000).number_of_pages
          (alloc_and_map_size 5000000).page_size
        ≡ some (alloc_and_map_size 5000000))
alloc_and_map_size-explicit_request_example =
    alloc_and_map_size-explicit_request 5000000 (omega arith) (omega arith)

get_virtual_memory-fresh_example :
    ((get_virtual_memory 8192 (2 ^ 21) 5000).0 % 2 ^ 21 ≡ 0)
    × (5000 ≤ (get_virtual_memory 8192 (2 ^ 21) 5000).0)
    × ((get_virtual_memory 8192 (2 ^ 21) 5000).1 ≡ (get_virtual_memory 8192 (2 ^ 21) 5000).0 + 8192)
get_virtual_memory-fresh_example = get_virtual_memory-fresh 21 8192 5000 (omega arith) (omega arith)
