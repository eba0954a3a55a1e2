-- ===== src/Lib.antt =====
-- A verification library for homegrown, an operating system for x86 with its boot loader, image
-- builder and shared C library.
--
-- The parts and the files that model them:
-- - Prelude: the numbers, words, tests and lists that all modules use.
-- - Shared/Maths: projects/shared/code/maths (the macros of maths.h at U64, next_pow2, what_pow2
--   and power). Maths/Align, Maths/Pow2 and Maths/Power hold the laws.
-- - Shared/Text: projects/shared/code/text (string.h, converter.c and parser.c). A string is the list
--   of its bytes; an I64 is given by its sign and magnitude. Text/Digits treats the printed numbers,
--   Text/Tokens the splitting, and Text/Shape padding, pointers and searches.
-- - Shared/Arena: arena.c of projects/shared/code/memory/allocator, as built outside of POSIX. The
--   jump to the caller's buffer is one of three ends of `alloc`.
-- - Shared/Hash and Shared/Trie: hashes.h and the tries of projects/shared/code/hash. A trie is a value
--   whose nodes are allocated in an arena, and an insertion or an iterator may end with the arena's
--   jump. Trie/Lookup and Trie/Numbering treat insertions, Trie/Iterator common-iterator.h.
-- - Shared/Msi: the sets with open addressing of projects/shared/code/hash (msi/common.c,
--   msi/string-set.c, msi/u16-set.c). The slots are a function of their index. Msi/Steps and
--   Msi/Visits show that the lookups visit every slot, so that as much fuel as there are slots is
--   enough where one is free; Msi/Probe, Msi/Laws and Msi/Insert treat searches and insertions for any
--   values, Msi/Strings and Msi/Equals sets of strings.
-- - Shared/Uuid: projects/shared/code/uuid.
-- - Freestanding/Memory: projects/freestanding/code/memory/manipulation/src/manipulation.c. A memory
--   is a function from addresses to bytes. Memory/Ranges says what two writes come to; Memory/Copy,
--   Memory/Set, Memory/Move and Memory/Compare treat one function each.
-- - Freestanding/Screen: projects/freestanding/code/peripheral/screen/src/screen.c without the
--   drawing, of which the arguments of drawLines are kept. The root has the text and its logical lines
--   (flushToScreen's loop and I8IndexToLogicalLine), Screen/Fill the parsing into lines of the screen,
--   Screen/Window toTail and flushToScreen, Screen/Scroll rewind and prowind, Screen/Search the law
--   of the search, and Screen/Text that of the ring of characters. Its loops have fuel for
--   the halvings of 2 ^ 13 lines, for those lines, or for the entries of the ring of screen lines.
-- - ImageBuilder: projects/image-builder/code/src. Crc32 is crc32.c, with its law against the
--   polynomial in Crc32/Laws; Configuration is configuration.c with calculateEFIPartitionSize of
--   partitions/efi.c (Configuration/Efi for the allocation tables, Configuration/Layout for the
--   image); Fat is the rest of partitions/efi.c, with its chains in Fat/Chain, its directories in
--   Fat/Directory and the whole partition in Fat/Partition; Gpt is gpt.c and mbr.c, where a
--   structure is written out as the bytes it has in memory and a write to the image is an offset with
--   its bytes.
-- - X86/Paging: the page sizes of projects/x86/code/memory/include/x86/memory/definitions.h.
-- - X86/Pages: projects/shared/code/memory/converter/src/converter.c, the choice of a page size in
--   projects/x86/memory/policy/code/src/policy.c (allocAndMap, and the request of
--   allocAndMapExplicit), and getVirtualMemory of virtual.c beside it.
-- - X86/PageTables: projects/x86/memory/virtual/code/src/virtual.c and getMappedPage of
--   projects/x86/memory/policy/code/src/virtual.c. A machine is the words of physical memory with the
--   managers; PageTables/Entries treats the bits of an entry, PageTables/Walk one walk through the
--   tables, and PageTables/Round the whole functions.
-- - X86/Policy: projects/x86/memory/policy/code/src/policy.c, which allocates and maps together and
--   frees what is mapped. The loop of freeMapped is Policy/Loop, a run of pages Policy/Runs, the sizes
--   and frames of the pages that are found Policy/Sizes, and Policy/Free the whole function. A loop
--   over a region has fuel for each of its base pages.
-- - X86/Physical: projects/x86/memory/physical/code/src/physical.c. A manager is a record whose
--   `blocks` are the used words of its buffer; the three globals are one record that the functions
--   pass on, and the interrupt for exhausted memory is an end of the run. Physical/Cover says what
--   free memory a state stands for, Physical/Take and Physical/Alloc treat contiguous allocation,
--   Physical/Request allocation in blocks (allocPhysicalPages), and
--   Physical/Init the start of the managers from the memory map (initPMM, initPhysicalMemoryManager).
--
-- Words are natural numbers with their wrap-around written out. The nesting of the allocation
-- functions through the page sizes is bounded by fuel: one unit for each size from the requested
-- one upwards is shown to be enough.
--
-- Not modelled: the firmware's interfaces, device registers, inline assembly, the pixels of the
-- screen, and input or output.
pub mod Freestanding
pub mod ImageBuilder
pub mod Prelude
pub mod Shared
pub mod X86
