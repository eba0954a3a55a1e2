-- ===== src/X86.antt =====
-- projects/x86: the memory management of the kernel on x86-64.
pub mod PageTables
pub mod Pages
pub mod Paging
pub mod Physical
pub mod Policy
