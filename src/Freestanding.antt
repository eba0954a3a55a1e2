-- ===== src/Freestanding.antt =====
-- projects/freestanding: the parts that stand in for a C library.
pub mod Memory
pub mod Screen
