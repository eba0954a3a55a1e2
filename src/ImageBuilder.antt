-- ===== src/ImageBuilder.antt =====
-- projects/image-builder: the program that writes the disk image.
pub mod Configuration
pub mod Crc32
pub mod Gpt
pub mod Fat
