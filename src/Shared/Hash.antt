-- ===== src/Shared/Hash.antt =====
-- hashes.h of projects/shared/code/hash.
use homegrown.Prelude.{ℕ, ◌*◌, [], ◌∷◌, u16, u32, u64, ◌>>>◌, bit_xor}
use homegrown.Shared.Text.{String}

-- The loop of `hashStringSkeeto`.
pub skeeto_loop : ℕ → String → ℕ
skeeto_loop h [] = h
skeeto_loop h (c ∷ s) = skeeto_loop (u64 (bit_xor h c * 1111111111111111111)) s

unfoldable pub hash_string_skeeto : String → ℕ
unfolding skeeto_loop
hash_string_skeeto s = skeeto_loop 0x100 s

-- `hashU32`
abbrev pub hash_u32 : ℕ → ℕ
hash_u32 x0 =
    let x1 = u32 (bit_xor x0 (x0 >>> 16) * 0x21f0aaad) in
    let x2 = u32 (bit_xor x1 (x1 >>> 15) * 0x735a2d97) in bit_xor x2 (x2 >>> 15)

-- `hashU16`
unfoldable pub hash_u16 : ℕ → ℕ
hash_u16 x0 =
    let x1 = u16 (bit_xor x0 (x0 >>> 7) * 0x2993) in
    let x2 = u16 (bit_xor x1 (x1 >>> 5) * 0xe877) in
    let x3 = u16 (bit_xor x2 (x2 >>> 9) * 0x0235) in bit_xor x3 (x3 >>> 10)
