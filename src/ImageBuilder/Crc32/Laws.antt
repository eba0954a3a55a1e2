-- ===== src/ImageBuilder/Crc32/Laws.antt =====
-- The table-driven checksum against the definition by the polynomial, bit by bit.
use homegrown.Prelude.{
  ℕ, zero, suc, ◌+◌, ◌-◌, ◌*◌, ◌/◌, ◌%◌, ◌^◌, ◌<◌, ◌≡◌, refl, sym, ap, ◌∙◌, List, [], ◌∷◌, inl, inr,
  ◌==◌, if◌then◌else◌, get_or, map, bit_and, bit_xor, u32_max, bit_and_mask, bit_xor_half,
  bit_xor_shift, bit_xor_odd, bit_xor_self, bit_xor-zero, bit_xor_comm, bit_xor_assoc,
  bit_xor_fields, two_times, true, false, arith, Bool-cases,
}
use homegrown.ImageBuilder.Crc32.{crc32_table, crc_loop, calculate_crc32}

abbrev polynomial : ℕ
polynomial = 0xEDB8_8320

-- One step of the division by the polynomial.
pub divide_bit : ℕ → ℕ
divide_bit x = if x % 2 == 1 then bit_xor (x / 2) polynomial else x / 2

pub divide_bits : ℕ → ℕ → ℕ
unfolding divide_bit
divide_bits zero x = x
divide_bits (suc k) x = divide_bits k (divide_bit x)

-- The remainder after the bytes of the data.
pub divide_bytes : List ℕ → ℕ → ℕ
unfolding divide_bits
divide_bytes [] crc = crc
divide_bytes (byte ∷ bytes) crc = divide_bytes bytes (divide_bits 8 (bit_xor crc byte))

abbrev pub AllBytes : List ℕ → Type 0
AllBytes [] = Unit
AllBytes (b ∷ bs) = (b < 256) × AllBytes bs

abbrev count_up : ℕ → ℕ → List ℕ
count_up zero i = []
count_up (suc n) i = i ∷ count_up n (suc i)

table_entries : crc32_table ≡ map (divide_bits 8) (count_up 256 0)
unfolding divide_bits
table_entries = refl

get_or-map : (f : ℕ → ℕ) (n i k : ℕ) → k < n → get_or (map f (count_up n i)) k 0 ≡ f (i + k)
get_or-map f zero i k h = absurd (omega arith)
get_or-map f (suc n) i zero h = ap f (omega arith)
get_or-map f (suc n) i (suc k) h =
    let e : suc i + k ≡ i + suc k = omega arith in
    rw (get_or-map f n (suc i) k (omega arith), e) refl

table_entry : (k : ℕ) → k < 256 → get_or crc32_table k 0 ≡ divide_bits 8 k
table_entry k h =
    ap (λ (t : List ℕ). get_or t k 0) table_entries
    ∙ get_or-map (divide_bits 8) 256 0 k h
    ∙ ap (divide_bits 8) (omega arith)

xor_right_comm : (x y z : ℕ) → bit_xor (bit_xor x y) z ≡ bit_xor (bit_xor x z) y
xor_right_comm x y z =
    bit_xor_assoc x y z ∙ ap (bit_xor x) (bit_xor_comm y z) ∙ sym (bit_xor_assoc x z y)

xor_twice : (x p : ℕ) → bit_xor (bit_xor x p) p ≡ x
xor_twice x p = bit_xor_assoc x p p ∙ ap (bit_xor x) (bit_xor_self p) ∙ bit_xor-zero x

xor_cancel : (x y p : ℕ) → bit_xor (bit_xor x p) (bit_xor y p) ≡ bit_xor x y
xor_cancel x y p =
    sym (bit_xor_assoc (bit_xor x p) y p)
    ∙ ap (λ (t : ℕ). bit_xor t p) (xor_right_comm x p y)
    ∙ xor_twice (bit_xor x y) p

divide_bit-bit_xor : (a b : ℕ) → divide_bit (bit_xor a b) ≡ bit_xor (divide_bit a) (divide_bit b)
unfolding divide_bit
divide_bit-bit_xor a b = elim (Bool-cases (a % 2 == 1)) [
  | inl odd_a ↦ elim (Bool-cases (b % 2 == 1)) [
    | inl odd_b ↦
        let t : (bit_xor a b % 2 == 1) ≡ false = ground (arith, bit_xor_odd a b) in
        rw (t, odd_a, odd_b, bit_xor_half a b) (sym (xor_cancel (a / 2) (b / 2) polynomial))
    | inr even_b ↦
        let t : (bit_xor a b % 2 == 1) ≡ true = ground (arith, bit_xor_odd a b) in
        rw (t, odd_a, even_b, bit_xor_half a b) (xor_right_comm (a / 2) (b / 2) polynomial)
  ]
  | inr even_a ↦ elim (Bool-cases (b % 2 == 1)) [
    | inl odd_b ↦
        let t : (bit_xor a b % 2 == 1) ≡ true = ground (arith, bit_xor_odd a b) in
        rw (t, even_a, odd_b, bit_xor_half a b) (bit_xor_assoc (a / 2) (b / 2) polynomial)
    | inr even_b ↦
        let t : (bit_xor a b % 2 == 1) ≡ false = ground (arith, bit_xor_odd a b) in
        rw (t, even_a, even_b, bit_xor_half a b) refl
  ]
]

divide_bits-bit_xor :
    (k a b : ℕ) → divide_bits k (bit_xor a b) ≡ bit_xor (divide_bits k a) (divide_bits k b)
unfolding divide_bits
divide_bits-bit_xor zero a b = refl
divide_bits-bit_xor (suc k) a b =
    rw (divide_bit-bit_xor a b) (divide_bits-bit_xor k (divide_bit a) (divide_bit b))

divide_bit_even : (h : ℕ) → divide_bit (2 * h) ≡ h
unfolding divide_bit
divide_bit_even h = let t : (2 * h % 2 == 1) ≡ false = ground arith in rw t (omega arith)

divide_bits_shifted : (k h : ℕ) → divide_bits k (h * 2 ^ k) ≡ h
unfolding divide_bits
divide_bits_shifted zero h = omega arith
divide_bits_shifted (suc k) h =
    rw (two_times h k, divide_bit_even (h * 2 ^ k)) (divide_bits_shifted k h)

-- Eight steps act on the low byte only; the others move down.
divide_byte : (x : ℕ) → divide_bits 8 x ≡ bit_xor (divide_bits 8 (x % 256)) (x / 256)
divide_byte x =
    let split : x ≡ bit_xor (x / 256 * 2 ^ 8) (x % 256) =
      omega (arith, bit_xor_fields 8 (x / 256) (x % 256) (omega arith)) in
    ap (divide_bits 8) split
    ∙ divide_bits-bit_xor 8 (x / 256 * 2 ^ 8) (x % 256)
    ∙ ap (λ (t : ℕ). bit_xor t (divide_bits 8 (x % 256))) (divide_bits_shifted 8 (x / 256))
    ∙ bit_xor_comm (x / 256) (divide_bits 8 (x % 256))

-- The bits of the register above the byte are those of the exclusive or.
high_bits : (crc byte : ℕ) → byte < 256 → bit_xor crc byte / 2 ^ 8 ≡ crc / 2 ^ 8
high_bits crc byte small =
    let z : byte / 2 ^ 8 ≡ 0 = omega arith in
    bit_xor_shift 8 crc byte ∙ rw z (bit_xor-zero (crc / 2 ^ 8))

crc_loop_lem :
    (bytes : List ℕ) (crc : ℕ) → AllBytes bytes → crc_loop bytes crc ≡ divide_bytes bytes crc
unfolding crc_loop divide_bytes
crc_loop_lem [] crc h = refl
crc_loop_lem (byte ∷ bytes) crc h =
    let x = bit_xor crc byte in
    let step : bit_xor (get_or crc32_table (bit_and x 0xFF) 0) (crc / 2 ^ 8) ≡ divide_bits 8 x =
      rw (bit_and_mask 8 x, table_entry (x % 256) (omega arith), ← high_bits crc byte h.0)
        (sym (divide_byte x)) in
    rw step (crc_loop_lem bytes (divide_bits 8 x) h.1)

-- For data made of bytes the checksum by the table is the complement of the remainder that the
-- division by the polynomial leaves bit by bit, from a register of ones.
pub calculate_crc32-divide_bytes :
    (bytes : List ℕ)
    → AllBytes bytes
    → calculate_crc32 bytes ≡ u32_max - divide_bytes bytes 0xFFFF_FFFF
unfolding calculate_crc32
calculate_crc32-divide_bytes bytes h =
    ap (λ (t : ℕ). u32_max - t) (crc_loop_lem bytes 0xFFFF_FFFF h)
