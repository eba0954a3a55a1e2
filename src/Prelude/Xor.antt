-- ===== src/Prelude/Xor.antt =====
-- `^` at variables: its lowest digit, the laws of a group, and fields.
use Prim.Native.Nat.{
  ℕ, zero, suc, ◌+◌, ◌*◌, ◌/◌, ◌%◌, ◌^◌, ◌≤◌, ◌<◌, bit_xor, differ, bit_xor-bitwise,
}
use mathlib.Core.Path.{◌≡◌, refl, sym, ◌∙◌}
use native.Mathlib.Nat.{pow-suc}
use native.Mathlib.Omega.{arith}
use homegrown.Prelude.Bits.{bitwise_low, two_times, half_pow}

differ_mod : (x y : ℕ) → x < 2 → y < 2 → differ x y ≡ (x + y) % 2
differ_mod zero zero h k = refl
differ_mod zero (suc zero) h k = refl
differ_mod zero (suc (suc y)) h k = absurd (omega arith)
differ_mod (suc zero) zero h k = refl
differ_mod (suc zero) (suc zero) h k = refl
differ_mod (suc zero) (suc (suc y)) h k = absurd (omega arith)
differ_mod (suc (suc x)) y h k = absurd (omega arith)

pub bit_xor_low : (a b : ℕ) → bit_xor a b ≡ bit_xor (a / 2) (b / 2) * 2 + (a % 2 + b % 2) % 2
bit_xor_low zero b = simp bit_xor-bitwise (omega arith)
bit_xor_low (suc a) b = simp bit_xor-bitwise (
    omega (
      arith,
      bitwise_low (λ y. y) differ a b,
      differ_mod (suc a % 2) (b % 2) (omega arith) (omega arith),
    ))

xor_zero_upto : (n a : ℕ) → a ≤ n → bit_xor a 0 ≡ a
xor_zero_upto n zero h = refl
xor_zero_upto zero (suc a) h = absurd (omega arith)
xor_zero_upto (suc n) (suc a) h =
    omega (arith, bit_xor_low (suc a) 0, xor_zero_upto n (suc a / 2) (omega arith))

pub bit_xor-zero : (a : ℕ) → bit_xor a 0 ≡ a
bit_xor-zero a = xor_zero_upto a a (omega arith)

zero_xor : (b : ℕ) → bit_xor 0 b ≡ b
zero_xor b = simp bit_xor-bitwise refl

pub bit_xor_half : (a b : ℕ) → bit_xor a b / 2 ≡ bit_xor (a / 2) (b / 2)
bit_xor_half a b = omega (arith, bit_xor_low a b)

pub bit_xor_odd : (a b : ℕ) → bit_xor a b % 2 ≡ (a % 2 + b % 2) % 2
bit_xor_odd a b = omega (arith, bit_xor_low a b)

comm_upto : (n a b : ℕ) → a ≤ n → b ≤ n → bit_xor a b ≡ bit_xor b a
comm_upto n zero b h k = zero_xor b ∙ sym (bit_xor-zero b)
comm_upto zero (suc a) b h k = absurd (omega arith)
comm_upto (suc n) (suc a) b h k = omega (
  arith,
  bit_xor_low (suc a) b,
  bit_xor_low b (suc a),
  comm_upto n (suc a / 2) (b / 2) (omega arith) (omega arith),
)

pub bit_xor_comm : (a b : ℕ) → bit_xor a b ≡ bit_xor b a
bit_xor_comm a b = comm_upto (a + b) a b (omega arith) (omega arith)

assoc_upto : (n a b c : ℕ) → a ≤ n → bit_xor (bit_xor a b) c ≡ bit_xor a (bit_xor b c)
assoc_upto n zero b c h = rw (zero_xor b, zero_xor (bit_xor b c)) refl
assoc_upto zero (suc a) b c h = absurd (omega arith)
assoc_upto (suc n) (suc a) b c h =
    let left : bit_xor (bit_xor (suc a) b / 2) (c / 2) ≡ bit_xor (suc a / 2) (bit_xor b c / 2) =
      rw (bit_xor_half (suc a) b, bit_xor_half b c)
        (assoc_upto n (suc a / 2) (b / 2) (c / 2) (omega arith)) in
    omega (
      arith,
      bit_xor_low (bit_xor (suc a) b) c,
      bit_xor_low (suc a) (bit_xor b c),
      bit_xor_odd (suc a) b,
      bit_xor_odd b c,
      left,
    )

pub bit_xor_assoc : (a b c : ℕ) → bit_xor (bit_xor a b) c ≡ bit_xor a (bit_xor b c)
bit_xor_assoc a b c = assoc_upto a a b c (omega arith)

self_upto : (n a : ℕ) → a ≤ n → bit_xor a a ≡ 0
self_upto n zero h = refl
self_upto zero (suc a) h = absurd (omega arith)
self_upto (suc n) (suc a) h =
    omega (arith, bit_xor_low (suc a) (suc a), self_upto n (suc a / 2) (omega arith))

pub bit_xor_self : (a : ℕ) → bit_xor a a ≡ 0
bit_xor_self a = self_upto a a (omega arith)

-- `(q << k) ^ r` is a sum where `r` has `k` digits.
pub bit_xor_fields : (k q r : ℕ) → r < 2 ^ k → bit_xor (q * 2 ^ k) r ≡ q * 2 ^ k + r
bit_xor_fields zero q r h = let z : r ≡ 0 = omega arith in rw z (bit_xor-zero (q * 1) ∙ omega arith)
bit_xor_fields (suc k) q r h =
    let halves : q * 2 ^ suc k / 2 ≡ q * 2 ^ k = omega (arith, two_times q k) in
    let high : bit_xor (q * 2 ^ suc k / 2) (r / 2) ≡ q * 2 ^ k + r / 2 =
      rw halves (bit_xor_fields k q (r / 2) (omega (arith, pow-suc 2 k))) in
    omega (arith, bit_xor_low (q * 2 ^ suc k) r, two_times q k, high)

pub bit_xor_shift : (k a b : ℕ) → bit_xor a b / 2 ^ k ≡ bit_xor (a / 2 ^ k) (b / 2 ^ k)
bit_xor_shift zero a b =
    let e : (n : ℕ) → n / 2 ^ 0 ≡ n = λ n. omega arith in rw (e (bit_xor a b), e a, e b) refl
bit_xor_shift (suc k) a b =
    rw (← half_pow k (bit_xor a b), ← half_pow k a, ← half_pow k b, bit_xor_half a b)
      (bit_xor_shift k (a / 2) (b / 2))
