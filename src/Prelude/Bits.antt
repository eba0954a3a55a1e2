-- ===== src/Prelude/Bits.antt =====
-- `&`, `|` and `^` at variables: one equation for the lowest digit, then masks and fields.
use Prim.Native.Nat.{
  ℕ, zero, suc, ◌+◌, ◌-◌, ◌*◌, ◌/◌, ◌%◌, ◌^◌, ◌≤◌, ◌<◌, min, max, bit_and, bit_or, digits, bitwise,
  bit_and-bitwise, bit_or-bitwise,
}
use mathlib.Core.Path.{◌≡◌, refl, sym, ap, ◌∙◌}
use native.Mathlib.Nat.{
  pow-suc, pow-succ', div-div-eq-div-mul, one-le-pow, div-add-mod, mul-add-mod_self_left,
  mod-eq_of_lt, mod-lt,
}
use native.Mathlib.Omega.{arith}

-- The digit count is only a bound: any count that covers the first number serves.
module _ (z : ℕ → ℕ) (f : ℕ → ℕ → ℕ) where
  digits_bound : (n m a b : ℕ) → a ≤ n → a ≤ m → digits z f n a b ≡ digits z f m a b
  digits_bound zero zero a b p q = refl
  digits_bound zero (suc m) zero b p q = refl
  digits_bound zero (suc m) (suc a) b p q = absurd (omega arith)
  digits_bound (suc n) zero zero b p q = refl
  digits_bound (suc n) zero (suc a) b p q = absurd (omega arith)
  digits_bound (suc n) (suc m) zero b p q = refl
  digits_bound (suc n) (suc m) (suc a) b p q =
      rw (digits_bound n m (suc a / 2) (b / 2) (omega arith) (omega arith))

  pub bitwise_low :
      (a b : ℕ)
      → bitwise z f (suc a) b ≡ bitwise z f (suc a / 2) (b / 2) * 2 + f (suc a % 2) (b % 2)
  bitwise_low a b =
      omega (arith, digits_bound a (suc a / 2) (suc a / 2) (b / 2) (omega arith) (omega arith))

pub bit_and_low : (a b : ℕ) → bit_and a b ≡ bit_and (a / 2) (b / 2) * 2 + min (a % 2) (b % 2)
bit_and_low zero b = simp bit_and-bitwise (omega arith)
bit_and_low (suc a) b = simp bit_and-bitwise (bitwise_low (λ y. 0) min a b)

pub bit_or_low : (a b : ℕ) → bit_or a b ≡ bit_or (a / 2) (b / 2) * 2 + max (a % 2) (b % 2)
bit_or_low zero b = simp bit_or-bitwise (omega arith)
bit_or_low (suc a) b = simp bit_or-bitwise (bitwise_low (λ y. y) max a b)

bit_and_none : (n a : ℕ) → a ≤ n → bit_and a 0 ≡ 0
bit_and_none n zero h = refl
bit_and_none zero (suc a) h = absurd (omega arith)
bit_and_none (suc n) (suc a) h =
    omega (arith, bit_and_low (suc a) 0, bit_and_none n (suc a / 2) (omega arith))

pub bit_and-zero : (a : ℕ) → bit_and a 0 ≡ 0
bit_and-zero a = bit_and_none a a (omega arith)

bit_or_none : (n a : ℕ) → a ≤ n → bit_or a 0 ≡ a
bit_or_none n zero h = refl
bit_or_none zero (suc a) h = absurd (omega arith)
bit_or_none (suc n) (suc a) h =
    omega (arith, bit_or_low (suc a) 0, bit_or_none n (suc a / 2) (omega arith))

pub bit_or-zero : (a : ℕ) → bit_or a 0 ≡ a
bit_or-zero a = bit_or_none a a (omega arith)

pub two_times : (q k : ℕ) → q * 2 ^ suc k ≡ 2 * (q * 2 ^ k)
two_times q k = omega (arith, ap (λ (t : ℕ). q * t) (pow-suc 2 k))

mod_double : (p a : ℕ) → 0 < p → a % (2 * p) ≡ a / 2 % p * 2 + a % 2
mod_double p a h =
    ap (λ (t : ℕ). t % (2 * p)) split
    ∙ mul-add-mod_self_left (2 * p) (a / 2 / p) (a / 2 % p * 2 + a % 2)
    ∙ mod-eq_of_lt (omega (arith, mod-lt (a / 2) h))
  where
    split : a ≡ 2 * p * (a / 2 / p) + (a / 2 % p * 2 + a % 2)
    split = omega (arith, ap (λ (t : ℕ). 2 * t) (div-add-mod (a / 2) p))

-- A mask of `k` ones keeps the remainder by `2 ^ k`.
pub bit_and_mask : (k a : ℕ) → bit_and a (2 ^ k - 1) ≡ a % 2 ^ k
bit_and_mask zero a = ground (arith, bit_and-zero a)
bit_and_mask (suc k) a = ground (
  arith,
  bit_and_low a (2 ^ suc k - 1),
  pow-suc 2 k,
  one-le-pow k 2,
  mod_double (2 ^ k) a,
  bit_and_mask k (a / 2),
)

-- `(q << k) | r` is a sum where `r` has `k` digits.
pub bit_or_fields : (k q r : ℕ) → r < 2 ^ k → bit_or (q * 2 ^ k) r ≡ q * 2 ^ k + r
bit_or_fields zero q r h = ground (arith, bit_or-zero q)
bit_or_fields (suc k) q r h = ground (
  arith,
  bit_or_low (q * 2 ^ suc k) r,
  two_times q k,
  pow-suc 2 k,
  bit_or_fields k q (r / 2) (omega (arith, pow-suc 2 k)),
)

pub half_pow : (k a : ℕ) → a / 2 / 2 ^ k ≡ a / 2 ^ suc k
half_pow k a = div-div-eq-div-mul a 2 (2 ^ k) ∙ ap (λ (t : ℕ). a / t) (sym (pow-succ' 2 k))

-- `&` with a number whose low `k` digits are zero reads the digits above them.
pub bit_and_shift : (k a h : ℕ) → bit_and a (h * 2 ^ k) ≡ bit_and (a / 2 ^ k) h * 2 ^ k
bit_and_shift zero a h =
    let e : h * 1 ≡ h = omega arith in let d : a / 1 ≡ a = omega arith in rw (e, d) (omega arith)
bit_and_shift (suc k) a h = ground (
  arith,
  bit_and_low a (h * 2 ^ suc k),
  two_times h k,
  two_times (bit_and (a / 2 ^ suc k) h) k,
  bit_and_shift k (a / 2) h,
  half_pow k a,
)

pub pow-add : (j k : ℕ) → 2 ^ (j + k) ≡ 2 ^ j * 2 ^ k
pow-add j zero = let e : j + 0 ≡ j = omega arith in rw e (omega arith)
pow-add j (suc k) =
    let e : j + suc k ≡ suc (j + k) = omega arith in
    rw e (omega (arith, pow-suc 2 (j + k), pow-add j k, ap (λ (t : ℕ). 2 ^ j * t) (pow-suc 2 k)))
