-- ===== src/Shared/Msi/Steps.antt =====
-- The slots that a search looks at: an odd step visits each slot of a table whose size is a power of
-- two.
use homegrown.Prelude.{
  ℕ, zero, suc, ◌+◌, ◌-◌, ◌*◌, ◌/◌, ◌%◌, ◌^◌, ◌<◌, ◌≡◌, ◌∙◌, refl, ap, sym, arith, inl, inr, ◌⊎◌,
}
use native.Mathlib.Nat.{mod-lt, add-mul-mod_self_left, div-add-mod, pow-suc, mod-eq_of_lt}

parity : (q : ℕ) → ((r : ℕ) × (q ≡ 2 * r)) ⊎ ((r : ℕ) × (q ≡ 2 * r + 1))
parity zero = inl (0, refl)
parity (suc q) = elim (parity q) [
  | inl (r, e) ↦ inr (r, omega (arith, e))
  | inr (r, e) ↦ inl (r + 1, omega (arith, e))
]

even_quotient : (s t m q r : ℕ) → s * t ≡ 1 + m * q → q ≡ 2 * r → s * t ≡ 1 + m * 2 * r
even_quotient s t m q r e f = omega (arith, e, ap (λ (x : ℕ). m * x) f)

odd_quotient :
    (h t m q r : ℕ)
    → (2 * h + 1) * t ≡ 1 + m * q
    → q ≡ 2 * r + 1
    → (2 * h + 1) * (t + m) ≡ 1 + m * 2 * (r + h + 1)
odd_quotient h t m q r e f = omega (arith, e, ap (λ (x : ℕ). m * x) f)

-- An odd number has an inverse up to a power of two.
inverse : (k h : ℕ) → (t : ℕ) × (q : ℕ) × ((2 * h + 1) * t ≡ 1 + 2 ^ k * q)
inverse zero h = (1, 2 * h, omega arith)
inverse (suc k) h =
    let (t, q, e) = inverse k h in
    rw pow-suc (elim (parity q) [
      | inl (r, f) ↦ (t, r, even_quotient (2 * h + 1) t (2 ^ k) q r e f)
      | inr (r, f) ↦ (t + 2 ^ k, r + h + 1, odd_quotient h t (2 ^ k) q r e f)
    ])

-- The sum of a start and steps, for a step with an inverse.
steps_sum :
    (m s t q idx base low x d : ℕ)
    → s * t ≡ 1 + m * q
    → idx ≡ m * base + low
    → d + low ≡ x + m
    → idx + d * t * s ≡ x + m * (base + 1 + d * q)
steps_sum m s t q idx base low x d e f g = omega (arith, ap (λ (y : ℕ). d * y) e, f, g)

fewer_steps :
    (m s idx n full part : ℕ) → n ≡ m * full + part → idx + n * s ≡ idx + part * s + m * (full * s)
fewer_steps m s idx n full part e = omega (arith, ap (λ (y : ℕ). y * s) e)

module _ (k h idx x : ℕ) (inside : x < 2 ^ k) where
  positive : 0 < 2 ^ k
  positive = omega arith

  some_steps : (n : ℕ) × ((idx + n * (2 * h + 1)) % 2 ^ k ≡ x)
  some_steps =
      let (t, q, e) = inverse k h in
      let m = 2 ^ k in
      let s = 2 * h + 1 in
      let low_bound : idx % m < m = mod-lt idx positive in
      let d = x + m - idx % m in
      let sum =
        steps_sum m s t q idx (idx / m) (idx % m) x d e (sym (div-add-mod idx m))
          (omega (arith, low_bound)) in
      (
        d * t,
        ap (λ (y : ℕ). y % m) sum
            ∙ add-mul-mod_self_left x m (idx / m + 1 + d * q)
            ∙ mod-eq_of_lt inside,
      )

  unfoldable pub FewSteps : Type 0
  FewSteps = (n : ℕ) × (n < 2 ^ k) × ((idx + (n + 1) * (2 * h + 1)) % 2 ^ k ≡ x)

  from_remainder : (part : ℕ) → part < 2 ^ k → (idx + part * (2 * h + 1)) % 2 ^ k ≡ x → FewSteps
  unfolding FewSteps
  from_remainder zero small e =
      let whole : 2 ^ k - 1 + 1 ≡ 2 ^ k = omega (arith, positive) in
      let none : idx + 0 * (2 * h + 1) ≡ idx = omega arith in
      (
        2 ^ k - 1,
        omega (arith, positive),
        ap (λ (y : ℕ). (idx + y * (2 * h + 1)) % 2 ^ k) whole
            ∙ add-mul-mod_self_left idx (2 ^ k) (2 * h + 1)
            ∙ ap (λ (y : ℕ). y % 2 ^ k) (sym none)
            ∙ e,
      )
  from_remainder (suc part) small e =
      let next : part + 1 ≡ suc part = omega arith in
      (part, omega (arith, small), ap (λ (y : ℕ). (idx + y * (2 * h + 1)) % 2 ^ k) next ∙ e)

  -- No more steps than there are slots.
  pub few_steps : FewSteps
  few_steps =
      let (n, e) = some_steps in
      let m = 2 ^ k in
      let s = 2 * h + 1 in
      let sum = fewer_steps m s idx n (n / m) (n % m) (sym (div-add-mod n m)) in
      from_remainder (n % m) (mod-lt n positive) (
        sym (add-mul-mod_self_left (idx + n % m * s) m (n / m * s))
        ∙ ap (λ (y : ℕ). y % m) (sym sum)
        ∙ e)
