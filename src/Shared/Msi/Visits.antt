-- ===== src/Shared/Msi/Visits.antt =====
-- The slots that the lookups of `indexLookup` visit.
use native.Mathlib.Nat.{mod-add-mod, mod-mod_of_dvd, dvd_of_mod-eq-zero, mul-mod_left, mod-lt}
use homegrown.Prelude.{
  ℕ, zero, suc, ◌+◌, ◌-◌, ◌*◌, ◌/◌, ◌%◌, ◌^◌, ◌<◌, ◌≡◌, ◌∙◌, ap, arith, u32, bit_or, bit_or_low,
  bit_or-zero, bit_and_mask,
}
use homegrown.Shared.Maths.Align32.{word_split, pow_range, low_mask}
use homegrown.Shared.Msi.{index_lookup}
use homegrown.Shared.Msi.Steps.{FewSteps, few_steps}

-- The slot of the lookup after `n` others.
unfoldable pub visited : ℕ → ℕ → ℕ → ℕ → ℕ
unfolding index_lookup
visited hash exp idx zero = index_lookup hash exp idx
visited hash exp idx (suc n) = visited hash exp (index_lookup hash exp idx) n

odd : (y : ℕ) → bit_or y 1 ≡ 2 * (y / 2) + 1
odd y = omega (arith, bit_or_low y 1, bit_or-zero (y / 2))

module _ (hash exp : ℕ) (small : exp < 32) where
  step : ℕ
  step = 2 * (u32 (hash / 2 ^ (64 - exp)) / 2) + 1

  word_mod : (a : ℕ) → a % 4294967296 % 2 ^ exp ≡ a % 2 ^ exp
  word_mod a = mod-mod_of_dvd (2 ^ exp) a (
      dvd_of_mod-eq-zero (2 ^ exp)
        (rw (← word_split exp small) (mul-mod_left (2 ^ (32 - exp)) (2 ^ exp))))

  one_bit : u32 (1 * 2 ^ exp) ≡ 2 ^ exp
  one_bit = omega (arith, pow_range exp small)

  index_lookup_lem : (idx : ℕ) → index_lookup hash exp idx ≡ (idx + step) % 2 ^ exp
  unfolding index_lookup step
  index_lookup_lem idx =
      rw (one_bit, low_mask exp small, bit_and_mask, word_mod)
        (ap (λ (s : ℕ). (idx + s) % 2 ^ exp) (odd (u32 (hash / 2 ^ (64 - exp)))))

  visited_lem : (n idx : ℕ) → visited hash exp idx n ≡ (idx + (n + 1) * step) % 2 ^ exp
  unfolding visited
  visited_lem zero idx = let e : (0 + 1) * step ≡ step = omega arith in rw e (index_lookup_lem idx)
  visited_lem (suc n) idx =
      visited_lem n (index_lookup hash exp idx)
      ∙ ap (λ (y : ℕ). (y + (n + 1) * step) % 2 ^ exp) (index_lookup_lem idx)
      ∙ mod-add-mod _ _ _
      ∙ ap (λ (y : ℕ). y % 2 ^ exp) (omega arith)

  pub visited-inside : (n idx : ℕ) → visited hash exp idx n < 2 ^ exp
  visited-inside n idx = rw (visited_lem n idx) (mod-lt _ (pow_range exp small).0)

  -- A search sees every slot of the table, and needs no more lookups than there are slots.
  pub visited-all :
      (idx x : ℕ) → x < 2 ^ exp → (n : ℕ) × (n < 2 ^ exp) × (visited hash exp idx n ≡ x)
  unfolding FewSteps step
  visited-all idx x inside =
      let (n, few, e) = few_steps exp (u32 (hash / 2 ^ (64 - exp)) / 2) idx x inside in
      (n, few, visited_lem n idx ∙ e)
