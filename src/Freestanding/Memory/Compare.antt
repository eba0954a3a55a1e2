-- ===== src/Freestanding/Memory/Compare.antt =====
-- `memcmp`.
use homegrown.Prelude.{ℕ, zero, suc, ◌+◌, ◌<◌, ◌≡◌, ◌↔◌, refl, inl, inr, ◌==◌, arith, Bool-cases}
use homegrown.Freestanding.Memory.{Memory, memcmp_loop, memcmp}

-- The first bytes agree, and so do the others.
all_bytes :
    (n s1 s2 : ℕ) (mem : Memory)
    → mem s1 ≡ mem s2
    → ((i : ℕ) → i < n → mem (s1 + 1 + i) ≡ mem (s2 + 1 + i))
    → (i : ℕ) → i < suc n
    → mem (s1 + i) ≡ mem (s2 + i)
all_bytes n s1 s2 mem first rest zero h =
    let e : s1 + 0 ≡ s1 = omega arith in let f : s2 + 0 ≡ s2 = omega arith in rw (e, f) first
all_bytes n s1 s2 mem first rest (suc i) h =
    let e : s1 + suc i ≡ s1 + 1 + i = omega arith in
    let f : s2 + suc i ≡ s2 + 1 + i = omega arith in rw (e, f) (rest i (omega arith))

memcmp_loop_iff :
    (n s1 s2 : ℕ) (mem : Memory)
    → ((a : ℕ) → mem a < 256)
    → (memcmp_loop n s1 s2 mem ≡ 0) ↔ ((i : ℕ) → i < n → mem (s1 + i) ≡ mem (s2 + i))
unfolding memcmp_loop
memcmp_loop_iff zero s1 s2 mem bytes = (λ e i h. absurd (omega arith), λ h. refl)
memcmp_loop_iff (suc n) s1 s2 mem bytes = elim (Bool-cases (mem s1 == mem s2)) [
  | inr differ ↦ rw differ (
    λ e. absurd (ground (arith, bytes s1, bytes s2)),
    λ h.
        let e : s1 + 0 ≡ s1 = omega arith in
        let f : s2 + 0 ≡ s2 = omega arith in
        let same : mem s1 ≡ mem s2 = rw (e, f) at (h 0 (omega arith)) in absurd (ground arith),
  )
  | inl alike ↦
      let (to, from) = memcmp_loop_iff n (s1 + 1) (s2 + 1) mem bytes in
      rw alike (
        λ e. all_bytes n s1 s2 mem (ground arith) (to e),
        λ h. from (λ i small.
            let e : s1 + 1 + i ≡ s1 + suc i = omega arith in
            let f : s2 + 1 + i ≡ s2 + suc i = omega arith in rw (e, f) (h (suc i) (omega arith))),
      )
]

-- On a memory of bytes `memcmp` is 0 exactly if the `n` bytes at the two addresses agree.
pub memcmp_iff :
    (s1 s2 n : ℕ) (mem : Memory)
    → ((a : ℕ) → mem a < 256)
    → (memcmp s1 s2 n mem ≡ 0) ↔ ((i : ℕ) → i < n → mem (s1 + i) ≡ mem (s2 + i))
unfolding memcmp
memcmp_iff s1 s2 n mem bytes = elim (Bool-cases (s1 == s2)) [
  | inl same ↦ let e : s1 ≡ s2 = ground arith in rw same (λ z i h. rw e refl, λ h. refl)
  | inr other ↦ rw other (memcmp_loop_iff n s1 s2 mem bytes)
]
