-- ===== src/ImageBuilder/Fat/Entries.antt =====
-- The entries of a directory of partitions/efi.c: what is read where one was written.
use homegrown.Prelude.{
  ℕ, zero, suc, ◌+◌, ◌-◌, ◌/◌, ◌%◌, ◌^◌, ◌≤◌, ◌<◌, ◌≡◌, ◌∙◌, ◌⊎◌, inl, inr, refl, sym, ap, List, [],
  ◌∷◌, ◌++◌, length, get_or, le_bytes, length-append, arith,
}
use homegrown.Freestanding.Memory.{Memory}
use homegrown.ImageBuilder.Fat.{
  name_at, bytes_at, write_bytes, cluster_at, dir_entry_bytes, new_entry,
}
use mathlib.Core.Path.{subst}

-- Memories that agree on a range have the same bytes there.
pub bytes_at_ext :
    (n p : ℕ) (mem mem' : Memory)
    → ((a : ℕ) → p ≤ a → a < p + n → mem' a ≡ mem a)
    → bytes_at n p mem' ≡ bytes_at n p mem
bytes_at_ext zero p mem mem' same = refl
bytes_at_ext (suc n) p mem mem' same =
    rw
      (
        same p (omega arith) (omega arith),
        bytes_at_ext n (p + 1) mem mem' (λ a low high. same a (omega arith) (omega arith)),
      )
      refl

pub bytes_at-get_or :
    (bs : List ℕ) (p : ℕ) (mem : Memory)
    → ((i : ℕ) → i < length bs → mem (p + i) ≡ get_or bs i 0)
    → bytes_at (length bs) p mem ≡ bs
bytes_at-get_or [] p mem h = refl
bytes_at-get_or (b ∷ bs) p mem h =
    let first : mem p ≡ b = let e : p + 0 ≡ p = omega arith in rw e at (h 0 (omega arith)) in
    let rest : (i : ℕ) → i < length bs → mem (p + 1 + i) ≡ get_or bs i 0 =
      λ i below. let e : p + suc i ≡ p + 1 + i = omega arith in rw e at (h (suc i) (omega arith)) in
    rw (first, bytes_at-get_or bs (p + 1) mem rest) refl

get_or-append_left :
    (xs ys : List ℕ) (i : ℕ) → i < length xs → get_or (xs ++ ys) i 0 ≡ get_or xs i 0
get_or-append_left [] ys i h = absurd (omega arith)
get_or-append_left (x ∷ xs) ys zero h = refl
get_or-append_left (x ∷ xs) ys (suc i) h = get_or-append_left xs ys i (omega arith)

get_or-append_right : (xs ys : List ℕ) (i : ℕ) → get_or (xs ++ ys) (length xs + i) 0 ≡ get_or ys i 0
get_or-append_right [] ys i = let e : 0 + i ≡ i = omega arith in rw e refl
get_or-append_right (x ∷ xs) ys i =
    let e : suc (length xs) + i ≡ suc (length xs + i) = omega arith in
    rw e (get_or-append_right xs ys i)

pub write_bytes-inside :
    (p : ℕ) (bs : List ℕ) (mem : Memory) (i : ℕ)
    → i < length bs
    → write_bytes p bs mem (p + i) ≡ get_or bs i 0
unfolding write_bytes
write_bytes-inside p bs mem i h = let e : p + i - p ≡ i = omega arith in ground (arith, e)

pub write_bytes-outside :
    (p : ℕ) (bs : List ℕ) (mem : Memory) (a : ℕ)
    → (a < p) ⊎ (p + length bs ≤ a)
    → write_bytes p bs mem a ≡ mem a
unfolding write_bytes
write_bytes-outside p bs mem a (inl h) = ground arith
write_bytes-outside p bs mem a (inr h) = ground arith

pub name_at_ext :
    (p : ℕ) (mem mem' : Memory)
    → ((a : ℕ) → p ≤ a → a < p + 11 → mem' a ≡ mem a)
    → name_at p mem' ≡ name_at p mem
unfolding name_at
name_at_ext p mem mem' same = bytes_at_ext 11 p mem mem' same

pub cluster_at_ext :
    (p : ℕ) (mem mem' : Memory)
    → ((a : ℕ) → p ≤ a → a < p + 32 → mem' a ≡ mem a)
    → cluster_at p mem' ≡ cluster_at p mem
unfolding cluster_at
cluster_at_ext p mem mem' same = omega (
  arith,
  same (p + 20) (omega arith) (omega arith),
  same (p + 21) (omega arith) (omega arith),
  same (p + 26) (omega arith) (omega arith),
  same (p + 27) (omega arith) (omega arith),
)

-- The entry that was written at `p` is read there, whatever is around it.
module _ (name : List ℕ) (attributes cluster size p : ℕ) (mem : Memory)
    (named : length name ≡ 11) where
  abbrev entry_bytes : List ℕ
  entry_bytes = dir_entry_bytes (new_entry name attributes cluster size)

  abbrev tail : List ℕ
  tail =
      attributes
      ∷ 0
      ∷ 0
      ∷ 0
      ∷ 0
      ∷ 0
      ∷ 0
      ∷ 0
      ∷ 0
      ∷ (le_bytes 2 (cluster / 2 ^ 16)
          ++ 0 ∷ 0 ∷ 0 ∷ 0 ∷ (le_bytes 2 (cluster % 2 ^ 16) ++ le_bytes 4 size))

  entry_bytes_lem : entry_bytes ≡ name ++ tail
  unfolding dir_entry_bytes
  entry_bytes_lem = refl

  pub length-dir_entry_bytes : length entry_bytes ≡ 32
  length-dir_entry_bytes = rw entry_bytes_lem (omega (arith, length-append {0} name tail, named))

  after_name : (i : ℕ) → i < 21 → write_bytes p entry_bytes mem (p + (11 + i)) ≡ get_or tail i 0
  after_name i h =
      write_bytes-inside p entry_bytes mem (11 + i) (omega (arith, length-dir_entry_bytes))
      ∙ ap (λ (bs : List ℕ). get_or bs (11 + i) 0) entry_bytes_lem
      ∙ ap (λ (n : ℕ). get_or (name ++ tail) (n + i) 0) (sym named)
      ∙ get_or-append_right name tail i

  pub name_at-write_bytes : name_at p (write_bytes p entry_bytes mem) ≡ name
  unfolding name_at
  name_at-write_bytes =
      subst (λ n. bytes_at n p (write_bytes p entry_bytes mem) ≡ name) named
        (bytes_at-get_or name p (write_bytes p entry_bytes mem) (λ i h.
          write_bytes-inside p entry_bytes mem i (omega (arith, length-dir_entry_bytes))
          ∙ ap (λ (bs : List ℕ). get_or bs i 0) entry_bytes_lem
          ∙ get_or-append_left name tail i h))

  pub cluster_at-write_bytes :
      cluster < 2 ^ 32 → cluster_at p (write_bytes p entry_bytes mem) ≡ cluster
  unfolding cluster_at
  cluster_at-write_bytes h = omega (
    arith,
    after_name 9 (omega arith),
    after_name 10 (omega arith),
    after_name 15 (omega arith),
    after_name 16 (omega arith),
  )
