-- ===== src/Shared/Text/Tokens.antt =====
-- Splitting a string at a token.
use homegrown.Prelude.{
  ℕ, zero, suc, ◌+◌, ◌-◌, ◌≤◌, ◌<◌, ◌≡◌, ◌∙◌, ◌⊎◌, refl, sym, ap, false, some, List, [], ◌∷◌, ◌++◌,
  ltb, ◌==◌, length, drop, inl, inr, arith, Bool-cases,
}
use homegrown.Shared.Text.{
  String, contains_char, bytes_before, split_string, tokenize_from, tokenize_string,
}

-- The parts, each with the token behind it.
abbrev pub join : List String → ℕ → String
join [] token = []
join (part ∷ parts) token = part ++ token ∷ join parts token

abbrev pub NoneContain : List String → ℕ → Type 0
NoneContain [] token = Unit
NoneContain (part ∷ parts) token = (contains_char part token ≡ false) × NoneContain parts token

bytes_before-contains_char :
    (s : String) (token : ℕ) → contains_char (bytes_before s token) token ≡ false
unfolding bytes_before contains_char
bytes_before-contains_char [] token = refl
bytes_before-contains_char (c ∷ s) token = elim (Bool-cases (c == token)) [
  | inl stop ↦ rw stop refl
  | inr more ↦ rw (more, more) (bytes_before-contains_char s token)
]

-- Either no token is left, or the string goes on behind one.
bytes_before_split :
    (s : String) (token : ℕ)
    → (bytes_before s token ≡ s)
      ⊎ (s ≡ bytes_before s token ++ token ∷ drop (length (bytes_before s token) + 1) s)
unfolding bytes_before
bytes_before_split [] token = inl refl
bytes_before_split (c ∷ s) token = elim (Bool-cases (c == token)) [
  | inl stop ↦ let e : c ≡ token = ground arith in rw stop (inr (ap (λ (t : ℕ). t ∷ s) e))
  | inr more ↦ rw more (elim (bytes_before_split s token) [
    | inl whole ↦ inl (ap (λ (t : String). c ∷ t) whole)
    | inr split ↦
        let e : suc (length (bytes_before s token)) + 1 ≡ suc (length (bytes_before s token) + 1) =
          omega arith in
        inr (rw e (ap (λ (t : String). c ∷ t) split))
  ])
]

drop_none : (n : ℕ) → drop {A = ℕ} n [] ≡ []
drop_none zero = refl
drop_none (suc n) = refl

drop_all : (n : ℕ) (s : String) → length s ≤ n → drop n s ≡ []
drop_all n [] h = drop_none n
drop_all zero (c ∷ s) h = absurd (omega arith)
drop_all (suc n) (c ∷ s) h = drop_all n s (omega arith)

append_assoc : (r s t : String) → (r ++ s) ++ t ≡ r ++ (s ++ t)
append_assoc [] s t = refl
append_assoc (c ∷ r) s t = ap (λ (x : String). c ∷ x) (append_assoc r s t)

drop-drop : (m n : ℕ) (s : String) → drop (m + n) s ≡ drop n (drop m s)
drop-drop zero n s = let e : 0 + n ≡ n = omega arith in rw e refl
drop-drop (suc m) n [] = drop_none (suc m + n) ∙ sym (drop_none n)
drop-drop (suc m) n (c ∷ s) =
    let e : suc m + n ≡ suc (m + n) = omega arith in rw e (drop-drop m n s)

length-drop : (n : ℕ) (s : String) → length (drop n s) ≡ length s - n
length-drop zero s = omega arith
length-drop (suc n) [] = omega arith
length-drop (suc n) (c ∷ s) = omega (arith, length-drop n s)

-- What the parts from a position on come to.
pub record IsSplit (s : String) (token : ℕ) (pos : ℕ) (parts : List String) : Type 0 where
  pub none_contain : NoneContain parts token
  pub finished : length s ≤ pos → parts ≡ []
  pub joined : (join parts token ≡ drop pos s) ⊎ (join parts token ≡ drop pos s ++ token ∷ [])

-- One more part in front.
module _ (s : String) (token pos : ℕ) (parts : List String) (inside : pos < length s)
    (h : IsSplit s token (pos + (length (bytes_before (drop pos s) token) + 1)) parts) where
  abbrev rest : String
  rest = drop pos s

  abbrev part : String
  part = bytes_before rest token

  after : drop (pos + (length part + 1)) s ≡ drop (length part + 1) rest
  after = drop-drop pos (length part + 1) s

  joins : (join (part ∷ parts) token ≡ rest) ⊎ (join (part ∷ parts) token ≡ rest ++ token ∷ [])
  joins = elim (bytes_before_split rest token) [
    | inl whole ↦
        let all : length part ≡ length rest = ap length whole in
        let done : parts ≡ [] = h.finished (omega (arith, length-drop pos s)) in
        inr (rw done (ap (λ (t : String). t ++ token ∷ []) whole))
    | inr split ↦ elim h.joined [
      | inl exact ↦ inl (ap (λ (t : String). part ++ token ∷ t) (exact ∙ after) ∙ sym split)
      | inr one_more ↦ inr (
          ap (λ (t : String). part ++ token ∷ t)
            (one_more ∙ ap (λ (t : String). t ++ token ∷ []) after)
          ∙ sym (append_assoc part (token ∷ drop (length part + 1) rest) (token ∷ []))
          ∙ ap (λ (t : String). t ++ token ∷ []) (sym split))
    ]
  ]

  cons-IsSplit : IsSplit s token pos (part ∷ parts)
  cons-IsSplit = record {
    none_contain = (bytes_before-contains_char rest token, h.none_contain);
    finished = λ past. absurd (omega arith);
    joined = joins;
  }

tokenize_from-IsSplit :
    (fuel : ℕ) (s : String) (token pos : ℕ)
    → 1 ≤ fuel
    → length s < pos + fuel
    → (parts : List String) × (tokenize_from fuel s token pos ≡ some parts)
      × IsSplit s token pos parts
unfolding tokenize_from split_string
tokenize_from-IsSplit zero s token pos some_fuel enough = absurd (omega arith)
tokenize_from-IsSplit (suc fuel) s token pos some_fuel enough =
    elim (Bool-cases (ltb pos (length s))) [
      | inr past ↦ (
        [],
        rw past refl,
        record {
          none_contain = tt;
          finished = λ h. refl;
          joined = inl (sym (drop_all pos s (ground arith)));
        },
      )
      | inl inside ↦
          let part = bytes_before (drop pos s) token in
          let within : pos < length s = ground arith in
          let (parts, run, split) =
            tokenize_from-IsSplit fuel s token (pos + (length part + 1)) (omega arith)
              (omega arith) in
          (part ∷ parts, rw (inside, run) refl, cons-IsSplit s token pos parts within split)
    ]

-- The loop over the parts of a string ends; no part holds the token, and the parts, each with a
-- token behind it, make up the string, or the string with one more token at its end.
pub tokenize_string-join :
    (s : String) (token : ℕ)
    → (parts : List String) × (tokenize_string s token ≡ some parts)
      × NoneContain parts token
      × ((join parts token ≡ s) ⊎ (join parts token ≡ s ++ token ∷ []))
unfolding tokenize_string
tokenize_string-join s token =
    let (parts, run, split) =
      tokenize_from-IsSplit (suc (length s)) s token 0 (omega arith) (omega arith) in
    (parts, run, split.none_contain, split.joined)
