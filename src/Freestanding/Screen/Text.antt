-- ===== src/Freestanding/Screen/Text.antt =====
-- The ring of characters that `flushToScreen` fills.
use homegrown.Prelude.{
  ℕ, zero, suc, ◌+◌, ◌-◌, ◌%◌, ◌^◌, ◌≤◌, ◌<◌, ◌≡◌, ◌∙◌, refl, ap, arith, List, [], ◌∷◌, length,
  get_or, bit_and_mask, Bool-cases, inl, inr, ==_iff, u32, u64, min,
}
use homegrown.Shared.Maths.{ring_increment, ring_range_value}
use homegrown.Freestanding.Screen.{
  Terminal, put, start_line, put_char, put_chars, drop, flush_chars, file_buf_len,
}
use homegrown.Freestanding.Screen.Fill.{char_at}

-- The next character goes to the slot of its index in the text.
abbrev pub IsAtEnd : Terminal → Type 0
IsAtEnd t = t.next_char_in_buf ≡ t.char_count % 65536

char_at_lem : (t : Terminal) (i : ℕ) → char_at t i ≡ t.buf (i % 65536)
unfolding char_at ring_range_value
char_at_lem t i = ap t.buf (bit_and_mask 16 i)

next_lem : (n : ℕ) → n < 65536 → u32 (ring_increment n file_buf_len) ≡ (n + 1) % 65536
unfolding ring_increment
next_lem n small = ap u32 (bit_and_mask 16 (u64 (n + 1))) ∙ omega arith

start_line-text :
    (t : Terminal) → ((start_line t).buf ≡ t.buf) × ((start_line t).char_count ≡ t.char_count)
unfolding start_line
start_line-text t = elim (Bool-cases t.logical_newline) [
  | inl e ↦ (rw e refl, rw e refl)
  | inr e ↦ (rw e refl, rw e refl)
]

module _ (ch : ℕ) (t : Terminal) where
  put_char-buf : (put_char ch t).buf ≡ put t.next_char_in_buf ch t.buf
  unfolding put_char
  put_char-buf = (start_line-text (record t { buf = put t.next_char_in_buf ch t.buf })).0

  put_char-count : t.char_count + 1 < 2 ^ 64 → (put_char ch t).char_count ≡ t.char_count + 1
  unfolding put_char
  put_char-count h = omega (arith, h)

  put_char-next :
      (put_char ch t).next_char_in_buf ≡ u32 (ring_increment t.next_char_in_buf file_buf_len)
  unfolding put_char
  put_char-next = refl

  put_char-IsAtEnd : IsAtEnd t → t.char_count + 1 < 2 ^ 64 → IsAtEnd (put_char ch t)
  put_char-IsAtEnd at h =
      put_char-next
      ∙ next_lem t.next_char_in_buf (omega (arith, at))
      ∙ omega (arith, at, put_char-count h)

put_other :
    (a b ch : ℕ) (buf : ℕ → ℕ)
    → b < a
    → a < b + 65536
    → put (a % 65536) ch buf (b % 65536) ≡ buf (b % 65536)
put_other a b ch buf before near = ground arith

-- What was written is kept until the ring is around.
put_chars_kept :
    (chars : List ℕ) (t : Terminal) (j : ℕ)
    → IsAtEnd t
    → t.char_count + length chars < 2 ^ 64
    → j < t.char_count
    → t.char_count + length chars ≤ j + 65536
    → (put_chars chars t).buf (j % 65536) ≡ t.buf (j % 65536)
unfolding put_chars
put_chars_kept [] t j at small before near = refl
put_chars_kept (ch ∷ chars) t j at small before near =
    let count = put_char-count ch t (omega (arith, small)) in
    put_chars_kept chars (put_char ch t) j (put_char-IsAtEnd ch t at (omega (arith, small)))
      (omega (arith, count, small)) (omega (arith, count, before)) (omega (arith, count, near))
    ∙ ap (λ (b : ℕ → ℕ). b (j % 65536)) (put_char-buf ch t)
    ∙ ap (λ (n : ℕ). put n ch t.buf (j % 65536)) at
    ∙ put_other t.char_count j ch t.buf before (omega (arith, near))

-- The characters that are written one after another are found by their index in the text.
put_chars_read :
    (chars : List ℕ) (t : Terminal) (i : ℕ)
    → IsAtEnd t
    → t.char_count + length chars < 2 ^ 64
    → length chars ≤ 65536
    → i < length chars
    → (put_chars chars t).buf ((t.char_count + i) % 65536) ≡ get_or chars i 0
unfolding put_chars
put_chars_read [] t i at small few inside = absurd (omega (arith, inside))
put_chars_read (ch ∷ chars) t zero at small few inside =
    let count = put_char-count ch t (omega (arith, small)) in
    let here : t.char_count + 0 ≡ t.char_count = omega arith in
    ap (λ (n : ℕ). (put_chars chars (put_char ch t)).buf (n % 65536)) here
    ∙ put_chars_kept chars (put_char ch t) t.char_count
        (put_char-IsAtEnd ch t at (omega (arith, small))) (omega (arith, count, small))
        (omega (arith, count)) (omega (arith, count, few))
    ∙ ap (λ (b : ℕ → ℕ). b (t.char_count % 65536)) (put_char-buf ch t)
    ∙ ap (λ (n : ℕ). put n ch t.buf (t.char_count % 65536)) at
    ∙ rw ((==_iff (t.char_count % 65536) (t.char_count % 65536)).1 refl) refl
put_chars_read (ch ∷ chars) t (suc i) at small few inside =
    let count = put_char-count ch t (omega (arith, small)) in
    let there : t.char_count + suc i ≡ (put_char ch t).char_count + i = omega (arith, count) in
    ap (λ (n : ℕ). (put_chars chars (put_char ch t)).buf (n % 65536)) there
    ∙ put_chars_read chars (put_char ch t) i (put_char-IsAtEnd ch t at (omega (arith, small)))
        (omega (arith, count, small)) (omega (arith, few)) (omega (arith, inside))

length-drop : (n : ℕ) (xs : List ℕ) → length (drop n xs) ≡ length xs - n
unfolding drop
length-drop zero xs = omega arith
length-drop (suc n) [] = omega arith
length-drop (suc n) (x ∷ xs) = length-drop n xs ∙ omega arith

get_or-drop : (n : ℕ) (xs : List ℕ) (i : ℕ) → get_or (drop n xs) i 0 ≡ get_or xs (n + i) 0
unfolding drop
get_or-drop zero xs i = let e : i ≡ 0 + i = omega arith in ap (λ (k : ℕ). get_or xs k 0) e
get_or-drop (suc n) [] i = refl
get_or-drop (suc n) (x ∷ xs) i =
    let e : suc (n + i) ≡ suc n + i = omega arith in
    get_or-drop n xs i ∙ ap (λ (k : ℕ). get_or (x ∷ xs) k 0) e

-- After a text was put on the screen, each of its last 65536 characters is read at its index, if
-- the next character went to the slot of its index before, and the count of characters does not
-- wrap around.
pub flush_chars-char_at :
    (buffer : List ℕ) (t : Terminal) (i : ℕ)
    → IsAtEnd t
    → t.char_count + length buffer < 2 ^ 64
    → i < min (length buffer) 65536
    → char_at (flush_chars buffer t) (t.char_count + i)
      ≡ get_or buffer (length buffer - 65536 + i) 0
unfolding flush_chars
flush_chars-char_at buffer t i at small inside =
    let skipped = length buffer - 65536 in
    let left = length-drop skipped buffer in
    char_at_lem (flush_chars buffer t) (t.char_count + i)
    ∙ put_chars_read (drop skipped buffer) t i at (omega (arith, left, small)) (omega (arith, left))
        (omega (arith, left, inside))
    ∙ get_or-drop skipped buffer i
