-- ===== src/Shared/Text/Equality.antt =====
-- `stringEquals` of string.h is equality.
use homegrown.Prelude.{◌≡◌, ◌↔◌, refl, true, [], ◌∷◌, length, arith}
use homegrown.Shared.Text.{String, same_bytes, string_equals}

same_bytes_sound : (a b : String) → length a ≡ length b → same_bytes a b ≡ true → a ≡ b
unfolding same_bytes
same_bytes_sound [] [] n h = refl
same_bytes_sound [] (y ∷ b) n h = absurd (omega (arith, n))
same_bytes_sound (x ∷ a) [] n h = absurd (omega (arith, n))
same_bytes_sound (x ∷ a) (y ∷ b) n h = ground (arith, same_bytes_sound a b)

same_bytes_refl : (a : String) → same_bytes a a ≡ true
unfolding same_bytes
same_bytes_refl [] = refl
same_bytes_refl (x ∷ a) = ground (arith, same_bytes_refl a)

string_equals_sound : (a b : String) → string_equals a b ≡ true → a ≡ b
unfolding string_equals
string_equals_sound [] [] h = refl
string_equals_sound [] (y ∷ b) h = ground arith
string_equals_sound (x ∷ a) [] h = ground arith
string_equals_sound (x ∷ a) (y ∷ b) h =
    same_bytes_sound (x ∷ a) (y ∷ b) (ground arith) (ground arith)

string_equals_self : (a : String) → string_equals a a ≡ true
unfolding string_equals
string_equals_self a = ground (arith, same_bytes_refl a)

pub string_equals_iff : (a b : String) → (string_equals a b ≡ true) ↔ (a ≡ b)
string_equals_iff a b = (string_equals_sound a b, λ e. rw (← e) (string_equals_self a))
