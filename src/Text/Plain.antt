-- ===== src/Text/Plain.antt =====
-- What TrimSpace, ToLower and Atoi make of digits and of lower-case letters.
use serveo_api_golang.Prelude.{
  ℕ, ◌+◌, ◌<◌, ◌^◌, ◌≡◌, ◌≢◌, refl, Bool, true, not, ◌&&◌, some, [], ◌∷◌, arith, all, leb, ltb,
  Bool-cases, inl, inr, ◌-◌, ◌*◌,
}
use serveo_api_golang.Text.{Str, to_lower, lower_ascii}
use serveo_api_golang.Text.Number.{is_digit, digits, digits_from, atoi, num, pos}

-- an ASCII character that is no capital letter
unfoldable pub is_small : ℕ → Bool
is_small c = ltb c 128 && not (leb b'A' c && leb c b'Z')

pub to_lower_small : (s : Str) → all is_small s ≡ true → to_lower s ≡ s
unfolding to_lower lower_ascii is_small
to_lower_small [] h = refl
to_lower_small (a ∷ []) h = ground arith
to_lower_small (a ∷ b ∷ []) h = ground (arith, to_lower_small (b ∷ []))
to_lower_small (a ∷ b ∷ c ∷ s) h = ground (arith, to_lower_small (b ∷ c ∷ s))

digits_from-all : (s : Str) (acc n : ℕ) → digits_from acc s ≡ some n → all is_digit s ≡ true
unfolding digits_from
digits_from-all [] acc n e = refl
digits_from-all (c ∷ s) acc n e = elim (Bool-cases (is_digit c)) [
  | inl digit ↦ ground (arith, digits_from-all s (acc * 10 + (c - b'0')) n (ground arith))
  | inr other ↦ absurd (ground arith)
]

-- A decimal number is made of digits, and Atoi reads it if it is below 2^63.
pub digits-all : (s : Str) (n : ℕ) → digits s ≡ some n → all is_digit s ≡ true
unfolding digits
digits-all [] n e = refl
digits-all (c ∷ s) n e = digits_from-all (c ∷ s) 0 n e

pub digits-nonempty : (s : Str) (n : ℕ) → digits s ≡ some n → s ≢ []
unfolding digits
digits-nonempty [] n e q = absurd (ground arith)
digits-nonempty (c ∷ s) n e q = cc

pub atoi-digits : (s : Str) (n : ℕ) → digits s ≡ some n → n < 2 ^ 63 → atoi s ≡ num (pos n)
unfolding atoi is_digit
atoi-digits [] n e h = absurd (digits-nonempty [] n e refl)
atoi-digits (c ∷ s) n e h = let all_digits = digits-all (c ∷ s) n e in ground arith
