-- ===== src/Text/Number.antt =====
-- strconv.Atoi, ParseUint and FormatUint over an int of 64 bits.
use serveo_api_golang.Prelude.{
  ℕ, zero, suc, ◌+◌, ◌-◌, ◌*◌, ◌/◌, ◌%◌, ◌^◌, ◌<◌, ◌≤◌, ◌≡◌, ◌≢◌, ◌∙◌, ap, refl, Bool, ◌&&◌, Option,
  none, some, [], ◌∷◌, ◌++◌, arith, ◌==◌, ltb, leb, if◌then◌else◌, Bool-cases, ◌⊎◌, inl, inr,
}
use serveo_api_golang.Text.Bytes.{Str}

-- A Go int.
pub data ℤ : Type 0 where
  pos : ℕ → ℤ
  negsuc : ℕ → ℤ

abbrev pub pos_part : ℤ → ℕ
pos_part (pos n) = n
pos_part (negsuc n) = 0

abbrev pub neg_part : ℤ → ℕ
neg_part (pos n) = 0
neg_part (negsuc n) = suc n

abbrev pub leb_ℤ : ℤ → ℤ → Bool
leb_ℤ a b = leb (pos_part a + neg_part b) (pos_part b + neg_part a)

infix 50 ◌≤ℤ◌
abbrev pub ◌≤ℤ◌ : ℤ → ℤ → Type 0
a ≤ℤ b = pos_part a + neg_part b ≤ pos_part b + neg_part a

unfoldable pub is_digit : ℕ → Bool
is_digit c = leb b'0' c && leb c b'9'

-- the value of decimal digits behind those that make `acc`
unfoldable pub digits_from : ℕ → Str → Option ℕ
unfolding is_digit
digits_from acc [] = some acc
digits_from acc (c ∷ s) =
    let rest = digits_from (acc * 10 + (c - b'0')) s in if is_digit c then rest else none

unfoldable pub digits : Str → Option ℕ
unfolding digits_from
digits [] = none
digits (c ∷ s) = digits_from 0 (c ∷ s)

-- What Atoi returns: a number, a syntax error with 0, or a range error with the nearest int.
pub data Atoi : Type 0 where
  num : ℤ → Atoi
  bad_syntax : Atoi
  out_of_range : ℤ → Atoi

abbrev neg : ℕ → ℤ
neg zero = pos 0
neg (suc n) = negsuc n

abbrev unsigned : Option ℕ → Atoi
unsigned none = bad_syntax
unsigned (some n) = if ltb n (2 ^ 63) then num (pos n) else out_of_range (pos (2 ^ 63 - 1))

abbrev negated : Option ℕ → Atoi
negated none = bad_syntax
negated (some n) = if leb n (2 ^ 63) then num (neg n) else out_of_range (negsuc (2 ^ 63 - 1))

unfoldable pub atoi : Str → Atoi
unfolding digits
atoi [] = bad_syntax
atoi (c ∷ s) =
    if c == b'+'
    then unsigned (digits s)
    else if c == b'-'
    then negated (digits s)
    else unsigned (digits (c ∷ s))

-- the first result of Atoi, where the error is dropped
abbrev pub atoi_value : Atoi → ℤ
atoi_value (num n) = n
atoi_value bad_syntax = pos 0
atoi_value (out_of_range n) = n

-- strconv.ParseUint(s, 10, 64)
unfoldable pub parse_uint : Str → Option ℕ
unfolding digits
parse_uint s = elim (digits s) [ none ↦ none | some n ↦ if ltb n (2 ^ 64) then some n else none ]

-- strconv.FormatUint(n, 10); each round takes one digit off
format_fuel : ℕ → ℕ → Str
format_fuel zero n = []
format_fuel (suc f) n =
    let front = format_fuel f (n / 10) in
    if ltb n 10 then (b'0' + n) ∷ [] else front ++ (b'0' + n % 10) ∷ []

unfoldable pub format_uint : ℕ → Str
unfolding format_fuel
format_uint n = format_fuel (suc n) n

digits_from-append :
    (acc : ℕ) (s : Str) (d n : ℕ)
    → d < 10
    → digits_from acc s ≡ some n
    → digits_from acc (s ++ (b'0' + d) ∷ []) ≡ some (n * 10 + d)
unfolding digits_from
digits_from-append acc [] d n h e = ground arith
digits_from-append acc (c ∷ s) d n h e =
    ground (arith, digits_from-append (acc * 10 + (c - b'0')) s d n h)

-- The digits that are written read as the number, and there is at least one.
digits_from-format_fuel : (f n : ℕ) → n < f → digits_from 0 (format_fuel f n) ≡ some n
unfolding format_fuel
digits_from-format_fuel zero n h = absurd (omega arith)
digits_from-format_fuel (suc f) n h = elim (Bool-cases (ltb n 10)) [
  | inl small ↦ rw small (unfold digits_from in ground arith)
  | inr large ↦ rw large (
      digits_from-append 0 (format_fuel f (n / 10)) (n % 10) (n / 10) (omega arith)
        (digits_from-format_fuel f (n / 10) (ground arith))
      ∙ ap some (omega arith))
]

append-ne-nil : (s : Str) (c : ℕ) → s ++ c ∷ [] ≢ []
append-ne-nil [] c e = cc
append-ne-nil (d ∷ s) c e = cc

format-ne-nil : (f n : ℕ) → format_fuel (suc f) n ≢ []
unfolding format_fuel
format-ne-nil f n = elim (Bool-cases (ltb n 10)) [
  | inl small ↦ rw small (λ e. cc)
  | inr large ↦ rw large (append-ne-nil (format_fuel f (n / 10)) (b'0' + n % 10))
]

digits_of_from : (s : Str) (n : ℕ) → s ≢ [] → digits_from 0 s ≡ some n → digits s ≡ some n
unfolding digits
digits_of_from [] n h e = absurd (h refl)
digits_of_from (c ∷ s) n h e = e

pub digits-format_uint : (n : ℕ) → digits (format_uint n) ≡ some n
unfolding format_uint
digits-format_uint n =
    digits_of_from (format_fuel (suc n) n) n (format-ne-nil n n)
      (digits_from-format_fuel (suc n) n (omega arith))

-- A leading zero changes the text and not the number.
pub digits-zero_cons : (s : Str) (n : ℕ) → digits s ≡ some n → digits (b'0' ∷ s) ≡ some n
unfolding digits digits_from
digits-zero_cons [] n e = absurd (ground arith)
digits-zero_cons (c ∷ s) n e = e

unsigned_far : (o : Option ℕ) (z : ℤ) → unsigned o ≡ out_of_range z → z ≡ pos (2 ^ 63 - 1)
unsigned_far none z e = absurd (ground arith)
unsigned_far (some n) z e = ground arith

negated_far : (o : Option ℕ) (z : ℤ) → negated o ≡ out_of_range z → z ≡ negsuc (2 ^ 63 - 1)
negated_far none z e = absurd (ground arith)
negated_far (some n) z e = ground arith

-- A range error comes with the nearest int.
pub atoi-out_of_range :
    (s : Str) (z : ℤ) → atoi s ≡ out_of_range z → (z ≡ pos (2 ^ 63 - 1)) ⊎ (z ≡ negsuc (2 ^ 63 - 1))
unfolding atoi
atoi-out_of_range [] z e = absurd (ground arith)
atoi-out_of_range (c ∷ s) z e = elim (Bool-cases (c == b'+')) [
  | inl plus ↦ inl (unsigned_far (digits s) z (rw plus at e))
  | inr no_plus ↦ elim (Bool-cases (c == b'-')) [
    | inl minus ↦ inr (negated_far (digits s) z (rw (no_plus, minus) at e))
    | inr no_minus ↦ inl (unsigned_far (digits (c ∷ s)) z (rw (no_plus, no_minus) at e))
  ]
]
