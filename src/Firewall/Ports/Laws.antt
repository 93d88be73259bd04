-- ===== src/Firewall/Ports/Laws.antt =====
-- What validatePort accepts, and that portRangeContains reads it as the range that it spells.
use mathlib.Core.List.{reverse_aux}
use serveo_api_golang.Prelude.{
  ℕ, ◌≤◌, ◌≡◌, ◌⊎◌, refl, Bool, true, ◌&&◌, ◌||◌, none, some, [], ◌∷◌, ◌++◌, reverse, arith, inl,
  inr, all, ltb, leb,
}
use serveo_api_golang.Text.{Str, trim_space, trim_space_plain, starts_plain, is_plain, cut}
use serveo_api_golang.Text.Number.{Atoi, num, pos, atoi, is_digit}
use serveo_api_golang.Firewall.Ports.{Failure, Result, ok, err, port_range_contains}

pub all-append :
    (p : ℕ → Bool) (xs ys : Str) → all p xs ≡ true → all p ys ≡ true → all p (xs ++ ys) ≡ true
all-append p [] ys h k = k
all-append p (x ∷ xs) ys h k = ground (arith, all-append p xs ys)

pub all-reverse_aux :
    (p : ℕ → Bool) (xs ys : Str)
    → all p xs ≡ true
    → all p ys ≡ true
    → all p (reverse_aux xs ys) ≡ true
all-reverse_aux p [] ys h k = k
all-reverse_aux p (x ∷ xs) ys h k = all-reverse_aux p xs (x ∷ ys) (ground arith) (ground arith)

pub all_plain_of_digits : (s : Str) → all is_digit s ≡ true → all is_plain s ≡ true
unfolding is_digit is_plain
all_plain_of_digits [] h = refl
all_plain_of_digits (c ∷ s) h = ground (arith, all_plain_of_digits s)

starts_of_all : (s : Str) → all is_plain s ≡ true → starts_plain s ≡ true
starts_of_all [] h = refl
starts_of_all (c ∷ s) h = ground arith

pub trim_space_of_all : (s : Str) → all is_plain s ≡ true → trim_space s ≡ s
trim_space_of_all s h =
    trim_space_plain s (starts_of_all s h)
      (starts_of_all (reverse s) (all-reverse_aux is_plain s [] h refl))

pub colon_plain : is_plain b':' ≡ true
unfolding is_plain
colon_plain = refl

abbrev InRange : ℕ → Atoi → Type 0
InRange n a = (a ≡ num (pos n)) × (1 ≤ n) × (n ≤ 65535)

abbrev checked : ℕ → Bool
checked n = ltb n 1 || ltb 65535 n

pub Result-cases :
    {A : Type 0} (r : Result A) → ((a : A) × (r ≡ ok a)) ⊎ ((e : Failure) × (r ≡ err e))
Result-cases (ok a) = inl (a, refl)
Result-cases (err e) = inr (e, refl)

-- The text is one port or a range of ports from `low` to `high`.
pub record Spells (port : Str) (low high : ℕ) : Type 0 where
  pub positive : 1 ≤ low
  pub ordered : low ≤ high
  pub small : high ≤ 65535
  pub holds :
      (target : ℕ) → port_range_contains port (pos target) ≡ (leb low target && leb target high)

pub contains_one :
    (port : Str) (n target : ℕ)
    → trim_space port ≡ port
    → cut port b':' ≡ none
    → atoi port ≡ num (pos n)
    → port_range_contains port (pos target) ≡ (leb n target && leb target n)
unfolding port_range_contains
contains_one port n target trimmed whole parsed = ground arith

pub contains_two :
    (port low high : Str) (m n target : ℕ)
    → trim_space port ≡ port
    → cut port b':' ≡ some (low, high)
    → atoi low ≡ num (pos m)
    → atoi high ≡ num (pos n)
    → port_range_contains port (pos target) ≡ (leb m target && leb target n)
unfolding port_range_contains
contains_two port low high m n target trimmed parts is_m is_n = ground arith
