-- ===== src/Firewall/Ports.antt =====
-- internal/modules/v2/firewall/service.go: the errors, and the port specifications.
pub mod Laws
use serveo_api_golang.Prelude.{
  ℕ, ◌≤◌, Bool, true, false, ◌&&◌, ◌||◌, Option, none, some, [], ◌∷◌, ◌++◌, if◌then◌else◌, leb, ltb,
  length, all,
}
use serveo_api_golang.Text.{Str, codes, trim_space, cut}
use serveo_api_golang.Text.Number.{
  ℤ, Atoi, pos, num, leb_ℤ, pos_part, atoi, atoi_value, is_digit, format_uint,
}

-- ErrUFWNotInstalled, ErrProtectedRule, ErrWouldLockout, and errors that are a text
pub data Failure : Type 0 where
  not_installed protected_rule would_lockout : Failure
  other : Str → Failure

pub data Result (A : Type 0) : Type 0 where
  ok : A → Result A
  err : Failure → Result A

-- `err != nil` returns at once
infixl 5 ◌>>=◌
abbrev pub ◌>>=◌ : {A B : Type 0} → Result A → (A → Result B) → Result B
ok a >>= f = f a
err e >>= f = err e

abbrev both_ends : Atoi → Atoi → ℤ → Bool
both_ends (num start) (num end) target = leb_ℤ start target && leb_ℤ target end
both_ends _ _ target = false

-- portRangeContains
unfoldable pub port_range_contains : Str → ℤ → Bool
port_range_contains spec target =
    let s = trim_space spec in
    elim (cut s b':') [
      | none ↦ both_ends (atoi s) (atoi s) target
      | some (low, high) ↦ both_ends (atoi low) (atoi high) target
    ]

-- \d{1,5}
unfoldable pub is_short_number : Str → Bool
is_short_number s = leb 1 (length s) && leb (length s) 5 && all is_digit s

-- portSpecRe: one number, or two with a colon between them
unfoldable pub is_port_spec : Str → Bool
is_port_spec s = elim (cut s b':') [
  | none ↦ is_short_number s
  | some (low, high) ↦ is_short_number low && is_short_number high
]

-- one round of the loop in validatePort
unfoldable pub port_number : Str → Result ℕ
port_number p =
    let n = pos_part (atoi_value (atoi p)) in
    if ltb n 1 || ltb 65535 n
    then err (other (codes "port " ++ format_uint n ++ codes " is out of range (1-65535)"))
    else ok n

abbrev ordered : Str → ℕ → ℕ → Result Str
ordered port low high =
    if ltb high low then err (other (codes "invalid port range: " ++ port)) else ok port

-- validatePort
unfoldable pub validate_port : Str → Result Str
validate_port spec =
    let port = trim_space spec in
    if is_port_spec port
    then elim (cut port b':') [
      | none ↦ do n ← port_number port; ok port
      | some (low, high) ↦ do m ← port_number low; n ← port_number high; ordered port m n
    ]
    else err (other (codes "port must be a number (1-65535) or a range like 8000:9000"))
