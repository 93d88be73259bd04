-- ===== src/Firewall/Lockout.antt =====
-- When Enable turns the firewall on, and which rules DeleteRule takes away.
use serveo_api_golang.Prelude.{
  ℕ, ◌<◌, ◌≡◌, ◌⊎◌, sym, ap, ◌∙◌, true, false, ◌&&◌, Option, none, some, List, [], ◌∷◌, arith,
  Bool-cases, inl, inr, Some, here, there, if◌then◌else◌,
}
use serveo_api_golang.Text.{Str}
use serveo_api_golang.Text.Number.{pos}
use serveo_api_golang.Firewall.Ports.{ok}
use serveo_api_golang.Firewall.Ports.Laws.{Result-cases}
use serveo_api_golang.Firewall.Status.{
  Rule, StatusResponse, rule_is_allow, rule_covers_port, has_allow_rule_for,
}
use serveo_api_golang.Firewall.Covers.{Covers, Covers-rule_covers_port}
use serveo_api_golang.Firewall.{
  Exec, is_blocking, if_positive, api_port, status, default_incoming_policy, has_access, enable,
  protects, is_number, is_protected, delete_rule,
}

-- A rule of the status lets the port in, as the service reads it.
abbrev pub Admits : List Rule → ℕ → Type 0
Admits rules port =
    Some (λ r. (rule_is_allow r.action ≡ true) × (rule_covers_port r.to (pos port) ≡ true)) rules

allow_rule_sound :
    (rules : List Rule) (port : ℕ) → has_allow_rule_for rules (pos port) ≡ true → Admits rules port
unfolding has_allow_rule_for
allow_rule_sound [] port h = absurd (ground arith)
allow_rule_sound (r ∷ rules) port h =
    elim (Bool-cases (rule_is_allow r.action && rule_covers_port r.to (pos port))) [
      | inl found ↦ here (ground arith, ground arith)
      | inr other ↦ there (allow_rule_sound rules port (ground arith))
    ]

-- The accesses that Enable looks for.
pub record HasAccess (config_port : Str) (rules : List Rule) : Type 0 where
  pub ssh : Admits rules 22
  pub api : (n : ℕ) → api_port config_port ≡ pos n → 0 < n → Admits rules n

has_access_api :
    (config_port : Str) (rules : List Rule) (n : ℕ)
    → has_access config_port rules ≡ true
    → api_port config_port ≡ pos n
    → 0 < n
    → has_allow_rule_for rules (pos n) ≡ true
unfolding has_access if_positive
has_access_api config_port rules n h e positive = ground arith

has_access_ssh :
    (config_port : Str) (rules : List Rule)
    → has_access config_port rules ≡ true
    → has_allow_rule_for rules (pos 22) ≡ true
unfolding has_access
has_access_ssh config_port rules h = ground arith

has_access_sound :
    (config_port : Str) (rules : List Rule)
    → has_access config_port rules ≡ true
    → HasAccess config_port rules
has_access_sound config_port rules h = record {
  ssh = allow_rule_sound rules 22 (has_access_ssh config_port rules h);
  api = λ n e positive. allow_rule_sound rules n (has_access_api config_port rules n h e positive);
}

-- The first rule of the list with the number.
abbrev pub numbered : ℕ → List Rule → Option Rule
numbered n [] = none
numbered n (r ∷ rules) = if is_number n r.number then some r else numbered n rules

is_protected-numbered :
    (config_port : Str) (n : ℕ) (rules : List Rule) (rule : Rule)
    → numbered n rules ≡ some rule
    → is_protected config_port n rules ≡ protects config_port rule
unfolding is_protected
is_protected-numbered config_port n [] rule e = absurd (ground arith)
is_protected-numbered config_port n (r ∷ rules) rule e = elim (Bool-cases (is_number n r.number)) [
  | inl this ↦ let same : r ≡ rule = ground arith in rw this (ap (protects config_port) same)
  | inr other ↦ rw other (is_protected-numbered config_port n rules rule (rw other at e))
]

-- The rule's text names neither 22 nor the positive port of the API.
pub record IsRemovable (config_port : Str) (rule : Rule) : Type 0 where
  pub not_ssh : ¬ Covers rule.to 22
  pub not_api : (n : ℕ) → api_port config_port ≡ pos n → 0 < n → ¬ Covers rule.to n

not_api_of :
    (config_port : Str) (rule : Rule) (n : ℕ)
    → protects config_port rule ≡ false
    → api_port config_port ≡ pos n
    → 0 < n
    → rule_covers_port rule.to (pos n) ≡ false
unfolding protects if_positive
not_api_of config_port rule n h e positive = ground arith

not_Covers : (to : Str) (n : ℕ) → rule_covers_port to (pos n) ≡ false → ¬ Covers to n
not_Covers to n h covers = ground (arith, h, Covers-rule_covers_port to n covers)

IsRemovable-of :
    (config_port : Str) (rule : Rule)
    → protects config_port rule ≡ false
    → IsRemovable config_port rule
unfolding protects
IsRemovable-of config_port rule h = record {
  not_ssh = not_Covers rule.to 22 (ground arith);
  not_api = λ n e positive. not_Covers rule.to n (not_api_of config_port rule n h e positive);
}

module _ {W : Type 0} (ufw : List Str → W → W × Exec) where
  abbrev pub MayEnable : Str → StatusResponse → W → Type 0
  MayEnable config_port s w =
      (s.active ≡ true)
      ⊎ ((policy : Str) × ((default_incoming_policy ufw w).1 ≡ ok policy)
          × ((is_blocking policy ≡ false) ⊎ HasAccess config_port s.rules))

  -- If Enable succeeds, then the status was read, and the firewall was active already, or the
  -- policy for incoming traffic was read and is neither deny nor reject, or there are rules that
  -- the service reads as allowing 22 and, where it is positive, the port of the API.
  pub enable-MayEnable :
      (config_port out : Str) (w w' : W)
      → enable ufw config_port w ≡ (w', ok out)
      → (s : StatusResponse) × ((status ufw w).1 ≡ ok s) × MayEnable config_port s (status ufw w).0
  unfolding enable
  enable-MayEnable config_port out w w' e = elim (Result-cases (status ufw w).1) [
    | inr (f, failed) ↦ absurd (ground arith)
    | inl (s, read) ↦ elim (Bool-cases s.active) [
      | inl active ↦ (s, read, inl active)
      | inr inactive ↦ elim (Result-cases (default_incoming_policy ufw (status ufw w).0).1) [
        | inr (f, failed) ↦ absurd (ground arith)
        | inl (policy, known) ↦ elim (Bool-cases (is_blocking policy)) [
          | inr harmless ↦ (s, read, inr (policy, known, inl harmless))
          | inl blocking ↦ elim (Bool-cases (has_access config_port s.rules)) [
            | inl access ↦
                (s, read, inr (policy, known, inr (has_access_sound config_port s.rules access)))
            | inr none_there ↦ absurd (ground arith)
          ]
        ]
      ]
    ]
  ]

  -- If DeleteRule succeeds, then the status was read, and the text of the first rule there with the
  -- number, if there is one, names neither 22 nor, where it is positive, the port of the API: it is
  -- neither the port in decimal nor a range "low:high" with the port in it, of numbers below 2^63,
  -- alone or with "/tcp" or "/udp" behind it and then alone or with " (v6)" behind it; and it is
  -- neither "OpenSSH" nor "OpenSSH (v6)".
  pub delete_rule-IsRemovable :
      (config_port out : Str) (number : ℕ) (w w' : W)
      → delete_rule ufw config_port number w ≡ (w', ok out)
      → (s : StatusResponse) × ((status ufw w).1 ≡ ok s)
        × ((rule : Rule) → numbered number s.rules ≡ some rule → IsRemovable config_port rule)
  unfolding delete_rule
  delete_rule-IsRemovable config_port out number w w' e = elim (Result-cases (status ufw w).1) [
    | inr (f, failed) ↦ absurd (ground arith)
    | inl (s, read) ↦ elim (Bool-cases (is_protected config_port number s.rules)) [
      | inl guarded ↦ absurd (ground arith)
      | inr free ↦ (
        s,
        read,
        λ rule found.
            IsRemovable-of config_port rule
              (sym (is_protected-numbered config_port number s.rules rule found) ∙ free),
      )
    ]
  ]
