-- ===== src/Firewall/Status.antt =====
-- internal/modules/v2/firewall/service.go: the output of `ufw status`, and the rules it lists.
use serveo_api_golang.Prelude.{
  ℕ, suc, Bool, true, false, ◌&&◌, ◌||◌, Option, none, some, List, [], ◌∷◌, ◌++◌, if◌then◌else◌,
  ◌==◌, leb, any, reverse, length, drop, map,
}
use serveo_api_golang.Text.{
  Str, codes, text_eq, trim_space, has_prefix, trim_suffix, contains, cut_head, to_lower, to_upper,
  lower_ascii,
}
use serveo_api_golang.Text.Number.{ℤ, Atoi, pos, num, is_digit, atoi}
use serveo_api_golang.Firewall.Ports.{port_range_contains}

pub record Rule : Type 0 where
  pub number : ℤ
  pub to : Str
  pub action : Str
  pub from : Str

pub record StatusResponse : Type 0 where
  pub active : Bool
  pub rules : List Rule

-- \s of a regular expression
unfoldable pub re_space : ℕ → Bool
re_space c = c == 9 || c == 10 || c == 12 || c == 13 || c == 32

-- \w
unfoldable pub re_word : ℕ → Bool
re_word c =
    (leb b'0' c && leb c b'9')
    || (leb b'A' c && leb c b'Z')
    || (leb b'a' c && leb c b'z')
    || c == b'_'

-- the longest beginning of bytes that pass the test, and the rest
unfoldable pub span : (ℕ → Bool) → Str → Str × Str
span p [] = ([], [])
span p (c ∷ s) = let (front, rest) = span p s in if p c then (c ∷ front, rest) else ([], c ∷ s)

abbrev pub skip_spaces : Str → Str
skip_spaces s = (span re_space s).1

-- a \d+ and what follows it
abbrev digits_then : Str × Str → Option (Str × Str)
digits_then ([], rest) = none
digits_then (c ∷ ds, rest) = some (c ∷ ds, rest)

abbrev closing : Option (Str × Str) → Option (Str × Str)
closing none = none
closing (some (number, [])) = none
closing (some (number, c ∷ rest)) =
    if c == b']'
    then elim (skip_spaces rest) [ [] ↦ none | d ∷ text ↦ some (number, d ∷ text) ]
    else none

-- ruleLineRe on a line without white space at its end: the digits in brackets and the text behind
unfoldable pub match_rule_line : Str → Option (Str × Str)
unfolding span re_space is_digit
match_rule_line [] = none
match_rule_line (c ∷ s) =
    if c == b'[' then closing (digits_then (span is_digit (skip_spaces s))) else none

-- columnSplitRe.Split: the number counts the white space just read, which `held` holds
unfoldable pub split_columns : ℕ → Str → Str → Str → List Str
unfolding re_space
split_columns n held col [] = if leb 2 n then reverse col ∷ [] ∷ [] else reverse (held ++ col) ∷ []
split_columns n held col (c ∷ s) =
    let longer = split_columns (suc n) (c ∷ held) col s in
    let next = split_columns 0 [] (c ∷ []) s in
    let same = split_columns 0 [] (c ∷ held ++ col) s in
    if re_space c then longer else if leb 2 n then reverse col ∷ next else same

abbrev first_or : List Str → Str → Str
first_or [] d = d
first_or (c ∷ cs) d = c

abbrev rest_of : List Str → List Str
rest_of [] = []
rest_of (c ∷ cs) = cs

-- the rule of a line that matches
unfoldable pub rule_of : ℤ → Str → Rule
unfolding split_columns
rule_of number text =
    let cols = split_columns 0 [] [] (trim_space text) in
    record {
      number = number;
      to = first_or cols [];
      action = first_or (rest_of cols) [];
      from = first_or (rest_of (rest_of cols)) (codes "Anywhere");
    }

abbrev add_rule_of : Str → Atoi → StatusResponse → StatusResponse
add_rule_of text (num n) status = record status { rules = status.rules ++ rule_of n text ∷ [] }
add_rule_of text _ status = status

-- one round of the loop in parseStatus
unfoldable pub read_line : StatusResponse → Str → StatusResponse
unfolding match_rule_line rule_of
read_line status line =
    let trimmed = trim_space line in
    if text_eq trimmed (codes "Status: active")
    then record status { active = true }
    else if text_eq trimmed (codes "Status: inactive")
    then record status { active = false }
    else elim (match_rule_line trimmed) [
      | none ↦ status
      | some (digits, text) ↦ add_rule_of text (atoi digits) status
    ]

abbrev close_line : Str → List Str → List Str
close_line line more = if leb 65536 (length line) then [] else reverse line ∷ more

-- bufio.Scanner: lines, up to the first that does not fit its buffer of 64 KB
unfoldable pub scan_lines : Str → Str → List Str
scan_lines line [] = elim line [ [] ↦ [] | c ∷ cs ↦ close_line (c ∷ cs) [] ]
scan_lines line (c ∷ s) =
    let next = close_line line (scan_lines [] s) in
    let longer = scan_lines (c ∷ line) s in if c == 10 then next else longer

abbrev read_lines : StatusResponse → List Str → StatusResponse
read_lines status [] = status
read_lines status (line ∷ lines) = read_lines (read_line status line) lines

unfoldable pub parse_status : Str → StatusResponse
unfolding scan_lines read_line
parse_status output = read_lines (record { active = false; rules = [] }) (scan_lines [] output)

-- ruleIsAllow
unfoldable pub rule_is_allow : Str → Bool
rule_is_allow action = has_prefix (to_upper (trim_space action)) (codes "ALLOW")

abbrev is_22 : ℤ → Bool
is_22 (pos n) = n == 22
is_22 _ = false

-- ruleCoversPort
unfoldable pub rule_covers_port : Str → ℤ → Bool
rule_covers_port to port =
    let normalized = trim_suffix (to_lower (trim_space to)) (codes " (v6)") in
    (is_22 port && (contains normalized (codes "openssh") || text_eq normalized (codes "ssh")))
    || port_range_contains (cut_head normalized b'/') port

-- hasAllowRuleFor
unfoldable pub has_allow_rule_for : List Rule → ℤ → Bool
has_allow_rule_for rules port =
    any (λ r. rule_is_allow r.action && rule_covers_port r.to port) rules

-- defaultPolicyRe at one place: Default:\s*(\w+)\s*\(incoming\), whatever the case
unfoldable pub policy_here : Str → Option Str
unfolding span re_space re_word lower_ascii
policy_here s =
    if has_prefix (map lower_ascii s) (codes "default:")
    then (let (word, rest) = span re_word (skip_spaces (drop 8 s)) in
        elim word [
          | [] ↦ none
          | c ∷ w ↦
              if has_prefix (map lower_ascii (skip_spaces rest)) (codes "(incoming)")
              then some (c ∷ w)
              else none
        ])
    else none

-- FindStringSubmatch takes the first place that matches; the policy in lower case, "" if there is none
unfoldable pub default_policy : Str → Str
unfolding policy_here
default_policy [] = []
default_policy (c ∷ s) =
    let later = default_policy s in
    elim (policy_here (c ∷ s)) [ none ↦ later | some policy ↦ to_lower policy ]
