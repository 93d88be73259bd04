-- ===== src/Firewall.antt =====
-- internal/modules/v2/firewall: service.go and handler.go. The command `ufw` is a parameter: what
-- it does to a world, and what it prints.
pub mod Ports
pub mod Status
pub mod Protection
pub mod Covers
pub mod Lockout
pub mod Handler
mod Tests
use serveo_api_golang.Prelude.{
  ℕ, Bool, true, false, ◌&&◌, ◌||◌, not, Option, none, some, List, [], ◌∷◌, ◌++◌, if◌then◌else◌,
  ◌==◌, leb, ltb, take,
}
use serveo_api_golang.Text.{Str, codes, text_eq, trim_space, to_lower, equal_fold}
use serveo_api_golang.Text.Number.{ℤ, pos, negsuc, leb_ℤ, atoi, atoi_value, format_uint}
use serveo_api_golang.Http.{Response, send_error, send_json}
use serveo_api_golang.Firewall.Ports.{validate_port, port_range_contains}
use serveo_api_golang.Firewall.Status.{
  Rule, StatusResponse, parse_status, default_policy, has_allow_rule_for, rule_covers_port,
}
use serveo_api_golang.Firewall.Ports.{
  Failure, not_installed, protected_rule, would_lockout, other, Result, ok, err, ◌>>=◌,
}

pub record AddRuleRequest : Type 0 where
  pub action : Str
  pub port : Str
  pub protocol : Str
  pub from : Str
  pub comment : Str

-- How a run of `ufw` ends, with its output: well, with an error text, or it is not in the PATH.
pub data Exec : Type 0 where
  finished : Str → Exec
  failed : Str → Str → Exec
  not_found : Exec

unfoldable pub action_whitelist : Str → Bool
action_whitelist a =
    text_eq a (codes "allow")
    || text_eq a (codes "deny")
    || text_eq a (codes "reject")
    || text_eq a (codes "limit")

unfoldable pub is_blocking : Str → Bool
is_blocking action = text_eq action (codes "deny") || text_eq action (codes "reject")

-- strings.Map in sanitizeComment
abbrev comment_bytes : Str → Str
comment_bytes [] = []
comment_bytes (c ∷ s) =
    let rest = comment_bytes s in
    if c == 10 || c == 13 || c == 9 then 32 ∷ rest else if ltb c 32 then rest else c ∷ rest

unfoldable pub sanitize_comment : Str → Str
unfolding trim_space
sanitize_comment comment = take 100 (trim_space (comment_bytes comment))

-- the arguments of `ufw` that AddRule puts together
unfoldable pub rule_args : Str → Str → Str → Str → Str → List Str
rule_args action protocol from port comment =
    (codes "--force" ∷ action ∷ [])
    ++ (if text_eq protocol [] then [] else codes "proto" ∷ protocol ∷ [])
    ++ (codes "from" ∷ from ∷ codes "to" ∷ codes "any" ∷ codes "port" ∷ port ∷ [])
    ++ (if text_eq comment [] then [] else codes "comment" ∷ comment ∷ [])

-- `apiPort, _ := strconv.Atoi(s.Config.Port)`
unfoldable pub api_port : Str → ℤ
api_port config_port = atoi_value (atoi config_port)

-- the port is positive and the test holds of it
unfoldable pub if_positive : ℤ → Bool → Bool
if_positive port test = leb_ℤ (pos 1) port && test

abbrev pub is_number : ℕ → ℤ → Bool
is_number n (pos m) = m == n
is_number n (negsuc m) = false

unfoldable pub is_protocol : Str → Bool
is_protocol p = text_eq p [] || text_eq p (codes "tcp") || text_eq p (codes "udp")

-- the range holds the port of SSH or of the API
unfoldable pub covers_access : Str → Str → Bool
covers_access config_port port =
    port_range_contains port (pos 22)
    || if_positive (api_port config_port) (port_range_contains port (api_port config_port))

-- net.ParseIP and net.ParseCIDR accept the text
module _ (parses_ip parses_cidr : Str → Bool) where
  unfoldable pub validate_from : Str → Result Str
  unfolding trim_space equal_fold
  validate_from text =
      let from = trim_space text in
      if text_eq from [] || equal_fold from (codes "any")
      then ok (codes "any")
      else if parses_ip from || parses_cidr from
      then ok from
      else err (other (codes "from must be 'any', an IP address or a CIDR block"))

  -- AddRule up to the run of `ufw`: its arguments, or the error
  unfoldable pub add_rule_args : Str → AddRuleRequest → Result (List Str)
  unfolding validate_from sanitize_comment
  add_rule_args config_port req =
      let action = to_lower (trim_space req.action) in
      let protocol = to_lower (trim_space req.protocol) in
      if not (action_whitelist action)
      then err (other (codes "action must be one of allow, deny, reject, limit"))
      else elim (validate_port req.port) [
        | err e ↦ err e
        | ok port ↦
            if not (is_protocol protocol)
            then err (other (codes "protocol must be 'tcp', 'udp' or empty"))
            else elim (validate_from req.from) [
              | err e ↦ err e
              | ok from ↦
                  if is_blocking action
                    && text_eq from (codes "any")
                    && covers_access config_port port
                  then err protected_rule
                  else ok (rule_args action protocol from port (sanitize_comment req.comment))
            ]
      ]

-- both SSH and the port of the API have an allow rule
unfoldable pub has_access : Str → List Rule → Bool
has_access config_port rules =
    has_allow_rule_for rules (pos 22)
    && (not (if_positive (api_port config_port) true)
        || has_allow_rule_for rules (api_port config_port))

-- the rule covers the port of SSH or of the API
unfoldable pub protects : Str → Rule → Bool
protects config_port rule =
    rule_covers_port rule.to (pos 22)
    || if_positive (api_port config_port) (rule_covers_port rule.to (api_port config_port))

-- the loop of DeleteRule, which looks at the first rule with the number
unfoldable pub is_protected : Str → ℕ → List Rule → Bool
is_protected config_port number [] = false
is_protected config_port number (rule ∷ rules) =
    let later = is_protected config_port number rules in
    if is_number number rule.number then protects config_port rule else later

module _ {W : Type 0} (ufw : List Str → W → W × Exec) where
  abbrev ended : Exec → Result Str
  ended (finished out) = ok (trim_space out)
  ended (failed out message) =
      if text_eq (trim_space out) []
      then err (other message)
      else err (other (trim_space out ++ codes ": " ++ message))
  ended not_found = err not_installed

  unfoldable pub run : List Str → W → W × Result Str
  run args w = let (w', e) = ufw args w in (w', ended e)

  -- a failure ends the method in the world that it leaves
  abbrev pub and_then : {A B : Type 0} → W × Result A → (A → W → W × Result B) → W × Result B
  and_then (w, ok a) k = k a w
  and_then (w, err e) k = (w, err e)

  -- the method named Status
  unfoldable pub status : W → W × Result StatusResponse
  unfolding run
  status w =
      and_then (run (codes "status" ∷ codes "numbered" ∷ []) w)
        λ out w'. (w', ok (parse_status out))

  -- defaultIncomingPolicy
  unfoldable pub default_incoming_policy : W → W × Result Str
  unfolding run
  default_incoming_policy w =
      and_then (run (codes "status" ∷ codes "verbose" ∷ []) w)
        λ out w'. (w', ok (default_policy out))

  abbrev enable_args : List Str
  enable_args = codes "--force" ∷ codes "enable" ∷ []

  unfoldable pub enable : Str → W → W × Result Str
  unfolding status default_incoming_policy run has_access
  enable config_port w = and_then (status w) λ s w'.
      if s.active
      then run enable_args w'
      else and_then (default_incoming_policy w') λ policy w''.
        if is_blocking policy && not (has_access config_port s.rules)
        then (w'', err would_lockout)
        else run enable_args w''

  unfoldable pub disable : W → W × Result Str
  unfolding run
  disable w = run (codes "--force" ∷ codes "disable" ∷ []) w

  unfoldable pub add_rule : (Str → Bool) → (Str → Bool) → Str → AddRuleRequest → W → W × Result Str
  add_rule parses_ip parses_cidr config_port req w =
      elim (add_rule_args parses_ip parses_cidr config_port req) [
        | err e ↦ (w, err e)
        | ok args ↦ run args w
      ]

  -- DeleteRule; the handler lets only positive numbers through
  unfoldable pub delete_rule : Str → ℕ → W → W × Result Str
  unfolding status run is_protected
  delete_rule config_port number w =
      if number == 0
      then (w, err (other (codes "invalid rule number")))
      else and_then (status w) λ s w'.
        if is_protected config_port number s.rules
        then (w', err protected_rule)
        else run (codes "--force" ∷ codes "delete" ∷ format_uint number ∷ []) w'
