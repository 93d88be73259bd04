-- ===== src/Firewall/Tests.antt =====
-- Runs of the firewall service on texts as `ufw` prints them, and its theorems at small inputs.
use serveo_api_golang.Prelude.{
  ◌≡◌, refl, Bool, true, false, some, List, [], ◌∷◌, ◌++◌, if◌then◌else◌, ap,
}
use serveo_api_golang.Text.{
  Str, codes, text_eq, trim_space, to_lower, to_upper, has_prefix, trim_suffix, has_suffix,
  contains, cut, cut_head,
}
use serveo_api_golang.Text.Number.{pos, atoi, digits, format_uint}
use serveo_api_golang.Firewall.Ports.{ok, err, would_lockout, port_range_contains}
use serveo_api_golang.Firewall.Status.{
  Rule, StatusResponse, parse_status, default_policy, has_allow_rule_for, rule_is_allow,
  rule_covers_port,
}
use serveo_api_golang.Firewall.{
  AddRuleRequest, if_positive, api_port, Exec, finished, is_blocking, enable, delete_rule, status,
  default_incoming_policy, has_access, protects, is_protected, run,
}
use serveo_api_golang.Firewall.Lockout.{
  MayEnable, enable-MayEnable, numbered, IsRemovable, delete_rule-IsRemovable,
}

abbrev rule_line : Str
rule_line = codes "[ 1] 22/tcp                     ALLOW IN    Anywhere"

abbrev status_text : Str
status_text =
    codes "Status: inactive"
    ++ 10 ∷ codes "     To                         Action      From"
    ++ 10 ∷ rule_line
    ++ 10 ∷ codes "[12] 8080 (v6)                  ALLOW OUT   10.0.0.0/8"

parsed : parse_status status_text ≡ record {
  active = false;
  rules =
      record {
        number = pos 1;
        to = codes "22/tcp";
        action = codes "ALLOW IN";
        from = codes "Anywhere";
      }
      ∷ record {
        number = pos 12;
        to = codes "8080 (v6)";
        action = codes "ALLOW OUT";
        from = codes "10.0.0.0/8";
      }
      ∷ [];
}
unfolding parse_status text_eq trim_space atoi digits
parsed = refl

policy : default_policy (codes "x Default:  Deny (incoming), allow (outgoing)") ≡ codes "deny"
unfolding default_policy has_prefix to_lower
policy = refl

-- A rule for several ports, as `ufw` lists it, is not seen to cover any of them.
several_ports : rule_covers_port (codes "22,80/tcp") (pos 22) ≡ false
unfolding rule_covers_port trim_space to_lower trim_suffix has_suffix has_prefix contains text_eq
    cut_head port_range_contains cut atoi digits
several_ports = refl

-- An outgoing rule counts as access from outside.
outgoing_counts :
    has_allow_rule_for
      (record {
        number = pos 1;
        to = codes "22/tcp";
        action = codes "ALLOW OUT";
        from = codes "Anywhere";
      }
        ∷ [])
      (pos 22)
    ≡ true
unfolding has_allow_rule_for rule_is_allow to_upper rule_covers_port trim_space to_lower trim_suffix
    has_suffix has_prefix contains text_eq cut_head port_range_contains cut atoi digits
outgoing_counts = refl

abbrev deny_all : AddRuleRequest
deny_all = record {
  action = codes "DENY";
  port = codes " 22 ";
  protocol = codes "tcp";
  from = codes "0.0.0.0/0";
  comment = [];
}

abbrev no_ip : Str → Bool
no_ip s = false

abbrev any_cidr : Str → Bool
any_cidr s = true

-- A `ufw` whose state is the list of its runs, with its answers for the two queries.
abbrev answers : Str → Str → List Str → Exec
answers rules policy_text (a ∷ b ∷ []) =
    if text_eq b (codes "numbered")
    then finished rules
    else if text_eq b (codes "verbose")
    then finished policy_text
    else finished (codes "done")
answers rules policy_text args = finished (codes "done")

abbrev ufw : Str → Str → List Str → List (List Str) → List (List Str) × Exec
ufw rules policy_text args log = (args ∷ log, answers rules policy_text args)

abbrev open_ufw : List Str → List (List Str) → List (List Str) × Exec
open_ufw = ufw status_text (codes "Default: allow (incoming)")

abbrev closed_ufw : List Str → List (List Str) → List (List Str) × Exec
closed_ufw = ufw (codes "Status: inactive") (codes "Default: deny (incoming)")

enable_runs : (enable open_ufw (codes "9") []).1 ≡ ok (codes "done")
unfolding enable status default_incoming_policy run has_access has_allow_rule_for rule_is_allow
    to_upper rule_covers_port trim_space to_lower trim_suffix has_suffix has_prefix contains text_eq
    cut_head port_range_contains cut atoi digits parse_status default_policy format_uint is_blocking
    if_positive api_port
enable_runs = refl

enable-MayEnable_example :
    (s : StatusResponse) × ((status open_ufw []).1 ≡ ok s)
    × MayEnable open_ufw (codes "9") s (status open_ufw []).0
enable-MayEnable_example =
    enable-MayEnable open_ufw (codes "9") (codes "done") [] (enable open_ufw (codes "9") []).0
      (ap (λ r. ((enable open_ufw (codes "9") []).0, r)) enable_runs)

-- With the firewall inactive, nothing allowed and a policy that denies, Enable refuses.
lockout : (enable closed_ufw (codes "9") []).1 ≡ err would_lockout
unfolding enable status default_incoming_policy run has_access has_allow_rule_for rule_is_allow
    to_upper rule_covers_port trim_space to_lower trim_suffix has_suffix has_prefix contains text_eq
    cut_head port_range_contains cut atoi digits parse_status default_policy format_uint is_blocking
    if_positive api_port
lockout = refl

deleted : (delete_rule open_ufw (codes "9") 12 []).1 ≡ ok (codes "done")
unfolding delete_rule is_protected protects enable status default_incoming_policy run has_access
    has_allow_rule_for rule_is_allow to_upper rule_covers_port trim_space to_lower trim_suffix
    has_suffix has_prefix contains text_eq cut_head port_range_contains cut atoi digits parse_status
    default_policy format_uint is_blocking if_positive api_port
deleted = refl

delete_rule-IsRemovable_example :
    (s : StatusResponse) × ((status open_ufw []).1 ≡ ok s)
    × ((rule : Rule) → numbered 12 s.rules ≡ some rule → IsRemovable (codes "9") rule)
delete_rule-IsRemovable_example =
    delete_rule-IsRemovable open_ufw (codes "9") (codes "done") 12 []
      (delete_rule open_ufw (codes "9") 12 []).0
      (ap (λ r. ((delete_rule open_ufw (codes "9") 12 []).0, r)) deleted)
