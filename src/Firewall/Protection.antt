-- ===== src/Firewall/Protection.antt =====
-- What AddRule lets through to `ufw`, and what its guard does not see.
use serveo_api_golang.Prelude.{ℕ, ◌≤◌, ◌<◌, ◌≡◌, ◌⊎◌, Bool, true, ◌&&◌, ◌||◌, List, []}
use serveo_api_golang.Text.{Str, codes, text_eq}
use serveo_api_golang.Text.Number.{pos}
use serveo_api_golang.Firewall.Ports.Laws.{Spells}
use serveo_api_golang.Firewall.{
  AddRuleRequest, is_blocking, is_protocol, rule_args, sanitize_comment, api_port, covers_access,
}

abbrev pub IsAction : Str → Type 0
IsAction a =
    (a ≡ codes "allow") ⊎ ((a ≡ codes "deny") ⊎ ((a ≡ codes "reject") ⊎ (a ≡ codes "limit")))

abbrev pub IsBlocking : Str → Type 0
IsBlocking a = (a ≡ codes "deny") ⊎ (a ≡ codes "reject")

abbrev pub IsProtocol : Str → Type 0
IsProtocol p = (p ≡ []) ⊎ ((p ≡ codes "tcp") ⊎ (p ≡ codes "udp"))

module _ (parses_ip parses_cidr : Str → Bool) where
  abbrev pub IsSource : Str → Type 0
  IsSource from = (from ≡ codes "any") ⊎ ((parses_ip from || parses_cidr from) ≡ true)

  -- What holds of the arguments with which AddRule runs `ufw`.
  pub record IsAllowedRule (config_port : Str) (req : AddRuleRequest) (args : List Str)
      : Type 0 where
    pub action : Str
    pub protocol : Str
    pub from : Str
    pub port : Str
    pub low : ℕ
    pub high : ℕ
    pub is_action : IsAction action
    pub is_protocol : IsProtocol protocol
    pub is_source : IsSource from
    pub spelled : Spells port low high
    pub keeps_ssh : IsBlocking action → from ≡ codes "any" → ¬ ((low ≤ 22) × (22 ≤ high))
    pub keeps_api :
        (n : ℕ)
        → api_port config_port ≡ pos n
        → 0 < n
        → IsBlocking action
        → from ≡ codes "any"
        → ¬ ((low ≤ n) × (n ≤ high))
    pub is_args : args ≡ rule_args action protocol from port (sanitize_comment req.comment)

  abbrev blocks_access : Str → Str → Str → Str → Bool
  blocks_access config_port action from port =
      is_blocking action && text_eq from (codes "any") && covers_access config_port port
