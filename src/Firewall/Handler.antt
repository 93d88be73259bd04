-- ===== src/Firewall/Handler.antt =====
-- internal/modules/v2/firewall/handler.go: the HTTP handlers over the service.
use serveo_api_golang.Prelude.{ℕ, Bool, Option, none, some, List, ◌++◌, if◌then◌else◌, leb}
use serveo_api_golang.Text.{Str, codes}
use serveo_api_golang.Text.Number.{pos, num, Atoi, atoi}
use serveo_api_golang.Http.{Response, send_error, send_json}
use serveo_api_golang.Firewall.Ports.{
  Failure, not_installed, protected_rule, would_lockout, other, Result, ok, err,
}
use serveo_api_golang.Firewall.Status.{StatusResponse}
use serveo_api_golang.Firewall
use serveo_api_golang.Firewall.{AddRuleRequest, Exec, failed, add_rule_args, run}

-- the text of an error
abbrev error_text : Failure → Str
error_text not_installed = codes "ufw is not installed on this server"
error_text protected_rule = codes "this rule protects SSH or API access and cannot be modified"
error_text would_lockout =
    codes "enabling the firewall now would block SSH or API access: add an allow rule first"
error_text (other message) = message

-- handleServiceError
unfoldable pub handle_service_error : {A : Type 0} → Failure → Response A
handle_service_error not_installed = send_error 503 (codes "UFW is not installed on this server")
handle_service_error protected_rule =
    send_error 409 (codes "This rule protects SSH or API access and cannot be modified")
handle_service_error would_lockout = send_error 409 (
    codes
      "Enabling the firewall now would block SSH or API access: add an allow rule for SSH and for the API port first")
handle_service_error (other message) = send_error 500 (codes "UFW command failed: " ++ message)

abbrev answer : {A : Type 0} → ℕ → Result A → Response A
answer code (ok payload) = send_json code payload
answer code (err e) = handle_service_error e

-- strconv.Atoi of the path value, if it is positive
abbrev rule_number : Atoi → Option ℕ
rule_number (num (pos n)) = if leb 1 n then some n else none
rule_number _ = none

module _ {W : Type 0} (ufw : List Str → W → W × Exec) (config_port : Str) where
  -- GetStatus
  unfoldable pub get_status : W → W × Response StatusResponse
  unfolding handle_service_error
  get_status w = let (w', r) = Firewall.status ufw w in (w', answer 200 r)

  -- DeleteRule, on the path value
  unfoldable pub delete_rule : Str → W → W × Response Str
  unfolding handle_service_error
  delete_rule path_value w = elim (rule_number (atoi path_value)) [
    | none ↦ (w, send_error 400 (codes "Invalid rule number"))
    | some number ↦
        let (w', r) = Firewall.delete_rule ufw config_port number w in (w', answer 200 r)
  ]

  -- EnableFirewall
  unfoldable pub enable_firewall : W → W × Response Str
  unfolding handle_service_error
  enable_firewall w = let (w', r) = Firewall.enable ufw config_port w in (w', answer 200 r)

  -- DisableFirewall
  unfoldable pub disable_firewall : W → W × Response Str
  unfolding handle_service_error
  disable_firewall w = let (w', r) = Firewall.disable ufw w in (w', answer 200 r)

  abbrev add_rule_answer : Result Str → Response Str
  add_rule_answer (ok output) = send_json 201 output
  add_rule_answer (err not_installed) = handle_service_error not_installed
  add_rule_answer (err protected_rule) = handle_service_error protected_rule
  add_rule_answer (err e) = send_error 400 (error_text e)

  module _ (parses_ip parses_cidr : Str → Bool) where
    -- AddRule, on what the decoder gives
    unfoldable pub add_rule : Option AddRuleRequest → W → W × Response Str
    unfolding handle_service_error
    add_rule none w = (w, send_error 400 (codes "Invalid body"))
    add_rule (some req) w =
        let (w', r) = Firewall.add_rule ufw parses_ip parses_cidr config_port req w in
        (w', add_rule_answer r)
