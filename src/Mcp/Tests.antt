-- ===== src/Mcp/Tests.antt =====
-- Runs of the reboot tool.
use serveo_api_golang.Prelude.{List, ℕ, ◌+◌, ◌≡◌, refl, true, none, some, [], ◌∷◌, arith}
use serveo_api_golang.Text.{codes, text_eq, split, trim_space, has_suffix, has_prefix, trim_suffix}
use serveo_api_golang.Http.{Context}
use serveo_api_golang.Rbac.{has_permission, part_grants}
use serveo_api_golang.Mcp.{
  permission_error, is_cooling, mark, Outside, Shared, cooldown_active, initiated, ended, check,
  post_reboot, save_cooldowns, ovh_reboot,
}
use serveo_api_golang.Mcp.Cooldown.{ovh_reboot-cooldown}
use serveo_api_golang.Mcp.Race.{Mover, one, two, Counts, raced, ovh_reboot_race}

-- A client that takes every request, and counts them.
abbrev outside : Outside ℕ
outside = record {
  post = λ path n. (n + 1, none);
  mkdir_all = λ dir n. n;
  marshal = λ reboots. none;
  write_file = λ file b n. n;
}

counts : Counts outside (codes "ns1") (λ n. n)
counts = record {
  takes = λ w. refl;
  counts = λ w. refl;
  mkdir_keeps = λ d w. refl;
  write_keeps = λ f b w. refl;
}

abbrev ctx : Context
ctx = record { user_id = some 1; user_permissions = some (codes "ovh.write") }

abbrev fresh : Shared ℕ
fresh = record { last_reboot = λ name. none; world = 0 }

abbrev later : Shared ℕ
later = record { last_reboot = mark (codes "ns1") 7 (λ name. none); world = 1 }

first_call : ovh_reboot outside ctx true (some (codes "ns1")) 5 7 fresh ≡ (later, initiated)
unfolding ovh_reboot permission_error has_permission part_grants split trim_space text_eq has_suffix
    has_prefix trim_suffix check is_cooling post_reboot save_cooldowns
first_call = refl

ovh_reboot-cooldown_example :
    ovh_reboot outside ctx true (some (codes "ns1")) 1000 1001 later ≡ (later, cooldown_active)
ovh_reboot-cooldown_example =
    ovh_reboot-cooldown outside ctx true (codes "ns1") 5 7 1000 1001 fresh later first_call
      (omega arith)

-- Both test, then the second call runs ahead up to its mark.
abbrev schedule : List (Mover × ℕ)
schedule = (two, 5) ∷ (two, 6) ∷ (one, 7) ∷ (two, 8) ∷ (one, 9) ∷ (one, 10) ∷ []

ovh_reboot_race_example :
    ((raced outside (codes "ns1") (λ n. n) counts two 1 2 schedule fresh).shared.world ≡ 0 + 2)
    × ((raced outside (codes "ns1") (λ n. n) counts two 1 2 schedule fresh).first ≡ ended initiated)
    × ((raced outside (codes "ns1") (λ n. n) counts two 1 2 schedule fresh).second
        ≡ ended initiated)
unfolding is_cooling
ovh_reboot_race_example =
    ovh_reboot_race outside (codes "ns1") (λ n. n) counts two 1 2 schedule fresh refl refl
      (omega arith) (omega arith)
