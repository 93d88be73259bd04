-- ===== src/Docker/Compose/Tests.antt =====
-- Runs of the deployment of a stack.
use serveo_api_golang.Prelude.{ℕ, ◌≡◌, ◌⊎◌, inl, refl, true, false, none, some, arith, length, ◌+◌}
use serveo_api_golang.Text.{
  Str, codes, text_eq, has_prefix, contains_any, cut_head, cut, split, join,
}
use serveo_api_golang.Http.{status}
use serveo_api_golang.FilePath.{is_abs, clean, walk, enter}
use serveo_api_golang.Docker.Paths.{is_bind_source_allowed}
use serveo_api_golang.Docker.Paths.Within.{IsWithin, is_bind_source_allowed-IsWithin}
use serveo_api_golang.Docker.Compose.{
  string, mapping, sequence, Entries, no_entries, entry, no_items, item, lookup, volume_text,
  validate_source, validate_volume, validate_items, volumes_of, validate_services,
  validate_compose_volumes, is_name_byte, DeployStackRequest, is_valid_stack_name, Host,
  execute_deploy, deploy_stack,
}
use serveo_api_golang.Docker.Compose.Volumes.{validate_volume_after_colon}
use serveo_api_golang.Docker.Compose.Deployment.{Deployed}
use serveo_api_golang.Docker.Compose.Deploy.{IsChecked, deploy_stack-IsChecked}

cleaned : clean (codes "/srv/./a//../b/../../../x/") ≡ codes "/x"
unfolding clean is_abs walk enter text_eq split join has_prefix
cleaned = refl

cleaned_relative : clean (codes "a/../../b") ≡ codes "../b"
unfolding clean is_abs walk enter text_eq split join has_prefix
cleaned_relative = refl

allowed : is_bind_source_allowed (codes "/srv/x/../data") (codes "/srv/") ≡ true
unfolding is_bind_source_allowed clean is_abs walk enter text_eq split join has_prefix
allowed = refl

escape_refused : is_bind_source_allowed (codes "/srv/../etc") (codes "/srv") ≡ false
unfolding is_bind_source_allowed clean is_abs walk enter text_eq split join has_prefix
escape_refused = refl

-- Below the root directory "/" nothing is allowed, only itself.
root_refuses : is_bind_source_allowed (codes "/srv") (codes "/") ≡ false
unfolding is_bind_source_allowed clean is_abs walk enter text_eq split join has_prefix
root_refuses = refl

is_bind_source_allowed-IsWithin_example :
    (is_abs (codes "/srv/x/../data") ≡ true) × IsWithin (codes "/srv/x/../data") (codes "/srv/")
unfolding is_abs has_prefix
is_bind_source_allowed-IsWithin_example =
    is_bind_source_allowed-IsWithin (codes "/srv/x/../data") (codes "/srv/") refl allowed

abbrev compose : Entries
compose =
    entry (codes "services")
      (mapping (
        entry (codes "web")
          (mapping (
            entry (codes "volumes")
              (sequence
                (item (string (codes "/srv/data:/data")) (item (string (codes "db:/db")) no_items)))
              no_entries))
          no_entries))
      no_entries

accepted : validate_compose_volumes compose (codes "/srv") ≡ none
unfolding validate_compose_volumes validate_services validate_items validate_volume volumes_of
    lookup volume_text validate_source contains_any cut_head cut is_bind_source_allowed clean is_abs
    walk enter text_eq split join has_prefix
accepted = refl

-- A machine that counts what is run on it.
abbrev counting : Host ℕ
counting = record {
  unmarshal = λ content. inl compose;
  temp_dir = codes "/tmp";
  mkdir_all = λ dir n. (n + 1, false);
  write_file = λ file content n. (n + 1, false);
  docker = λ args n. (n + length args, (false, codes "up"));
}

abbrev stack : DeployStackRequest
stack = record { name = codes "web-1"; content = codes "services:" }

deploy_stack-IsChecked_example :
    (((deploy_stack counting (codes "/srv") (some stack) 0).0 ≡ 0)
      × (status (deploy_stack counting (codes "/srv") (some stack) 0).1 ≡ 400))
    ⊎ (IsChecked counting (codes "/srv") stack
        × Deployed counting
            (codes "/tmp/serveo-compose")
            (codes "/tmp/serveo-compose/web-1.yml")
            stack
            0
            (deploy_stack counting (codes "/srv") (some stack) 0).0
            (status (deploy_stack counting (codes "/srv") (some stack) 0).1))
unfolding is_abs has_prefix split join text_eq walk enter
deploy_stack-IsChecked_example = deploy_stack-IsChecked counting (codes "/srv") stack 0 refl refl

deployed : (deploy_stack counting (codes "/srv") (some stack) 0).0 ≡ 9
unfolding deploy_stack is_valid_stack_name is_name_byte execute_deploy validate_compose_volumes
    validate_services validate_items validate_volume volumes_of lookup volume_text validate_source
    contains_any cut_head cut is_bind_source_allowed clean is_abs walk enter text_eq split join
    has_prefix
deployed = refl

abbrev source : Str → Entries
source text = entry (codes "source") (string text) no_entries

validate_volume_after_colon_example :
    validate_volume (mapping (source (codes "/srv:/../etc"))) (codes "web") (codes "/srv")
    ≡ validate_volume (mapping (source (codes "/srv"))) (codes "web") (codes "/srv")
unfolding lookup text_eq
validate_volume_after_colon_example =
    validate_volume_after_colon (source (codes "/srv:/../etc")) (source (codes "/srv"))
      (codes "/srv") (codes "/../etc") (codes "web") (codes "/srv")
      (λ e. omega arith, (λ e. omega arith, (λ e. omega arith, (λ e. omega arith, tt)))) refl refl

-- The source "/srv:/../etc" leads out of the directory, and is let through in the long form.
long_form_escapes :
    (validate_volume (mapping (source (codes "/srv:/../etc"))) (codes "web") (codes "/srv") ≡ none)
    × (is_bind_source_allowed (codes "/srv:/../etc") (codes "/srv") ≡ false)
unfolding validate_volume lookup volume_text validate_source contains_any cut_head cut
    is_bind_source_allowed clean is_abs walk enter text_eq split join has_prefix
long_form_escapes = (refl, refl)
