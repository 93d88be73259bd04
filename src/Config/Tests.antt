-- ===== src/Config/Tests.antt =====
-- Runs of the configuration.
use serveo_api_golang.Prelude.{ℕ, ◌≡◌, refl, true, none, some, [], ◌∷◌, if◌then◌else◌}
use serveo_api_golang.Text.{codes, text_eq, has_suffix, has_prefix, trim_suffix, trim_space, split}
use serveo_api_golang.Http.{Request, Response, write_header}
use serveo_api_golang.Config.{
  Environment, get_env, parse_origins, trimmed_origins, load, is_origin_allowed, allows_any_origin,
  cors, cors_headers,
}
use serveo_api_golang.Config.Origins.{header_value, IsGranted, cors-IsGranted, load_mount_root}

abbrev env : Environment
env name =
    if text_eq name (codes "ALLOWED_ORIGINS")
    then some (codes "https://a.org/, https://b.org")
    else none

origins : (load env).allowed_origins ≡ codes "https://a.org" ∷ codes "https://b.org" ∷ []
unfolding load get_env parse_origins trimmed_origins text_eq split trim_space trim_suffix has_suffix
    has_prefix
origins = refl

abbrev request : Request
request = record {
  method = codes "GET";
  remote_addr = [];
  header = λ name. if text_eq name (codes "Origin") then codes "https://b.org" else [];
  query = λ name. [];
  path_value = λ name. [];
  context = record { user_id = none; user_permissions = none };
}

abbrev page : Request → ℕ → ℕ × Response ℕ
page r s = (s, write_header 204)

cors-IsGranted_example :
    IsGranted (load env) (request.header (codes "Origin")) (codes "https://b.org")
unfolding cors cors_headers header_value is_origin_allowed allows_any_origin load get_env
    parse_origins trimmed_origins text_eq split trim_space trim_suffix has_suffix has_prefix
cors-IsGranted_example = cors-IsGranted (load env) page request 0 (codes "https://b.org") refl

load_mount_root_example : has_suffix (load env).allowed_mount_root (codes "/") ≡ true
load_mount_root_example = load_mount_root env
