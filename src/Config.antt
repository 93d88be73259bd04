-- ===== src/Config.antt =====
-- internal/core/config/config.go, and internal/core/middleware/cors.go, which reads it.
pub mod Origins
mod Tests
use serveo_api_golang.Prelude.{
  ℕ, Bool, true, false, not, ◌&&◌, ◌||◌, Option, none, some, List, [], ◌∷◌, ◌++◌, if◌then◌else◌,
  any,
}
use serveo_api_golang.Text.{
  Str, codes, text_eq, has_suffix, trim_suffix, trim_space, split, to_lower,
}
use serveo_api_golang.Text.Number.{ℤ, pos, Atoi, num, atoi}
use serveo_api_golang.Http.{Request, Handler, Response, write_header}

pub record Config : Type 0 where
  pub env : Str
  pub port : Str
  pub rate_limit : ℤ
  pub sqlite_path : Str
  pub allowed_mount_root : Str
  pub templates_path : Str
  pub allowed_origins : List Str
  pub trust_proxy : Bool
  pub ovh_endpoint : Str
  pub ovh_app_key : Str
  pub ovh_app_secret : Str
  pub ovh_consumer_key : Str

abbrev pub default_allowed_origin : Str
default_allowed_origin = codes "http://localhost:5173"

-- The environment; a variable that is not set is `none` for os.LookupEnv.
abbrev pub Environment : Type 0
Environment = Str → Option Str

-- getEnv
unfoldable pub get_env : Environment → Str → Str → Str
get_env lookup_env key fallback = elim (lookup_env key) [ none ↦ fallback | some value ↦ value ]

abbrev pub when_set : {A : Type 0} → Str → A → (Str → A) → A
when_set [] absent present = absent
when_set (c ∷ s) absent present = present (c ∷ s)

-- isTruthy, with strconv.ParseBool
unfoldable pub is_truthy : Str → Bool
is_truthy value =
    any (text_eq (trim_space value))
      (codes "1" ∷ codes "t" ∷ codes "T" ∷ codes "TRUE" ∷ codes "true" ∷ codes "True" ∷ [])

-- the loop of parseOrigins
unfoldable pub trimmed_origins : List Str → List Str
trimmed_origins [] = []
trimmed_origins (part ∷ rest) =
    let later = trimmed_origins rest in
    if text_eq (trim_space part) []
    then later
    else trim_suffix (trim_space part) (codes "/") ∷ later

abbrev or_default : List Str → List Str
or_default [] = default_allowed_origin ∷ []
or_default (o ∷ origins) = o ∷ origins

unfoldable pub parse_origins : Str → List Str
unfolding trimmed_origins
parse_origins raw = or_default (trimmed_origins (split raw b','))

-- ALLOWED_MOUNT_ROOT with "/" at its end
unfoldable pub mount_root : Str → Str
mount_root amr =
    when_set amr (codes "/var/serveoapi/data/")
      λ s. if has_suffix s (codes "/") then s else s ++ codes "/"

abbrev limit_or : Atoi → ℤ
limit_or (num n) = n
limit_or _ = pos 10

unfoldable pub load : Environment → Config
unfolding get_env is_truthy parse_origins mount_root
load env = record {
  env = when_set (get_env env (codes "ENV") []) (codes "development") (λ s. s);
  port = when_set (get_env env (codes "PORT") []) (codes "8080") (λ s. s);
  rate_limit = when_set (get_env env (codes "API_RATE_LIMIT") []) (pos 10) (λ s. limit_or (atoi s));
  sqlite_path = when_set (get_env env (codes "SQLITE_PATH") []) (codes "serveo.db") (λ s. s);
  allowed_mount_root = mount_root (get_env env (codes "ALLOWED_MOUNT_ROOT") []);
  templates_path = get_env env (codes "TEMPLATES_PATH") (codes "./data/templates");
  allowed_origins = parse_origins (get_env env (codes "ALLOWED_ORIGINS") default_allowed_origin);
  trust_proxy = is_truthy (get_env env (codes "TRUST_PROXY") []);
  ovh_endpoint = get_env env (codes "OVH_ENDPOINT") [];
  ovh_app_key = get_env env (codes "OVH_APP_KEY") [];
  ovh_app_secret = get_env env (codes "OVH_APP_SECRET") [];
  ovh_consumer_key = get_env env (codes "OVH_CONSUMER_KEY") [];
}

unfoldable pub is_production : Config → Bool
is_production c =
    text_eq (to_lower c.env) (codes "production") || text_eq (to_lower c.env) (codes "prod")

unfoldable pub is_origin_allowed : Config → Str → Bool
is_origin_allowed c origin =
    not (text_eq origin [])
    && any (λ allowed. text_eq allowed (codes "*") || text_eq allowed origin) c.allowed_origins

unfoldable pub allows_any_origin : Config → Bool
allows_any_origin c = any (λ allowed. text_eq allowed (codes "*")) c.allowed_origins

abbrev pub Headers : Type 0
Headers = List (Str × Str)

abbrev pub allow_origin : Str → Headers
allow_origin value = (codes "Access-Control-Allow-Origin", value) ∷ []

-- the headers that CORS sets, in their order, for the origin of a request
unfoldable pub cors_headers : Config → Str → Headers
cors_headers cfg origin =
    ((codes "Vary", codes "Origin") ∷ [])
    ++ (if allows_any_origin cfg
        then allow_origin (codes "*")
        else if is_origin_allowed cfg origin
        then allow_origin origin
        else [])
    ++ (codes "Access-Control-Allow-Methods", codes "GET, POST, PUT, DELETE, OPTIONS, PATCH")
      ∷ (codes "Access-Control-Allow-Headers", codes "Content-Type, Authorization, Accept")
      ∷ []

-- CORS: the headers, and the answer of the handler or of the preflight
unfoldable pub cors :
    {S A : Type 0} → Config → Handler S A → Request → S → Headers × (S × Response A)
unfolding cors_headers
cors cfg next r s = (
  cors_headers cfg (r.header (codes "Origin")),
  (if text_eq r.method (codes "OPTIONS") then (s, write_header 200) else next r s),
)
