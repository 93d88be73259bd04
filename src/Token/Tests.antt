-- ===== src/Token/Tests.antt =====
-- The theorems on tokens at a small database: one user, and a JWT of hers.
use serveo_api_golang.Prelude.{ℕ, ◌≡◌, refl, none, some, [], ◌∷◌, arith, if◌then◌else◌, ◌++◌}
use serveo_api_golang.Text.{
  Str, codes, text_eq, contains, has_prefix, cut, equal_fold, trim_space, split, has_suffix,
  trim_suffix,
}
use serveo_api_golang.Http.{Context, Request, Handler, send_json}
use serveo_api_golang.Rbac.{has_permission, part_grants}
use serveo_api_golang.Storage.Rows.{User}
use serveo_api_golang.Storage.Memory.{Tables, memory, plain, clear}
use serveo_api_golang.Auth.{LoginRequest, login, logout, bearer_token}
use serveo_api_golang.Token.{valid, refused, is_pat, validate_token}
use serveo_api_golang.Token.Revocation.{logout_revokes}
use serveo_api_golang.Token.LoginToken.{login_token_valid}
use serveo_api_golang.Token.Guard.{Outcome, guarded, guarded-Outcome}

abbrev alice : User
alice = record {
  id = 7;
  uuid = codes "a-1";
  username = codes "alice";
  password = codes "old secret";
  permissions = codes "docker.*, files.read";
  profile_picture = [];
  status = codes "offline";
  last_connection = none;
  token_version = 3;
}

abbrev world : Tables
world = record { users = alice ∷ []; keys = [] }

abbrev ctx : Context
ctx = record { user_id = some 7; user_permissions = some (codes "docker.*, files.read") }

abbrev token : Str
token = b'.' ∷ 7 ∷ 3 ∷ 1000 ∷ codes "key"

abbrev after_logout : Tables
after_logout = (logout memory ctx world).0

accepted :
    validate_token memory clear (λ t. t) (codes "key") 5 token world
    ≡ valid 7 (codes "docker.*, files.read")
unfolding validate_token text_eq contains has_prefix
accepted = refl

logout_revokes_example :
    validate_token memory clear (λ t. t) (codes "key") 5 token after_logout
    ≡ refused (codes "token has been revoked")
unfolding logout is_pat contains has_prefix
logout_revokes_example =
    logout_revokes memory clear (λ t. t) (codes "key") ctx 7 alice world after_logout 5 token
      (codes "docker.*, files.read") refl refl (omega arith) refl refl accepted

abbrev credentials : LoginRequest
credentials = record { username = codes "alice"; password = codes "old secret" }

abbrev after_login : Tables
after_login = (login memory plain clear (codes "key") (λ r. none) 50 (some credentials) world).0

abbrev login_token : Str
login_token = b'.' ∷ 7 ∷ 3 ∷ 86450 ∷ codes "key"

login_token_valid_example :
    validate_token memory clear (λ t. t) (codes "key") 86449 login_token after_login
    ≡ valid 7 (codes "docker.*, files.read")
unfolding login text_eq
login_token_valid_example =
    login_token_valid memory plain clear (λ t. t) (codes "key") (λ r. none) 50 86449 credentials
      alice world after_login login_token refl (omega arith) (omega arith) (omega arith)
      (omega arith) refl

abbrev authorization : Str → Str → Str
authorization value name = if text_eq name (codes "Authorization") then value else []

abbrev request : Str → Request
request value = record {
  method = codes "GET";
  remote_addr = codes "10.0.0.9:4000";
  header = authorization value;
  query = λ name. [];
  path_value = λ name. [];
  context = record { user_id = none; user_permissions = none };
}

abbrev list_containers : Handler Tables ℕ
list_containers r t = (t, send_json 200 3)

guarded-Outcome_example :
    Outcome memory clear
      (λ t. t)
      (codes "key")
      (λ t. t)
      5
      (codes "docker.containers.read")
      list_containers
      (request (codes "Bearer x"))
      world
      (guarded memory clear
        (λ t. t)
        (codes "key")
        (λ t. t)
        5
        (codes "docker.containers.read")
        list_containers
        (request (codes "Bearer x"))
        world)
guarded-Outcome_example =
    guarded-Outcome memory clear (λ t. t) (codes "key") (λ t. t) 5 (codes "docker.containers.read")
      list_containers (request (codes "Bearer x")) world

-- A wildcard of the row grants the route, whatever the case of the scheme.
wildcard_route :
    guarded memory clear
      (λ t. t)
      (codes "key")
      (λ t. t)
      5
      (codes "docker.containers.read")
      list_containers
      (request (codes "bEARER " ++ token))
      world
    ≡ (world, send_json 200 3)
unfolding guarded bearer_token text_eq cut equal_fold trim_space validate_token contains has_prefix
    has_permission split part_grants has_suffix trim_suffix
wildcard_route = refl
