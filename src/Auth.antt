-- ===== src/Auth.antt =====
-- internal/modules/v2/auth: handler.go, model.go and bearer.go.
pub mod Tickets
pub mod Admin
use serveo_api_golang.Prelude.{
  ℕ, ◌+◌, ◌*◌, ◌%◌, ◌^◌, Bool, true, false, ◌&&◌, Option, none, some, if◌then◌else◌, [], ◌==◌, ltb,
}
use serveo_api_golang.Text.{Str, codes, text_eq, trim_space, cut, equal_fold}
use serveo_api_golang.Http.{
  Context, Request, Response, send_error, send_json, write_header, get_user_id,
}
use serveo_api_golang.Storage.{Database, Bcrypt, Floats, Jwt, LoginClaims}
use serveo_api_golang.Storage.Rows.{User}

pub record LoginRequest : Type 0 where
  pub username : Str
  pub password : Str

-- BearerToken
unfoldable pub bearer_token : Request → Str
bearer_token r =
    let auth_header = r.header (codes "Authorization") in
    let raw = trim_space auth_header in
    if text_eq auth_header [] then [] else elim (cut auth_header b' ') [
      | none ↦ raw
      | some (scheme, token) ↦ if equal_fold scheme (codes "bearer") then trim_space token else raw
    ]

abbrev default_jwt_secret : Str
default_jwt_secret = codes "serveo_super_secret_key_change_me"

-- getEnvOrDefault and JwtSecretKey; `none` is a variable that is not set
unfoldable pub jwt_secret_key : Option Str → Str
jwt_secret_key none = default_jwt_secret
jwt_secret_key (some value) = value

unfoldable pub is_using_default_secret : Str → Bool
is_using_default_secret secret = text_eq secret default_jwt_secret

-- user.TokenVersion++ on 64 bits
unfoldable pub bump_token_version : User → User
bump_token_version u = record u { token_version = (u.token_version + 1) % 2 ^ 64 }

module _ (B : Bcrypt) where
  open B use {generate, matches}

  -- CheckPassword
  unfoldable pub check_password : User → Str → Bool
  check_password u provided = matches u.password provided

  -- HashPassword
  unfoldable pub hash_password : Str → User → Str → Option User
  hash_password salt u password = elim (generate salt password) [
    | none ↦ none
    | some hashed ↦ some (record u { password = hashed })
  ]

abbrev pub day : ℕ
day = 24 * 3600

module _ (D : Database) (B : Bcrypt) {F : Floats} (J : Jwt F) where
  open D use {Db, first, first_named, save_user}

  abbrev pub login_claims : ℕ → User → LoginClaims
  login_claims now u = record {
    sub = u.id;
    username = u.username;
    permissions = u.permissions;
    token_version = u.token_version;
    exp = now + day;
  }

  abbrev pub online : ℕ → User → User
  online now u = record u { last_connection = some now; status = codes "online" }

  -- An error of Save is only logged.
  abbrev pub saved : User → Db → Db
  saved u d = elim (save_user u d) [ none ↦ d | some d' ↦ d' ]

  -- Login; `secret` is JwtSecretKey, `body` what the JSON decoder gives and `invalid` the
  -- validator's message for it
  unfoldable pub login :
      Str → (LoginRequest → Option Str) → ℕ → Option LoginRequest → Db → Db × Response Str
  unfolding check_password
  login secret invalid now none d = (d, send_error 400 (codes "Invalid request body"))
  login secret invalid now (some req) d = elim (invalid req) [
    | some message ↦ (d, send_error 400 message)
    | none ↦ elim (first_named req.username d) [
      | none ↦ (d, send_error 401 (codes "Invalid credentials"))
      | some user ↦
          if check_password B user req.password
          then (
            saved (online now user) d,
            elim (J.sign J.hs256 (login_claims now user) secret) [
              | none ↦ send_error 500 (codes "Could not generate token")
              | some token ↦ send_json 200 token
            ],
          )
          else (d, send_error 401 (codes "Invalid credentials"))
    ]
  ]

module _ (D : Database) where
  open D use {Db, first, save_user}

  -- Logout, which answers without a body
  unfoldable pub logout : Context → Db → Db × Response (Unit {0})
  unfolding get_user_id bump_token_version
  logout ctx d = elim (get_user_id ctx) [
    | none ↦ (d, send_error 401 (codes "Unauthorized"))
    | some user_id ↦ elim (first user_id d) [
      | none ↦ (d, send_error 404 (codes "User not found"))
      | some user ↦
          elim (save_user (bump_token_version (record user { status = codes "offline" })) d) [
            | none ↦ (d, send_error 500 (codes "Could not log out"))
            | some d' ↦ (d', write_header 204)
          ]
    ]
  ]
