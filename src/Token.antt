-- ===== src/Token.antt =====
-- internal/core/middleware/token.go and jwt.go: who a token stands for.
pub mod Revocation
pub mod Guard
pub mod LoginToken
mod Tests
use serveo_api_golang.Prelude.{
  ℕ, ◌+◌, ◌^◌, ◌%◌, Bool, true, false, ◌&&◌, ◌||◌, not, Option, none, some, if◌then◌else◌, ◌==◌,
  length, [], any,
}
use serveo_api_golang.Text.{Str, codes, text_eq, contains}
use serveo_api_golang.Text.Number.{ℤ, pos, negsuc, parse_uint}
use serveo_api_golang.Http.{
  Context, Request, Response, Handler, send_error, set_user_id, set_user_permissions,
}
use serveo_api_golang.Storage.{
  Database, Floats, Jwt, Claim, float64, int64, int, string, other_claim,
}
use serveo_api_golang.Auth.{bearer_token}

pub data Validated : Type 0 where
  valid : ℕ → Str → Validated
  refused : Str → Validated

abbrev nonnegative : ℤ → Option ℕ
nonnegative (pos n) = some n
nonnegative (negsuc n) = none

module _ (F : Floats) where
  open F use {Float, is_negative, is_whole, to_uint}

  unfoldable pub claim_as_uint : Claim Float → Option ℕ
  claim_as_uint (float64 v) = if is_negative v || not (is_whole v) then none else some (to_uint v)
  claim_as_uint (int64 v) = nonnegative v
  claim_as_uint (int v) = nonnegative v
  claim_as_uint (string v) = parse_uint v
  claim_as_uint other_claim = none

-- a Personal Access Token: 64 bytes and no dot
unfoldable pub is_pat : Str → Bool
is_pat token = length token == 64 && not (contains token (codes "."))

module _ (D : Database) {F : Floats} (J : Jwt F) (sha256_hex : Str → Str) (secret : Str) where
  open D use {Db, first, scan_key}
  open F use {Float}

  -- the key function: HMAC methods alone get the secret
  unfoldable pub key_func : J.Method → Option Str
  key_func m = if J.is_hmac m then some secret else none

  unfoldable pub validate_pat : Str → Db → Validated
  validate_pat token d = elim (scan_key (sha256_hex token) d) [
    | none ↦ refused (codes "invalid or revoked API Key")
    | some (user_id, permissions) ↦
        if user_id == 0
        then refused (codes "invalid or revoked API Key")
        else valid user_id permissions
  ]

  unfoldable pub check_version : ℕ → ℕ → Db → Validated
  check_version user_id token_version d = elim (first user_id d) [
    | none ↦ refused (codes "user not found")
    | some user ↦
        if token_version == user.token_version
        then valid user_id user.permissions
        else refused (codes "token has been revoked")
  ]

  unfoldable pub validate_claims : (Str → Claim Float) → Db → Validated
  unfolding claim_as_uint check_version
  validate_claims claims d = elim (claim_as_uint F (claims (codes "sub"))) [
    | none ↦ refused (codes "invalid token subject")
    | some user_id ↦
        if user_id == 0
        then refused (codes "invalid token subject")
        else elim (claim_as_uint F (claims (codes "token_version"))) [
          | none ↦ refused (codes "invalid token version")
          | some token_version ↦ check_version user_id token_version d
        ]
  ]

  -- ValidateToken at a time; the claims of jwt.Parse are always jwt.MapClaims
  unfoldable pub validate_token : ℕ → Str → Db → Validated
  unfolding is_pat validate_pat validate_claims key_func
  validate_token now token d =
      if is_pat token then validate_pat token d else elim (J.parse token key_func now) [
        | none ↦ refused (codes "invalid or expired JWT token")
        | some claims ↦ validate_claims claims d
      ]

  -- JWTAuth around a handler whose state holds the database
  unfoldable pub jwt_auth : {S A : Type 0} → (S → Db) → ℕ → Handler S A → Handler S A
  unfolding bearer_token set_user_permissions set_user_id
  jwt_auth db now next r s =
      let token = bearer_token r in
      if text_eq token []
      then (s, send_error 401 (codes "Missing Authorization header or token parameter"))
      else elim (validate_token now token (db s)) [
        | refused message ↦ (s, send_error 401 message)
        | valid user_id permissions ↦
            next
              (record r {
                context = set_user_id (set_user_permissions r.context permissions) user_id;
              })
              s
      ]
