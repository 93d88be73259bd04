-- ===== src/Token/Guard.antt =====
-- A route behind JWTAuth and RequirePermission, as every RegisterRoutes builds it.
use serveo_api_golang.Prelude.{ℕ, ◌≡◌, refl, true, ◌⊎◌, [], ◌++◌, arith, Bool-cases, inl, inr}
use serveo_api_golang.Text.{Str, codes, text_eq}
use serveo_api_golang.Http.{
  Request, Response, Handler, send_error, set_user_id, set_user_permissions,
}
use serveo_api_golang.Rbac.{has_permission, require_permission}
use serveo_api_golang.Storage.{Database, Floats, Jwt}
use serveo_api_golang.Auth.{bearer_token}
use serveo_api_golang.Token.{Validated, valid, refused, validate_token, jwt_auth}

Validated-cases :
    (v : Validated)
    → ((message : Str) × (v ≡ refused message)) ⊎ ((i : ℕ) × (p : Str) × (v ≡ valid i p))
Validated-cases (refused message) = inl (message, refl)
Validated-cases (valid i p) = inr (i, p, refl)

module _ (D : Database) {F : Floats} (J : Jwt F) (sha256_hex : Str → Str) (secret : Str) where
  open D use {Db}

  -- registerRoute(methodPath, perm, handler)
  unfoldable pub guarded : {S A : Type 0} → (S → Db) → ℕ → Str → Handler S A → Handler S A
  unfolding jwt_auth require_permission
  guarded db now perm next = jwt_auth D J sha256_hex secret db now (require_permission perm next)

  -- The request as the handler sees it.
  abbrev pub authenticated : ℕ → Str → Request → Request
  authenticated user_id permissions r = record r {
    context = set_user_id (set_user_permissions r.context permissions) user_id;
  }

  -- The three ways in which a guarded route can end.
  pub data Outcome {S A : Type 0} (db : S → Db) (now : ℕ) (perm : Str) (next : Handler S A)
      (r : Request) (s : S) (out : S × Response A) : Type 0 where
    unauthorized :
        (message : Str) → out ≡ (s, send_error 401 message) → Outcome db now perm next r s out
    forbidden :
        (message : Str) → out ≡ (s, send_error 403 message) → Outcome db now perm next r s out
    admitted :
        (user_id : ℕ) (permissions : Str)
        → validate_token D J sha256_hex secret now (bearer_token r) (db s)
          ≡ valid user_id permissions
        → has_permission permissions perm ≡ true
        → out ≡ next (authenticated user_id permissions r) s
        → Outcome db now perm next r s out

  module _ {S A : Type 0} (db : S → Db) (now : ℕ) (perm : Str) (next : Handler S A) where
    -- A guarded route answers 401 or 403 and leaves the state alone, or else the bearer token was
    -- validated, the permissions that it stands for grant the route's permission, and the answer
    -- is the handler's on the request with that user and those permissions in its context.
    pub guarded-Outcome :
        (r : Request) (s : S) → Outcome db now perm next r s (guarded db now perm next r s)
    unfolding guarded
    guarded-Outcome r s = elim (Bool-cases (text_eq (bearer_token r) [])) [
      | inl missing ↦
          unauthorized (codes "Missing Authorization header or token parameter") (ground arith)
      | inr present ↦
          elim (Validated-cases
            (validate_token D J sha256_hex secret now (bearer_token r) (db s))) [
              | inl (message, bad) ↦ unauthorized message (ground arith)
              | inr (i, p, good) ↦ elim (Bool-cases (has_permission p perm)) [
                | inl granted ↦ admitted i p good granted (ground arith)
                | inr denied ↦
                    forbidden (codes "Access Denied: Missing permission '" ++ perm ++ codes "'")
                      (ground arith)
              ]
            ]
    ]
