-- ===== src/Http.antt =====
-- internal/core/response/response.go, internal/core/contextkeys/keys.go and
-- internal/modules/v2/common/auth.go: what a handler reads of a request and what it answers.
use serveo_api_golang.Prelude.{ℕ, Option, none, some}
use serveo_api_golang.Text.{Str, codes}

-- The values that the authentication middleware puts in the request's context.
pub record Context : Type 0 where
  pub user_id : Option ℕ
  pub user_permissions : Option Str

-- The parts of http.Request that the handlers read; a missing header, query or path value is "".
pub record Request : Type 0 where
  pub method : Str
  pub remote_addr : Str
  pub header : Str → Str
  pub query : Str → Str
  pub path_value : Str → Str
  pub context : Context

unfoldable pub set_user_id : Context → ℕ → Context
set_user_id ctx id = record ctx { user_id = some id }

unfoldable pub set_user_permissions : Context → Str → Context
set_user_permissions ctx permissions = record ctx { user_permissions = some permissions }

unfoldable pub get_user_id : Context → Option ℕ
get_user_id ctx = ctx.user_id

unfoldable pub get_user_permissions : Context → Option Str
get_user_permissions ctx = ctx.user_permissions

-- What is sent: an error text, a payload, or a status alone.
pub data Response (A : Type 0) : Type 0 where
  send_error : ℕ → Str → Response A
  send_json : ℕ → A → Response A
  write_header : ℕ → Response A

abbrev pub status : {A : Type 0} → Response A → ℕ
status (send_error code message) = code
status (send_json code payload) = code
status (write_header code) = code

-- A handler reads the request and changes the state that it shares with the others.
abbrev pub Handler : Type 0 → Type 0 → Type 0
Handler S A = Request → S → S × Response A

-- common.GetUserIDOrUnauthorized, with the rest of the handler
unfoldable pub get_user_id_or_unauthorized :
    {S A : Type 0} → Context → S → (ℕ → S × Response A) → S × Response A
unfolding get_user_id
get_user_id_or_unauthorized ctx s next = elim (get_user_id ctx) [
  | none ↦ (s, send_error 401 (codes "Unauthorized"))
  | some user_id ↦ next user_id
]
