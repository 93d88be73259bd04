-- ===== src/ApiKeys.antt =====
-- internal/modules/v2/apikeys: handler.go and model.go.
pub mod Issued
mod Tests
use serveo_api_golang.Prelude.{
  ℕ, ◌++◌, Bool, Option, none, some, List, [], ◌∷◌, map, if◌then◌else◌, take, ◌==◌,
}
use serveo_api_golang.Text.{Str, codes, text_eq}
use serveo_api_golang.Text.Hex.{hex_encode}
use serveo_api_golang.Http.{
  Context, Response, send_error, send_json, get_user_id, get_user_id_or_unauthorized,
}
use serveo_api_golang.Storage.{Database}
use serveo_api_golang.Storage.Rows.{ApiKey}

pub record CreateApiKeyResponse : Type 0 where
  pub id : ℕ
  pub name : Str
  pub token : Str

pub record ApiKeyResponse : Type 0 where
  pub id : ℕ
  pub name : Str
  pub prefix : Str
  pub created_at : ℕ

-- The 32 bytes that crypto/rand gives, `none` where it fails.
unfoldable pub generate_secure_token : Option (List ℕ) → Option Str
generate_secure_token none = none
generate_secure_token (some bytes) = some (hex_encode bytes)

abbrev pub key_response : ApiKey → ApiKeyResponse
key_response k = record { id = k.id; name = k.name; prefix = k.prefix; created_at = k.created_at }

module _ (D : Database) where
  open D use {Db, create_key, find_keys, delete_key}

  module _ (sha256_hex : Str → Str) where
    -- hashToken
    unfoldable pub hash_token : Str → Str
    hash_token token = sha256_hex token

    -- The row before the database numbers and dates it; `prefix` shows four characters.
    abbrev pub new_key : ℕ → Str → Str → ApiKey
    new_key user_id name token = record {
      id = 0;
      user_id = user_id;
      name = name;
      token_hash = hash_token token;
      prefix = codes "srv_" ++ take 4 token;
      created_at = 0;
    }

    -- CreateApiKey; `body` is the name that the decoder reads
    unfoldable pub create_api_key :
        Option (List ℕ) → Context → Option Str → Db → Db × Response CreateApiKeyResponse
    unfolding get_user_id generate_secure_token
    create_api_key random ctx body d = elim (get_user_id ctx) [
      | none ↦ (d, send_error 401 (codes "Unauthorized"))
      | some user_id ↦ elim body [
        | none ↦ (d, send_error 400 (codes "Invalid request body"))
        | some name ↦
            if text_eq name []
            then (d, send_error 400 (codes "Name is required"))
            else elim (generate_secure_token random) [
              | none ↦ (d, send_error 500 (codes "Failed to generate token"))
              | some token ↦ elim (create_key (new_key user_id name token) d) [
                | none ↦ (d, send_error 500 (codes "Failed to save API key"))
                | some (key, d') ↦
                    (d', send_json 201 (record { id = key.id; name = key.name; token = token }))
              ]
            ]
      ]
    ]

  unfoldable pub list_api_keys : Context → Db → Db × Response (List ApiKeyResponse)
  unfolding get_user_id_or_unauthorized
  list_api_keys ctx d = get_user_id_or_unauthorized ctx d λ user_id. elim (find_keys user_id d) [
    | none ↦ (d, send_error 500 (codes "Failed to fetch keys"))
    | some keys ↦ (d, send_json 200 (map key_response keys))
  ]

  -- RevokeApiKey; `id` is the path value
  unfoldable pub revoke_api_key : Context → Str → Db → Db × Response Str
  unfolding get_user_id_or_unauthorized
  revoke_api_key ctx id d = get_user_id_or_unauthorized ctx d λ user_id.
      if text_eq id []
      then (d, send_error 400 (codes "Key ID required"))
      else elim (delete_key id user_id d) [
        | none ↦ (d, send_error 500 (codes "Failed to delete key"))
        | some (rows_affected, d') ↦
            if rows_affected == 0
            then (d', send_error 404 (codes "Key not found"))
            else (d', send_json 200 (codes "API Key revoked successfully"))
      ]
