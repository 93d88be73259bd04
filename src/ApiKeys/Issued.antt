-- ===== src/ApiKeys/Issued.antt =====
-- A key that CreateApiKey gives out is one that ValidateToken takes, and only its hash is stored.
use serveo_api_golang.Prelude.{ℕ, ◌≡◌, ◌≢◌, true, some, List, arith, length, Option-cases, inl, inr}
use serveo_api_golang.Text.{Str}
use serveo_api_golang.Text.Hex.{hex_encode, length-hex_encode, contains-hex_encode}
use serveo_api_golang.Http.{Context, send_json}
use serveo_api_golang.Storage.{Database, Floats, Jwt}
use serveo_api_golang.Storage.Rows.{User}
use serveo_api_golang.Token.{valid, is_pat, validate_pat, validate_token}
use serveo_api_golang.ApiKeys.{CreateApiKeyResponse, new_key, create_api_key, hash_token}

is_pat-hex_encode : (bytes : List ℕ) → length bytes ≡ 32 → is_pat (hex_encode bytes) ≡ true
unfolding is_pat
is_pat-hex_encode bytes h = ground (arith, length-hex_encode bytes, contains-hex_encode bytes)

module _ (D : Database) {F : Floats} (J : Jwt F) (sha256_hex : Str → Str) (secret : Str) where
  open D use {Db, first, create_key, scan_key, scan-create_key}

  -- If CreateApiKey answers 201 to a user whose number is not 0, with 32 random bytes, then its
  -- token stands for the user and carries the permissions of the user's row, whatever the time.
  pub api_key_valid :
      (bytes : List ℕ) (ctx : Context) (name : Str) (user_id : ℕ) (u : User) (d d' : Db)
      (answer : CreateApiKeyResponse) (now : ℕ)
      → length bytes ≡ 32
      → ctx.user_id ≡ some user_id
      → user_id ≢ 0
      → first user_id d ≡ some u
      → create_api_key D sha256_hex (some bytes) ctx (some name) d ≡ (d', send_json 201 answer)
      → validate_token D J sha256_hex secret now answer.token d' ≡ valid user_id u.permissions
  unfolding create_api_key
  api_key_valid bytes ctx name user_id u d d' answer now h logged_in nonzero found e =
      elim (Option-cases (create_key (new_key D sha256_hex user_id name (hex_encode bytes)) d)) [
        | inl failed ↦ absurd (ground arith)
        | inr ((key, d''), made) ↦
            let is_token : answer.token ≡ hex_encode bytes = ground arith in
            let same : d' ≡ d'' = ground arith in
            rw (is_token, same)
              (unfold validate_token validate_pat hash_token in
                ground (
                  arith,
                  is_pat-hex_encode bytes h,
                  scan-create_key (new_key D sha256_hex user_id name (hex_encode bytes)) key d d'' u
                      made found,
                ))
      ]
