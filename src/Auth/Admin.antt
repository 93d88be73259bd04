-- ===== src/Auth/Admin.antt =====
-- internal/modules/v2/auth/model.go: MigrateDatabase, which creates the first user.
pub mod First
mod Tests
use serveo_api_golang.Prelude.{
  ℕ, ◌+◌, ◌-◌, ◌*◌, ◌/◌, ◌%◌, Bool, true, false, Option, none, some, List, [], ◌∷◌, if◌then◌else◌,
  ltb, ◌==◌,
}
use serveo_api_golang.Text.{Str, codes, text_eq}
use serveo_api_golang.Storage.{Database, Schema, Bcrypt}
use serveo_api_golang.Storage.Rows.{User}
use serveo_api_golang.Auth.{hash_password}

-- the alphabet of base64.RawURLEncoding
unfoldable pub base64_digit : ℕ → ℕ
base64_digit n =
    if ltb n 26
    then b'A' + n
    else if ltb n 52
    then b'a' + (n - 26)
    else if ltb n 62
    then b'0' + (n - 52)
    else if n == 62
    then b'-'
    else b'_'

-- EncodeToString of base64.RawURLEncoding
unfoldable pub base64_encode : List ℕ → Str
unfolding base64_digit
base64_encode [] = []
base64_encode (a ∷ []) = base64_digit (a / 4) ∷ base64_digit ((a % 4) * 16) ∷ []
base64_encode (a ∷ b ∷ []) =
    base64_digit (a / 4) ∷ base64_digit ((a % 4) * 16 + b / 16) ∷ base64_digit ((b % 16) * 4) ∷ []
base64_encode (a ∷ b ∷ c ∷ s) =
    base64_digit (a / 4)
    ∷ base64_digit ((a % 4) * 16 + b / 16)
    ∷ base64_digit ((b % 16) * 4 + c / 64)
    ∷ base64_digit (c % 64)
    ∷ base64_encode s

-- generatePassword, on the sixteen bytes that crypto/rand gives or refuses
unfoldable pub generate_password : Option (List ℕ) → Option Str
unfolding base64_encode
generate_password none = none
generate_password (some buf) = some (base64_encode buf)

-- the password of the first user: ADMIN_PASSWORD where it is set and not empty
unfoldable pub first_password : Option Str → Option (List ℕ) → Option Str
first_password none random = generate_password random
first_password (some value) random =
    if text_eq value [] then generate_password random else some value

abbrev pub default_admin : User
default_admin = record {
  id = 0;
  uuid = [];
  username = codes "admin";
  password = [];
  permissions = codes "*";
  profile_picture = [];
  status = [];
  last_connection = none;
  token_version = 0;
}

module _ (D : Database) (S : Schema D) (B : Bcrypt) where
  open D use {Db, insert_user}
  open S use {auto_migrate, count_users}

  unfoldable pub create_admin : Str → Str → Db → Db × Bool
  create_admin salt password d = elim (hash_password B salt default_admin password) [
    | none ↦ (d, false)
    | some admin ↦ elim (insert_user admin d) [ none ↦ (d, false) | some (u, d') ↦ (d', true) ]
  ]

  -- MigrateDatabase, and whether it returns without an error
  unfoldable pub migrate_database : Option Str → Option (List ℕ) → Str → Db → Db × Bool
  migrate_database admin_password random salt d = elim (auto_migrate d) [
    | none ↦ (d, false)
    | some d1 ↦ elim (count_users d1) [
      | none ↦ (d1, false)
      | some count ↦
          if ltb 0 count then (d1, true) else elim (first_password admin_password random) [
            | none ↦ (d1, false)
            | some password ↦ create_admin salt password d1
          ]
    ]
  ]
