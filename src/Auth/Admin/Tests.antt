-- ===== src/Auth/Admin/Tests.antt =====
-- The first user on an empty database.
use serveo_api_golang.Prelude.{◌≡◌, refl, true, none, some, [], ◌∷◌}
use serveo_api_golang.Text.{Str, codes, text_eq}
use serveo_api_golang.Http.{send_json}
use serveo_api_golang.Storage.Rows.{User}
use serveo_api_golang.Storage.Memory.{Tables, memory, tables, plain, clear, find_named}
use serveo_api_golang.Rbac.{has_permission}
use serveo_api_golang.Auth.{login, hash_password}
use serveo_api_golang.Auth.Admin.{
  base64_encode, base64_digit, migrate_database, create_admin, first_password,
}
use serveo_api_golang.Auth.Admin.First.{migrate_database-login}

encoded : base64_encode (b'M' ∷ b'a' ∷ b'n' ∷ 255 ∷ []) ≡ codes "TWFu_w"
unfolding base64_encode base64_digit
encoded = refl

abbrev nobody : Tables
nobody = record { users = []; keys = [] }

abbrev migrated : Tables
migrated = (migrate_database memory tables plain (some (codes "s3cret")) none [] nobody).0

migrate_database-login_example :
    (u : User) × (d2 : Tables) × (token : Str) × (find_named
        (codes "admin")
        migrated.users
        migrated.users
      ≡ some u)
    × (login memory plain clear
          (codes "key")
          (λ r. none)
          50
          (some (record { username = codes "admin"; password = codes "s3cret" }))
          migrated
        ≡ (d2, send_json 200 token))
    × ((required : Str) → has_permission u.permissions required ≡ true)
unfolding migrate_database first_password text_eq create_admin hash_password
migrate_database-login_example =
    migrate_database-login memory tables plain clear (codes "key") (λ r. none) 50
      (some (codes "s3cret")) none [] (codes "s3cret") nobody nobody migrated
      (λ c. (b'.' ∷ c.sub ∷ c.token_version ∷ c.exp ∷ codes "key", refl)) refl refl refl refl refl
