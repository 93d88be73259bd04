-- ===== src/Auth/Admin/First.antt =====
-- The first user can log in, and may do everything.
use serveo_api_golang.Prelude.{
  ℕ, ◌≡◌, refl, sym, ap, ◌∙◌, true, Option, none, some, List, arith, Option-cases, inl, inr,
}
use serveo_api_golang.Text.{Str, codes, text_eq, split, trim_space}
use serveo_api_golang.Http.{send_json}
use serveo_api_golang.Storage.{Database, Schema, Bcrypt, Floats, Jwt, LoginClaims}
use serveo_api_golang.Storage.Rows.{User}
use serveo_api_golang.Rbac.{has_permission, part_grants}
use serveo_api_golang.Auth.{
  LoginRequest, hash_password, check_password, login, login_claims, online, saved,
}
use serveo_api_golang.Auth.Admin.{first_password, default_admin, create_admin, migrate_database}

has_permission-all : (required : Str) → has_permission (codes "*") required ≡ true
unfolding has_permission part_grants split text_eq trim_space
has_permission-all required = refl

module _ (D : Database) (S : Schema D) (B : Bcrypt) where
  open D use {Db, first_named, insert_user}
  open S use {auto_migrate, count_users, first_named-insert_user}

  -- the row of the first user, as the database returns it
  abbrev IsAdmin : Str → User → Type 0
  IsAdmin password u = (u.permissions ≡ codes "*") × (B.matches u.password password ≡ true)

  create_admin-IsAdmin :
      (salt password : Str) (d d' : Db)
      → count_users d ≡ some 0
      → create_admin D S B salt password d ≡ (d', true)
      → (u : User) × (first_named (codes "admin") d' ≡ some u) × IsAdmin password u
  unfolding create_admin hash_password
  create_admin-IsAdmin salt password d d' empty e = elim (Option-cases (B.generate salt password)) [
    | inl failed ↦ absurd (ground arith)
    | inr (hash, hashed) ↦
        let admin = record default_admin { password = hash } in
        elim (Option-cases (insert_user admin d)) [
          | inl failed ↦ absurd (ground arith)
          | inr ((u, d2), done) ↦
              let d2_is : d2 ≡ d' = ground arith in
              let (found, same_password, same_permissions) =
                first_named-insert_user admin u d d2 empty done in
              (
                u,
                ap (first_named (codes "admin")) (sym d2_is) ∙ found,
                (
                  same_permissions,
                  ap (λ p. B.matches p password) same_password
                      ∙ B.matches-generate salt password hash hashed,
                ),
              )
        ]
  ]

  migrate_database-IsAdmin :
      (admin_password : Option Str) (random : Option (List ℕ)) (salt password : Str) (d d1 d' : Db)
      → auto_migrate d ≡ some d1
      → count_users d1 ≡ some 0
      → first_password admin_password random ≡ some password
      → migrate_database D S B admin_password random salt d ≡ (d', true)
      → (u : User) × (first_named (codes "admin") d' ≡ some u) × IsAdmin password u
  unfolding migrate_database
  migrate_database-IsAdmin admin_password random salt password d d1 d' migrated empty chosen e =
      create_admin-IsAdmin salt password d1 d' empty (ground arith)

  -- Let every token be signed, and let a MigrateDatabase that finds no user return without an
  -- error, with a password that passes the validator. Then Login answers 200 to "admin" with the
  -- password that was chosen, the text of ADMIN_PASSWORD or a generated one, and the permissions
  -- of the user grant whatever a route requires.
  pub migrate_database-login :
      {F : Floats} (J : Jwt F) (secret : Str) (invalid : LoginRequest → Option Str) (now : ℕ)
      (admin_password : Option Str) (random : Option (List ℕ)) (salt password : Str) (d d1 d' : Db)
      → ((c : LoginClaims) → (token : Str) × (J.sign J.hs256 c secret ≡ some token))
      → auto_migrate d ≡ some d1
      → count_users d1 ≡ some 0
      → first_password admin_password random ≡ some password
      → migrate_database D S B admin_password random salt d ≡ (d', true)
      → invalid (record { username = codes "admin"; password = password }) ≡ none
      → (u : User) × (d2 : Db) × (token : Str) × (first_named (codes "admin") d' ≡ some u)
        × (login D B J secret invalid now
              (some (record { username = codes "admin"; password = password }))
              d'
            ≡ (d2, send_json 200 token))
        × ((required : Str) → has_permission u.permissions required ≡ true)
  unfolding login check_password
  migrate_database-login J secret invalid now admin_password random salt password d d1 d' signs
        migrated empty chosen e fine =
      let (u, found, (everything, matching)) =
        migrate_database-IsAdmin admin_password random salt password d d1 d' migrated empty chosen
          e in
      let (token, signed) = signs (login_claims D B J now u) in
      (
        u,
        saved D B J (online D B J now u) d',
        token,
        found,
        ground (arith, found, matching, signed, fine),
        λ required. ap (λ p. has_permission p required) everything ∙ has_permission-all required,
      )
