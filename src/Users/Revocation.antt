-- ===== src/Users/Revocation.antt =====
-- The user handlers that change a password or the permissions revoke the user's tokens.
use serveo_api_golang.Prelude.{
  ℕ, ◌+◌, ◌%◌, ◌^◌, ◌<◌, ◌≡◌, ◌≢◌, refl, true, false, some, Option, arith, Option-cases, inl, inr,
}
use serveo_api_golang.Text.{Str, codes, text_eq_iff}
use serveo_api_golang.Text.Number.{digits}
use serveo_api_golang.Http.{Context, write_header, send_json}
use serveo_api_golang.Storage.{Database, Bcrypt, Floats, Jwt}
use serveo_api_golang.Storage.Rows.{User}
use serveo_api_golang.Auth.{bump_token_version, hash_password, check_password}
use serveo_api_golang.Token.{valid, refused, is_pat, validate_token}
use serveo_api_golang.Token.Revocation.{NextVersion, save-NextVersion, validate_token-NextVersion}
use serveo_api_golang.Users.{
  UpdateUserRequest, UpdatePasswordRequest, UserResponse, apply_update, update_user,
  update_user_password, update_me_password,
}

-- A change of the permissions moves the token version on; without one it stays.
pub apply_update-version :
    (req : UpdateUserRequest) (u : User) (p : Str)
    → req.permissions ≡ some p
    → p ≢ u.permissions
    → (apply_update req u).token_version ≡ (u.token_version + 1) % 2 ^ 64
unfolding apply_update
apply_update-version req u p e h = ground (arith, text_eq_iff p u.permissions)

apply_update-id : (req : UpdateUserRequest) (u : User) → (apply_update req u).id ≡ u.id
unfolding apply_update
apply_update-id req u = ground arith

-- what a successful HashPassword leaves
hash_password-eq-some :
    (B : Bcrypt) (salt password : Str) (u u' : User)
    → hash_password B salt u password ≡ some u'
    → (hashed : Str) × (B.generate salt password ≡ some hashed)
      × (u' ≡ record u { password = hashed })
unfolding hash_password
hash_password-eq-some B salt password u u' e = elim (Option-cases (B.generate salt password)) [
  | inl failed ↦ absurd (ground arith)
  | inr (hashed, made) ↦ (hashed, made, ground arith)
]

module _ (D : Database) {F : Floats} (J : Jwt F) (sha256_hex : Str → Str) (secret : Str) where
  open D use {Db, first, first_text, save_user, id-first, first-save_user, first_text-digits}

  update_user-NextVersion :
      (invalid : UpdateUserRequest → Option Str) (id : Str) (user_id : ℕ) (req : UpdateUserRequest)
      (u : User) (p : Str) (d d' : Db) (answer : UserResponse)
      → digits id ≡ some user_id
      → first user_id d ≡ some u
      → u.token_version < 2 ^ 64
      → req.permissions ≡ some p
      → p ≢ u.permissions
      → update_user D invalid id (some req) d ≡ (d', send_json 200 answer)
      → NextVersion D J sha256_hex secret user_id d d'
  unfolding update_user
  update_user-NextVersion invalid id user_id req u p d d' answer read found in_range given differs
        e =
      elim (Option-cases (invalid req)) [
        | inr (message, bad) ↦ absurd (ground arith)
        | inl fine ↦ elim (Option-cases (save_user (apply_update req u) d)) [
          | inl failed ↦ absurd (ground (arith, first_text-digits id user_id d read))
          | inr (d'', saved) ↦
              save-NextVersion D J sha256_hex secret user_id u (apply_update req u) d d' found
                in_range (apply_update-id req u) (apply_update-version req u p given differs)
                (ground (arith, first_text-digits id user_id d read))
        ]
      ]

  -- An UpdateUser that answers 200 and changes the permissions of a user whom the path names by
  -- number refuses, as revoked, every token without the form of an API key that was accepted
  -- for the user before, the version of the user's row being a number of 64 bits.
  pub update_user_revokes :
      (invalid : UpdateUserRequest → Option Str) (id : Str) (user_id : ℕ) (req : UpdateUserRequest)
      (u : User) (p : Str) (d d' : Db) (answer : UserResponse) (now : ℕ) (token q : Str)
      → digits id ≡ some user_id
      → first user_id d ≡ some u
      → u.token_version < 2 ^ 64
      → req.permissions ≡ some p
      → p ≢ u.permissions
      → update_user D invalid id (some req) d ≡ (d', send_json 200 answer)
      → is_pat token ≡ false
      → validate_token D J sha256_hex secret now token d ≡ valid user_id q
      → validate_token D J sha256_hex secret now token d' ≡ refused (codes "token has been revoked")
  update_user_revokes invalid id user_id req u p d d' answer now token q read found in_range given
        differs e not_pat h =
      validate_token-NextVersion D J sha256_hex secret now token q
        (update_user-NextVersion invalid id user_id req u p d d' answer read found in_range given
          differs e)
        not_pat h

  module _ (B : Bcrypt) where
    -- The row in `d'` has the new password and the next version, and is otherwise the old one.
    pub record PasswordSet (user_id : ℕ) (u : User) (new_password : Str) (d d' : Db) : Type 0 where
      pub hashed : Str
      pub stored : first user_id d' ≡ some (bump_token_version (record u { password = hashed }))
      pub accepted : B.matches hashed new_password ≡ true
      pub moved : NextVersion D J sha256_hex secret user_id d d'

    PasswordSet-save :
        (salt new_password : Str) (user_id : ℕ) (u hashed : User) (d d' : Db)
        → first user_id d ≡ some u
        → u.token_version < 2 ^ 64
        → hash_password B salt u new_password ≡ some hashed
        → save_user (bump_token_version hashed) d ≡ some d'
        → PasswordSet user_id u new_password d d'
    unfolding bump_token_version
    PasswordSet-save salt new_password user_id u hashed d d' found in_range made saved =
        let (h, generated, same) = hash_password-eq-some B salt new_password u hashed made in
        let u' : User = bump_token_version (record u { password = h }) in
        let saved' : save_user u' d ≡ some d' = rw same at saved in
        record {
          hashed = h;
          stored =
              ground (arith, first-save_user user_id u' d d' saved', id-first user_id d u found);
          accepted = B.matches-generate salt new_password h generated;
          moved =
              save-NextVersion D J sha256_hex secret user_id u u' d d' found in_range refl refl
                saved';
        }

    -- An UpdateMePassword that answers 204 was asked by a user who knew the old password and
    -- gave another one. It stores a hash that accepts the new password, moves the token
    -- version, a number of 64 bits, on, and leaves the rest of the row as it was.
    pub update_me_password_sets :
        (salt : Str) (invalid : UpdatePasswordRequest → Option Str) (ctx : Context)
        (req : UpdatePasswordRequest) (user_id : ℕ) (u : User) (d d' : Db)
        → ctx.user_id ≡ some user_id
        → first user_id d ≡ some u
        → u.token_version < 2 ^ 64
        → update_me_password D B salt invalid ctx (some req) d ≡ (d', write_header 204)
        → (check_password B u req.old_password ≡ true)
          × (req.new_password ≢ req.old_password)
          × PasswordSet user_id u req.new_password d d'
    unfolding update_me_password
    update_me_password_sets salt invalid ctx req user_id u d d' logged_in found in_range e =
        elim (Option-cases (hash_password B salt u req.new_password)) [
          | inl failed ↦ absurd (ground arith)
          | inr (hashed, made) ↦ elim (Option-cases (save_user (bump_token_version hashed) d)) [
            | inl failed ↦ absurd (ground arith)
            | inr (d'', saved) ↦ (
              ground arith,
              ground (arith, text_eq_iff req.new_password req.old_password),
              PasswordSet-save salt req.new_password user_id u hashed d d' found in_range made
                  (ground arith),
            )
          ]
        ]

    update_user_password-PasswordSet :
        (salt : Str) (invalid : Str → Option Str) (id new_password : Str) (user_id : ℕ) (u : User)
        (d d' : Db)
        → digits id ≡ some user_id
        → first user_id d ≡ some u
        → u.token_version < 2 ^ 64
        → update_user_password D B salt invalid id (some new_password) d ≡ (d', write_header 204)
        → PasswordSet user_id u new_password d d'
    unfolding update_user_password
    update_user_password-PasswordSet salt invalid id new_password user_id u d d' read found in_range
          e =
        elim (Option-cases (hash_password B salt u new_password)) [
          | inl failed ↦ absurd (ground (arith, first_text-digits id user_id d read))
          | inr (hashed, made) ↦ elim (Option-cases (save_user (bump_token_version hashed) d)) [
            | inl failed ↦ absurd (ground (arith, first_text-digits id user_id d read))
            | inr (d'', saved) ↦
                PasswordSet-save salt new_password user_id u hashed d d' found in_range made
                  (ground (arith, first_text-digits id user_id d read))
          ]
        ]

    -- After an UpdateUserPassword that answers 204, the path naming the user by number, the
    -- stored hash accepts the new password, and every token without the form of an API key that
    -- was accepted for the user before is refused as revoked, the version of the user's row
    -- being a number of 64 bits.
    pub update_user_password_revokes :
        (salt : Str) (invalid : Str → Option Str) (id new_password : Str) (user_id : ℕ) (u : User)
        (d d' : Db) (now : ℕ) (token p : Str)
        → digits id ≡ some user_id
        → first user_id d ≡ some u
        → u.token_version < 2 ^ 64
        → update_user_password D B salt invalid id (some new_password) d ≡ (d', write_header 204)
        → is_pat token ≡ false
        → validate_token D J sha256_hex secret now token d ≡ valid user_id p
        → PasswordSet user_id u new_password d d'
          × (validate_token D J sha256_hex secret now token d'
              ≡ refused (codes "token has been revoked"))
    update_user_password_revokes salt invalid id new_password user_id u d d' now token p read found
          in_range e not_pat h =
        let set =
          update_user_password-PasswordSet salt invalid id new_password user_id u d d' read found
            in_range e in
        (set, validate_token-NextVersion D J sha256_hex secret now token p set.moved not_pat h)
