-- ===== src/Users.antt =====
-- internal/modules/v2/users: handler.go and me.go.
pub mod Revocation
pub mod SelfDelete
mod Tests
use serveo_api_golang.Prelude.{
  ℕ, Bool, true, false, not, Option, none, some, List, map, if◌then◌else◌, [],
}
use serveo_api_golang.Text.{Str, codes, text_eq}
use serveo_api_golang.Text.Number.{format_uint}
use serveo_api_golang.Http.{Context, Response, send_error, send_json, write_header, get_user_id}
use serveo_api_golang.Storage.{Database, Bcrypt}
use serveo_api_golang.Storage.Rows.{User}
use serveo_api_golang.Auth.{bump_token_version, hash_password, check_password}

pub record CreateUserRequest : Type 0 where
  pub username : Str
  pub password : Str
  pub permissions : Str
  pub profile_picture : Str

-- a field that the body leaves out is `none`
pub record UpdateUserRequest : Type 0 where
  pub permissions : Option Str
  pub profile_picture : Option Str
  pub status : Option Str

pub record UpdatePasswordRequest : Type 0 where
  pub old_password : Str
  pub new_password : Str

pub record UserResponse : Type 0 where
  pub id : ℕ
  pub uuid : Str
  pub username : Str
  pub permissions : Str
  pub profile_picture : Str
  pub status : Str
  pub last_connection : Option ℕ

unfoldable pub map_to_response : User → UserResponse
map_to_response u = record {
  id = u.id;
  uuid = u.uuid;
  username = u.username;
  permissions = u.permissions;
  profile_picture = u.profile_picture;
  status = u.status;
  last_connection = u.last_connection;
}

abbrev new_user : CreateUserRequest → User
new_user req = record {
  id = 0;
  uuid = [];
  username = req.username;
  password = [];
  permissions = req.permissions;
  profile_picture = req.profile_picture;
  status = codes "offline";
  last_connection = none;
  token_version = 0;
}

abbrev set_or : Option Str → Str → Str
set_or none old = old
set_or (some new) old = new

-- the change of permissions in UpdateUser, which revokes the user's tokens
unfoldable pub apply_permissions : Option Str → User → User
unfolding bump_token_version
apply_permissions none u = u
apply_permissions (some p) u =
    if text_eq p u.permissions then u else bump_token_version (record u { permissions = p })

-- the three assignments of UpdateUser
unfoldable pub apply_update : UpdateUserRequest → User → User
unfolding apply_permissions
apply_update req u =
    let u' = apply_permissions req.permissions u in
    record u' {
      profile_picture = set_or req.profile_picture u'.profile_picture;
      status = set_or req.status u'.status;
    }

module _ (D : Database) where
  open D use {Db, first, first_text, find_users, insert_user, save_user, erase_user}

  unfoldable pub get_users : Db → Db × Response (List UserResponse)
  unfolding map_to_response
  get_users d = elim (find_users d) [
    | none ↦ (d, send_error 500 (codes "Error fetching users"))
    | some users ↦ (d, send_json 200 (map map_to_response users))
  ]

  unfoldable pub get_me : Context → Db → Db × Response UserResponse
  unfolding get_user_id map_to_response
  get_me ctx d = elim (get_user_id ctx) [
    | none ↦ (d, send_error 401 (codes "Unauthorized"))
    | some user_id ↦ elim (first user_id d) [
      | none ↦ (d, send_error 404 (codes "User not found"))
      | some user ↦ (d, send_json 200 (map_to_response user))
    ]
  ]

  -- UpdateUser; `id` is the path value, `body` what the decoder gives
  unfoldable pub update_user :
      (UpdateUserRequest → Option Str)
      → Str
      → Option UpdateUserRequest
      → Db
      → Db × Response UserResponse
  unfolding apply_update map_to_response
  update_user invalid id none d = (d, send_error 400 (codes "Invalid body"))
  update_user invalid id (some req) d = elim (invalid req) [
    | some message ↦ (d, send_error 400 message)
    | none ↦ elim (first_text id d) [
      | none ↦ (d, send_error 404 (codes "User not found"))
      | some user ↦ elim (save_user (apply_update req user) d) [
        | none ↦ (d, send_error 500 (codes "Could not update user"))
        | some d' ↦ (d', send_json 200 (map_to_response (apply_update req user)))
      ]
    ]
  ]

  -- the path value is the number of the user that asks, in decimal digits
  unfoldable pub is_self : Context → Str → Bool
  unfolding get_user_id
  is_self ctx id = elim (get_user_id ctx) [
    | none ↦ false
    | some user_id ↦ text_eq id (format_uint user_id)
  ]

  unfoldable pub delete_user : Context → Str → Db → Db × Response (Unit {0})
  unfolding is_self
  delete_user ctx id d =
      if is_self ctx id
      then (d, send_error 400 (codes "Cannot delete your own account"))
      else elim (erase_user id d) [
        | none ↦ (d, send_error 500 (codes "Could not delete user"))
        | some d' ↦ (d', write_header 204)
      ]

  module _ (B : Bcrypt) where
    unfoldable pub create_user :
        Str
        → (CreateUserRequest → Option Str)
        → Option CreateUserRequest
        → Db
        → Db × Response UserResponse
    unfolding hash_password map_to_response
    create_user salt invalid none d = (d, send_error 400 (codes "Invalid body"))
    create_user salt invalid (some req) d = elim (invalid req) [
      | some message ↦ (d, send_error 400 message)
      | none ↦ elim (hash_password B salt (new_user req) req.password) [
        | none ↦ (d, send_error 500 (codes "Error hashing password"))
        | some user ↦ elim (insert_user user d) [
          | none ↦ (d, send_error 409 (codes "Could not create user (username might exist)"))
          | some (created, d') ↦ (d', send_json 201 (map_to_response created))
        ]
      ]
    ]

    -- UpdateUserPassword; the body is its new password
    unfoldable pub update_user_password :
        Str → (Str → Option Str) → Str → Option Str → Db → Db × Response (Unit {0})
    unfolding hash_password bump_token_version
    update_user_password salt invalid id none d = (d, send_error 400 (codes "Invalid body"))
    update_user_password salt invalid id (some new_password) d = elim (invalid new_password) [
      | some message ↦ (d, send_error 400 message)
      | none ↦ elim (first_text id d) [
        | none ↦ (d, send_error 404 (codes "User not found"))
        | some user ↦ elim (hash_password B salt user new_password) [
          | none ↦ (d, send_error 500 (codes "Error hashing password"))
          | some hashed ↦ elim (save_user (bump_token_version hashed) d) [
            | none ↦ (d, send_error 500 (codes "Could not save new password"))
            | some d' ↦ (d', write_header 204)
          ]
        ]
      ]
    ]

    unfoldable pub update_me_password :
        Str
        → (UpdatePasswordRequest → Option Str)
        → Context
        → Option UpdatePasswordRequest
        → Db
        → Db × Response (Unit {0})
    unfolding get_user_id check_password hash_password bump_token_version
    update_me_password salt invalid ctx body d = elim (get_user_id ctx) [
      | none ↦ (d, send_error 401 (codes "Unauthorized"))
      | some user_id ↦ elim body [
        | none ↦ (d, send_error 400 (codes "Invalid body"))
        | some req ↦ elim (invalid req) [
          | some message ↦ (d, send_error 400 message)
          | none ↦
              if text_eq req.new_password req.old_password
              then (d, send_error 400 (codes "New password must differ from old password"))
              else elim (first user_id d) [
                | none ↦ (d, send_error 404 (codes "User not found"))
                | some user ↦
                    if check_password B user req.old_password
                    then elim (hash_password B salt user req.new_password) [
                      | none ↦ (d, send_error 500 (codes "Could not hash new password"))
                      | some hashed ↦ elim (save_user (bump_token_version hashed) d) [
                        | none ↦ (d, send_error 500 (codes "Could not save new password"))
                        | some d' ↦ (d', write_header 204)
                      ]
                    ]
                    else (d, send_error 401 (codes "Invalid old password"))
              ]
        ]
      ]
    ]
