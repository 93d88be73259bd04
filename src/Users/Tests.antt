-- ===== src/Users/Tests.antt =====
-- The theorems on the user handlers at a small database.
use serveo_api_golang.Prelude.{◌≡◌, ◌≢◌, refl, true, none, some, [], ◌∷◌, arith}
use serveo_api_golang.Text.{Str, codes, text_eq, contains, has_prefix}
use serveo_api_golang.Text.Number.{digits, format_uint}
use serveo_api_golang.Http.{Context, write_header}
use serveo_api_golang.Storage.Rows.{User}
use serveo_api_golang.Storage.Memory.{Tables, memory, plain, clear}
use serveo_api_golang.Auth.{check_password}
use serveo_api_golang.Token.{valid, refused, is_pat, validate_token}
use serveo_api_golang.Users.{
  UpdateUserRequest, UpdatePasswordRequest, apply_update, map_to_response, update_user,
  update_user_password, update_me_password, delete_user,
}
use serveo_api_golang.Users.Revocation.{
  update_user_revokes, update_me_password_sets, update_user_password_revokes, PasswordSet,
}
use serveo_api_golang.Users.SelfDelete.{delete_user_self_zero}

abbrev alice : User
alice = record {
  id = 7;
  uuid = codes "a-1";
  username = codes "alice";
  password = codes "old secret";
  permissions = codes "files.*";
  profile_picture = [];
  status = codes "offline";
  last_connection = none;
  token_version = 3;
}

abbrev world : Tables
world = record { users = alice ∷ []; keys = [] }

abbrev ctx : Context
ctx = record { user_id = some 7; user_permissions = some (codes "files.*") }

abbrev token : Str
token = b'.' ∷ 7 ∷ 3 ∷ 1000 ∷ codes "key"

accepted :
    validate_token memory clear (λ t. t) (codes "key") 5 token world ≡ valid 7 (codes "files.*")
unfolding validate_token text_eq contains has_prefix
accepted = refl

abbrev narrow : UpdateUserRequest
narrow = record { permissions = some (codes "files.read"); profile_picture = none; status = none }

abbrev narrowed : Tables
narrowed = (update_user memory (λ r. none) (codes "7") (some narrow) world).0

fewer : codes "files.read" ≢ codes "files.*"
fewer e = cc

update_user_revokes_example :
    validate_token memory clear (λ t. t) (codes "key") 5 token narrowed
    ≡ refused (codes "token has been revoked")
unfolding update_user digits is_pat contains has_prefix text_eq
update_user_revokes_example =
    update_user_revokes memory clear (λ t. t) (codes "key") (λ r. none) (codes "7") 7 narrow alice
      (codes "files.read") world narrowed (map_to_response (apply_update narrow alice)) 5 token
      (codes "files.*") refl refl (omega arith) refl fewer refl refl accepted

abbrev change : UpdatePasswordRequest
change = record { old_password = codes "old secret"; new_password = codes "new secret" }

abbrev changed : Tables
changed = (update_me_password memory plain [] (λ r. none) ctx (some change) world).0

update_me_password_sets_example :
    (check_password plain alice (codes "old secret") ≡ true)
    × (codes "new secret" ≢ codes "old secret")
    × PasswordSet memory clear
        (λ t. t)
        (codes "key")
        plain
        7
        alice
        (codes "new secret")
        world
        changed
unfolding update_me_password text_eq
update_me_password_sets_example =
    update_me_password_sets memory clear (λ t. t) (codes "key") plain [] (λ r. none) ctx change 7
      alice world changed refl refl (omega arith) refl

abbrev reset : Tables
reset =
    (update_user_password memory plain [] (λ r. none) (codes "7") (some (codes "new secret"))
      world).0

update_user_password_revokes_example :
    PasswordSet memory clear (λ t. t) (codes "key") plain 7 alice (codes "new secret") world reset
    × (validate_token memory clear (λ t. t) (codes "key") 5 token reset
        ≡ refused (codes "token has been revoked"))
unfolding update_user_password digits is_pat contains has_prefix
update_user_password_revokes_example =
    update_user_password_revokes memory clear (λ t. t) (codes "key") plain [] (λ r. none)
      (codes "7") (codes "new secret") 7 alice world reset 5 token (codes "files.*") refl refl
      (omega arith) refl refl accepted

abbrev gone : Tables
gone = record { users = []; keys = [] }

delete_user_self_zero_example :
    (delete_user memory ctx (b'0' ∷ format_uint 7) world ≡ (gone, write_header 204))
    × (memory.first 7 gone ≡ none)
unfolding digits format_uint
delete_user_self_zero_example = delete_user_self_zero memory ctx 7 world gone refl refl
