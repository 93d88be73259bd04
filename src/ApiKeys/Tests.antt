-- ===== src/ApiKeys/Tests.antt =====
-- A key that is created at a small database.
use serveo_api_golang.Prelude.{arith, ℕ, ◌≡◌, refl, none, some, List, [], ◌∷◌}
use serveo_api_golang.Text.{codes, text_eq}
use serveo_api_golang.Text.Hex.{hex_encode}
use serveo_api_golang.Http.{Context}
use serveo_api_golang.Storage.Rows.{User}
use serveo_api_golang.Storage.Memory.{Tables, memory, clear}
use serveo_api_golang.Token.{valid, validate_token}
use serveo_api_golang.ApiKeys.{CreateApiKeyResponse, create_api_key}
use serveo_api_golang.ApiKeys.Issued.{api_key_valid}

abbrev alice : User
alice = record {
  id = 7;
  uuid = codes "a-1";
  username = codes "alice";
  password = codes "secret";
  permissions = codes "mcp.use";
  profile_picture = [];
  status = codes "online";
  last_connection = none;
  token_version = 0;
}

abbrev world : Tables
world = record { users = alice ∷ []; keys = [] }

abbrev ctx : Context
ctx = record { user_id = some 7; user_permissions = some (codes "mcp.use") }

abbrev bytes : List ℕ
bytes =
    255 ∷ 1 ∷ 2 ∷ 3 ∷ 4 ∷ 5 ∷ 6 ∷ 7 ∷ 8 ∷ 9 ∷ 10 ∷ 11 ∷ 12 ∷ 13 ∷ 14 ∷ 15 ∷ 16 ∷ 17 ∷ 18 ∷ 19 ∷ 20
    ∷ 21 ∷ 22 ∷ 23 ∷ 24 ∷ 25 ∷ 26 ∷ 27 ∷ 28 ∷ 29 ∷ 30 ∷ 31 ∷ []

abbrev with_key : Tables
with_key = (create_api_key memory (λ t. t) (some bytes) ctx (some (codes "bot")) world).0

abbrev answer : CreateApiKeyResponse
answer = record { id = 0; name = codes "bot"; token = hex_encode bytes }

api_key_valid_example :
    validate_token memory clear (λ t. t) (codes "key") 5 (hex_encode bytes) with_key
    ≡ valid 7 (codes "mcp.use")
unfolding create_api_key text_eq hex_encode
api_key_valid_example =
    api_key_valid memory clear (λ t. t) (codes "key") bytes ctx (codes "bot") 7 alice world with_key
      answer 5 refl refl (omega arith) refl refl
