-- ===== src/Storage.antt =====
-- What the handlers ask of the database (gorm over SQLite), of bcrypt and of the JWT package.
-- These are not part of the repository: each is a record of operations with the documented
-- behaviour that the program relies on.
pub mod Rows
pub mod Memory
use serveo_api_golang.Prelude.{
  ℕ, ◌^◌, ◌<◌, ◌≡◌, ◌≢◌, Bool, true, false, Option, none, some, List, if◌then◌else◌, ◌==◌, Some,
}
use serveo_api_golang.Text.{Str, codes, contains}
use serveo_api_golang.Text.Number.{ℤ, digits}
use serveo_api_golang.Storage.Rows.{User, ApiKey}

-- The database. `none` is any error that gorm reports, a missing record of First among them. The
-- two laws on texts of digits are those for the numbers that rows have: gorm takes a text of 2^63
-- or more for a condition in SQL, and no row has such a number.
pub record Database : Type 1 where
  pub Db : Type 0
  -- First(&user, id) by a number, by a text of the request, and by the user's name
  pub first : ℕ → Db → Option User
  pub first_text : Str → Db → Option User
  pub first_named : Str → Db → Option User
  pub find_users : Db → Option (List User)
  pub insert_user : User → Db → Option (User × Db)
  pub save_user : User → Db → Option Db
  -- Unscoped().Delete(&User{}, id) by a text of the request
  pub erase_user : Str → Db → Option Db
  -- The join of api_keys and users by token hash: the user's number and permissions, 0 and ""
  -- where no row fits.
  pub scan_key : Str → Db → Option (ℕ × Str)
  pub create_key : ApiKey → Db → Option (ApiKey × Db)
  pub find_keys : ℕ → Db → Option (List ApiKey)
  -- Where("id = ? AND user_id = ?").Delete: the number of rows that went
  pub delete_key : Str → ℕ → Db → Option (ℕ × Db)
  pub id-first : (i : ℕ) (d : Db) (u : User) → first i d ≡ some u → u.id ≡ i
  pub first-first_named :
      (s : Str) (d : Db) (u : User) → first_named s d ≡ some u → first u.id d ≡ some u
  pub first-save_user :
      (i : ℕ) (u : User) (d d' : Db)
      → save_user u d ≡ some d'
      → first i d' ≡ (if i == u.id then some u else first i d)
  pub first_text-digits :
      (s : Str) (n : ℕ) (d : Db) → digits s ≡ some n → first_text s d ≡ first n d
  -- the row that is created is found by its hash, which no other row has
  pub scan-create_key :
      (k k' : ApiKey) (d d' : Db) (u : User)
      → create_key k d ≡ some (k', d')
      → first k.user_id d ≡ some u
      → scan_key k.token_hash d' ≡ some (k.user_id, u.permissions)
  pub first-erase_user :
      (s : Str) (n i : ℕ) (d d' : Db)
      → digits s ≡ some n
      → erase_user s d ≡ some d'
      → first i d' ≡ (if i == n then none else first i d)

-- AutoMigrate and Count of the users' table. In a table without rows the row that is created is
-- found by its name, with the fields that were given.
pub record Schema (D : Database) : Type 0 where
  pub auto_migrate : D.Db → Option D.Db
  pub count_users : D.Db → Option ℕ
  pub first_named-insert_user :
      (u u' : User) (d d' : D.Db)
      → count_users d ≡ some 0
      → D.insert_user u d ≡ some (u', d')
      → (D.first_named u.username d' ≡ some u')
        × (u'.password ≡ u.password)
        × (u'.permissions ≡ u.permissions)

-- bcrypt; `salt` stands for the randomness of a call.
pub record Bcrypt : Type 0 where
  pub generate : Str → Str → Option Str
  pub matches : Str → Str → Bool
  pub matches-generate :
      (salt password hash : Str) → generate salt password ≡ some hash → matches hash password ≡ true

-- A value of jwt.MapClaims, over the type of float64.
pub data Claim (Float : Type 0) : Type 0 where
  float64 : Float → Claim Float
  int64 int : ℤ → Claim Float
  string : Str → Claim Float
  other_claim : Claim Float

-- The claims that Login signs.
pub record LoginClaims : Type 0 where
  pub sub : ℕ
  pub username : Str
  pub permissions : Str
  pub token_version : ℕ
  pub exp : ℕ

-- float64 numbers; those below 2 ^ 53 are exact.
pub record Floats : Type 1 where
  pub Float : Type 0
  pub of_ℕ : ℕ → Float
  pub is_negative : Float → Bool
  pub is_whole : Float → Bool
  pub to_uint : Float → ℕ
  pub is_negative-of_ℕ : (n : ℕ) → n < 2 ^ 53 → is_negative (of_ℕ n) ≡ false
  pub is_whole-of_ℕ : (n : ℕ) → n < 2 ^ 53 → is_whole (of_ℕ n) ≡ true
  pub to_uint-of_ℕ : (n : ℕ) → n < 2 ^ 53 → to_uint (of_ℕ n) ≡ n

-- The JWT package. A key function gives the key for a signing method or refuses it; `parse` gives
-- the claims of a token whose signature and expiry are good at the given time.
pub record Jwt (F : Floats) : Type 1 where
  pub Method : Type 0
  pub is_hmac : Method → Bool
  pub hs256 : Method
  pub is_hmac-hs256 : is_hmac hs256 ≡ true
  pub sign : Method → LoginClaims → Str → Option Str
  pub parse : Str → (Method → Option Str) → ℕ → Option (Str → Claim F.Float)
  -- a token is three parts with dots between them
  pub contains-sign :
      (m : Method) (c : LoginClaims) (key token : Str)
      → sign m c key ≡ some token
      → contains token (codes ".") ≡ true
  -- A token that was signed with a key that the key function gives reads, before its expiry, as
  -- its claims, with numbers as float64.
  pub parse-sign :
      (m : Method) (c : LoginClaims) (key token : Str) (key_func : Method → Option Str) (now : ℕ)
      → sign m c key ≡ some token
      → key_func m ≡ some key
      → now < c.exp
      → (claims : Str → Claim F.Float) × (parse token key_func now ≡ some claims)
        × (claims (codes "sub") ≡ float64 (F.of_ℕ c.sub))
        × (claims (codes "token_version") ≡ float64 (F.of_ℕ c.token_version))
