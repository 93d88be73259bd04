-- ===== src/Token/LoginToken.antt =====
-- What ValidateToken makes of a token that Login gave out.
use serveo_api_golang.Prelude.{
  ℕ, ◌+◌, ◌^◌, ◌<◌, ◌≡◌, ◌≢◌, refl, true, false, some, Option, arith, Bool-cases, Option-cases, inl,
  inr,
}
use serveo_api_golang.Text.{Str, codes, contains}
use serveo_api_golang.Http.{send_json}
use serveo_api_golang.Storage.{float64, Claim, Database, Bcrypt, Floats, Jwt}
use serveo_api_golang.Storage.Rows.{User}
use serveo_api_golang.Auth.{LoginRequest, login, login_claims, online, saved, check_password, day}
use serveo_api_golang.Token.{
  valid, is_pat, key_func, claim_as_uint, check_version, validate_claims, validate_token,
}

module _ (D : Database) (B : Bcrypt) {F : Floats} (J : Jwt F) (sha256_hex : Str → Str)
    (secret : Str) where
  open D use {Db, first, first_named, save_user, id-first, first-save_user, first-first_named}

  -- A whole number below 2 ^ 53 survives the way through a JSON number.
  claim_as_uint-of_ℕ : (n : ℕ) → n < 2 ^ 53 → claim_as_uint F (float64 (F.of_ℕ n)) ≡ some n
  unfolding claim_as_uint
  claim_as_uint-of_ℕ n h =
      ground (arith, F.is_negative-of_ℕ n h, F.is_whole-of_ℕ n h, F.to_uint-of_ℕ n h)

  -- the row that Login leaves behind, whether its Save works or not
  saved-row :
      (now : ℕ) (u : User) (d : Db)
      → first u.id d ≡ some u
      → (u' : User) × (first u.id (saved D B J (online D B J now u) d) ≡ some u')
        × (u'.token_version ≡ u.token_version)
        × (u'.permissions ≡ u.permissions)
  saved-row now u d found = elim (Option-cases (save_user (online D B J now u) d)) [
    | inl failed ↦ (u, ground arith, refl, refl)
    | inr (d', done) ↦ (
      online D B J now u,
      ground (arith, first-save_user u.id (online D B J now u) d d' done),
      refl,
      refl,
    )
  ]

  login-eq-ok :
      (invalid : LoginRequest → Option Str) (now : ℕ) (req : LoginRequest) (u : User) (d d' : Db)
      (token : Str)
      → first_named req.username d ≡ some u
      → login D B J secret invalid now (some req) d ≡ (d', send_json 200 token)
      → (J.sign J.hs256 (login_claims D B J now u) secret ≡ some token)
        × (d' ≡ saved D B J (online D B J now u) d)
  unfolding login
  login-eq-ok invalid now req u d d' token found e = elim (Option-cases (invalid req)) [
    | inr (message, bad) ↦ absurd (ground arith)
    | inl fine ↦ elim (Bool-cases (check_password B u req.password)) [
      | inr wrong ↦ absurd (ground arith)
      | inl right ↦ elim (Option-cases (J.sign J.hs256 (login_claims D B J now u) secret)) [
        | inl failed ↦ absurd (ground arith)
        | inr (t, signed) ↦ (ground arith, ground arith)
      ]
    ]
  ]

  validate_claims_of :
      (claims : Str → Claim F.Float) (i v : ℕ) (u : User) (d : Db)
      → claims (codes "sub") ≡ float64 (F.of_ℕ i)
      → claims (codes "token_version") ≡ float64 (F.of_ℕ v)
      → i ≢ 0
      → i < 2 ^ 53
      → v < 2 ^ 53
      → first i d ≡ some u
      → u.token_version ≡ v
      → validate_claims D J sha256_hex secret claims d ≡ valid i u.permissions
  unfolding validate_claims check_version
  validate_claims_of claims i v u d is_sub is_version nonzero small_i small_v found same =
      ground (arith, claim_as_uint-of_ℕ i small_i, claim_as_uint-of_ℕ v small_v)

  is_pat_of_dot : (token : Str) → contains token (codes ".") ≡ true → is_pat token ≡ false
  unfolding is_pat
  is_pat_of_dot token h = ground arith

  key_func-hs256 : key_func D J sha256_hex secret J.hs256 ≡ some secret
  unfolding key_func
  key_func-hs256 = ground (arith, J.is_hmac-hs256)

  -- If Login answers 200 to a user whose number is not 0 and below 2 ^ 53, like the token
  -- version, then until 24 hours after the login the token stands for the user and carries the
  -- permissions of the user's row, in the database that the login leaves.
  pub login_token_valid :
      (invalid : LoginRequest → Option Str) (now later : ℕ) (req : LoginRequest) (u : User)
      (d d' : Db) (token : Str)
      → first_named req.username d ≡ some u
      → u.id ≢ 0
      → u.id < 2 ^ 53
      → u.token_version < 2 ^ 53
      → later < now + day
      → login D B J secret invalid now (some req) d ≡ (d', send_json 200 token)
      → validate_token D J sha256_hex secret later token d' ≡ valid u.id u.permissions
  unfolding validate_token
  login_token_valid invalid now later req u d d' token found nonzero small_id small_v fresh e =
      let (signed, left) = login-eq-ok invalid now req u d d' token found e in
      let (u', row, same_v, same_p) =
        saved-row now u d (first-first_named req.username d u found) in
      let (claims, parsed, is_sub, is_version) =
        J.parse-sign J.hs256 (login_claims D B J now u) secret token
          (key_func D J sha256_hex secret) later signed key_func-hs256 fresh in
      ground (
        arith,
        is_pat_of_dot token
            (J.contains-sign J.hs256 (login_claims D B J now u) secret token signed),
        validate_claims_of claims u.id u.token_version u' (saved D B J (online D B J now u) d)
            is_sub is_version nonzero small_id small_v row same_v,
      )
