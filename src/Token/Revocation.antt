-- ===== src/Token/Revocation.antt =====
-- Tokens are revoked when the user's token version moves on, and carry the database's permissions.
use serveo_api_golang.Prelude.{
  ℕ, ◌+◌, ◌%◌, ◌^◌, ◌<◌, ◌≡◌, ◌≢◌, refl, false, some, arith, Option-cases, inl, inr,
}
use serveo_api_golang.Text.{Str, codes}
use serveo_api_golang.Http.{Context, write_header}
use serveo_api_golang.Storage.{Database, Floats, Jwt, Claim}
use serveo_api_golang.Storage.Rows.{User}
use serveo_api_golang.Auth.{bump_token_version, logout}
use serveo_api_golang.Token.{
  Validated, valid, refused, claim_as_uint, is_pat, check_version, validate_claims, validate_token,
  key_func,
}

-- On 64 bits the next version is another one.
pub version_moves : (v : ℕ) → v < 2 ^ 64 → v ≢ (v + 1) % 2 ^ 64
version_moves v h e = omega arith

module _ (D : Database) {F : Floats} (J : Jwt F) (sha256_hex : Str → Str) (secret : Str) where
  open D use {Db, first, save_user, id-first, first-save_user}
  open F use {Float}

  abbrev validate : ℕ → Str → Db → Validated
  validate = validate_token D J sha256_hex secret

  -- The user's row in `d'` is the one in `d` with the next token version.
  pub record NextVersion (user_id : ℕ) (d d' : Db) : Type 0 where
    pub old : User
    pub new : User
    pub first_old : first user_id d ≡ some old
    pub first_new : first user_id d' ≡ some new
    pub in_range : old.token_version < 2 ^ 64
    pub next : new.token_version ≡ (old.token_version + 1) % 2 ^ 64

  abbrev revoked : Validated
  revoked = refused (codes "token has been revoked")

  -- What an accepted version says of the database.
  pub check_version-eq-valid :
      (i v j : ℕ) (p : Str) (d : Db)
      → check_version D J sha256_hex secret i v d ≡ valid j p
      → (u : User) × (first i d ≡ some u) × (i ≡ j) × (v ≡ u.token_version) × (p ≡ u.permissions)
  unfolding check_version
  check_version-eq-valid i v j p d h = elim (Option-cases (first i d)) [
    | inl missing ↦ absurd (ground arith)
    | inr (u, found) ↦ (u, found, ground arith, ground arith, ground arith)
  ]

  check_version-NextVersion :
      (i v : ℕ) (p : Str) {user_id : ℕ} {d d' : Db}
      → NextVersion user_id d d'
      → check_version D J sha256_hex secret i v d ≡ valid user_id p
      → check_version D J sha256_hex secret i v d' ≡ revoked
  check_version-NextVersion i v p {user_id} {d} {d'} n h =
      let (u, found, same_id, same_v, same_p) = check_version-eq-valid i v user_id p d h in
      unfold check_version in
      ground (arith, n.first_old, n.first_new, n.next, version_moves n.old.token_version n.in_range)

  validate_claims-NextVersion :
      (claims : Str → Claim Float) (p : Str) {user_id : ℕ} {d d' : Db}
      → NextVersion user_id d d'
      → validate_claims D J sha256_hex secret claims d ≡ valid user_id p
      → validate_claims D J sha256_hex secret claims d' ≡ revoked
  unfolding validate_claims
  validate_claims-NextVersion claims p n h =
      elim (Option-cases (claim_as_uint F (claims (codes "sub")))) [
        | inl missing ↦ absurd (ground arith)
        | inr (i, is_i) ↦ elim (Option-cases (claim_as_uint F (claims (codes "token_version")))) [
          | inl missing ↦ absurd (ground arith)
          | inr (v, is_v) ↦ ground (arith, check_version-NextVersion i v p n)
        ]
      ]

  -- A JWT that was accepted for the user before is refused as revoked afterwards.
  pub validate_token-NextVersion :
      (now : ℕ) (token p : Str) {user_id : ℕ} {d d' : Db}
      → NextVersion user_id d d'
      → is_pat token ≡ false
      → validate now token d ≡ valid user_id p
      → validate now token d' ≡ revoked
  unfolding validate_token
  validate_token-NextVersion now token p {user_id} {d} {d'} n not_pat h =
      elim (Option-cases (J.parse token (key_func D J sha256_hex secret) now)) [
        | inl bad ↦ absurd (ground arith)
        | inr (claims, parsed) ↦ ground (arith, validate_claims-NextVersion claims p n)
      ]

  -- Saving a row with the next version.
  pub save-NextVersion :
      (user_id : ℕ) (u u' : User) (d d' : Db)
      → first user_id d ≡ some u
      → u.token_version < 2 ^ 64
      → u'.id ≡ u.id
      → u'.token_version ≡ (u.token_version + 1) % 2 ^ 64
      → save_user u' d ≡ some d'
      → NextVersion user_id d d'
  save-NextVersion user_id u u' d d' found in_range same_id next saved = record {
    old = u;
    new = u';
    first_old = found;
    first_new = ground (arith, first-save_user user_id u' d d' saved, id-first user_id d u found);
    in_range = in_range;
    next = next;
  }

  logout-NextVersion :
      (ctx : Context) (user_id : ℕ) (u : User) (d d' : Db)
      → ctx.user_id ≡ some user_id
      → first user_id d ≡ some u
      → u.token_version < 2 ^ 64
      → logout D ctx d ≡ (d', write_header 204)
      → NextVersion user_id d d'
  unfolding logout
  logout-NextVersion ctx user_id u d d' logged_in found in_range e =
      elim (Option-cases
        (save_user (bump_token_version (record u { status = codes "offline" })) d)) [
          | inl failed ↦ absurd (ground arith)
          | inr (d'', saved) ↦
              save-NextVersion user_id u
                (bump_token_version (record u { status = codes "offline" })) d d' found in_range
                refl refl (ground arith)
        ]

  -- After a Logout that answers 204, every token without the form of an API key that was
  -- accepted for the user at some time before it is refused at that time as revoked, the
  -- version of the user's row being a number of 64 bits.
  pub logout_revokes :
      (ctx : Context) (user_id : ℕ) (u : User) (d d' : Db) (now : ℕ) (token p : Str)
      → ctx.user_id ≡ some user_id
      → first user_id d ≡ some u
      → u.token_version < 2 ^ 64
      → logout D ctx d ≡ (d', write_header 204)
      → is_pat token ≡ false
      → validate_token D J sha256_hex secret now token d ≡ valid user_id p
      → validate_token D J sha256_hex secret now token d' ≡ refused (codes "token has been revoked")
  logout_revokes ctx user_id u d d' now token p logged_in found in_range e not_pat h =
      validate_token-NextVersion now token p
        (logout-NextVersion ctx user_id u d d' logged_in found in_range e) not_pat h
