-- ===== src/Storage/Rows.antt =====
-- internal/modules/v2/auth/model.go and internal/modules/v2/apikeys/model.go: the rows.
use serveo_api_golang.Prelude.{ℕ, Option}
use serveo_api_golang.Text.{Str}

-- The dates that gorm.Model adds are left out: no code reads them.
pub record User : Type 0 where
  pub id : ℕ
  pub uuid : Str
  pub username : Str
  pub password : Str
  pub permissions : Str
  pub profile_picture : Str
  pub status : Str
  pub last_connection : Option ℕ
  -- the 64 bits of a Go int
  pub token_version : ℕ

pub record ApiKey : Type 0 where
  pub id : ℕ
  pub user_id : ℕ
  pub name : Str
  pub token_hash : Str
  pub prefix : Str
  pub created_at : ℕ
