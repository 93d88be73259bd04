-- ===== src/Rbac.antt =====
-- internal/core/middleware/rbac.go and internal/core/permissions/registry.go.
pub mod Grants
pub mod Catalog
pub mod Lists
mod Tests
use serveo_api_golang.Prelude.{ℕ, Bool, ◌&&◌, ◌||◌, none, some, ◌++◌, if◌then◌else◌, any}
use serveo_api_golang.Text.{
  Str, codes, text_eq, split, trim_space, has_suffix, trim_suffix, has_prefix,
}
use serveo_api_golang.Http.{Handler, Request, get_user_permissions, send_error}

-- one round of the loop of HasPermission, on a part of the list with its white space taken off
unfoldable pub part_grants : Str → Str → Bool
part_grants p required_perm =
    text_eq p (codes "*")
    || text_eq p required_perm
    || (has_suffix p (codes ".*")
        && has_prefix required_perm (trim_suffix p (codes ".*") ++ codes "."))

unfoldable pub has_permission : Str → Str → Bool
has_permission user_permissions required_perm =
    any (λ p. part_grants (trim_space p) required_perm) (split user_permissions b',')

unfoldable pub require_permission : {S A : Type 0} → Str → Handler S A → Handler S A
unfolding get_user_permissions
require_permission required_perm next r s = elim (get_user_permissions r.context) [
  | none ↦ (s, send_error 403 (codes "Access Denied: No permissions found"))
  | some user_perms ↦ if has_permission user_perms required_perm then next r s else (
    s,
    send_error 403 (codes "Access Denied: Missing permission '" ++ required_perm ++ codes "'"),
  )
]
