-- ===== src/Rbac/Tests.antt =====
-- Runs of HasPermission.
use serveo_api_golang.Prelude.{◌≡◌, ◌↔◌, refl, true, false, ◌||◌, [], ◌∷◌, ◌++◌, Some, here, there}
use serveo_api_golang.Text.{Str, codes, split, join, trim_space}
use serveo_api_golang.Rbac.{has_permission}
use serveo_api_golang.Rbac.Grants.{Grants, has_permission_iff}
use serveo_api_golang.Rbac.Lists.{docker_read, has_permission-concat, catalog-lacks-docker_read}

abbrev perms : Str
perms = codes "docker.container.read, files.*"

has_permission_iff_example :
    (has_permission perms (codes "files.read") ≡ true)
    ↔ Some (λ p. Grants (trim_space p) (codes "files.read")) (split perms b',')
has_permission_iff_example = has_permission_iff perms (codes "files.read")

has_permission-concat_example :
    has_permission (perms ++ b',' ∷ codes "server.*") (codes "server.manage") ≡ (
      has_permission perms (codes "server.manage")
      || has_permission (codes "server.*") (codes "server.manage"))
has_permission-concat_example =
    has_permission-concat perms (codes "server.*") (codes "server.manage")

catalog-lacks-docker_read_example :
    has_permission
      (join (codes "users.manage" ∷ codes "docker.containers.read" ∷ []) b',')
      docker_read
    ≡ false
catalog-lacks-docker_read_example =
    catalog-lacks-docker_read (codes "users.manage" ∷ codes "docker.containers.read" ∷ [])
      (here refl, (there (here refl), tt))
