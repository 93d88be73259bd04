-- ===== src/Rbac/Catalog.antt =====
-- internal/core/permissions/registry.go: the catalog of scopes.
use serveo_api_golang.Prelude.{String, List, ◌≡◌, Some, ◌++◌, [], ◌∷◌, ◌++◌}
use serveo_api_golang.Text.{Str, codes}

-- Scope
pub record Scope : Type 0 where
  pub key : String
  pub label : String

-- Group
pub record Group : Type 0 where
  pub resource : String
  pub label : String
  pub scopes : List Scope

abbrev scope_of : String → String → Scope
scope_of key label = record { key = key; label = label }

abbrev group_of : String → String → List Scope → Group
group_of resource label scopes = record { resource = resource; label = label; scopes = scopes }

-- Catalog
abbrev pub catalog : List Group
catalog =
    group_of "users" "Users" (scope_of "users.manage" "Manage users" ∷ [])
    ∷ group_of "docker.containers" "Containers" (
        scope_of "docker.containers.read" "View"
        ∷ scope_of "docker.containers.write" "Create & control"
        ∷ scope_of "docker.containers.delete" "Delete"
        ∷ [])
    ∷ group_of "docker.images" "Images" (
        scope_of "docker.images.read" "View"
        ∷ scope_of "docker.images.write" "Pull"
        ∷ scope_of "docker.images.delete" "Delete"
        ∷ [])
    ∷ group_of "docker.volumes" "Volumes" (
        scope_of "docker.volumes.read" "View"
        ∷ scope_of "docker.volumes.write" "Create"
        ∷ scope_of "docker.volumes.delete" "Delete"
        ∷ [])
    ∷ group_of "docker.networks" "Networks" (
        scope_of "docker.networks.read" "View"
        ∷ scope_of "docker.networks.write" "Create"
        ∷ scope_of "docker.networks.delete" "Delete"
        ∷ [])
    ∷ group_of "docker.system" "Docker system" (
        scope_of "docker.system.read" "View info & events"
        ∷ scope_of "docker.system.delete" "Prune"
        ∷ [])
    ∷ group_of "docker.compose" "Compose" (scope_of "docker.compose.write" "Deploy stacks" ∷ [])
    ∷ group_of "templates" "Templates" (scope_of "templates.read" "View & deploy" ∷ [])
    ∷ group_of "files" "Files" (
        scope_of "files.read" "View & download"
        ∷ scope_of "files.write" "Edit, upload & delete"
        ∷ [])
    ∷ group_of "backups" "Backups"
        (scope_of "backups.read" "View" ∷ scope_of "backups.write" "Create & restore" ∷ [])
    ∷ group_of "metrics" "Metrics" (scope_of "metrics.read" "View history" ∷ [])
    ∷ group_of "system" "System" (scope_of "system.read" "View host stats" ∷ [])
    ∷ group_of "metadata" "Metadata" (scope_of "metadata.read" "View" ∷ [])
    ∷ group_of "ovh" "OVH"
        (scope_of "ovh.read" "View servers" ∷ scope_of "ovh.write" "Reboot servers" ∷ [])
    ∷ group_of "firewall" "Firewall" (
        scope_of "firewall.read" "View status & rules"
        ∷ scope_of "firewall.write" "Manage rules"
        ∷ [])
    ∷ group_of "mcp" "MCP" (scope_of "mcp.use" "Use MCP server" ∷ [])
    ∷ []

abbrev keys_of : List Scope → List Str
keys_of [] = []
keys_of (s ∷ ss) = codes s.key ∷ keys_of ss

abbrev pub keys : List Group → List Str
keys [] = []
keys (g ∷ gs) = keys_of g.scopes ++ keys gs

-- The scope stands in the catalog.
abbrev pub IsCatalogued : Str → Type 0
IsCatalogued k = Some (λ j. j ≡ k) (keys catalog)
