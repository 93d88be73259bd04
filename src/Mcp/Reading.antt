-- ===== src/Mcp/Reading.antt =====
-- internal/modules/v2/mcp/tools.go: the tools docker_list, docker_logs and file_read, and the load of
-- the cooldowns.
pub mod Files
mod Tests
use serveo_api_golang.Prelude.{
  Bool, true, false, not, Option, none, some, List, [], ◌∷◌, ◌++◌, ◌⊎◌, inl, inr, if◌then◌else◌,
}
use serveo_api_golang.Text.{Str, codes}
use serveo_api_golang.Http.{Context}
use serveo_api_golang.FilePath.{clean, or_dot}
use serveo_api_golang.FileSystem.{Node, dir, file, Place, get}
use serveo_api_golang.Files.Root.{is_valid_server, root_place, strip_slashes, stat}
use serveo_api_golang.Docker.Engine.{Summary, Client}
use serveo_api_golang.Mcp.{ToolResult, tool_text, tool_error, permission_error, Reboots, Shared}

-- loadCooldowns, on the file if it can be read; `unmarshal` is what json.Unmarshal makes of the map
unfoldable pub load_cooldowns :
    {W : Type 0} → (Str → Reboots → Reboots) → Option Str → Shared W → Shared W
load_cooldowns unmarshal none s = s
load_cooldowns unmarshal (some b) s = record s { last_reboot = unmarshal b s.last_reboot }

abbrev first_name : List Str → Str
first_name [] = codes "unknown"
first_name (name ∷ names) = name

-- the loop of docker_list
unfoldable pub container_lines : List Summary → Str
container_lines [] = []
container_lines (c ∷ cs) =
    codes "- Name: "
    ++ first_name c.names
    ++ codes " | Status: "
    ++ c.status
    ++ codes " | State: "
    ++ c.state
    ++ codes "\n"
    ++ container_lines cs

abbrev listed : List Summary ⊎ Str → ToolResult
listed (inr e) = tool_error (codes "failed to list containers: " ++ e)
listed (inl cs) = tool_text (codes "Containers:\n" ++ container_lines cs)

-- the tool docker_list; `none` is a missing client
unfoldable pub docker_list : {W : Type 0} → Context → Option (Client W) → W → W × ToolResult
docker_list ctx docker w = elim (permission_error ctx (codes "docker.read")) [
  | some e ↦ (w, tool_error e)
  | none ↦ elim docker [
    | none ↦ (w, tool_error (codes "Docker client unavailable"))
    | some cli ↦ let (w', r) = cli.container_list w in (w', listed r)
  ]
]

abbrev logged : Option Str ⊎ Str → ToolResult
logged (inr e) = tool_error (codes "failed to get logs: " ++ e)
logged (inl none) = tool_error (codes "failed to read logs stream")
logged (inl (some text)) = tool_text text

-- The arguments of a call by their names, where they are a map; an argument that is missing or no
-- text is "".
abbrev pub Arguments : Type 0
Arguments = Option (Str → Str)

-- the tool docker_logs; `logs` is ContainerLogs with the reading of the stream
unfoldable pub docker_logs :
    {W : Type 0}
    → Context
    → Option (Str → W → W × (Option Str ⊎ Str))
    → Arguments
    → W
    → W × ToolResult
docker_logs ctx docker arguments w = elim (permission_error ctx (codes "docker.read")) [
  | some e ↦ (w, tool_error e)
  | none ↦ elim docker [
    | none ↦ (w, tool_error (codes "Docker client unavailable"))
    | some logs ↦ elim arguments [
      | none ↦ (w, tool_error (codes "Invalid arguments format"))
      | some args ↦ let (w', r) = logs (args (codes "container_name")) w in (w', logged r)
    ]
  ]
]

-- the path below the container's directory
unfoldable pub normalized : Str → Str
unfolding clean strip_slashes
normalized req_path = or_dot (strip_slashes (clean req_path))

abbrev pub opened_file : Option Node → ToolResult
opened_file none = tool_error (codes "File not found or cannot be read")
opened_file (some (dir o es)) = tool_error (codes "Failed to read file content")
opened_file (some (file o s)) = tool_text s

abbrev pub opened_root : Place → Str → Option Node → Node → ToolResult
opened_root root path none t = tool_error (codes "Cannot open root directory safely")
opened_root root path (some (file o s)) t = tool_error (codes "Cannot open root directory safely")
opened_root root path (some (dir o es)) t = opened_file (stat root path t)

-- file_read after the test of the arguments; `docker` tells which containers there are
unfoldable pub read_below : Str → Option (Str → Bool) → Str → Str → Node → ToolResult
read_below mount_root docker container_name req_path t =
    if not (is_valid_server container_name)
    then tool_error (codes "Invalid container name format")
    else elim docker [
      | none ↦ tool_error (codes "Docker client unavailable")
      | some has_container ↦
          if not (has_container container_name)
          then tool_error (codes "Container not found or inaccessible")
          else opened_root (root_place mount_root container_name) (normalized req_path)
              (get (root_place mount_root container_name) (some t)) t
    ]

-- the tool file_read
unfoldable pub file_read : Str → Option (Str → Bool) → Context → Arguments → Node → ToolResult
file_read mount_root docker ctx arguments t = elim (permission_error ctx (codes "files.read")) [
  | some e ↦ tool_error e
  | none ↦ elim arguments [
    | none ↦ tool_error (codes "Invalid arguments format")
    | some args ↦
        read_below mount_root docker (args (codes "container_name")) (args (codes "file_path")) t
  ]
]
