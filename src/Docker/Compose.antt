-- ===== src/Docker/Compose.antt =====
-- internal/modules/v2/docker/handler_compose.go: the deployment of a stack.
pub mod Volumes
pub mod Deploy
pub mod Deployment
mod Tests
use serveo_api_golang.Prelude.{
  ◌⊎◌, inl, inr, ℕ, Bool, true, false, not, ◌&&◌, ◌||◌, Option, none, some, List, [], ◌∷◌, ◌++◌,
  if◌then◌else◌, leb, ◌==◌, all,
}
use serveo_api_golang.Text.{Str, codes, text_eq, has_prefix, contains_any, cut_head}
use serveo_api_golang.Http.{Response, send_error, send_json}
use serveo_api_golang.FilePath.{is_abs, clean, join_path}
use serveo_api_golang.Docker.Paths.{is_bind_source_allowed}

-- What the YAML decoder gives: strings, maps from strings, sequences, and all other values.
mutual
  pub data Yaml : Type 0 where
    string : Str → Yaml
    mapping : Entries → Yaml
    sequence : Items → Yaml
    scalar : Yaml

  pub data Entries : Type 0 where
    no_entries : Entries
    entry : Str → Yaml → Entries → Entries

  pub data Items : Type 0 where
    no_items : Items
    item : Yaml → Items → Items

-- `m[key]`
unfoldable pub lookup : Str → Entries → Option Yaml
lookup key no_entries = none
lookup key (entry k v rest) = if text_eq k key then some v else lookup key rest

-- the text of a source in the long form
abbrev source_text : Option Yaml → Str
source_text (some (string src)) = src ++ codes ":..."
source_text _ = []

-- volStr of validateVolume
unfoldable pub volume_text : Yaml → Str
unfolding lookup
volume_text (string v) = v
volume_text (mapping m) = source_text (lookup (codes "source") m)
volume_text _ = []

-- the end of validateVolume, on the source; `none` is no error
unfoldable pub validate_source : Str → Str → Str → Option Str
validate_source src service_name allowed_root =
    if not (contains_any src (codes "/\\")) && not (has_prefix src (codes "."))
    then none
    else if has_prefix src (codes ".") || not (is_abs (clean src))
    then some (
        codes "Security Error: Relative paths in volumes are forbidden in service '"
        ++ service_name
        ++ codes "'")
    else if not (is_bind_source_allowed src allowed_root)
    then some (
        codes "Security Error: Bind mounts are restricted to "
        ++ allowed_root
        ++ codes " in service '"
        ++ service_name
        ++ codes "'")
    else none

-- validateVolume
unfoldable pub validate_volume : Yaml → Str → Str → Option Str
unfolding volume_text validate_source
validate_volume vol service_name allowed_root =
    if text_eq (volume_text vol) []
    then none
    else validate_source (cut_head (volume_text vol) b':') service_name allowed_root

abbrev first_error : Option Str → Option Str → Option Str
first_error none rest = rest
first_error (some e) rest = some e

-- the loop over the volumes of a service
unfoldable pub validate_items : Items → Str → Str → Option Str
unfolding validate_volume
validate_items no_items service_name allowed_root = none
validate_items (item vol rest) service_name allowed_root =
    first_error (validate_volume vol service_name allowed_root)
      (validate_items rest service_name allowed_root)

-- the volumes of a service, where it has a sequence of them
unfoldable pub volumes_of : Yaml → Items
unfolding lookup
volumes_of (mapping m) = elim (lookup (codes "volumes") m) [
  | some (sequence volumes) ↦ volumes
  | _ ↦ no_items
]
volumes_of _ = no_items

-- the loop over the services, in the order that the map gives
unfoldable pub validate_services : Entries → Str → Option Str
unfolding validate_items volumes_of
validate_services no_entries allowed_root = none
validate_services (entry name service rest) allowed_root =
    first_error (validate_items (volumes_of service) name allowed_root)
      (validate_services rest allowed_root)

abbrev services_of : Option Yaml → Entries
services_of (some (mapping services)) = services
services_of _ = no_entries

-- validateComposeVolumes
unfoldable pub validate_compose_volumes : Entries → Str → Option Str
unfolding validate_services lookup
validate_compose_volumes compose allowed_root =
    validate_services (services_of (lookup (codes "services") compose)) allowed_root

pub record DeployStackRequest : Type 0 where
  pub name : Str
  pub content : Str

pub record DeployOutput : Type 0 where
  pub message : Str
  pub output : Str

-- [a-zA-Z0-9_-]
unfoldable pub is_name_byte : ℕ → Bool
is_name_byte c =
    (leb b'a' c && leb c b'z')
    || (leb b'A' c && leb c b'Z')
    || (leb b'0' c && leb c b'9')
    || c == b'_'
    || c == b'-'

-- validStackNameRegex
unfoldable pub is_valid_stack_name : Str → Bool
unfolding is_name_byte
is_valid_stack_name s = not (text_eq s []) && all is_name_byte s

-- The YAML decoder, and the machine that the program runs on: os.MkdirAll and os.WriteFile, which
-- tell whether they failed, and the command `docker` with its output.
pub record Host (W : Type 0) : Type 0 where
  pub unmarshal : Str → (Entries ⊎ Str)
  pub temp_dir : Str
  pub mkdir_all : Str → W → W × Bool
  pub write_file : Str → Str → W → W × Bool
  pub docker : List Str → W → W × (Bool × Str)

module _ {W : Type 0} (host : Host W) where
  abbrev up_args : Str → Str → List Str
  up_args file name =
      codes "compose" ∷ codes "-f" ∷ file ∷ codes "-p" ∷ name ∷ codes "up" ∷ codes "-d" ∷ []

  abbrev up_answer : W × (Bool × Str) → W × Response DeployOutput
  up_answer (w, (true, out)) = (w, send_error 500 (codes "Docker Compose failed: " ++ out))
  up_answer (w, (false, out)) =
      (w, send_json 201 (record { message = codes "Stack deployed successfully"; output = out }))

  -- executeDeploy
  unfoldable pub execute_deploy : DeployStackRequest → W → W × Response DeployOutput
  unfolding join_path
  execute_deploy req w =
      let stack_dir = join_path host.temp_dir (codes "serveo-compose") in
      let file = join_path stack_dir (req.name ++ codes ".yml") in
      let (w1, no_dir) = host.mkdir_all stack_dir w in
      let (w2, no_file) = host.write_file file req.content w1 in
      if no_dir
      then (w1, send_error 500 (codes "Failed to prepare compose directory"))
      else if no_file
      then (w2, send_error 500 (codes "Failed to write temp compose file"))
      else up_answer (host.docker (up_args file req.name) w2)

  abbrev unless_bad : Option Str → DeployStackRequest → W → W × Response DeployOutput
  unless_bad (some e) req w = (w, send_error 400 e)
  unless_bad none req w = execute_deploy req w

  -- DeployStack, on what the decoder gives
  unfoldable pub deploy_stack : Str → Option DeployStackRequest → W → W × Response DeployOutput
  unfolding validate_compose_volumes is_valid_stack_name execute_deploy
  deploy_stack allowed_root none w = (w, send_error 400 (codes "Invalid body"))
  deploy_stack allowed_root (some req) w =
      if text_eq req.name [] || text_eq req.content []
      then (w, send_error 400 (codes "Name and Content are required"))
      else if not (is_valid_stack_name req.name)
      then (
        w,
        send_error 400 (codes "Invalid stack name: only letters, digits, '_' and '-' are allowed"),
      )
      else elim (host.unmarshal req.content) [
        | inr e ↦ (w, send_error 400 (codes "Invalid YAML format: " ++ e))
        | inl compose ↦ unless_bad (validate_compose_volumes compose allowed_root) req w
      ]
