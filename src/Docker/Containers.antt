-- ===== src/Docker/Containers.antt =====
-- internal/modules/v2/docker/service.go: the containers.
pub mod Binds
pub mod PortMaps
pub mod Tests
use serveo_api_golang.Prelude.{
  ℕ, Bool, true, false, not, ◌&&◌, ◌||◌, Option, none, some, List, [], ◌∷◌, ◌++◌, map,
  if◌then◌else◌, leb, length, take, ◌==◌, ◌⊎◌, inl, inr,
}
use serveo_api_golang.Text.{Str, codes, text_eq, contains, contains_any, cut_head, trim_prefix}
use serveo_api_golang.Text.Number.{ℤ, pos, negsuc, leb_ℤ, format_uint}
use serveo_api_golang.Docker.Paths.{is_bind_source_allowed}
use serveo_api_golang.Docker.Engine.{PortBinding, Config, HostConfig, Summary, Inspect, Client}

pub record ContainerInfo : Type 0 where
  pub id : Str
  pub names : List Str
  pub image : Str
  pub state : Str
  pub status : Str
  pub labels : List (Str × Str)
  pub ports : List (Str × Str)

pub record CreateContainerRequest : Type 0 where
  pub name : Str
  pub image : Str
  pub env : List Str
  pub ports : List (Str × Str)
  pub volumes : List Str
  pub restart_policy : Str
  pub labels : List (Str × Str)

-- A method gives a result or an error, or it panics.
pub data Answer (A : Type 0) : Type 0 where
  ok : A → Answer A
  failed : Str → Answer A
  panics : Answer A

-- `m[key] = value`
unfoldable pub put {ℓ} : {A : Type ℓ} → Str → A → List (Str × A) → List (Str × A)
put key value [] = (key, value) ∷ []
put key value ((k, v) ∷ rest) =
    let later = put key value rest in if text_eq k key then (key, value) ∷ rest else (k, v) ∷ later

-- `id[:12]`, which panics on a shorter text
unfoldable pub short_id : Str → Option Str
short_id id = if leb 12 (length id) then some (take 12 id) else none

abbrev public_ports : List (ℕ × ℕ) → List (Str × Str) → List (Str × Str)
public_ports [] m = m
public_ports ((outer, inner) ∷ rest) m =
    public_ports rest (if outer == 0 then m else put (format_uint outer) (format_uint inner) m)

-- one round of the loop in ListContainers
unfoldable pub summary_info : Summary → ContainerInfo
unfolding put
summary_info c = record {
  id = if leb (length c.id) 12 then c.id else take 12 c.id;
  names = c.names;
  image = c.image;
  state = c.state;
  status = c.status;
  labels = c.labels;
  ports = public_ports c.ports [];
}

-- the loop over the volumes in CreateContainer: the error of the first one that is refused
unfoldable pub check_volumes : Str → List Str → Option Str
check_volumes allowed_root [] = none
check_volumes allowed_root (v ∷ rest) =
    let src = cut_head v b':' in
    let later = check_volumes allowed_root rest in
    if contains_any src (codes "/\\") && not (is_bind_source_allowed src allowed_root)
    then some (codes "Security Error: Bind mounts are restricted to " ++ allowed_root)
    else later

abbrev pub PortMap : Type 0
PortMap = List (Str × List PortBinding)

abbrev pub PortSet : Type 0
PortSet = List (Str × Unit {0})

module _ {W : Type 0} (cli : Client W) where
  abbrev add_port : Option Str → Str → PortSet × PortMap → PortSet × PortMap
  add_port none host_port ports = ports
  add_port (some port) host_port (exposed, bindings) = (
    put port tt exposed,
    put port (record { host_ip = codes "0.0.0.0"; host_port = host_port } ∷ []) bindings,
  )

  -- the loop over the requested ports
  unfoldable pub bind_ports : List (Str × Str) → PortSet × PortMap → PortSet × PortMap
  unfolding put
  bind_ports [] ports = ports
  bind_ports ((host_port, container_port) ∷ rest) ports =
      bind_ports rest (add_port (cli.new_port (codes "tcp") container_port) host_port ports)

  unfoldable pub list_containers : W → W × Answer (List ContainerInfo)
  unfolding summary_info
  list_containers w =
      let (w', listed) = cli.container_list w in
      elim listed [
        | inl containers ↦ (w', ok (map summary_info containers))
        | inr e ↦ (w', failed e)
      ]

  -- ActionContainer
  unfoldable pub action_container : Str → Str → W → W × Option Str
  action_container id action w =
      if text_eq action (codes "start")
      then cli.container_start id w
      else if text_eq action (codes "stop")
      then cli.container_stop id w
      else if text_eq action (codes "restart")
      then cli.container_restart id w
      else (w, some (codes "invalid action"))

  unfoldable pub delete_container : Str → Bool → W → W × Option Str
  delete_container id force w = cli.container_remove id force false w

  unfoldable pub rename_container : Str → Str → W → W × Option Str
  rename_container id new_name w = cli.container_rename id new_name w

  abbrev container_config : CreateContainerRequest → PortSet → Config cli.ConfigOthers
  container_config req exposed = record {
    image = req.image;
    env = req.env;
    exposed_ports = exposed;
    labels = req.labels;
    tty = true;
    open_stdin = true;
    others = cli.no_config_others;
  }

  abbrev container_host_config : CreateContainerRequest → PortMap → HostConfig cli.HostOthers
  container_host_config req bindings = record {
    binds = req.volumes;
    port_bindings = bindings;
    restart_policy = req.restart_policy;
    memory = pos 0;
    others = cli.no_host_others;
  }

  -- the image is pulled, and the creation tried again
  unfoldable pub pull_and_create :
      Config cli.ConfigOthers → HostConfig cli.HostOthers → Str → W → W × (Str ⊎ Str)
  pull_and_create config host_config name w =
      let (w', pulled) = cli.image_pull config.image w in
      elim pulled [
        | inl stream ↦ cli.container_create config host_config none name (cli.drain stream w')
        | inr pull_error ↦ (w', inr pull_error)
      ]

  -- the first ContainerCreate, and the second one once the image has been pulled
  unfoldable pub create_pulling :
      Config cli.ConfigOthers → HostConfig cli.HostOthers → Str → W → W × (Str ⊎ Str)
  unfolding pull_and_create
  create_pulling config host_config name w =
      let (w1, created) = cli.container_create config host_config none name w in
      elim created [
        | inl id ↦ (w1, inl id)
        | inr e ↦
            let second = pull_and_create config host_config name w1 in
            if contains e (codes "No such image") || contains e (codes "not found")
            then second
            else (w1, inr e)
      ]

  abbrev created_info :
      Option Str → Inspect cli.ConfigOthers cli.HostOthers cli.Networks → Answer ContainerInfo
  created_info none inspect = panics
  created_info (some id) inspect = ok (record {
    id = id;
    names = inspect.name ∷ [];
    image = inspect.config.image;
    state = inspect.status;
    status = inspect.status;
    labels = inspect.config.labels;
    ports = [];
  })

  -- the end of CreateContainer, with the number that ContainerCreate gave
  unfoldable pub start_created : Str → W → W × Answer ContainerInfo
  unfolding short_id
  start_created id w =
      let (w1, started) = cli.container_start id w in
      elim started [
        | some e ↦ (w1, failed e)
        | none ↦
            let (w2, inspected) = cli.container_inspect id w1 in
            elim inspected [
              | inr e ↦ (w2, failed e)
              | inl inspect ↦ (w2, created_info (short_id inspect.id) inspect)
            ]
      ]

  unfoldable pub create_container : Str → CreateContainerRequest → W → W × Answer ContainerInfo
  unfolding create_pulling start_created check_volumes bind_ports
  create_container allowed_root req w = elim (check_volumes allowed_root req.volumes) [
    | some e ↦ (w, failed e)
    | none ↦
        let (exposed, bindings) = bind_ports req.ports ([], []) in
        let (w1, created) =
          create_pulling (container_config req exposed) (container_host_config req bindings)
            req.name w in
        elim created [ inr e ↦ (w1, failed e) | inl id ↦ start_created id w1 ]
  ]
