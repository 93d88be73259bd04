-- ===== src/Docker/Update.antt =====
-- internal/modules/v2/docker/service.go: UpdateContainer and rollbackContainer.
pub mod Changes
pub mod Rollback
mod Tests
use serveo_api_golang.Prelude.{
  ℕ, Bool, true, false, not, ◌&&◌, ◌||◌, Option, none, some, List, [], ◌∷◌, ◌++◌, map,
  if◌then◌else◌, leb, length, take, ◌==◌, ◌⊎◌, inl, inr,
}
use serveo_api_golang.Text.{Str, codes, text_eq, contains, contains_any, cut_head, trim_prefix}
use serveo_api_golang.Text.Number.{ℤ, pos, negsuc, leb_ℤ, format_uint}
use serveo_api_golang.Docker.Paths.{is_bind_source_allowed}
use serveo_api_golang.Docker.Engine.{PortBinding, Config, HostConfig, Summary, Inspect, Client}
use serveo_api_golang.Docker.Containers.{
  ContainerInfo, Answer, ok, failed, panics, short_id, bind_ports,
}

-- a missing map of ports is `none`
pub record UpdateContainerRequest : Type 0 where
  pub env : List Str
  pub memory : ℤ
  pub ports : Option (List (Str × Str))

module _ {W : Type 0} (cli : Client W) where
  -- The two objects that oldContainer.Config and oldContainer.HostConfig point to. newConfig and
  -- newHostConfig are the same pointers, so that what is assigned through them changes these.
  pub record Objects : Type 0 where
    pub config : Config cli.ConfigOthers
    pub host_config : HostConfig cli.HostOthers

  unfoldable pub set_env : List Str → Objects → Objects
  set_env [] o = o
  set_env (e ∷ env) o = record o { config = record (o.config) { env = e ∷ env } }

  unfoldable pub set_memory : ℤ → Objects → Objects
  set_memory memory o =
      if leb_ℤ memory (pos 0)
      then o
      else record o { host_config = record (o.host_config) { memory = memory } }

  unfoldable pub set_ports : Option (List (Str × Str)) → Objects → Objects
  unfolding bind_ports
  set_ports none o = o
  set_ports (some ports) o =
      let (exposed, bindings) = bind_ports cli ports ([], []) in
      record {
        config = record (o.config) { exposed_ports = exposed };
        host_config = record (o.host_config) { port_bindings = bindings };
      }

  -- the assignments of UpdateContainer
  unfoldable pub assign : UpdateContainerRequest → Objects → Objects
  unfolding set_env set_memory set_ports
  assign req o = set_ports req.ports (set_memory req.memory (set_env req.env o))

  -- rollbackContainer; oldContainer's two objects are those that the pointers lead to by now
  unfoldable pub rollback_container : Objects → cli.Networks → Str → W → W × Option Str
  rollback_container o networks name w =
      let (w1, created) = cli.container_create o.config o.host_config (some networks) name w in
      elim created [ inr e ↦ (w1, some e) | inl id ↦ cli.container_start id w1 ]

  abbrev pub rolled_back : Str → Str → W × Option Str → W × Answer ContainerInfo
  rolled_back prefix e (w, some rollback_error) = (
    w,
    failed (
        prefix
        ++ codes ": "
        ++ e
        ++ codes " (rollback to previous container also failed: "
        ++ rollback_error
        ++ codes ")"),
  )
  rolled_back prefix e (w, none) =
      (w, failed (prefix ++ codes ", rolled back to previous container: " ++ e))

  abbrev updated_info : Option Str → Str → Config cli.ConfigOthers → Answer ContainerInfo
  updated_info none name config = panics
  updated_info (some id) name config = ok (record {
    id = id;
    names = (b'/' ∷ name) ∷ [];
    image = config.image;
    state = codes "running";
    status = codes "running";
    labels = config.labels;
    ports = [];
  })

  -- UpdateContainer from ContainerCreate on, in the world without the old container
  unfoldable pub replace_container : Objects → cli.Networks → Str → W → W × Answer ContainerInfo
  unfolding rollback_container short_id
  replace_container o networks name w =
      let (w1, created) = cli.container_create o.config o.host_config (some networks) name w in
      elim created [
        | inr e ↦ rolled_back (codes "update failed") e (rollback_container o networks name w1)
        | inl id ↦
            let (w2, started) = cli.container_start id w1 in
            elim started [
              | none ↦ (w2, updated_info (short_id id) name o.config)
              | some e ↦
                  let (w3, ignored) = cli.container_remove id true false w2 in
                  rolled_back (codes "update failed to start") e
                    (rollback_container o networks name w3)
            ]
      ]

  unfoldable pub update_container : Str → UpdateContainerRequest → W → W × Answer ContainerInfo
  unfolding assign replace_container
  update_container id req w =
      let (w1, inspected) = cli.container_inspect id w in
      elim inspected [
        | inr e ↦ (w1, failed e)
        | inl old ↦
            let o = assign req (record { config = old.config; host_config = old.host_config }) in
            let (w2, ignored) = cli.container_stop id w1 in
            let (w3, removed) = cli.container_remove id true false w2 in
            elim removed [
              | some e ↦ (w3, failed e)
              | none ↦ replace_container o old.networks (trim_prefix old.name (codes "/")) w3
            ]
      ]
