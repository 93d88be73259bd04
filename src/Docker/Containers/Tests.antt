-- ===== src/Docker/Containers/Tests.antt =====
-- Runs of the containers' operations on a small engine.
use serveo_api_golang.Prelude.{ℕ, ◌+◌, ◌≡◌, ◌⊎◌, inl, refl, true, none, some, [], ◌∷◌, All}
use serveo_api_golang.Text.{
  Str, codes, text_eq, contains_any, cut_head, cut, split, join, has_prefix,
}
use serveo_api_golang.Text.Number.{pos}
use serveo_api_golang.FilePath.{is_abs, clean, walk, enter}
use serveo_api_golang.Docker.Paths.{is_bind_source_allowed}
use serveo_api_golang.Docker.Engine.{Config, HostConfig, Inspect, Client}
use serveo_api_golang.Docker.Containers.{
  CreateContainerRequest, failed, short_id, put, bind_ports, check_volumes, create_pulling,
  start_created, create_container,
}
use serveo_api_golang.Docker.Containers.Binds.{IsSafeBind, create_container-IsSafeBind}

abbrev old_config : Config (Unit {0})
old_config = record {
  image = codes "nginx";
  env = [];
  exposed_ports = [];
  labels = [];
  tty = true;
  open_stdin = true;
  others = tt;
}

abbrev old_host_config : HostConfig (Unit {0})
old_host_config = record {
  binds = [];
  port_bindings = [];
  restart_policy = [];
  memory = pos 0;
  others = tt;
}

abbrev pub old_web : Inspect (Unit {0}) (Unit {0}) (Unit {0})
old_web = record {
  id = codes "0123456789abcdef";
  name = codes "/web";
  status = codes "running";
  config = old_config;
  host_config = old_host_config;
  networks = tt;
}

-- An engine that counts its calls, with one answer to every creation.
abbrev pub engine : Str ⊎ Str → Client ℕ
engine creation = record {
  ConfigOthers = Unit {0};
  HostOthers = Unit {0};
  Networks = Unit {0};
  Stream = Unit {0};
  no_config_others = tt;
  no_host_others = tt;
  container_list = λ n. (n, inl []);
  container_inspect = λ id n. (n, inl old_web);
  container_start = λ id n. (n + 1, none);
  container_stop = λ id n. (n + 1, none);
  container_restart = λ id n. (n + 1, none);
  container_rename = λ id name n. (n + 1, none);
  container_remove = λ id force volumes n. (n + 1, none);
  container_create = λ config host_config networks name n. (n, creation);
  image_pull = λ image n. (n + 1, inl tt);
  drain = λ s n. n;
  new_port = λ proto port. some port;
}

abbrev pub id : Str
id = codes "0123456789abcdef"

abbrev pub request : CreateContainerRequest
request = record {
  name = codes "web";
  image = codes "nginx";
  env = [];
  ports = (codes "8080", codes "80") ∷ [];
  volumes = codes "/srv/data:/data" ∷ codes "db:/db" ∷ [];
  restart_policy = codes "always";
  labels = [];
}

create_container-IsSafeBind_example :
    ((e : Str) × (create_container (engine (inl id)) (codes "/srv") request 0 ≡ (0, failed e)))
    ⊎ All (IsSafeBind (codes "/srv")) request.volumes
unfolding is_abs has_prefix
create_container-IsSafeBind_example =
    create_container-IsSafeBind (engine (inl id)) (codes "/srv") request 0 refl

created : (create_container (engine (inl id)) (codes "/srv") request 0).0 ≡ 1
unfolding create_container check_volumes bind_ports create_pulling start_created short_id put
    is_bind_source_allowed clean is_abs walk enter text_eq split join has_prefix cut_head cut
    contains_any
created = refl
