-- ===== src/Docker/Update/Tests.antt =====
-- The theorems on updates at a small engine.
use serveo_api_golang.Prelude.{◌≡◌, inl, inr, refl, none, some, [], ◌∷◌, ◌++◌}
use serveo_api_golang.Text.{codes, has_prefix, trim_prefix}
use serveo_api_golang.Text.Number.{pos}
use serveo_api_golang.Docker.Containers.{ContainerInfo, ok, failed, short_id, bind_ports, put}
use serveo_api_golang.Docker.Containers.Tests.{engine, id, old_web}
use serveo_api_golang.Docker.Update.{
  UpdateContainerRequest, set_env, set_memory, set_ports, assign, replace_container,
  update_container,
}
use serveo_api_golang.Docker.Update.Rollback.{
  Replaced, update_container-Replaced, update_container_destroys,
}

abbrev change : UpdateContainerRequest
change = record {
  env = codes "A=1" ∷ [];
  memory = pos 5;
  ports = some ((codes "8080", codes "80") ∷ []);
}

abbrev updated : ContainerInfo
updated = record {
  id = codes "0123456789ab";
  names = codes "/web" ∷ [];
  image = codes "nginx";
  state = codes "running";
  status = codes "running";
  labels = [];
  ports = [];
}

runs : update_container (engine (inl id)) id change 0 ≡ (3, ok updated)
unfolding update_container assign set_env set_memory set_ports bind_ports put replace_container
    short_id trim_prefix has_prefix
runs = refl

update_container-Replaced_example : Replaced (engine (inl id)) id change 0 3
update_container-Replaced_example =
    update_container-Replaced (engine (inl id)) id change updated 0 3 runs

update_container_destroys_example :
    update_container (engine (inr (codes "port is taken"))) id change 0 ≡ (
      2,
      failed (
          codes "update failed"
          ++ codes ": "
          ++ codes "port is taken"
          ++ codes " (rollback to previous container also failed: "
          ++ codes "port is taken"
          ++ codes ")"),
    )
update_container_destroys_example =
    update_container_destroys (engine (inr (codes "port is taken"))) id change old_web
      (codes "port is taken") 0 0 1 2 none refl refl refl (λ v. refl)
