-- ===== src/Docker/Handler.antt =====
-- internal/modules/v2/docker/handler_containers.go: the HTTP handlers over the service.
use serveo_api_golang.Prelude.{ℕ, Option, none, some, List, [], ◌++◌, if◌then◌else◌, inl, inr}
use serveo_api_golang.Text.{Str, codes, text_eq, contains}
use serveo_api_golang.Http.{Response, send_error, send_json, write_header}
use serveo_api_golang.Docker.Engine.{Inspect, Client}
use serveo_api_golang.Docker.Containers
use serveo_api_golang.Docker.Containers.{
  ContainerInfo, CreateContainerRequest, Answer, ok, failed, panics, check_volumes, list_containers,
}
use serveo_api_golang.Docker.Update
use serveo_api_golang.Docker.Update.{UpdateContainerRequest}

-- The answer to a panic is that of middleware.Recover.
abbrev recovered : {A : Type 0} → Response A
recovered = send_error 500 (codes "Internal server error")

abbrev done : Option Str → Response (Unit {0})
done none = write_header 204
done (some e) = send_error 500 e

abbrev create_error : Str → Response ContainerInfo
create_error e = if contains e (codes "Security Error") then send_error 400 e else send_error 500 e

abbrev update_error : Str → Response ContainerInfo
update_error e =
    if contains e (codes "No such container")
    then send_error 404 (codes "Container not found: " ++ e)
    else send_error 500 e

abbrev rename_error : Str → Response (Unit {0})
rename_error e =
    if contains e (codes "No such container")
    then send_error 404 (codes "Container not found")
    else if contains e (codes "Conflict")
    then send_error 409 (codes "Name already in use")
    else send_error 500 e

abbrev pub answer_with : {A : Type 0} → ℕ → (Str → Response A) → Answer A → Response A
answer_with code error (ok a) = send_json code a
answer_with code error (failed e) = error e
answer_with code error panics = recovered

module _ {W : Type 0} (cli : Client W) where
  unfoldable pub get_containers : W → W × Response (List ContainerInfo)
  get_containers w =
      let (w', r) = list_containers cli w in
      (w', answer_with 200 (λ e. send_error 500 (codes "Failed to list containers: " ++ e)) r)

  -- InspectContainer, with the service's method of that name
  unfoldable pub inspect_container :
      Str → W → W × Response (Inspect cli.ConfigOthers cli.HostOthers cli.Networks)
  inspect_container id w =
      let (w', r) = cli.container_inspect id w in
      (w', elim r [ inl info ↦ send_json 200 info | inr e ↦ send_error 500 e ])

  unfoldable pub action_container : Str → Str → W → W × Response (Unit {0})
  action_container id action w =
      let (w', r) = Containers.action_container cli id action w in (w', done r)

  -- DeleteContainer, on the path value and the query value of "force"
  unfoldable pub delete_container : Str → Str → W → W × Response (Unit {0})
  delete_container id force w =
      let (w', r) = Containers.delete_container cli id (text_eq force (codes "true")) w in
      (w', done r)

  abbrev renamed : Option Str → Response (Unit {0})
  renamed none = write_header 204
  renamed (some e) = rename_error e

  -- RenameContainer, on the path value and the name that the decoder gives
  unfoldable pub rename_container : Str → Option Str → W → W × Response (Unit {0})
  rename_container id none w =
      if text_eq id []
      then (w, send_error 400 (codes "Missing container ID"))
      else (w, send_error 400 (codes "Invalid JSON body"))
  rename_container id (some name) w =
      let (w', r) = Containers.rename_container cli id name w in
      if text_eq id []
      then (w, send_error 400 (codes "Missing container ID"))
      else if text_eq name []
      then (w, send_error 400 (codes "Name is required"))
      else (w', renamed r)

  unfoldable pub create_container :
      Str → Option CreateContainerRequest → W → W × Response ContainerInfo
  create_container allowed_root none w = (w, send_error 400 (codes "Invalid body"))
  create_container allowed_root (some req) w =
      let (w', r) = Containers.create_container cli allowed_root req w in
      (w', answer_with 201 create_error r)

  unfoldable pub update_container :
      Str → Option UpdateContainerRequest → W → W × Response ContainerInfo
  update_container id none w = (w, send_error 400 (codes "Invalid body"))
  update_container id (some req) w =
      let (w', r) = Update.update_container cli id req w in (w', answer_with 200 update_error r)
