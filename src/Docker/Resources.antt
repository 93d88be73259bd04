-- ===== src/Docker/Resources.antt =====
-- internal/modules/v2/docker: handler_images.go, handler_volumes.go, handler_networks.go and
-- handler_system.go. The stream of events is left out.
use serveo_api_golang.Prelude.{
  ℕ, Bool, Option, none, some, List, [], ◌∷◌, ◌++◌, ◌⊎◌, inl, inr, map, if◌then◌else◌, ltb, length,
  take, drop,
}
use serveo_api_golang.Text.{Str, codes, text_eq}
use serveo_api_golang.Text.Number.{ℤ}
use serveo_api_golang.Http.{Response, send_error, send_json, write_header}

-- image.Summary, volume.Volume and network.Summary, as far as they are read
pub record ImageInfo : Type 0 where
  pub id : Str
  pub repo_tags : List Str
  pub size : ℤ
  pub created : ℤ

pub record VolumeInfo : Type 0 where
  pub name : Str
  pub driver : Str
  pub mountpoint : Str

pub record NetworkInfo : Type 0 where
  pub id : Str
  pub name : Str
  pub driver : Str

pub record SystemInfo : Type 0 where
  pub containers : ℤ
  pub containers_running : ℤ
  pub containers_stopped : ℤ
  pub images : ℤ
  pub mem_total : ℤ
  pub ncpu : ℤ
  pub server_version : Str

-- the body of CreateVolume and of CreateNetwork
pub record CreateRequest : Type 0 where
  pub name : Str
  pub driver : Str
  pub labels : List (Str × Str)

-- The client's calls on the state of the engine, each with a result or the text of an error.
pub record Resources (W : Type 0) : Type 0 where
  pub image_list : W → W × (List ImageInfo ⊎ Str)
  -- ImagePull: the lines of the stream, and the error at which the scanner stops
  pub image_pull : Str → W → W × ((List Str × Option Str) ⊎ Str)
  pub image_remove : Str → Bool → W → W × Option Str
  pub volume_list : W → W × (List VolumeInfo ⊎ Str)
  pub volume_remove : Str → Bool → W → W × Option Str
  -- with the name, the driver and the labels
  pub volume_create : Str → Str → List (Str × Str) → W → W × (VolumeInfo ⊎ Str)
  pub network_list : W → W × (List NetworkInfo ⊎ Str)
  pub network_remove : Str → W → W × Option Str
  pub network_create : Str → Str → List (Str × Str) → W → W × (Str ⊎ Str)
  pub network_inspect : Str → W → W × (NetworkInfo ⊎ Str)
  pub info : W → W × (SystemInfo ⊎ Str)
  pub containers_prune : W → W × Option Str

-- `id[7:19]` of a long text
unfoldable pub short_image_id : Str → Str
short_image_id id = if ltb 19 (length id) then take 12 (drop 7 id) else id

unfoldable pub short_network_id : Str → Str
short_network_id id = if ltb 12 (length id) then take 12 id else id

abbrev image_info : ImageInfo → ImageInfo
image_info img = record img { id = short_image_id img.id }

abbrev network_info : NetworkInfo → NetworkInfo
network_info n = record n { id = short_network_id n.id }

abbrev or_driver : Str → Str → Str
or_driver [] default = default
or_driver (c ∷ s) default = c ∷ s

abbrev answer : {A B : Type 0} → ℕ → (A → B) → A ⊎ Str → Response B
answer code f (inl a) = send_json code (f a)
answer code f (inr e) = send_error 500 e

abbrev gone : Option Str → Response (Unit {0})
gone none = write_header 204
gone (some e) = send_error 500 e

abbrev is_forced : Str → Bool
is_forced force = text_eq force (codes "true")

abbrev failure_line : Option Str → List Str
failure_line none = []
failure_line (some e) = (codes "error: " ++ e) ∷ []

module _ {W : Type 0} (cli : Resources W) where
  unfoldable pub get_images : W → W × Response (List ImageInfo)
  get_images w = let (w', r) = cli.image_list w in (w', answer 200 (map image_info) r)

  -- the events of the stream that PullImage sends, or an error
  abbrev pulled : (List Str × Option Str) ⊎ Str → Response (List Str)
  pulled (inr e) = send_error 400 e
  pulled (inl (lines, e)) =
      send_json 200 (lines ++ (failure_line e ++ codes "{\"status\": \"Pull complete\"}" ∷ []))

  unfoldable pub pull_image : Option Str → W → W × Response (List Str)
  pull_image none w = (w, send_error 400 (codes "Invalid payload or missing image name"))
  pull_image (some []) w = (w, send_error 400 (codes "Invalid payload or missing image name"))
  pull_image (some (c ∷ s)) w = let (w', r) = cli.image_pull (c ∷ s) w in (w', pulled r)

  -- on the path value and the query value of "force"
  unfoldable pub delete_image : Str → Str → W → W × Response (Unit {0})
  delete_image id force w = let (w', r) = cli.image_remove id (is_forced force) w in (w', gone r)

  unfoldable pub get_volumes : W → W × Response (List VolumeInfo)
  get_volumes w = let (w', r) = cli.volume_list w in (w', answer 200 (λ vs. vs) r)

  unfoldable pub delete_volume : Str → Str → W → W × Response (Unit {0})
  delete_volume name force w =
      let (w', r) = cli.volume_remove name (is_forced force) w in (w', gone r)

  unfoldable pub create_volume : Option CreateRequest → W → W × Response VolumeInfo
  create_volume none w = (w, send_error 400 (codes "Invalid body"))
  create_volume (some req) w =
      let (w', r) =
        cli.volume_create req.name (or_driver req.driver (codes "local")) req.labels w in
      (w', answer 201 (λ v. v) r)

  unfoldable pub get_networks : W → W × Response (List NetworkInfo)
  get_networks w = let (w', r) = cli.network_list w in (w', answer 200 (map network_info) r)

  unfoldable pub delete_network : Str → W → W × Response (Unit {0})
  delete_network id w = let (w', r) = cli.network_remove id w in (w', gone r)

  abbrev inspected : Str → Str → Str → NetworkInfo ⊎ Str → Response NetworkInfo
  inspected id name driver (inl n) = send_json 201 n
  inspected id name driver (inr e) =
      send_json 200 (record { id = id; name = name; driver = driver })

  -- CreateNetwork, which inspects what it has made
  unfoldable pub create_network : Option CreateRequest → W → W × Response NetworkInfo
  create_network none w = (w, send_error 400 (codes "Invalid body"))
  create_network (some req) w =
      let driver = or_driver req.driver (codes "bridge") in
      let (w1, created) = cli.network_create req.name driver req.labels w in
      elim created [
        | inr e ↦ (w1, send_error 500 e)
        | inl id ↦ let (w2, r) = cli.network_inspect id w1 in (w2, inspected id req.name driver r)
      ]

  unfoldable pub get_system_info : W → W × Response SystemInfo
  get_system_info w = let (w', r) = cli.info w in (w', answer 200 (λ i. i) r)

  unfoldable pub prune_system : W → W × Response (Unit {0})
  prune_system w = let (w', r) = cli.containers_prune w in (w', gone r)
