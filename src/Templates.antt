-- ===== src/Templates.antt =====
-- internal/modules/v2/templates/handler.go: GetTemplate and DeployTemplate.
pub mod Filled
pub mod Deploy
mod Tests
use serveo_api_golang.Prelude.{
  zero, suc, ℕ, ◌-◌, Bool, true, false, not, ◌||◌, Option, none, some, List, [], ◌∷◌, ◌++◌,
  if◌then◌else◌, length, reverse, drop,
}
use serveo_api_golang.Text.{Str, codes, text_eq, has_prefix, contains}
use serveo_api_golang.Text.Hex.{hex_encode}
use serveo_api_golang.FilePath.{clean, join_path}
use serveo_api_golang.FileSystem.{Node, dir, file, get, place}
use serveo_api_golang.Http.{Response, send_error, send_json}
use serveo_api_golang.Docker.Engine.{Client}
use serveo_api_golang.Docker.Containers.{ContainerInfo, CreateContainerRequest, create_container}
use serveo_api_golang.Docker.Handler.{answer_with}

pub record TemplateVariable : Type 0 where
  pub name : Str
  pub label : Str
  pub description : Str
  pub default : Str
  pub required : Bool

pub record TemplateInfo : Type 0 where
  pub id : Str
  pub name : Str
  pub description : Str
  pub logo : Str
  pub category : Str
  pub variables : List TemplateVariable
  pub docker : CreateContainerRequest

-- strings.ReplaceAll of a text that is not empty; so many bytes belong to the last one replaced
unfoldable pub replace_from : Str → Str → ℕ → Str → Str
replace_from old new k [] = []
replace_from old new (suc k) (c ∷ s) = replace_from old new k s
replace_from old new zero (c ∷ s) =
    let after = replace_from old new (length old - 1) s in
    let later = replace_from old new zero s in
    if has_prefix (c ∷ s) old then new ++ after else c ∷ later

unfoldable pub replace_all : Str → Str → Str → Str
unfolding replace_from
replace_all s old new = replace_from old new zero s

-- `req.Variables[name]`
unfoldable pub provided : Str → List (Str × Str) → Option Str
provided name [] = none
provided name ((k, value) ∷ rest) = if text_eq k name then some value else provided name rest

-- generateRandomID of eight, on the four bytes that crypto/rand gives or refuses
unfoldable pub generate_random_id : Option (List ℕ) → Str
generate_random_id none = codes "abcd1234"
generate_random_id (some bytes) = hex_encode bytes

-- the test of the cleaned path
unfoldable pub is_bad_path : Str → Bool
unfolding contains
is_bad_path s = contains s (codes "..") || contains s (codes "/") || contains s (codes "\\")

-- os.ReadFile
abbrev pub content : Option Node → Option Str
content none = none
content (some (dir o es)) = none
content (some (file o s)) = some s

-- The configuration, and package encoding/json: what Unmarshal fills in and whether it succeeds,
-- with the text of its error, and what Marshal makes of a text.
pub record Setting : Type 0 where
  pub templates_path : Str
  pub allowed_mount_root : Str
  pub unmarshal : Str → TemplateInfo × Option Str
  pub marshal : Str → Option Str

module _ (h : Setting) where
  open h use {templates_path, allowed_mount_root, unmarshal, marshal}

  -- the file of a template, or an error
  unfoldable pub read_template : Str → Node → Option Str
  unfolding get
  read_template path t = content (get (place (join_path templates_path path)) (some t))

  -- GetTemplate
  unfoldable pub get_template : Str → Node → Response Str
  get_template id t =
      let path = clean (id ++ codes ".json") in
      if is_bad_path path
      then send_error 400 (codes "Invalid template ID")
      else elim (read_template path t) [
        | none ↦ send_error 404 (codes "Template not found")
        | some data_read ↦ send_json 200 data_read
      ]

  abbrev unquoted : Str → Str
  unquoted [] = []
  unquoted (c ∷ []) = []
  unquoted (c ∷ d ∷ s) = reverse (drop 1 (reverse (d ∷ s)))

  -- jsonStringEscape
  unfoldable pub json_string_escape : Str → Str
  json_string_escape val = elim (marshal val) [ none ↦ [] | some b ↦ unquoted b ]

  -- the loop over the variables
  unfoldable pub interpolate : List (Str × Str) → List TemplateVariable → Str → Str
  unfolding replace_all provided
  interpolate given [] s = s
  interpolate given (v ∷ vs) s =
      let val : Str = elim (provided v.name given) [ none ↦ v.default | some value ↦ value ] in
      interpolate given vs
        (replace_all s (codes "{{" ++ v.name ++ codes "}}") (json_string_escape val))

  -- the template with its variables and the random ID put in
  unfoldable pub fill_in : List (Str × Str) → Option (List ℕ) → Str → Str
  unfolding interpolate replace_all
  fill_in given random s =
      replace_all (interpolate given (unmarshal s).0.variables s) (codes "{{id}}")
        (json_string_escape (generate_random_id random))

  module _ {W : Type 0} (cli : Client W) where
    abbrev deploy_error : Str → Response ContainerInfo
    deploy_error e =
        if contains e (codes "Security Error")
        then send_error 400 e
        else send_error 500 (codes "Docker error: " ++ e)

    -- DeployTemplate from the template's text on
    unfoldable pub deploy_text :
        List (Str × Str) → Option (List ℕ) → Str → W → W × Response ContainerInfo
    deploy_text given random s w =
        let (info, error) = unmarshal (fill_in given random s) in
        elim error [
          | some e ↦ (w, send_error 500 (codes "Failed to parse interpolated template: " ++ e))
          | none ↦
              let (w', r) = create_container cli allowed_mount_root info.docker w in
              (w', answer_with 201 deploy_error r)
        ]

    -- DeployTemplate; `given` is what the body gives for the variables, `none` a body that does not
    -- decode
    unfoldable pub deploy_template :
        Str → Option (List (Str × Str)) → Option (List ℕ) → Node → W → W × Response ContainerInfo
    deploy_template id none random t w = (w, send_error 400 (codes "Invalid JSON body"))
    deploy_template id (some given) random t w =
        let path = clean (id ++ codes ".json") in
        if is_bad_path path
        then (w, send_error 400 (codes "Invalid template ID"))
        else elim (read_template path t) [
          | none ↦ (w, send_error 404 (codes "Template not found"))
          | some s ↦ deploy_text given random s w
        ]
