-- ===== src/Templates/Tests.antt =====
-- A template with one variable.
use serveo_api_golang.Prelude.{ℕ, ◌≡◌, ◌≢◌, ◌⊎◌, inl, refl, none, some, false, ◌∷◌, [], ◌++◌}
use serveo_api_golang.Text.{Str, codes, has_prefix, text_eq, split, join}
use serveo_api_golang.Http.{Response, status}
use serveo_api_golang.FilePath.{is_abs, walk, enter, clean}
use serveo_api_golang.FileSystem.{Owner, Node, dir, file, Entries, no_entries, entry, get, find}
use serveo_api_golang.Docker.Containers.{ContainerInfo}
use serveo_api_golang.Docker.Containers.Tests.{engine, request, id}
use serveo_api_golang.Templates.{
  Setting, TemplateInfo, replace_from, replace_all, deploy_template, fill_in, interpolate, provided,
  json_string_escape, generate_random_id,
}
use serveo_api_golang.Templates.Deploy.{Asked, Deploys, deploy_template-Deploys}
use serveo_api_golang.Templates.Filled.{Escapes}

replaced : replace_all (codes "a{{x}}b{{x}}") (codes "{{x}}") (codes "{{") ≡ codes "a{{b{{"
unfolding replace_all replace_from has_prefix
replaced = refl

abbrev root_user : Owner
root_user = record { uid = 0; gid = 0 }

abbrev files : Entries
files = entry (codes "web.json") (file root_user (codes "{{port}} {{id}}")) no_entries

abbrev disk : Node
disk = dir root_user (entry (codes "templates") (dir root_user files) no_entries)

abbrev web : TemplateInfo
web = record {
  id = codes "web";
  name = codes "Web";
  description = [];
  logo = [];
  category = codes "app";
  variables =
      record {
        name = codes "port";
        label = [];
        description = [];
        default = codes "80";
        required = false;
      }
      ∷ [];
  docker = request;
}

abbrev setting : Setting
setting = record {
  templates_path = codes "/templates";
  allowed_mount_root = codes "/srv";
  unmarshal = λ s. (web, none);
  marshal = λ s. some (codes "\"" ++ s ++ codes "\"");
}

quoted : (val : Str) → (text : Str) × Escapes setting val text
quoted val = (val, refl)

abbrev asked : Asked setting (engine (inl id))
asked = record { given = (codes "port", codes "8080") ∷ []; random = none }

abbrev deployed : ℕ × Response ContainerInfo
deployed = deploy_template setting (engine (inl id)) (codes "web") (some asked.given) none disk 0

deploy_template-Deploys_example :
    ((deployed.0 ≡ 0) × (status deployed.1 ≢ 201))
    ⊎ Deploys setting (engine (inl id)) asked (codes "web.json") disk 0 deployed.0
unfolding is_abs has_prefix get find split text_eq walk enter clean join
deploy_template-Deploys_example =
    deploy_template-Deploys setting (engine (inl id)) (codes "web") asked disk root_user files 0
      refl refl refl quoted

-- The template with its variable and the random ID put in.
filled : fill_in setting asked.given none (codes "{{port}} {{id}}") ≡ codes "8080 abcd1234"
unfolding fill_in interpolate provided replace_all replace_from has_prefix text_eq
    json_string_escape generate_random_id
filled = refl
