-- ===== src/Docker/Compose/Deploy.antt =====
-- What a stack that DeployStack accepts mounts, what is run for it, and that a refused one changes
-- nothing.
use serveo_api_golang.Prelude.{
  sym, subst, ◌≡◌, ◌⊎◌, inl, inr, true, none, some, [], arith, Bool-cases, Option-cases, Sum-cases,
  ◌||◌,
}
use serveo_api_golang.Text.{Str, codes, text_eq}
use serveo_api_golang.Http.{status}
use serveo_api_golang.FilePath.{is_abs}
use serveo_api_golang.Docker.Compose.{
  Yaml, mapping, Entries, entry, Items, item, lookup, validate_volume, validate_items, volumes_of,
  validate_services, validate_compose_volumes, DeployStackRequest, is_valid_stack_name, Host,
  execute_deploy, deploy_stack,
}
use serveo_api_golang.Docker.Compose.Deployment.{
  stack_dir, stack_file, Deployed, execute_deploy-Deployed,
}
use serveo_api_golang.Docker.Compose.Volumes.{Source, IsSafeSource, validate_volume-IsSafeSource}

pub data HasItem : Items → Yaml → Type 0 where
  first_item : {vol : Yaml} {rest : Items} → HasItem (item vol rest) vol
  later_item : {v vol : Yaml} {rest : Items} → HasItem rest vol → HasItem (item v rest) vol

pub data HasEntry : Entries → Yaml → Type 0 where
  first_entry : {name : Str} {v : Yaml} {rest : Entries} → HasEntry (entry name v rest) v
  later_entry :
      {name : Str} {u v : Yaml} {rest : Entries} → HasEntry rest v → HasEntry (entry name u rest) v

validate_items-HasItem :
    (items : Items) (vol : Yaml) (name root : Str)
    → HasItem items vol
    → validate_items items name root ≡ none
    → validate_volume vol name root ≡ none
unfolding validate_items
validate_items-HasItem items vol name root (first_item {rest}) ok =
    elim (Option-cases (validate_volume vol name root)) [
      | inl fine ↦ fine
      | inr (e, bad) ↦ absurd (ground arith)
    ]
validate_items-HasItem items vol name root (later_item {v} {rest} h) ok =
    elim (Option-cases (validate_volume v name root)) [
      | inl fine ↦ validate_items-HasItem rest vol name root h (ground arith)
      | inr (e, bad) ↦ absurd (ground arith)
    ]

validate_services-HasEntry :
    (services : Entries) (service : Yaml) (root : Str)
    → HasEntry services service
    → validate_services services root ≡ none
    → (name : Str) × (validate_items (volumes_of service) name root ≡ none)
unfolding validate_services
validate_services-HasEntry services service root (first_entry {name} {rest}) ok =
    elim (Option-cases (validate_items (volumes_of service) name root)) [
      | inl fine ↦ (name, fine)
      | inr (e, bad) ↦ absurd (ground arith)
    ]
validate_services-HasEntry services service root (later_entry {name} {u} {rest} h) ok =
    elim (Option-cases (validate_items (volumes_of u) name root)) [
      | inl fine ↦ validate_services-HasEntry rest service root h (ground arith)
      | inr (e, bad) ↦ absurd (ground arith)
    ]

-- Every source of a volume of a service is safe: the part before the first ":" of its text, or of
-- the entry "source" of its long form. What stands behind a ":" in the long form is left open.
abbrev pub IsSafeCompose : Str → Entries → Type 0
IsSafeCompose allowed_root compose =
    (services : Entries) (service vol : Yaml) (src : Str)
    → lookup (codes "services") compose ≡ some (mapping services)
    → HasEntry services service
    → HasItem (volumes_of service) vol
    → Source vol src
    → IsSafeSource allowed_root src

-- If the validation of a file reports no error, the allowed directory being an absolute path, then
-- every source of a volume of a service, up to its first ":", is no path, or it is an absolute path
-- that leads into the allowed directory.
validate_compose_volumes-IsSafeCompose :
    (compose : Entries) (allowed_root : Str)
    → is_abs allowed_root ≡ true
    → validate_compose_volumes compose allowed_root ≡ none
    → IsSafeCompose allowed_root compose
unfolding validate_compose_volumes
validate_compose_volumes-IsSafeCompose compose allowed_root hr ok services service vol src e hs hv
      m =
    let (name, fine) = validate_services-HasEntry services service allowed_root hs (ground arith) in
    validate_volume-IsSafeSource vol src name allowed_root hr m
      (validate_items-HasItem (volumes_of service) vol name allowed_root hv fine)

module _ {W : Type 0} (host : Host W) where
  -- what DeployStack has checked when it goes on
  pub record IsChecked (allowed_root : Str) (req : DeployStackRequest) : Type 0 where
    pub valid_name : is_valid_stack_name req.name ≡ true
    pub compose : Entries
    pub parsed : host.unmarshal req.content ≡ inl compose
    pub safe : IsSafeCompose allowed_root compose

  -- DeployStack on a request, the allowed directory and the temporary one being absolute paths,
  -- answers 400 and runs nothing, or all of this holds: the name of the stack has only letters,
  -- digits, "_" and "-"; the content is YAML; and for every volume of a service, the part before
  -- the first ":" of its text, or of the entry "source" of its long form, is a name, with neither
  -- "/" nor "\" nor a "." at its start, or an absolute path into the allowed directory. What stands
  -- behind a ":" in the long form is not promised anything about. Then the directory
  -- serveo-compose in the temporary one is made, the content is written to the file of the
  -- stack's name and ".yml" directly in it, and docker compose is run on this file with the name
  -- for the project; the first of the three that fails is the last that runs and gives the answer
  -- 500, and otherwise the answer is 201.
  pub deploy_stack-IsChecked :
      (allowed_root : Str) (req : DeployStackRequest) (w : W)
      → is_abs allowed_root ≡ true
      → is_abs host.temp_dir ≡ true
      → (((deploy_stack host allowed_root (some req) w).0 ≡ w)
          × (status (deploy_stack host allowed_root (some req) w).1 ≡ 400))
        ⊎ (IsChecked allowed_root req
            × Deployed host
                (stack_dir host.temp_dir)
                (stack_file host.temp_dir req.name)
                req
                w
                (deploy_stack host allowed_root (some req) w).0
                (status (deploy_stack host allowed_root (some req) w).1))
  unfolding deploy_stack
  deploy_stack-IsChecked allowed_root req w hr ht =
      elim (Bool-cases (text_eq req.name [] || text_eq req.content [])) [
        | inl empty ↦ inl (ground arith, ground arith)
        | inr full ↦ elim (Bool-cases (is_valid_stack_name req.name)) [
          | inr bad ↦ inl (ground arith, ground arith)
          | inl good ↦ elim (Sum-cases (host.unmarshal req.content)) [
            | inr (e, bad) ↦ inl (ground arith, ground arith)
            | inl (compose, parsed) ↦
                elim (Option-cases (validate_compose_volumes compose allowed_root)) [
                  | inr (e, bad) ↦ inl (ground arith, ground arith)
                  | inl fine ↦ inr (
                    record {
                      valid_name = good;
                      compose = compose;
                      parsed = parsed;
                      safe = validate_compose_volumes-IsSafeCompose compose allowed_root hr fine;
                    },
                    let same : deploy_stack host allowed_root (some req) w
                            ≡ execute_deploy host req w =
                          ground arith in
                        subst
                          (λ r.
                            Deployed host (stack_dir host.temp_dir)
                              (stack_file host.temp_dir req.name) req w r.0 (status r.1))
                          (sym same) (execute_deploy-Deployed host req w ht good),
                  )
                ]
          ]
        ]
      ]
