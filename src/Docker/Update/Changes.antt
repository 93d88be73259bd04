-- ===== src/Docker/Update/Changes.antt =====
-- What UpdateContainer is asked to change, field by field, and that its assignments do that.
use serveo_api_golang.Prelude.{
  ℕ, ◌<◌, ◌≡◌, ◌≢◌, inl, inr, refl, ap, subst, zero, suc, Bool, ◌∙◌, Option, none, some, List, [],
  ◌∷◌, arith, Bool-cases,
}
use serveo_api_golang.Text.{Str}
use serveo_api_golang.Text.Number.{ℤ, leb_ℤ, pos, negsuc}
use serveo_api_golang.Docker.Engine.{Client}
use serveo_api_golang.Docker.Containers.{PortSet, PortMap, bind_ports}
use serveo_api_golang.Docker.Containers.PortMaps.{IsBound, bind_ports-IsBound}
use serveo_api_golang.Docker.Update.{
  UpdateContainerRequest, Objects, set_env, set_memory, set_ports, assign,
}

module _ {W : Type 0} (cli : Client W) where
  abbrev pub Kept : Type 0
  Kept = Str × List (Str × Str) × Bool × Bool × cli.ConfigOthers × List Str × Str × cli.HostOthers

  -- the fields of the two configurations that a request does not name
  abbrev pub kept : Objects cli → Kept
  kept o = (
    o.config.image, o.config.labels, o.config.tty, o.config.open_stdin, o.config.others,
    o.host_config.binds, o.host_config.restart_policy, o.host_config.others,
  )

  -- The two configurations of `o` are those of `old`, but for the environment, the memory and the
  -- ports where the request gives them: an environment with a variable in it, a memory above 0,
  -- and a map of ports.
  pub record IsChanged (req : UpdateContainerRequest) (old o : Objects cli) : Type 0 where
    pub same_rest : kept o ≡ kept old
    pub old_env : req.env ≡ [] → o.config.env ≡ old.config.env
    pub new_env : req.env ≢ [] → o.config.env ≡ req.env
    pub old_memory :
        ((n : ℕ) → 0 < n → req.memory ≢ pos n) → o.host_config.memory ≡ old.host_config.memory
    pub new_memory : (n : ℕ) → 0 < n → req.memory ≡ pos n → o.host_config.memory ≡ pos n
    pub old_ports :
        req.ports ≡ none
        → (o.config.exposed_ports ≡ old.config.exposed_ports)
          × (o.host_config.port_bindings ≡ old.host_config.port_bindings)
    pub new_ports :
        (ports : List (Str × Str))
        → req.ports ≡ some ports
        → IsBound cli ports o.config.exposed_ports o.host_config.port_bindings

  -- what an assignment of the ports, the memory or the environment leaves
  set_ports_keeps :
      (ports : Option (List (Str × Str))) (o : Objects cli)
      → (kept (set_ports cli ports o) ≡ kept o)
        × ((set_ports cli ports o).config.env ≡ o.config.env)
        × ((set_ports cli ports o).host_config.memory ≡ o.host_config.memory)
  unfolding set_ports
  set_ports_keeps none o = (refl, refl, refl)
  set_ports_keeps (some ports) o = (refl, refl, refl)

  abbrev PortsOf : Type 0
  PortsOf = PortSet × PortMap

  abbrev ports_of : Objects cli → PortsOf
  ports_of o = (o.config.exposed_ports, o.host_config.port_bindings)

  set_memory_keeps :
      (memory : ℤ) (o : Objects cli)
      → (kept (set_memory cli memory o) ≡ kept o)
        × ((set_memory cli memory o).config.env ≡ o.config.env)
        × (ports_of (set_memory cli memory o) ≡ ports_of o)
  unfolding set_memory
  set_memory_keeps memory o = elim (Bool-cases (leb_ℤ memory (pos 0))) [
    | inl none_asked ↦ rw none_asked (refl, refl, refl)
    | inr asked ↦ rw asked (refl, refl, refl)
  ]

  set_env_keeps :
      (env : List Str) (o : Objects cli)
      → (kept (set_env cli env o) ≡ kept o)
        × ((set_env cli env o).host_config.memory ≡ o.host_config.memory)
        × (ports_of (set_env cli env o) ≡ ports_of o)
  unfolding set_env
  set_env_keeps [] o = (refl, refl, refl)
  set_env_keeps (e ∷ env) o = (refl, refl, refl)

  set_env-env :
      (env : List Str) (o : Objects cli)
      → (env ≡ [] → (set_env cli env o).config.env ≡ o.config.env)
        × (env ≢ [] → (set_env cli env o).config.env ≡ env)
  unfolding set_env
  set_env-env [] o = (λ e. refl, λ full. absurd (full refl))
  set_env-env (e ∷ env) o = (λ empty. cc, λ full. refl)

  set_memory-memory :
      (memory : ℤ) (o : Objects cli)
      → (((n : ℕ) → 0 < n → memory ≢ pos n)
          → (set_memory cli memory o).host_config.memory ≡ o.host_config.memory)
        × ((n : ℕ) → 0 < n → memory ≡ pos n → (set_memory cli memory o).host_config.memory ≡ pos n)
  unfolding set_memory
  set_memory-memory (pos zero) o = (λ h. ground arith, λ n positive e. absurd (ground arith))
  set_memory-memory (pos (suc m)) o =
      (λ h. absurd (h (suc m) (omega arith) refl), λ n positive e. ground arith)
  set_memory-memory (negsuc m) o = (λ h. ground arith, λ n positive e. absurd (ground arith))

  set_ports-ports :
      (ports : Option (List (Str × Str))) (o : Objects cli)
      → (ports ≡ none → ports_of (set_ports cli ports o) ≡ ports_of o)
        × ((asked : List (Str × Str))
            → ports ≡ some asked
            → IsBound cli asked
                (set_ports cli ports o).config.exposed_ports
                (set_ports cli ports o).host_config.port_bindings)
  unfolding set_ports
  set_ports-ports none o = (λ e. refl, λ asked e. absurd (ground arith))
  set_ports-ports (some ports) o = (
    λ e. absurd (ground arith),
    λ asked e.
        subst
          (λ q. IsBound cli q (bind_ports cli ports ([], [])).0 (bind_ports cli ports ([], [])).1)
          (ground arith) (bind_ports-IsBound cli ports),
  )

  -- What UpdateContainer assigns is what the request asks for.
  pub assign-IsChanged :
      (req : UpdateContainerRequest) (old : Objects cli) → IsChanged req old (assign cli req old)
  unfolding assign
  assign-IsChanged req old =
      let env_set = set_env cli req.env old in
      let memory_set = set_memory cli req.memory env_set in
      let (rest_e, memory_e, ports_e) = set_env_keeps req.env old in
      let (rest_m, env_m, ports_m) = set_memory_keeps req.memory env_set in
      let (rest_p, env_p, memory_p) = set_ports_keeps req.ports memory_set in
      let (env_0, env_1) = set_env-env req.env old in
      let (memory_0, memory_1) = set_memory-memory req.memory env_set in
      let (ports_0, ports_1) = set_ports-ports req.ports memory_set in
      record {
        same_rest = rest_p ∙ rest_m ∙ rest_e;
        old_env = λ e. env_p ∙ env_m ∙ env_0 e;
        new_env = λ e. env_p ∙ env_m ∙ env_1 e;
        old_memory = λ e. memory_p ∙ memory_0 e ∙ memory_e;
        new_memory = λ n positive e. memory_p ∙ memory_1 n positive e;
        old_ports = λ e.
            let all : _ ≡ ports_of old = ports_0 e ∙ ports_m ∙ ports_e in
            (ap (λ q. q.0) all, ap (λ q. q.1) all);
        new_ports = ports_1;
      }
