-- ===== src/Docker/Update/Rollback.antt =====
-- What UpdateContainer leaves, and what it rolls back to.
use serveo_api_golang.Prelude.{
  ◌≡◌, inl, inr, refl, true, false, Option, none, some, ◌++◌, arith, Option-cases, Sum-cases,
}
use serveo_api_golang.Text.{Str, codes, trim_prefix}
use serveo_api_golang.Docker.Engine.{Inspect, Client}
use serveo_api_golang.Docker.Containers.{ContainerInfo, ok, failed}
use serveo_api_golang.Docker.Update.Changes.{IsChanged, assign-IsChanged}
use serveo_api_golang.Docker.Update.{
  UpdateContainerRequest, Objects, assign, rollback_container, replace_container, update_container,
  rolled_back,
}

module _ {W : Type 0} (cli : Client W) where
  abbrev pub Old : Type 0
  Old = Inspect cli.ConfigOthers cli.HostOthers cli.Networks

  -- what the inspected container's two pointers lead to
  abbrev pub objects : Old → Objects cli
  objects old = record { config = old.config; host_config = old.host_config }

  -- the same after the assignments
  abbrev pub assigned : UpdateContainerRequest → Old → Objects cli
  assigned req old = assign cli req (objects old)

  abbrev pub name_of : Old → Str
  name_of old = trim_prefix old.name (codes "/")

  -- The calls of a successful update, in their order, each in the world that the one before left;
  -- whether the call that stops the container succeeds does not matter.
  pub record Replaced (id : Str) (req : UpdateContainerRequest) (w w' : W) : Type 0 where
    pub old : Old
    pub inspected : (cli.container_inspect id w).1 ≡ inl old
    pub stopped : W
    pub stops : (cli.container_stop id (cli.container_inspect id w).0).0 ≡ stopped
    pub removes : (cli.container_remove id true false stopped).1 ≡ none
    pub changed : Objects cli
    pub is_changed : IsChanged cli req (objects old) changed
    pub new_id : Str
    pub created : W
    pub creates :
        cli.container_create changed.config changed.host_config
          (some old.networks)
          (name_of old)
          (cli.container_remove id true false stopped).0
        ≡ (created, inl new_id)
    pub starts : cli.container_start new_id created ≡ (w', none)

  rolled_back-not_ok :
      (prefix e : Str) (x : W × Option Str) (info : ContainerInfo) (w : W)
      → rolled_back cli prefix e x ≡ (w, ok info)
      → ⊥
  rolled_back-not_ok prefix e (v, none) info w h = ground arith
  rolled_back-not_ok prefix e (v, some f) info w h = ground arith

  replace_container-ok :
      (o : Objects cli) (networks : cli.Networks) (name : Str) (info : ContainerInfo) (w w' : W)
      → replace_container cli o networks name w ≡ (w', ok info)
      → (new_id : Str) × (created : W) × (cli.container_create o.config o.host_config
            (some networks)
            name
            w
          ≡ (created, inl new_id))
        × (cli.container_start new_id created ≡ (w', none))
  unfolding replace_container
  replace_container-ok o networks name info w w' e =
      let call = cli.container_create o.config o.host_config (some networks) name w in
      elim (Sum-cases call.1) [
        | inr (f, no_container) ↦ absurd (
            rolled_back-not_ok (codes "update failed") f
              (rollback_container cli o networks name call.0) info w' (ground arith))
        | inl (new_id, made) ↦ elim (Option-cases (cli.container_start new_id call.0).1) [
          | inl up ↦ (new_id, call.0, ground arith, ground arith)
          | inr (f, down) ↦ absurd (
              rolled_back-not_ok (codes "update failed to start") f
                (rollback_container cli o networks name
                  (cli.container_remove new_id true false (cli.container_start new_id call.0).0).0)
                info w' (ground arith))
        ]
      ]

  -- If UpdateContainer succeeds, then the container was inspected, asked to stop, whatever came of
  -- that, and removed; one with the same name and networks was created and started. Its
  -- configuration is the old one, but for the environment of the request where that has a
  -- variable, the memory where that is above 0, and, where there is a map of ports, just those of
  -- its ports that NewPort accepts, exposed and bound on all addresses to a port of the host that
  -- the map gives for them.
  pub update_container-Replaced :
      (id : Str) (req : UpdateContainerRequest) (info : ContainerInfo) (w w' : W)
      → update_container cli id req w ≡ (w', ok info)
      → Replaced id req w w'
  unfolding update_container
  update_container-Replaced id req info w w' e =
      let seen = cli.container_inspect id w in
      elim (Sum-cases seen.1) [
        | inr (f, missing) ↦ absurd (ground arith)
        | inl (old, found) ↦
            let gone = cli.container_remove id true false (cli.container_stop id seen.0).0 in
            elim (Option-cases gone.1) [
              | inr (f, stays) ↦ absurd (ground arith)
              | inl removed ↦
                  let (new_id, created, made, up) =
                    replace_container-ok (assigned req old) old.networks (name_of old) info gone.0
                      w' (ground arith) in
                  record {
                    old = old;
                    inspected = found;
                    stopped = (cli.container_stop id seen.0).0;
                    stops = refl;
                    removes = removed;
                    changed = assigned req old;
                    is_changed = assign-IsChanged cli req (objects old);
                    new_id = new_id;
                    created = created;
                    creates = made;
                    starts = up;
                  }
            ]
      ]

  -- If the container is inspected and removed, and the engine refuses the creation with the
  -- requested changes in every state, leaving the state alone, then the rollback repeats this
  -- creation: UpdateContainer answers that update and rollback have failed, in the state
  -- without the old container.
  pub update_container_destroys :
      (id : Str) (req : UpdateContainerRequest) (old : Old) (refusal : Str) (w w1 w2 w3 : W)
      (ignored : Option Str)
      → cli.container_inspect id w ≡ (w1, inl old)
      → cli.container_stop id w1 ≡ (w2, ignored)
      → cli.container_remove id true false w2 ≡ (w3, none)
      → ((v : W)
          → cli.container_create
              (assigned req old).config
              (assigned req old).host_config
              (some old.networks)
              (name_of old)
              v
            ≡ (v, inr refusal))
      → update_container cli id req w ≡ (
        w3,
        failed (
            codes "update failed"
            ++ codes ": "
            ++ refusal
            ++ codes " (rollback to previous container also failed: "
            ++ refusal
            ++ codes ")"),
      )
  unfolding update_container replace_container rollback_container
  update_container_destroys id req old refusal w w1 w2 w3 ignored e1 e2 e3 refuses =
      ground (arith, refuses w3)
