-- ===== src/Docker/Containers/PortMaps.antt =====
-- What the loop over the requested ports makes of them, for CreateContainer and UpdateContainer.
use serveo_api_golang.Prelude.{
  ◌≡◌, ◌⊎◌, inl, inr, refl, sym, ap, ◌∙◌, some, List, [], ◌∷◌, Bool-cases, Option-cases, Some, here,
  there,
}
use serveo_api_golang.Text.{Str, codes, text_eq, text_eq_iff}
use serveo_api_golang.Docker.Engine.{PortBinding, Client}
use serveo_api_golang.Docker.Containers.{PortSet, PortMap, put, bind_ports}

-- the map has the key, with some value or with this one
abbrev pub HasKey : {V : Type 0} → Str → List (Str × V) → Type 0
HasKey key m = Some (λ e. e.0 ≡ key) m

abbrev pub HasPair : {V : Type 0} → Str → V → List (Str × V) → Type 0
HasPair key v m = Some (λ e. e ≡ (key, v)) m

module _ {V : Type 0} where
  put-HasKey : (key : Str) (v : V) (m : List (Str × V)) → HasKey key (put key v m)
  unfolding put
  put-HasKey key v [] = here refl
  put-HasKey key v ((k, u) ∷ rest) = elim (Bool-cases (text_eq k key)) [
    | inl same ↦ rw same (here refl)
    | inr other ↦ rw other (there (put-HasKey key v rest))
  ]

  put_keeps : (key k : Str) (v : V) (m : List (Str × V)) → HasKey k m → HasKey k (put key v m)
  unfolding put
  put_keeps key k v [] h = elim h [ ]
  put_keeps key k v ((l, u) ∷ rest) (here e) = elim (Bool-cases (text_eq l key)) [
    | inl same ↦ rw same (here (sym ((text_eq_iff l key).0 same) ∙ e))
    | inr other ↦ rw other (here e)
  ]
  put_keeps key k v ((l, u) ∷ rest) (there h) = elim (Bool-cases (text_eq l key)) [
    | inl same ↦ rw same (there h)
    | inr other ↦ rw other (there (put_keeps key k v rest h))
  ]

  Some-cons :
      (P : Str × V → Type 0) (e : Str × V) (m : List (Str × V)) → Some P (e ∷ m) → P e ⊎ Some P m
  Some-cons P e m (here h) = inl h
  Some-cons P e m (there h) = inr h

  put-Some :
      (P : Str × V → Type 0) (key : Str) (v : V) (m : List (Str × V))
      → Some P (put key v m)
      → P (key, v) ⊎ Some P m
  unfolding put
  put-Some P key v [] h = Some-cons P (key, v) [] h
  put-Some P key v ((l, w) ∷ rest) h = elim (Bool-cases (text_eq l key)) [
    | inl same ↦ elim (Some-cons P (key, v) rest (rw same at h)) [
      | inl new ↦ inl new
      | inr old ↦ inr (there old)
    ]
    | inr other ↦ elim (Some-cons P (l, w) (put key v rest) (rw other at h)) [
      | inl first ↦ inr (here first)
      | inr later ↦ elim (put-Some P key v rest later) [
        | inl new ↦ inl new
        | inr old ↦ inr (there old)
      ]
    ]
  ]

module _ {W : Type 0} (cli : Client W) where
  -- the request maps the host's port to a port of the container that NewPort accepts as `port`
  abbrev pub Asks : List (Str × Str) → Str → Str → Type 0
  Asks ports port host_port =
      Some (λ m. (cli.new_port (codes "tcp") m.1 ≡ some port) × (m.0 ≡ host_port)) ports

  abbrev pub at_host : Str → List PortBinding
  at_host host_port = record { host_ip = codes "0.0.0.0"; host_port = host_port } ∷ []

  -- The requested ports are exposed and bound, and no others: what is bound is bound, on all
  -- addresses, to a port of the host that the request gives for it.
  pub record IsBound (ports : List (Str × Str)) (exposed : PortSet) (bound : PortMap) : Type 0 where
    pub is_exposed : (port host : Str) → Asks ports port host → HasKey port exposed
    pub is_bound : (port host : Str) → Asks ports port host → HasKey port bound
    pub exposes : (port : Str) → HasKey port exposed → (host : Str) × Asks ports port host
    pub binds :
        (port : Str) (bs : List PortBinding)
        → HasPair port bs bound
        → (host : Str) × Asks ports port host × (bs ≡ at_host host)

  exposed_from :
      (ports : List (Str × Str)) (port : Str) (exposed : PortSet) (bindings : PortMap)
      → HasKey port (bind_ports cli ports (exposed, bindings)).0
      → ((host : Str) × Asks ports port host) ⊎ HasKey port exposed
  unfolding bind_ports
  exposed_from [] port exposed bindings h = inr h
  exposed_from ((host, c) ∷ rest) port exposed bindings h =
      elim (Option-cases (cli.new_port (codes "tcp") c)) [
        | inl refused ↦
            elim (exposed_from rest port exposed bindings (rw (refused, bind_ports) at h)) [
              | inl (k, asked) ↦ inl (k, there asked)
              | inr old ↦ inr old
            ]
        | inr (p, named) ↦
            elim (exposed_from rest port (put p tt exposed) (put p (at_host host) bindings)
              (rw (named, bind_ports) at h)) [
                | inl (k, asked) ↦ inl (k, there asked)
                | inr old ↦ elim (put-Some (λ e. e.0 ≡ port) p tt exposed old) [
                  | inl same ↦ inl (host, here (named ∙ ap some same, refl))
                  | inr older ↦ inr older
                ]
              ]
      ]

  bound_from :
      (ports : List (Str × Str)) (port : Str) (bs : List PortBinding) (exposed : PortSet)
      (bindings : PortMap)
      → HasPair port bs (bind_ports cli ports (exposed, bindings)).1
      → ((host : Str) × Asks ports port host × (bs ≡ at_host host)) ⊎ HasPair port bs bindings
  unfolding bind_ports
  bound_from [] port bs exposed bindings h = inr h
  bound_from ((host, c) ∷ rest) port bs exposed bindings h =
      elim (Option-cases (cli.new_port (codes "tcp") c)) [
        | inl refused ↦
            elim (bound_from rest port bs exposed bindings (rw (refused, bind_ports) at h)) [
              | inl (k, asked, e) ↦ inl (k, there asked, e)
              | inr old ↦ inr old
            ]
        | inr (p, named) ↦
            elim (bound_from rest port bs (put p tt exposed) (put p (at_host host) bindings)
              (rw (named, bind_ports) at h)) [
                | inl (k, asked, e) ↦ inl (k, there asked, e)
                | inr old ↦ elim (put-Some (λ e. e ≡ (port, bs)) p (at_host host) bindings old) [
                  | inl same ↦
                      inl (
                        host,
                        here (named ∙ ap (λ e. some e.0) same, refl),
                        sym (ap (λ e. e.1) same),
                      )
                  | inr older ↦ inr older
                ]
              ]
      ]

  -- a port that was in the maps stays, and one that is asked for gets there
  bind_ports_keeps :
      (ports : List (Str × Str)) (port : Str) (exposed : PortSet) (bindings : PortMap)
      → HasKey port exposed × HasKey port bindings
      → HasKey port (bind_ports cli ports (exposed, bindings)).0
        × HasKey port (bind_ports cli ports (exposed, bindings)).1
  unfolding bind_ports
  bind_ports_keeps [] port exposed bindings h = h
  bind_ports_keeps ((host, c) ∷ rest) port exposed bindings (h, k) =
      elim (Option-cases (cli.new_port (codes "tcp") c)) [
        | inl refused ↦
            rw (refused, bind_ports) (bind_ports_keeps rest port exposed bindings (h, k))
        | inr (p, named) ↦
            rw (named, bind_ports)
              (bind_ports_keeps rest port (put p tt exposed) (put p (at_host host) bindings)
                (put_keeps p port tt exposed h, put_keeps p port (at_host host) bindings k))
      ]

  bind_ports_adds :
      (ports : List (Str × Str)) (port host : Str) (exposed : PortSet) (bindings : PortMap)
      → Asks ports port host
      → HasKey port (bind_ports cli ports (exposed, bindings)).0
        × HasKey port (bind_ports cli ports (exposed, bindings)).1
  unfolding bind_ports
  bind_ports_adds [] port host exposed bindings h = elim h [ ]
  bind_ports_adds ((k, c) ∷ rest) port host exposed bindings (here (named, same)) =
      rw (named, bind_ports)
        (bind_ports_keeps rest port (put port tt exposed) (put port (at_host k) bindings)
          (put-HasKey port tt exposed, put-HasKey port (at_host k) bindings))
  bind_ports_adds ((k, c) ∷ rest) port host exposed bindings (there h) =
      elim (Option-cases (cli.new_port (codes "tcp") c)) [
        | inl refused ↦ rw (refused, bind_ports) (bind_ports_adds rest port host exposed bindings h)
        | inr (p, named) ↦
            rw (named, bind_ports)
              (bind_ports_adds rest port host (put p tt exposed) (put p (at_host k) bindings) h)
      ]

  -- The ports of the loop are those asked for.
  pub bind_ports-IsBound :
      (ports : List (Str × Str))
      → IsBound ports (bind_ports cli ports ([], [])).0 (bind_ports cli ports ([], [])).1
  bind_ports-IsBound ports = record {
    is_exposed = λ port host asked. (bind_ports_adds ports port host [] [] asked).0;
    is_bound = λ port host asked. (bind_ports_adds ports port host [] [] asked).1;
    exposes =
        λ port h. elim (exposed_from ports port [] [] h) [ inl found ↦ found | inr h ↦ elim h [ ] ];
    binds = λ port bs h. elim (bound_from ports port bs [] [] h) [
      | inl found ↦ found
      | inr h ↦ elim h [ ]
    ];
  }
