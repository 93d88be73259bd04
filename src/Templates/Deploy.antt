-- ===== src/Templates/Deploy.antt =====
-- Which template DeployTemplate reads, what it makes of it, and which directories its container
-- gets.
use serveo_api_golang.Prelude.{
  ℕ, ◌≡◌, ◌≢◌, refl, sym, ap, ◌∙◌, true, false, Option, none, some, List, [], ◌∷◌, ◌++◌, ◌⊎◌, arith,
  All, Option-cases, Bool-cases, inl, inr,
}
use serveo_api_golang.Text.{Str, contains-Lacks, codes, text_eq, text_eq_iff, contains, has_prefix}
use serveo_api_golang.Http.{status}
use serveo_api_golang.FilePath.{is_abs, clean, join_path}
use serveo_api_golang.FilePath.Clean.{
  IsProper, clean-nonempty, names-dot, names-clean, join_path-text, is_abs-append,
}
use serveo_api_golang.FilePath.Joined.{names-join_path_name}
use serveo_api_golang.FileSystem.{Owner, Node, dir, file, Entries, get, place}
use serveo_api_golang.Docker.Engine.{Client}
use serveo_api_golang.Docker.Containers.{create_container}
use serveo_api_golang.Docker.Containers.Binds.{IsSafeBind, create_container-IsSafeBind}
use serveo_api_golang.Templates.Filled.{Escapes, Fills, fill_in-Fills}
use serveo_api_golang.Templates.{
  TemplateInfo, Setting, is_bad_path, content, read_template, fill_in, deploy_text, deploy_template,
}

has_dots : contains (codes "..") (codes "..") ≡ true
unfolding contains has_prefix
has_dots = refl

good_path : (s : Str) → is_bad_path s ≡ false → s ≢ [] → s ≢ codes "." → IsProper s
unfolding is_bad_path
good_path s good full dot = (
  (full, contains-Lacks b'/' s (ground arith)),
  dot,
  (λ e. ground (arith, ap (λ u. contains u (codes "..")) e, has_dots)),
)

joined_dot : (a : Str) → is_abs a ≡ true → place (join_path a (codes ".")) ≡ place a
joined_dot a rooted =
    ap place (join_path-text a (codes ".") rooted (λ e. cc))
    ∙ names-clean (a ++ b'/' ∷ codes ".") (is_abs-append a (b'/' ∷ codes ".") rooted)
    ∙ names-dot a

module _ (h : Setting) where
  open h use {templates_path, allowed_mount_root}

  -- the content is that of the file of this name directly in the directory of the templates
  pub record IsTemplate (name : Str) (t : Node) (s : Str) : Type 0 where
    pub owner : Owner
    pub is_file : get (place templates_path ++ name ∷ []) (some t) ≡ some (file owner s)

  content-file :
      (m : Option Node) (s : Str) → content m ≡ some s → (o : Owner) × (m ≡ some (file o s))
  content-file none s e = absurd (ground arith)
  content-file (some (dir o es)) s e = absurd (ground arith)
  content-file (some (file o c)) s e = (o, ground arith)

  read_template-IsTemplate :
      (path s : Str) (o : Owner) (es : Entries) (t : Node)
      → is_abs templates_path ≡ true
      → get (place templates_path) (some t) ≡ some (dir o es)
      → is_bad_path path ≡ false
      → path ≢ []
      → read_template h path t ≡ some s
      → IsTemplate path t s
  unfolding read_template
  read_template-IsTemplate path s o es t rooted at good full e =
      let (owner, found) =
        content-file (get (place (join_path templates_path path)) (some t)) s e in
      elim (Bool-cases (text_eq path (codes "."))) [
        | inl same ↦
            let here : place (join_path templates_path path) ≡ place templates_path =
              ap (λ v. place (join_path templates_path v)) ((text_eq_iff path (codes ".")).0 same)
              ∙ joined_dot templates_path rooted in
            absurd (ground (arith, found, ap (λ q. get q (some t)) here, at))
        | inr other ↦ record {
          owner = owner;
          is_file =
              ap (λ q. get q (some t))
                (sym (
                  names-join_path_name templates_path path rooted (
                    good_path path good full
                      (λ k. ground (arith, (text_eq_iff path (codes ".")).1 k)))))
              ∙ found;
        }
      ]

  module _ {W : Type 0} (cli : Client W) where
    -- the values of the body and the random bytes
    pub record Asked : Type 0 where
      pub given : List (Str × Str)
      pub random : Option (List ℕ)

    -- What a deployment has done when it reaches the engine: the file that it read, the text that
    -- it made of that, the template that the decoder gives for the text, with its request for a
    -- container, and the call with this request.
    pub record Deploys (asked : Asked) (name : Str) (t : Node) (w w' : W) : Type 0 where
      pub read : Str
      pub is_template : IsTemplate name t read
      pub filled : Str
      pub fills : Fills h asked.given asked.random (h.unmarshal read).0.variables read filled
      pub info : TemplateInfo
      pub decodes : h.unmarshal filled ≡ (info, none)
      pub safe : All (IsSafeBind allowed_mount_root) info.docker.volumes
      pub creates : w' ≡ (create_container cli allowed_mount_root info.docker w).0

    deploy_text-Deploys :
        (asked : Asked) (name s : Str) (t : Node) (w : W)
        → is_abs allowed_mount_root ≡ true
        → ((val : Str) → (text : Str) × Escapes h val text)
        → IsTemplate name t s
        → (((deploy_text h cli asked.given asked.random s w).0 ≡ w)
            × (status (deploy_text h cli asked.given asked.random s w).1 ≢ 201))
          ⊎ Deploys asked name t w (deploy_text h cli asked.given asked.random s w).0
    unfolding deploy_text
    deploy_text-Deploys asked name s t w rooted json template =
        let filled = fill_in h asked.given asked.random s in
        elim (Option-cases (h.unmarshal filled).1) [
          | inr (message, bad) ↦ inl (ground arith, λ e. ground (arith, e))
          | inl fine ↦
              let req = (h.unmarshal filled).0.docker in
              elim (create_container-IsSafeBind cli allowed_mount_root req w rooted) [
                | inl (message, refused) ↦ inl (ground arith, λ e. ground (arith, e))
                | inr safe ↦ inr (record {
                  read = s;
                  is_template = template;
                  filled = filled;
                  fills = fill_in-Fills h asked.given asked.random json s;
                  info = (h.unmarshal filled).0;
                  decodes = ap (λ e. ((h.unmarshal filled).0, e)) fine;
                  safe = safe;
                  creates = ground arith;
                })
              ]
        ]

    -- Where the paths of the templates and of the mount root are absolute, the first is that of a
    -- directory and the JSON of every text is in quotes, DeployTemplate, on a body that decodes,
    -- leaves the engine as it is and does not answer 201, or all of this holds: it has read the file of the ID's cleaned name directly in that
    -- directory; it has replaced in this text, for the variables that the text declares, in their
    -- order, "{{name}}" by the value that is given, or the default, and then "{{id}}" by the random
    -- ID, each as JSON without the quotes; what it has made decodes to a template; and it calls
    -- CreateContainer with the request of that template, of which every volume is a name or a path
    -- into the mount root.
    pub deploy_template-Deploys :
        (id : Str) (asked : Asked) (t : Node) (o : Owner) (es : Entries) (w : W)
        → is_abs templates_path ≡ true
        → is_abs allowed_mount_root ≡ true
        → get (place templates_path) (some t) ≡ some (dir o es)
        → ((val : Str) → (text : Str) × Escapes h val text)
        → (((deploy_template h cli id (some asked.given) asked.random t w).0 ≡ w)
            × (status (deploy_template h cli id (some asked.given) asked.random t w).1 ≢ 201))
          ⊎ Deploys asked
              (clean (id ++ codes ".json"))
              t
              w
              (deploy_template h cli id (some asked.given) asked.random t w).0
    unfolding deploy_template
    deploy_template-Deploys id asked t o es w rooted mount at json =
        let path = clean (id ++ codes ".json") in
        elim (Bool-cases (is_bad_path path)) [
          | inl bad ↦ inl (ground arith, λ e. ground (arith, e))
          | inr good ↦ elim (Option-cases (read_template h path t)) [
            | inl missing ↦ inl (ground arith, λ e. ground (arith, e))
            | inr (s, found) ↦
                let template =
                  read_template-IsTemplate path s o es t rooted at good
                    (clean-nonempty (id ++ codes ".json")) found in
                rw (good, found) (deploy_text-Deploys asked path s t w mount json template)
          ]
        ]
