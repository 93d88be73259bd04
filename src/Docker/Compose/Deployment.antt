-- ===== src/Docker/Compose/Deployment.antt =====
-- Where executeDeploy writes the file of a stack, and the command that it runs.
use serveo_api_golang.Prelude.{
  ℕ, ◌≡◌, inl, inr, refl, append_assoc, sym, ap, ◌∙◌, true, false, List, [], ◌∷◌, ◌++◌, arith,
  Bool-cases, all,
}
use serveo_api_golang.Text.{Str, codes, join, text_eq, Lacks, Lacks-append}
use serveo_api_golang.Http.{status}
use serveo_api_golang.FilePath.{is_abs, join_path}
use serveo_api_golang.FilePath.Names.{names, clean-abs}
use serveo_api_golang.FilePath.Clean.{
  IsProper, names-concat, is_abs-append, join_path-text, is_abs-join_path,
}
use serveo_api_golang.FilePath.Joined.{names-join_path_name}
use serveo_api_golang.Docker.Compose.{
  DeployStackRequest, is_name_byte, is_valid_stack_name, Host, execute_deploy,
}

-- an absolute path to a name in a directory, whose names are joined
join_path-name :
    (dest p : Str)
    → is_abs dest ≡ true
    → IsProper p
    → join_path dest p ≡ b'/' ∷ join (names true dest ++ p ∷ []) b'/'
join_path-name dest p h hp =
    join_path-text dest p h hp.0.0
    ∙ clean-abs (dest ++ b'/' ∷ p) (is_abs-append dest (b'/' ∷ p) h)
    ∙ ap (λ v. b'/' ∷ join v b'/') (names-concat dest p hp)

is_name_byte-Lacks : (s : Str) → all is_name_byte s ≡ true → Lacks b'/' s
unfolding is_name_byte
is_name_byte-Lacks [] h = tt
is_name_byte-Lacks (c ∷ s) h = (λ e. ground arith, is_name_byte-Lacks s (ground arith))

yml-Lacks : Lacks b'/' (codes ".yml")
yml-Lacks = (λ e. omega arith, (λ e. omega arith, (λ e. omega arith, (λ e. omega arith, tt))))

-- the file of a stack is a name in the directory
is_valid_stack_name-IsProper :
    (s : Str) → is_valid_stack_name s ≡ true → IsProper (s ++ codes ".yml")
unfolding is_valid_stack_name is_name_byte text_eq
is_valid_stack_name-IsProper [] h = absurd (ground arith)
is_valid_stack_name-IsProper (c ∷ s) h = (
  (
    λ e. cc,
    Lacks-append b'/' (c ∷ s) (codes ".yml") (is_name_byte-Lacks (c ∷ s) (ground arith)) yml-Lacks,
  ),
  λ e. ground (arith, e),
  λ e. ground (arith, e),
)

-- the path whose names are those of an absolute directory and two more, or one more
abbrev pub stack_dir : Str → Str
stack_dir temp_dir = b'/' ∷ join (names true temp_dir ++ codes "serveo-compose" ∷ []) b'/'

abbrev pub stack_file : Str → Str → Str
stack_file temp_dir name =
    b'/' ∷ join (names true temp_dir ++ codes "serveo-compose" ∷ (name ++ codes ".yml") ∷ []) b'/'

compose-IsProper : IsProper (codes "serveo-compose")
unfolding is_name_byte
compose-IsProper = (
  (λ e. cc, is_name_byte-Lacks (codes "serveo-compose") refl),
  λ e. ground (arith, e),
  λ e. ground (arith, e),
)

join_path-dir :
    (temp_dir : Str)
    → is_abs temp_dir ≡ true
    → join_path temp_dir (codes "serveo-compose") ≡ stack_dir temp_dir
join_path-dir temp_dir h = join_path-name temp_dir (codes "serveo-compose") h compose-IsProper

join_path-file :
    (temp_dir name : Str)
    → is_abs temp_dir ≡ true
    → is_valid_stack_name name ≡ true
    → join_path (join_path temp_dir (codes "serveo-compose")) (name ++ codes ".yml")
      ≡ stack_file temp_dir name
join_path-file temp_dir name h valid =
    let dir = join_path temp_dir (codes "serveo-compose") in
    join_path-name dir (name ++ codes ".yml") (is_abs-join_path temp_dir (codes "serveo-compose") h)
      (is_valid_stack_name-IsProper name valid)
    ∙ ap (λ v. b'/' ∷ join (v ++ (name ++ codes ".yml") ∷ []) b'/')
        (names-join_path_name temp_dir (codes "serveo-compose") h compose-IsProper)
    ∙ ap (λ v. b'/' ∷ join v b'/')
        (append_assoc (names true temp_dir) (codes "serveo-compose" ∷ [])
          ((name ++ codes ".yml") ∷ []))

module _ {W : Type 0} (host : Host W) where
  abbrev pub up_command : Str → Str → List Str
  up_command file name =
      codes "compose" ∷ codes "-f" ∷ file ∷ codes "-p" ∷ name ∷ codes "up" ∷ codes "-d" ∷ []

  -- What runs for a deployment into the directory and the file, and its answer: 500 where the
  -- directory, the file or the command fails, each of which ends it, or else 201.
  pub data Deployed (dir file : Str) (req : DeployStackRequest) (w : W) : W → ℕ → Type 0 where
    no_directory : {w1 : W} → host.mkdir_all dir w ≡ (w1, true) → Deployed dir file req w w1 500
    no_file :
        {w1 w2 : W}
        → host.mkdir_all dir w ≡ (w1, false)
        → host.write_file file req.content w1 ≡ (w2, true)
        → Deployed dir file req w w2 500
    command_failed :
        {w1 w2 w3 : W} {out : Str}
        → host.mkdir_all dir w ≡ (w1, false)
        → host.write_file file req.content w1 ≡ (w2, false)
        → host.docker (up_command file req.name) w2 ≡ (w3, (true, out))
        → Deployed dir file req w w3 500
    up :
        {w1 w2 w3 : W} {out : Str}
        → host.mkdir_all dir w ≡ (w1, false)
        → host.write_file file req.content w1 ≡ (w2, false)
        → host.docker (up_command file req.name) w2 ≡ (w3, (false, out))
        → Deployed dir file req w w3 201

  -- the two paths as the code joins them
  abbrev dir : Str
  dir = join_path host.temp_dir (codes "serveo-compose")

  abbrev file : Str → Str
  file name = join_path dir (name ++ codes ".yml")

  execute_deploy-joined :
      (req : DeployStackRequest) (w : W)
      → Deployed dir
          (file req.name)
          req
          w
          (execute_deploy host req w).0
          (status (execute_deploy host req w).1)
  unfolding execute_deploy
  execute_deploy-joined req w =
      let made = host.mkdir_all dir w in
      let written = host.write_file (file req.name) req.content made.0 in
      let ran = host.docker (up_command (file req.name) req.name) written.0 in
      elim (Bool-cases made.1) [
        | inl failed ↦ rw failed (no_directory (ap (λ b. (made.0, b)) failed))
        | inr good ↦ elim (Bool-cases written.1) [
          | inl failed ↦
              rw (good, failed)
                (no_file (ap (λ b. (made.0, b)) good) (ap (λ b. (written.0, b)) failed))
          | inr fine ↦ elim (Bool-cases ran.1.0) [
            | inl failed ↦
                rw (good, fine, failed)
                  (command_failed (ap (λ b. (made.0, b)) good) (ap (λ b. (written.0, b)) fine)
                    (ap (λ b. (ran.0, (b, ran.1.1))) failed))
            | inr ended ↦
                rw (good, fine, ended)
                  (up (ap (λ b. (made.0, b)) good) (ap (λ b. (written.0, b)) fine)
                    (ap (λ b. (ran.0, (b, ran.1.1))) ended))
          ]
        ]
      ]

  -- the same with the two paths spelt out
  pub execute_deploy-Deployed :
      (req : DeployStackRequest) (w : W)
      → is_abs host.temp_dir ≡ true
      → is_valid_stack_name req.name ≡ true
      → Deployed
          (stack_dir host.temp_dir)
          (stack_file host.temp_dir req.name)
          req
          w
          (execute_deploy host req w).0
          (status (execute_deploy host req w).1)
  execute_deploy-Deployed req w h valid =
      rw (sym (join_path-dir host.temp_dir h), sym (join_path-file host.temp_dir req.name h valid))
        (execute_deploy-joined req w)
