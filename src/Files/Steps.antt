-- ===== src/Files/Steps.antt =====
-- What the calls of os.Root leave alone apart from the root, and when resolveSafeRoot goes on.
use serveo_api_golang.Prelude.{
  ℕ, ◌≡◌, ◌∙◌, some, List, [], ◌∷◌, ◌++◌, arith, inl, inr, ◌⊎◌, Option-cases, Bool-cases,
}
use serveo_api_golang.Text.{Str, codes, text_eq}
use serveo_api_golang.FilePath.{join_path, dir_path}
use serveo_api_golang.FileSystem.{
  Owner, Node, Place, get, change, mkdir_all, Creation, opened, with_owner, with_content, owner_of,
  beneath,
}
use serveo_api_golang.FileSystem.Laws.{Apart, Apart-append, get-change-Apart}
use serveo_api_golang.FileSystem.Directories.{get-mkdir_all-Apart, get-remove_all-Apart}
use serveo_api_golang.FileSystem.Same.{Same, Same-amend}
use serveo_api_golang.Files.Root.{
  Setting, Body, place_in, chown_file_to_match_root, copy_body, open_file, make_dirs,
  is_valid_server, root_place, resolve_safe_root, request_path, fill, upload_dirs, remove,
  remove_below,
}

pub Apart-place_in :
    (q root r : Place) (p : Str) → Apart q root → place_in root p ≡ some r → Apart q r
unfolding place_in
Apart-place_in q root r p a e = elim (Option-cases (beneath p)) [
  | inl outside ↦ absurd (ground arith)
  | inr (names, e') ↦
      let r_is : root ++ names ≡ r = ground arith in rw (← r_is) (Apart-append names a)
]

module _ (me : Owner) (q : Place) (root : Place) (a : Apart q root) where
  pub Same-open_file :
      (mode : Creation) (p : Str) (t t' : Node) (r : Place)
      → open_file me mode root p t ≡ some (r, t')
      → Apart q r × Same q t t'
  unfolding open_file
  Same-open_file mode p t t' r e = elim (Option-cases (place_in root p)) [
    | inl outside ↦ absurd (ground arith)
    | inr (r', at) ↦ elim (Option-cases (change r' (opened me mode) (some t))) [
      | inl failed ↦ absurd (ground arith)
      | inr (t2, done) ↦
          let r_is : r' ≡ r = ground arith in
          let t_is : t2 ≡ t' = ground arith in
          let apart = Apart-place_in q root r' p a at in
          (
            rw (← r_is) apart,
            rw (← t_is) (get-change-Apart r' q (opened me mode) (some t) t2 apart done),
          )
    ]
  ]

  pub Same-make_dirs : (p : Str) (t t' : Node) → make_dirs me root p t ≡ some t' → Same q t t'
  unfolding make_dirs
  Same-make_dirs p t t' e = elim (Option-cases (place_in root p)) [
    | inl outside ↦ absurd (ground arith)
    | inr (r, at) ↦
        get-mkdir_all-Apart me r q (some t) t' (Apart-place_in q root r p a at) (ground arith)
  ]

  pub Same-chown : (r : Place) (t : Node) → Apart q r → Same q t (chown_file_to_match_root r root t)
  unfolding chown_file_to_match_root
  Same-chown r t ar = elim (Option-cases (owner_of (get root (some t)))) [
    | inl missing ↦ ground arith
    | inr (o, e) ↦ ground (arith, Same-amend q r (with_owner o) t ar)
  ]

  pub Same-fill : (r : Place) (body : Body) (t : Node) → Apart q r → Same q t (fill r root body t)
  unfolding fill copy_body
  Same-fill r body t ar =
      Same-amend q r (with_content body.bytes) (chown_file_to_match_root r root t) ar
      ∙ Same-chown r t ar

  pub Same-upload_dirs : (p : Str) (t t' : Node) → upload_dirs me root p t ≡ some t' → Same q t t'
  unfolding upload_dirs
  Same-upload_dirs p t t' e = elim (Bool-cases (text_eq (dir_path p) (codes "."))) [
    | inl here ↦ ground arith
    | inr below ↦ Same-make_dirs (dir_path p) t t' (ground arith)
  ]

  pub Same-remove_below :
      (names : List Str) (t t' : Node) → remove_below root names t ≡ some t' → Same q t t'
  Same-remove_below [] t t' e = absurd (ground arith)
  Same-remove_below (x ∷ xs) t t' e =
      get-remove_all-Apart (root ++ x ∷ xs) q t t' (Apart-append (x ∷ xs) a) e

  pub Same-remove : (p : Str) (t t' : Node) → remove root p t ≡ some t' → Same q t t'
  unfolding remove
  Same-remove p t t' e = elim (Option-cases (beneath p)) [
    | inl outside ↦ absurd (ground arith)
    | inr (names, at) ↦ Same-remove_below names t t' (ground arith)
  ]

module _ (h : Setting) where
  open h use {me, mount_root, docker, os_error}

  -- resolveSafeRoot refuses and leaves the tree, or makes the server's directory and opens it.
  pub resolve_cases :
      (server query : Str) (t : Node)
      → ((code : ℕ) × (message : Str) × (resolve_safe_root h server query t
            ≡ (t, inr (code, message))))
        ⊎ ((t1 : Node) × (mkdir_all me (root_place mount_root server) (some t) ≡ some t1)
            × (resolve_safe_root h server query t
                ≡ (t1, inl (root_place mount_root server, request_path query))))
  unfolding resolve_safe_root
  resolve_cases server query t = elim (Bool-cases (is_valid_server server)) [
    | inr bad ↦ inl (400, codes "Invalid server name format", ground arith)
    | inl good ↦ elim (Option-cases docker) [
      | inl missing ↦ inl (500, codes "Docker client unavailable", ground arith)
      | inr (has_container, there) ↦ elim (Bool-cases (has_container server)) [
        | inr absent ↦ inl (404, codes "Server not found or inaccessible", ground arith)
        | inl present ↦ elim (Option-cases (mkdir_all me (root_place mount_root server) (some t))) [
          | inl failed ↦ inl (
            500,
            codes "Cannot create data directory for this server: "
                ++ os_error (join_path mount_root server),
            ground arith,
          )
          | inr (t1, made) ↦ inr (t1, made, ground arith)
        ]
      ]
    ]
  ]

  -- A call that goes on goes on again once the server's directory stands.
  pub resolve_again :
      (server query : Str) (t t1 t' : Node) (root : Place) (p : Str)
      → resolve_safe_root h server query t ≡ (t1, inl (root, p))
      → mkdir_all me (root_place mount_root server) (some t') ≡ some t'
      → resolve_safe_root h server query t'
        ≡ (t', inl (root_place mount_root server, request_path query))
  unfolding resolve_safe_root
  resolve_again server query t t1 t' root p e made = elim (Bool-cases (is_valid_server server)) [
    | inr bad ↦ absurd (ground arith)
    | inl good ↦ elim (Option-cases docker) [
      | inl missing ↦ absurd (ground arith)
      | inr (has_container, there) ↦ elim (Bool-cases (has_container server)) [
        | inr absent ↦ absurd (ground arith)
        | inl present ↦ ground arith
      ]
    ]
  ]
