-- ===== src/Files/Confined.antt =====
-- What the handlers of the file manager leave alone.
use serveo_api_golang.Prelude.{refl, none, ◌≡◌, Option, some, arith, inl, inr, Option-cases}
use serveo_api_golang.Text.{Str}
use serveo_api_golang.FilePath.{join_path}
use serveo_api_golang.FileSystem.{excluding, Node, Place, get, truncating}
use serveo_api_golang.FileSystem.Laws.{Apart}
use serveo_api_golang.FileSystem.Directories.{get-mkdir_all-Apart}
use serveo_api_golang.FileSystem.Same.{Same}
use serveo_api_golang.Http.{Response}
use serveo_api_golang.Files.Root.{
  Setting, Body, Part, open_file, make_dirs, root_place, with_safe_root, request_path, file_name,
  sanitize_upload_path, upload_dirs, remove,
}
use serveo_api_golang.Files.{
  list_in, list_files, read_in, read_file, write_in, write_file, upload_to, upload_in, upload_file,
  create_directory_in, create_directory, create_at, create_file_in, create_file, delete_in,
  delete_file,
}
use serveo_api_golang.Files.Steps.{
  Same-open_file, Same-make_dirs, Same-chown, Same-fill, Same-upload_dirs, Same-remove,
  resolve_cases,
}

module _ (h : Setting) where
  open h use {me, mount_root}

  -- The operations of the handlers.
  pub data Operation : Type 0 where
    listing reading making_directory creating deleting : Operation
    writing : Body → Operation
    uploading : Option (Option Part) → Operation

  -- the tree that the handler leaves
  abbrev pub after : Operation → Str → Str → Node → Node
  after listing server query t = (list_files h server query t).0
  after reading server query t = (read_file h server query t).0
  after making_directory server query t = (create_directory h server query t).0
  after creating server query t = (create_file h server query t).0
  after deleting server query t = (delete_file h server query t).0
  after (writing body) server query t = (write_file h body server query t).0
  after (uploading parts) server query t = (upload_file h parts server query t).0

  Same-with_safe_root :
      {A : Type 0} (server query : Str) (q : Place) (f : Place → Str → Node → Node × Response A)
      (t : Node)
      → Apart q (root_place mount_root server)
      → ((p : Str) (t1 : Node) → Same q t1 (f (root_place mount_root server) p t1).0)
      → Same q t (with_safe_root h server query f t).0
  unfolding with_safe_root
  Same-with_safe_root server query q f t a keeps = elim (resolve_cases h server query t) [
    | inl (code, message, e) ↦ ground arith
    | inr (t1, made, e) ↦ ground (
      arith,
      keeps (request_path query) t1,
      get-mkdir_all-Apart me (root_place mount_root server) q (some t) t1 a made,
    )
  ]

  module _ (q root : Place) (a : Apart q root) where
    Same-write_in : (body : Body) (p : Str) (t : Node) → Same q t (write_in h body root p t).0
    unfolding write_in
    Same-write_in body p t = elim (Option-cases (open_file me truncating root p t)) [
      | inl failed ↦ ground arith
      | inr ((r, t1), done) ↦
          let (ar, same) = Same-open_file me q root a truncating p t t1 r done in
          ground (arith, Same-fill me q root a r body t1 ar, same)
    ]

    Same-upload_to : (body : Body) (p : Str) (t : Node) → Same q t (upload_to h body root p t).0
    unfolding upload_to
    Same-upload_to body p t = elim (Option-cases (upload_dirs me root p t)) [
      | inl failed ↦ ground arith
      | inr (t1, made) ↦ elim (Option-cases (open_file me truncating root p t1)) [
        | inl failed ↦ ground (arith, Same-upload_dirs me q root a p t t1 made)
        | inr ((r, t2), done) ↦
            let (ar, same) = Same-open_file me q root a truncating p t1 t2 r done in
            ground (
              arith,
              Same-fill me q root a r body t2 ar,
              same,
              Same-upload_dirs me q root a p t t1 made,
            )
      ]
    ]

    Same-upload_in :
        (parts : Option (Option Part)) (p : Str) (t : Node)
        → Same q t (upload_in h parts root p t).0
    unfolding upload_in
    Same-upload_in none p t = refl
    Same-upload_in (some none) p t = refl
    Same-upload_in (some (some part)) p t =
        elim (Option-cases (sanitize_upload_path (file_name part))) [
          | inl bad ↦ ground arith
          | inr (rel, good) ↦ ground (arith, Same-upload_to part.body (join_path p rel) t)
        ]

    Same-create_directory_in : (p : Str) (t : Node) → Same q t (create_directory_in h root p t).0
    unfolding create_directory_in
    Same-create_directory_in p t = elim (Option-cases (make_dirs me root p t)) [
      | inl failed ↦ ground arith
      | inr (t1, made) ↦ ground (arith, Same-make_dirs me q root a p t t1 made)
    ]

    Same-create_at : (p : Str) (t : Node) → Same q t (create_at h root p t).0
    unfolding create_at
    Same-create_at p t = elim (Option-cases (upload_dirs me root p t)) [
      | inl failed ↦ ground arith
      | inr (t1, made) ↦ elim (Option-cases (open_file me excluding root p t1)) [
        | inl failed ↦ ground (arith, Same-upload_dirs me q root a p t t1 made)
        | inr ((r, t2), done) ↦
            let (ar, same) = Same-open_file me q root a excluding p t1 t2 r done in
            ground (
              arith,
              Same-chown me q root a r t2 ar,
              same,
              Same-upload_dirs me q root a p t t1 made,
            )
      ]
    ]

    Same-create_file_in : (p : Str) (t : Node) → Same q t (create_file_in h root p t).0
    unfolding create_file_in
    Same-create_file_in p t = ground (arith, Same-create_at p t)

    Same-delete_in : (p : Str) (t : Node) → Same q t (delete_in h root p t).0
    unfolding delete_in
    Same-delete_in p t = elim (Option-cases (remove root p t)) [
      | inl failed ↦ ground arith
      | inr (t1, removed) ↦ ground (arith, Same-remove me q root a p t t1 removed)
    ]

  -- Whatever a handler of the file manager is asked, the places apart from the directory of the
  -- server, those of which neither leads to the other, keep what stands there.
  pub handlers_confined :
      (op : Operation) (server query : Str) (q : Place) (t : Node)
      → Apart q (root_place mount_root server)
      → get q (some (after op server query t)) ≡ get q (some t)
  unfolding list_files read_file create_directory create_file delete_file write_file upload_file
  handlers_confined listing server query q t a =
      Same-with_safe_root server query q (list_in h) t a (λ p t1. refl)
  handlers_confined reading server query q t a =
      Same-with_safe_root server query q (read_in h) t a (λ p t1. refl)
  handlers_confined making_directory server query q t a =
      Same-with_safe_root server query q (create_directory_in h) t a
        (Same-create_directory_in q (root_place mount_root server) a)
  handlers_confined creating server query q t a =
      Same-with_safe_root server query q (create_file_in h) t a
        (Same-create_file_in q (root_place mount_root server) a)
  handlers_confined deleting server query q t a =
      Same-with_safe_root server query q (delete_in h) t a
        (Same-delete_in q (root_place mount_root server) a)
  handlers_confined (writing body) server query q t a =
      Same-with_safe_root server query q (write_in h body) t a
        (Same-write_in q (root_place mount_root server) a body)
  handlers_confined (uploading parts) server query q t a =
      Same-with_safe_root server query q (upload_in h parts) t a
        (Same-upload_in q (root_place mount_root server) a parts)
