-- ===== src/Backups/Confined.antt =====
-- What the restoration of a backup leaves alone.
use serveo_api_golang.Prelude.{
  ◌≡◌, refl, sym, ◌∙◌, true, Option, none, some, List, [], ◌∷◌, ◌++◌, arith, inl, inr, Option-cases,
  Bool-cases, subst,
}
use serveo_api_golang.Text.{Str, codes, has_prefix}
use serveo_api_golang.FilePath.{is_abs, clean, join_path, dir_path}
use serveo_api_golang.FilePath.Clean.{is_abs-join_path}
use serveo_api_golang.FilePath.Inside.{inside}
use serveo_api_golang.FileSystem.{
  Node, dir, file, Place, get, change, mkdir_all, truncating, opened, with_content, place,
}
use serveo_api_golang.FileSystem.Laws.{Apart, Apart-append, get-change-Apart}
use serveo_api_golang.FileSystem.Directories.{get-mkdir_all-Apart}
use serveo_api_golang.FileSystem.Same.{Same, Same-amend}
use serveo_api_golang.Backups.Archive.{
  Setting, ZipFile, make_or_keep, copy_entry, extract_file, extract_entry, extract, unzip_node,
  unzip,
}
use serveo_api_golang.Backups.{restore_backup, get_backups_dir, restored}

module _ (h : Setting) where
  open h use {me, mount_root, error_text, zip_files}

  Same-make_or_keep :
      (q : Place) (path : Str) (t : Node) → Apart q (place path) → Same q t (make_or_keep h path t)
  unfolding make_or_keep
  Same-make_or_keep q path t a = elim (Option-cases (mkdir_all me (place path) (some t))) [
    | inl failed ↦ ground arith
    | inr (t1, made) ↦ ground (arith, get-mkdir_all-Apart me (place path) q (some t) t1 a made)
  ]

  Same-copy_entry :
      (q : Place) (f : ZipFile) (path : Str) (t : Node)
      → Apart q (place path)
      → Same q t (copy_entry h f path t).0
  unfolding copy_entry
  Same-copy_entry q f path t a =
      ground (arith, Same-amend q (place path) (with_content f.bytes) t a)

  Same-extract_file :
      (q : Place) (f : ZipFile) (path : Str) (t : Node)
      → Apart q (place path)
      → Apart q (place (dir_path path))
      → Same q t (extract_file h f path t).0
  unfolding extract_file
  Same-extract_file q f path t a d =
      elim (Option-cases (mkdir_all me (place (dir_path path)) (some t))) [
        | inl failed ↦ ground arith
        | inr (t1, made) ↦
            elim (Option-cases (change (place path) (opened me truncating) (some t1))) [
              | inl failed ↦
                  ground
                    (arith, get-mkdir_all-Apart me (place (dir_path path)) q (some t) t1 d made)
              | inr (t2, done) ↦ ground (
                arith,
                Same-copy_entry q f path t2 a,
                get-change-Apart (place path) q (opened me truncating) (some t1) t2 a done,
                get-mkdir_all-Apart me (place (dir_path path)) q (some t) t1 d made,
              )
            ]
      ]

  module _ (dest : Str) (rooted : is_abs dest ≡ true) (q : Place) (a : Apart q (place dest)) where
    Same-extract_entry : (f : ZipFile) (t : Node) → Same q t (extract_entry h dest f t).0
    unfolding extract_entry
    Same-extract_entry f t =
        elim (Bool-cases (has_prefix (join_path dest f.name) (clean dest ++ codes "/"))) [
          | inr outside ↦ ground arith
          | inl below ↦
              let (ys, zs, there, its_dir) = inside dest f.name rooted below in
              let a1 = subst (Apart q) (sym there) (Apart-append zs a) in
              let a2 = subst (Apart q) (sym its_dir) (Apart-append ys a) in
              ground (
                arith,
                Same-make_or_keep q (join_path dest f.name) t a1,
                Same-extract_file q f (join_path dest f.name) t a1 a2,
              )
        ]

    Same-extract : (fs : List ZipFile) (t : Node) → Same q t (extract h dest fs t).0
    unfolding extract
    Same-extract [] t = refl
    Same-extract (f ∷ fs) t = elim (Option-cases (extract_entry h dest f t).1) [
      | inl fine ↦
          ground (arith, Same-extract fs (extract_entry h dest f t).0, Same-extract_entry f t)
      | inr (message, failed) ↦ ground (arith, Same-extract_entry f t)
    ]

    Same-unzip_node :
        (src : Str) (m : Option Node) (t : Node) → Same q t (unzip_node h src dest m t).0
    Same-unzip_node src none t = refl
    Same-unzip_node src (some (dir o es)) t = refl
    Same-unzip_node src (some (file o s)) t = elim (Option-cases (zip_files s)) [
      | inl damaged ↦ ground arith
      | inr (fs, good) ↦ ground (arith, Same-extract fs t)
    ]

    Same-unzip : (src : Str) (t : Node) → Same q t (unzip h src dest t).0
    unfolding unzip
    Same-unzip src t = Same-unzip_node src (get (place src) (some t)) t

  restored_tree :
      (q : Place) (r : Node × Option Str) → get q (some (restored h r).0) ≡ get q (some r.0)
  restored_tree q (t, none) = refl
  restored_tree q (t, some message) = refl

  -- Whatever archive is restored, and whether that succeeds, the places apart from the directory
  -- of the server keep what stands there, where the mount root is an absolute path.
  pub restore_backup-confined :
      (server : Str) (filename : Option Str) (q : Place) (t : Node)
      → is_abs mount_root ≡ true
      → Apart q (place (join_path mount_root server))
      → get q (some (restore_backup h server filename t).0) ≡ get q (some t)
  unfolding restore_backup
  restore_backup-confined server none q t rooted a = ground arith
  restore_backup-confined server (some filename) q t rooted a =
      let dest = join_path mount_root server in
      let t1 = make_or_keep h dest t in
      let out = unzip h (join_path (get_backups_dir h) filename) dest t1 in
      let same =
        restored_tree q out
        ∙ Same-unzip dest (is_abs-join_path mount_root server rooted) q a
            (join_path (get_backups_dir h) filename) t1
        ∙ Same-make_or_keep q dest t a in
      ground (arith, same)
