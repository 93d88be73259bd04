-- ===== src/Backups/RoundTrip.antt =====
-- What CreateBackup stores, RestoreBackup restores.
use serveo_api_golang.Prelude.{
  ◌≡◌, ap, ◌∙◌, true, Option, none, some, List, [], ◌++◌, arith, inl, inr, Option-cases, Bool-cases,
  subst, map,
}
use serveo_api_golang.Text.{Str, Lacks}
use serveo_api_golang.FilePath.{is_abs, join_path}
use serveo_api_golang.FilePath.Clean.{is_abs-join_path}
use serveo_api_golang.FileSystem.{
  Owner, Node, dir, file, Entries, Place, get, mkdir_all, place, is_not_exist,
}
use serveo_api_golang.FileSystem.Laws.{Apart}
use serveo_api_golang.FileSystem.Directories.{get-mkdir_all_file}
use serveo_api_golang.Http.{send_json, write_header}
use serveo_api_golang.Backups.Archive.{
  Setting, ZipFile, archived, walk, make_or_keep, extract, unzip,
}
use serveo_api_golang.Backups.Walk.{IsTree, walk-Holds, walk-has}
use serveo_api_golang.Backups.Extract.{stored, Contains, extract-restores}
use serveo_api_golang.Backups.{
  BackupInfo, is_bad_name, get_backups_dir, create_backup, restored, restore_backup,
}
use serveo_api_golang.Backups.Created.{create_backup-Contains}

no_Apart_root : {q : Place} → Apart [] q → ⊥
no_Apart_root a = elim a [ ]

module _ (h : Setting) where
  open h use {me, mount_root, zip_bytes, zip_files}

  restored-none :
      (r : Node × Option Str) (t' : Node) → restored h r ≡ (t', write_header 204) → r ≡ (t', none)
  restored-none (t, none) t' e = ground arith
  restored-none (t, some message) t' e = absurd (ground arith)

  unzip-extract :
      (src dest bytes : Str) (t t' : Node) (fs : List ZipFile)
      → Contains (place src) bytes t
      → zip_files bytes ≡ some fs
      → unzip h src dest t ≡ (t', none)
      → extract h dest fs t ≡ (t', none)
  unfolding unzip
  unzip-extract src dest bytes t t' fs (o, at) reads e = ground (arith, at, reads)

  make_or_keep-Contains :
      (q : Place) (s path : Str) (t : Node) → Contains q s t → Contains q s (make_or_keep h path t)
  unfolding make_or_keep
  make_or_keep-Contains q s path t (o, at) =
      elim (Option-cases (mkdir_all me (place path) (some t))) [
        | inl failed ↦ (o, ground arith)
        | inr (t1, made) ↦
            (o, ground (arith, get-mkdir_all_file me (place path) q (some t) t1 o s made at))
      ]

  restore_backup-unzip :
      (server filename : Str) (t t' : Node)
      → restore_backup h server (some filename) t ≡ (t', write_header 204)
      → unzip h
          (join_path (get_backups_dir h) filename)
          (join_path mount_root server)
          (make_or_keep h (join_path mount_root server) t)
        ≡ (t', none)
  unfolding restore_backup
  restore_backup-unzip server filename t t' e = elim (Bool-cases (is_bad_name server)) [
    | inl bad ↦ absurd (ground arith)
    | inr good ↦ elim (Bool-cases (is_bad_name filename)) [
      | inl bad_file ↦ absurd (ground arith)
      | inr good_file ↦
          elim (Bool-cases
            (is_not_exist (place (join_path (get_backups_dir h) filename)) (some t))) [
              | inl missing ↦ absurd (ground arith)
              | inr exists ↦
                  restored-none
                    (unzip h (join_path (get_backups_dir h) filename) (join_path mount_root server)
                      (make_or_keep h (join_path mount_root server) t))
                    t' (ground arith)
            ]
    ]
  ]

  -- Let the mount root be an absolute path, the time be written without a "/", and the directory
  -- of the server and that of the backups be apart. Let CreateBackup answer 201 where the server's
  -- directory is a tree of files, of which package archive/zip reads back what it writes. As long
  -- as the archive stays as it is, whatever else changes, a RestoreBackup of the name in the answer
  -- that is answered with 204 leaves every file of the tree in the server's directory, at its old
  -- place and with its old content.
  pub restore_backup-create_backup :
      (server timestamp : Str) (t t1 t2 t3 : Node) (info : BackupInfo) (o : Owner) (es : Entries)
      → is_abs mount_root ≡ true
      → Lacks b'/' timestamp
      → Apart (place (join_path mount_root server)) (place (get_backups_dir h))
      → get (place (join_path mount_root server)) (some t) ≡ some (dir o es)
      → IsTree (dir o es)
      → zip_files (zip_bytes (archived h (some (dir o es)))) ≡ some (map stored (walk (dir o es)))
      → create_backup h server timestamp t ≡ (t1, send_json 201 info)
      → get (place (join_path (get_backups_dir h) info.filename)) (some t2)
        ≡ get (place (join_path (get_backups_dir h) info.filename)) (some t1)
      → restore_backup h server (some info.filename) t2 ≡ (t3, write_header 204)
      → (p : Place) (owner : Owner) (content : Str)
      → get p (some (dir o es)) ≡ some (file owner content)
      → (owner' : Owner) × (get (place (join_path mount_root server) ++ p) (some t3)
          ≡ some (file owner' content))
  restore_backup-create_backup server timestamp t t1 t2 t3 info o es rooted ht a at tree reads made
        same done p owner content old =
      let dest = join_path mount_root server in
      let zip = join_path (get_backups_dir h) info.filename in
      let (named, (zip_owner, zipped)) =
        create_backup-Contains h server timestamp t t1 info made a rooted ht in
      let bytes = zip_bytes (archived h (some (dir o es))) in
      let archive : Contains (place zip) bytes t2 = (
        zip_owner,
        same ∙ zipped ∙ ap (λ m. some (file zip_owner (zip_bytes (archived h m)))) at,
      ) in
      let extracted =
        unzip-extract zip dest bytes (make_or_keep h dest t2) t3 (map stored (walk (dir o es)))
          (make_or_keep-Contains (place zip) bytes dest t2 archive) reads
          (restore_backup-unzip server info.filename t2 t3 done) in
      extract-restores h dest (is_abs-join_path mount_root server rooted)
        (λ k. no_Apart_root (subst (λ q. Apart q (place (get_backups_dir h))) k a)) o es
        (walk (dir o es)) (p, content) (make_or_keep h dest t2) t3 (walk-Holds (dir o es) tree)
        (walk-has (dir o es) p owner content old) extracted
