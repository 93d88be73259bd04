-- ===== src/Backups/Created.antt =====
-- The archive that CreateBackup leaves, and its name.
use serveo_api_golang.Prelude.{
  ◌≡◌, ◌≢◌, sym, ap, ◌∙◌, true, false, Option, none, some, [], ◌∷◌, ◌++◌, arith, inl, inr,
  Option-cases, Bool-cases, subst, drop,
}
use serveo_api_golang.Text.{Str, contains-Lacks, Lacks-append, codes, Lacks}
use serveo_api_golang.FilePath.{is_abs, clean, join_path, dir_path, base_name}
use serveo_api_golang.FilePath.Clean.{IsProper, is_abs-join_path}
use serveo_api_golang.FilePath.Last.{append_nonempty}
use serveo_api_golang.FilePath.Joined.{names-join_path_name, base_name-join_path, is_abs-dir_path}
use serveo_api_golang.FileSystem.{
  Node, get, change, amend, mkdir_all, truncating, opened, with_content, place, is_not_exist,
}
use serveo_api_golang.FileSystem.Laws.{Apart, Apart-append, get-change, get-change-Apart}
use serveo_api_golang.FileSystem.Directories.{get-mkdir_all-Apart}
use serveo_api_golang.FileSystem.Kept.{get-change-some, opened-file}
use serveo_api_golang.Http.{send_json}
use serveo_api_golang.Backups.Archive.{Setting, zip_dir, archived}
use serveo_api_golang.Backups.Extract.{Contains, amend-Contains}
use serveo_api_golang.Backups.{
  BackupInfo, is_bad_name, backup_filename, get_backups_dir, write_backup, stat_new, create_backup,
}

good_name : (s : Str) → is_bad_name s ≡ false → Lacks b'/' s
unfolding is_bad_name
good_name s e = contains-Lacks b'/' s (ground arith)

not_dots :
    (s t : Str) → (s ++ b'_' ∷ t ≢ []) × (s ++ b'_' ∷ t ≢ codes ".") × (s ++ b'_' ∷ t ≢ codes "..")
not_dots [] t = (λ e. cc, (λ e. ground arith), (λ e. ground arith))
not_dots (c ∷ []) t = (λ e. cc, (λ e. ground arith), (λ e. ground arith))
not_dots (c ∷ d ∷ s) t =
    (λ e. cc, (λ e. ground arith), λ e. append_nonempty s b'_' t (ap (drop 2) e))

zip-Lacks : Lacks b'/' (codes ".zip")
zip-Lacks =
    ((λ e. omega arith), ((λ e. omega arith), ((λ e. omega arith), ((λ e. omega arith), tt))))

backup_filename-IsProper :
    (server timestamp : Str)
    → Lacks b'/' server
    → Lacks b'/' timestamp
    → IsProper (backup_filename server timestamp)
backup_filename-IsProper server timestamp hs ht =
    let (full, dot, dots) = not_dots server (timestamp ++ codes ".zip") in
    (
      (
        full,
        Lacks-append b'/' server (codes "_" ++ (timestamp ++ codes ".zip")) hs
            ((λ e. ground arith), Lacks-append b'/' timestamp (codes ".zip") ht zip-Lacks),
      ),
      dot,
      dots,
    )

module _ (h : Setting) where
  open h use {me, mount_root, zip_bytes, zip_files}

  zip_dir-Contains :
      (src dest : Str) (t t' : Node)
      → zip_dir h src dest t ≡ (t', none)
      → Apart (place src) (place dest)
      → Contains (place dest) (zip_bytes (archived h (get (place src) (some t)))) t'
  unfolding zip_dir
  zip_dir-Contains src dest t t' e a =
      elim (Option-cases (change (place dest) (opened me truncating) (some t))) [
        | inl failed ↦ absurd (ground arith)
        | inr (t1, done) ↦
            let (n, at_path) =
              get-change-some (place dest) (opened me truncating) (some t) t1 done in
            let (o, n_is) =
              opened-file me truncating (get (place dest) (some t)) n
                (sym (get-change (place dest) (opened me truncating) (some t) t1 done) ∙ at_path) in
            let bytes = zip_bytes (archived h (get (place src) (some t1))) in
            let written : amend (place dest) (with_content bytes) t1 ≡ t' = ground arith in
            subst (λ u. Contains (place dest) (zip_bytes (archived h u)) t')
              (get-change-Apart (place dest) (place src) (opened me truncating) (some t) t1 a done)
              (subst (Contains (place dest) bytes) written
                (amend-Contains (place dest) [] bytes t1 (o, at_path ∙ ap some n_is)))
      ]

  stat_new-filename :
      (path : Str) (m : Option Node) (info : BackupInfo)
      → stat_new h path m ≡ send_json 201 info
      → info.filename ≡ base_name path
  stat_new-filename path none info e = absurd (ground arith)
  stat_new-filename path (some n) info e = ground (arith, e)

  write_backup-Contains :
      (src path : Str) (t t' : Node) (info : BackupInfo)
      → write_backup h src path t ≡ (t', send_json 201 info)
      → Apart (place src) (place path)
      → (info.filename ≡ base_name path)
        × Contains (place path) (zip_bytes (archived h (get (place src) (some t)))) t'
  unfolding write_backup
  write_backup-Contains src path t t' info e a = elim (Option-cases (zip_dir h src path t).1) [
    | inr (message, failed) ↦ absurd (ground arith)
    | inl fine ↦
        let zipped : zip_dir h src path t ≡ (t', none) = ground arith in
        let (o, at) = zip_dir-Contains src path t t' zipped a in
        (stat_new-filename path (get (place path) (some t')) info (ground arith), (o, at))
  ]

  is_abs-backups : is_abs mount_root ≡ true → is_abs (get_backups_dir h) ≡ true
  unfolding get_backups_dir
  is_abs-backups rooted =
      is_abs-join_path (dir_path (clean mount_root)) (codes "backups")
        (is_abs-dir_path mount_root rooted)

  -- CreateBackup that answers 201
  pub create_backup-Contains :
      (server timestamp : Str) (t t' : Node) (info : BackupInfo)
      → create_backup h server timestamp t ≡ (t', send_json 201 info)
      → Apart (place (join_path mount_root server)) (place (get_backups_dir h))
      → is_abs mount_root ≡ true
      → Lacks b'/' timestamp
      → (info.filename ≡ backup_filename server timestamp)
        × Contains
            (place (join_path (get_backups_dir h) info.filename))
            (zip_bytes (archived h (get (place (join_path mount_root server)) (some t))))
            t'
  unfolding create_backup
  create_backup-Contains server timestamp t t' info e a rooted ht =
      elim (Bool-cases (is_bad_name server)) [
        | inl bad ↦ absurd (ground arith)
        | inr good ↦
            elim (Bool-cases (is_not_exist (place (join_path mount_root server)) (some t))) [
              | inl missing ↦ absurd (ground arith)
              | inr exists ↦
                  elim (Option-cases (mkdir_all me (place (get_backups_dir h)) (some t))) [
                    | inl failed ↦ absurd (ground arith)
                    | inr (t1, made) ↦
                        let dest = get_backups_dir h in
                        let filename = backup_filename server timestamp in
                        let proper =
                          backup_filename-IsProper server timestamp (good_name server good) ht in
                        let path_is =
                          names-join_path_name dest filename (is_abs-backups rooted) proper in
                        let apart =
                          subst (Apart (place (join_path mount_root server))) (sym path_is)
                            (Apart-append (filename ∷ []) a) in
                        let (named, (o, at)) =
                          write_backup-Contains (join_path mount_root server)
                            (join_path dest filename) t1 t' info (ground arith) apart in
                        let name_is : info.filename ≡ filename =
                          named
                          ∙ base_name-join_path dest filename (is_abs-backups rooted) proper in
                        let tree =
                          get-mkdir_all-Apart me (place dest) (place (join_path mount_root server))
                            (some t) t1 a made in
                        (
                          name_is,
                          subst
                              (λ m.
                                Contains (place (join_path dest info.filename))
                                  (zip_bytes (archived h m)) t')
                              tree
                              (subst
                                (λ f.
                                  Contains (place (join_path dest f))
                                    (zip_bytes (
                                      archived h
                                        (get (place (join_path mount_root server)) (some t1))))
                                    t')
                                (sym name_is) (o, at)),
                        )
                  ]
            ]
      ]
