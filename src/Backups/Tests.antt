-- ===== src/Backups/Tests.antt =====
-- Backups on a machine with the data of one server.
use serveo_api_golang.Prelude.{List, Some, ◌≡◌, refl, true, false, some, [], ◌∷◌, ◌++◌, arith, map}
use serveo_api_golang.Text.{Str, codes, text_eq, split, join, has_prefix, contains}
use serveo_api_golang.FilePath.{
  clean, join_path, walk, enter, is_abs, dir_path, drop_name, base_name, take_name, drop_slashes,
}
use serveo_api_golang.FileSystem.{
  Owner, Node, dir, file, Entries, no_entries, entry, get, find, put, mkdir_all, change, amend,
  opened, is_not_exist, place,
}
use serveo_api_golang.FileSystem.Laws.{differ, deeper}
use serveo_api_golang.Http.{send_json, write_header}
use serveo_api_golang.Backups.Archive.{
  Setting, archived, ZipFile, zip_dir, rel_path, by_name, insert, text_leb, make_or_keep,
  copy_entry, extract_file, extract_entry, extract, unzip,
}
use serveo_api_golang.Backups.{
  BackupInfo, is_bad_name, get_backups_dir, write_backup, create_backup, list_backups,
  restore_backup,
}
use serveo_api_golang.Backups.Archive
use serveo_api_golang.Backups.Extract.{stored}
use serveo_api_golang.Backups.Walk.{IsTree}
use serveo_api_golang.Backups.Listing.{list_backups-others}
use serveo_api_golang.Backups.Confined.{restore_backup-confined}
use serveo_api_golang.Backups.RoundTrip.{restore_backup-create_backup}

abbrev root_user : Owner
root_user = record { uid = 0; gid = 0 }

-- the archives of the examples hold one file
abbrev machine : Str → Setting
machine name = record {
  me = root_user;
  mount_root = codes "/srv/data";
  error_text = (λ path. codes "error");
  dir_size = (λ entries. 4096);
  zip_bytes = (λ contents. codes "PK");
  zip_files = (λ bytes. some (
      record { name = name; is_dir = false; readable = true; bytes = codes "hi"; broken = false }
      ∷ []));
}

abbrev world : Entries
world =
    entry (codes "w")
      (dir root_user (entry (codes "a.txt") (file root_user (codes "hi")) no_entries)) no_entries

-- /etc/passwd, /srv/data/mc and /srv/backups
abbrev disk : Entries → Entries → Node
disk files archives = dir root_user (
    entry (codes "etc")
      (dir root_user (entry (codes "passwd") (file root_user (codes "x")) no_entries))
      (entry (codes "srv")
        (dir root_user (
          entry (codes "data") (dir root_user (entry (codes "mc") (dir root_user files) no_entries))
            (entry (codes "backups") (dir root_user archives) no_entries)))
        no_entries))

abbrev archive : Entries
archive = entry (codes "mc_1.zip") (file root_user (codes "PK")) no_entries

abbrev made_info : BackupInfo
made_info = record { filename = codes "mc_1.zip"; size = 2 }

restore_backup-confined_example :
    get (codes "etc" ∷ codes "passwd" ∷ []) (
      some
        (restore_backup
          (machine (codes "../../../etc/passwd"))
          (codes "mc")
          (some (codes "mc_1.zip"))
          (disk world archive)).0)
    ≡ get (codes "etc" ∷ codes "passwd" ∷ []) (some (disk world archive))
unfolding walk split join_path text_eq clean has_prefix join is_abs enter
restore_backup-confined_example =
    restore_backup-confined (machine (codes "../../../etc/passwd")) (codes "mc")
      (some (codes "mc_1.zip")) (codes "etc" ∷ codes "passwd" ∷ []) (disk world archive) refl
      (differ (λ e. ground arith))

world-IsTree : IsTree (dir root_user world)
unfolding IsTree find
world-IsTree = (
  (((λ e. cc), ((λ e. omega arith), tt)), (λ e. ground arith), (λ e. ground arith)),
  refl,
  (
    (
      (
        (λ e. cc),
        (
          (λ e. omega arith),
          (
            (λ e. omega arith),
            ((λ e. omega arith), ((λ e. omega arith), ((λ e. omega arith), tt))),
          ),
        ),
      ),
      (λ e. ground arith),
      (λ e. ground arith),
    ),
    refl,
    tt,
    tt,
  ),
  tt,
)

reads :
    (machine (codes "w/a.txt")).zip_files (
      (machine (codes "w/a.txt")).zip_bytes
        (archived (machine (codes "w/a.txt")) (some (dir root_user world))))
    ≡ some (map stored (Archive.walk (dir root_user world)))
unfolding Archive.walk by_name insert rel_path join
reads = refl

created :
    create_backup (machine (codes "w/a.txt")) (codes "mc") (codes "1") (disk world no_entries)
    ≡ (disk world archive, send_json 201 made_info)
unfolding create_backup write_backup zip_dir get_backups_dir is_bad_name is_not_exist mkdir_all
    change amend opened get find put split join_path dir_path drop_name base_name take_name
    drop_slashes clean walk enter is_abs text_eq has_prefix join contains
created = refl

restores :
    restore_backup
      (machine (codes "w/a.txt"))
      (codes "mc")
      (some (codes "mc_1.zip"))
      (disk no_entries archive)
    ≡ (disk world archive, write_header 204)
unfolding restore_backup make_or_keep unzip extract extract_entry extract_file copy_entry
    get_backups_dir is_bad_name is_not_exist mkdir_all change amend opened get find put split
    join_path dir_path drop_name clean walk enter is_abs text_eq has_prefix join contains
restores = refl

restore_backup-create_backup_example :
    (owner : Owner) × (get
        (place (join_path (codes "/srv/data") (codes "mc")) ++ codes "w" ∷ codes "a.txt" ∷ [])
        (some (disk world archive))
      ≡ some (file owner (codes "hi")))
unfolding get find split join_path text_eq clean has_prefix join is_abs enter walk dir_path
    drop_name get_backups_dir
restore_backup-create_backup_example =
    restore_backup-create_backup (machine (codes "w/a.txt")) (codes "mc") (codes "1")
      (disk world no_entries) (disk world archive) (disk no_entries archive) (disk world archive)
      made_info root_user world refl ((λ e. omega arith), tt) (deeper (differ (λ e. ground arith)))
      refl world-IsTree reads created refl restores (codes "w" ∷ codes "a.txt" ∷ []) root_user
      (codes "hi") refl

-- the archive of a server mc_old
abbrev old_archive : Entries
old_archive = entry (codes "mc_old_1.zip") (file root_user (codes "PK")) no_entries

list_backups-others_example :
    (infos : List BackupInfo) × (list_backups (machine []) (codes "mc") (disk world old_archive)
      ≡ send_json 200 infos)
    × Some (λ i. i ≡ record { filename = codes "mc_old_1.zip"; size = 2 }) infos
unfolding get find split join_path text_eq clean has_prefix join is_abs enter walk dir_path
    drop_name get_backups_dir is_bad_name contains
list_backups-others_example =
    list_backups-others (machine []) (codes "mc") (codes "old") (codes "1") root_user root_user
      old_archive (codes "PK") (disk world old_archive) refl refl refl
