-- ===== src/Backups.antt =====
-- internal/modules/v2/backups/handler.go: the handlers of the backups.
pub mod Archive
pub mod Confined
pub mod Sorted
pub mod Walk
pub mod Extract
pub mod Created
pub mod RoundTrip
pub mod Listing
mod Tests
use serveo_api_golang.Prelude.{
  ℕ, Bool, true, false, not, ◌&&◌, ◌||◌, Option, none, some, List, [], ◌∷◌, ◌++◌, if◌then◌else◌,
  length,
}
use serveo_api_golang.Text.{Str, codes, text_eq, contains, has_prefix, has_suffix}
use serveo_api_golang.FilePath.{clean, join_path, dir_path, base_name}
use serveo_api_golang.FileSystem.{
  Node, dir, file, Entries, no_entries, entry, get, mkdir_all, is_not_exist, place,
}
use serveo_api_golang.Http.{Response, send_error, send_json, write_header}
use serveo_api_golang.Backups.Archive.{Setting, by_name, zip_dir, unzip, make_or_keep}

-- BackupInfo, without the time of the last change
pub record BackupInfo : Type 0 where
  pub filename : Str
  pub size : ℕ

-- the test of a server's name and of a file's
unfoldable pub is_bad_name : Str → Bool
unfolding contains
is_bad_name s = contains s (codes "/") || contains s (codes "\\") || text_eq s (codes "..")

-- the name of the archive
abbrev pub backup_filename : Str → Str → Str
backup_filename server timestamp = server ++ (codes "_" ++ (timestamp ++ codes ".zip"))

abbrev pub listed : Entries → List (Str × Node)
listed no_entries = []
listed (entry name n rest) = (name, n) ∷ listed rest

module _ (h : Setting) where
  open h use {me, mount_root, error_text, dir_size}

  -- getBackupsDir
  unfoldable pub get_backups_dir : Str
  get_backups_dir = join_path (dir_path (clean mount_root)) (codes "backups")

  abbrev size_of : Node → ℕ
  size_of (file o s) = length s
  size_of (dir o es) = dir_size es

  abbrev pub stat_new : Str → Option Node → Response BackupInfo
  stat_new path none = send_error 500 (codes "Failed to stat new backup: " ++ error_text path)
  stat_new path (some n) = send_json 201 (record { filename = base_name path; size = size_of n })

  -- CreateBackup from the creation of the archive on
  unfoldable pub write_backup : Str → Str → Node → Node × Response BackupInfo
  write_backup src path t =
      let (t1, e) = zip_dir h src path t in
      elim e [
        | some message ↦ (t1, send_error 500 (codes "Failed to create backup archive: " ++ message))
        | none ↦ (t1, stat_new path (get (place path) (some t1)))
      ]

  -- CreateBackup; the time as it is formatted for the file's name
  unfoldable pub create_backup : Str → Str → Node → Node × Response BackupInfo
  create_backup server timestamp t =
      if is_bad_name server
      then (t, send_error 400 (codes "Invalid server name"))
      else if is_not_exist (place (join_path mount_root server)) (some t)
      then (t, send_error 404 (codes "Server directory not found"))
      else elim (mkdir_all me (place get_backups_dir) (some t)) [
        | none ↦ (t, send_error 500 (codes "Failed to create backups directory"))
        | some t1 ↦
            write_backup (join_path mount_root server)
              (join_path get_backups_dir (backup_filename server timestamp)) t1
      ]

  -- the loop of ListBackups
  unfoldable pub backup_infos : Str → List (Str × Node) → List BackupInfo
  backup_infos prefix [] = []
  backup_infos prefix ((name, dir o es) ∷ rest) = backup_infos prefix rest
  backup_infos prefix ((name, file o s) ∷ rest) =
      let later = backup_infos prefix rest in
      if has_prefix name prefix && has_suffix name (codes ".zip")
      then record { filename = name; size = length s } ∷ later
      else later

  abbrev pub listing : Str → Bool → Option Node → Response (List BackupInfo)
  listing server missing (some (dir o es)) =
      send_json 200 (backup_infos (server ++ codes "_") (by_name (listed es)))
  listing server missing (some (file o s)) =
      send_error 500 (codes "Failed to read backups directory")
  listing server missing none =
      if missing
      then send_json 200 []
      else send_error 500 (codes "Failed to read backups directory")

  -- ListBackups
  unfoldable pub list_backups : Str → Node → Response (List BackupInfo)
  list_backups server t =
      if is_bad_name server
      then send_error 400 (codes "Invalid server name")
      else listing server (is_not_exist (place get_backups_dir) (some t))
          (get (place get_backups_dir) (some t))

  abbrev pub restored : Node × Option Str → Node × Response (Unit {0})
  restored (t, some message) = (t, send_error 500 (codes "Failed to restore backup: " ++ message))
  restored (t, none) = (t, write_header 204)

  -- RestoreBackup; `none` is a body that does not decode
  unfoldable pub restore_backup : Str → Option Str → Node → Node × Response (Unit {0})
  restore_backup server none t =
      if is_bad_name server
      then (t, send_error 400 (codes "Invalid server name"))
      else (t, send_error 400 (codes "Invalid body"))
  restore_backup server (some filename) t =
      if is_bad_name server
      then (t, send_error 400 (codes "Invalid server name"))
      else if is_bad_name filename
      then (t, send_error 400 (codes "Invalid filename"))
      else if is_not_exist (place (join_path get_backups_dir filename)) (some t)
      then (t, send_error 404 (codes "Backup file not found"))
      else restored (
          unzip h (join_path get_backups_dir filename) (join_path mount_root server)
            (make_or_keep h (join_path mount_root server) t))
