-- ===== src/Mcp/Reading/Tests.antt =====
-- A file of a container.
use serveo_api_golang.Prelude.{◌≡◌, refl, if◌then◌else◌, none, some}
use serveo_api_golang.Text.{
  Str, codes, text_eq, split, trim_space, trim_suffix, has_suffix, join, has_prefix,
}
use serveo_api_golang.Http.{Context, send_json}
use serveo_api_golang.Rbac.{has_permission, part_grants}
use serveo_api_golang.FilePath.{clean, join_path, is_abs, walk, enter}
use serveo_api_golang.FileSystem.{
  Owner, Node, dir, file, no_entries, entry, get, find, beneath, resolve,
}
use serveo_api_golang.Files.Root.{Setting, is_valid_server, strip_slashes, stat, place_in}
use serveo_api_golang.Files.{read_file}
use serveo_api_golang.Mcp.{tool_text, permission_error}
use serveo_api_golang.Mcp.Reading.{normalized, read_below, file_read}
use serveo_api_golang.Mcp.Reading.Files.{file_read-read_file}

abbrev root_user : Owner
root_user = record { uid = 0; gid = 0 }

abbrev machine : Setting
machine = record {
  me = root_user;
  mount_root = codes "/srv";
  docker = some (λ name. text_eq name (codes "mc"));
  os_error = λ path. codes "mkdir";
  dir_size = λ entries. 4096;
}

abbrev disk : Node
disk = dir root_user (
    entry (codes "srv")
      (dir root_user (
        entry (codes "mc")
          (dir root_user (entry (codes "motd.txt") (file root_user (codes "hi")) no_entries))
          no_entries))
      no_entries)

abbrev ctx : Context
ctx = record { user_id = some 7; user_permissions = some (codes "files.*") }

abbrev args : Str → Str
args name = if text_eq name (codes "container_name") then codes "mc" else codes "/motd.txt"

reads : file_read (codes "/srv") machine.docker ctx (some args) disk ≡ tool_text (codes "hi")
unfolding file_read permission_error has_permission part_grants trim_space has_suffix trim_suffix
    read_below normalized is_valid_server strip_slashes stat place_in beneath resolve get find split
    join_path clean walk enter is_abs text_eq has_prefix join
reads = refl

file_read-read_file_example :
    (permission_error ctx (codes "files.read") ≡ none)
    × (read_file machine (codes "mc") (codes "/motd.txt") disk ≡ (disk, send_json 200 (codes "hi")))
unfolding text_eq
file_read-read_file_example = file_read-read_file machine ctx args (codes "hi") disk reads
