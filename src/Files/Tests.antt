-- ===== src/Files/Tests.antt =====
-- The file manager on a machine with the data of one server.
use serveo_api_golang.Prelude.{◌≡◌, refl, some, [], ◌∷◌, arith, false}
use serveo_api_golang.Text.{codes, text_eq, split, join, has_prefix}
use serveo_api_golang.FilePath.{clean, join_path, walk, enter, is_abs}
use serveo_api_golang.FileSystem.{
  amend, Owner, Node, dir, file, no_entries, entry, get, find, put, mkdir_all, change, beneath,
  opened, resolve,
}
use serveo_api_golang.FileSystem.Laws.{differ}
use serveo_api_golang.Http.{send_json}
use serveo_api_golang.Files.Root.{
  Setting, Body, with_safe_root, resolve_safe_root, is_valid_server, open_file, request_path,
  chown_file_to_match_root, copy_body, fill, place_in, strip_slashes,
}
use serveo_api_golang.Files.{read_file, write_file, write_in}
use serveo_api_golang.Files.Confined.{handlers_confined, writing, after}
use serveo_api_golang.Files.RoundTrip.{write_file-read_file}

abbrev root_user : Owner
root_user = record { uid = 0; gid = 0 }

abbrev gamer : Owner
gamer = record { uid = 1000; gid = 1000 }

abbrev machine : Setting
machine = record {
  me = root_user;
  mount_root = codes "/srv";
  docker = some (λ name. text_eq name (codes "mc"));
  os_error = (λ path. codes "mkdir");
  dir_size = (λ entries. 4096);
}

-- /etc/passwd and /srv/mc
abbrev disk : Node
disk = dir root_user (
    entry (codes "etc")
      (dir root_user (entry (codes "passwd") (file root_user (codes "x")) no_entries))
      (entry (codes "srv") (dir root_user (entry (codes "mc") (dir gamer no_entries) no_entries))
        no_entries))

abbrev greeting : Body
greeting = record { bytes = codes "hi"; broken = false }

-- what WriteFile leaves
abbrev written : Node
written = dir root_user (
    entry (codes "etc")
      (dir root_user (entry (codes "passwd") (file root_user (codes "x")) no_entries))
      (entry (codes "srv")
        (dir root_user (
          entry (codes "mc")
            (dir gamer (entry (codes "motd.txt") (file gamer (codes "hi")) no_entries)) no_entries))
        no_entries))

handlers_confined_example :
    get
      (codes "etc" ∷ codes "passwd" ∷ [])
      (some (after machine (writing greeting) (codes "mc") (codes "../../etc/passwd") disk))
    ≡ get (codes "etc" ∷ codes "passwd" ∷ []) (some disk)
unfolding walk split join_path text_eq clean has_prefix join
handlers_confined_example =
    handlers_confined machine (writing greeting) (codes "mc") (codes "../../etc/passwd")
      (codes "etc" ∷ codes "passwd" ∷ []) disk (differ (λ e. ground arith))

writes :
    write_file machine greeting (codes "mc") (codes "/motd.txt") disk
    ≡ (written, send_json 200 (codes "File written"))
unfolding write_file with_safe_root resolve_safe_root is_valid_server text_eq mkdir_all walk split
    join_path clean has_prefix join find write_in open_file request_path change enter is_abs beneath
    get opened put resolve amend chown_file_to_match_root copy_body fill place_in strip_slashes
writes = refl

write_file-read_file_example :
    read_file machine (codes "mc") (codes "/motd.txt") written
    ≡ (written, send_json 200 (codes "hi"))
write_file-read_file_example =
    write_file-read_file machine greeting (codes "mc") (codes "/motd.txt") (codes "File written")
      disk written writes
