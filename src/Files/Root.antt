-- ===== src/Files/Root.antt =====
-- internal/modules/v2/files/handler.go and chown_unix.go: resolveSafeRoot and what os.Root does.
use serveo_api_golang.Prelude.{
  List, ℕ, Bool, not, ◌&&◌, ◌||◌, Option, none, some, [], ◌∷◌, ◌++◌, ◌⊎◌, inl, inr, if◌then◌else◌,
  leb, ◌==◌, all,
}
use serveo_api_golang.Text.{Str, codes, text_eq, has_prefix, trim_prefix}
use serveo_api_golang.FilePath.{dir_path, clean, join_path, base_name}
use serveo_api_golang.FileSystem.{
  Owner, Entries, Node, Place, get, change, amend, mkdir_all, remove_all, Creation, opened,
  with_owner, with_content, owner_of, beneath, place,
}
use serveo_api_golang.Http.{Response, send_error}

-- FileInfo, without the time of the last change
pub record FileInfo : Type 0 where
  pub name : Str
  pub size : ℕ
  pub is_dir : Bool
  pub path : Str

-- What is read of a request's body, and whether the reading then fails.
pub record Body : Type 0 where
  pub bytes : Str
  pub broken : Bool

-- the first part of a multipart body, with the "filename" of its Content-Disposition
pub record Part : Type 0 where
  pub disposition_filename : Str
  pub body : Body

-- Part.FileName of mime/multipart: the last element of the path
unfoldable pub file_name : Part → Str
file_name part =
    if text_eq part.disposition_filename [] then [] else base_name part.disposition_filename

-- validServerRegex
unfoldable pub is_valid_server : Str → Bool
is_valid_server s =
    not (text_eq s [])
    && all
        (λ c.
          (leb b'a' c && leb c b'z')
          || (leb b'A' c && leb c b'Z')
          || (leb b'0' c && leb c b'9')
          || c == b'_'
          || c == b'-')
        s

unfoldable pub strip_slashes : Str → Str
strip_slashes [] = []
strip_slashes (c ∷ s) = if c == b'/' then strip_slashes s else c ∷ s

abbrev or_dot : Str → Str
or_dot [] = codes "."
or_dot (c ∷ s) = c ∷ s

-- the end of resolveSafeRoot, on the query value "path"
unfoldable pub request_path : Str → Str
unfolding clean strip_slashes
request_path query = or_dot (strip_slashes (clean (or_dot query)))

-- sanitizeUploadPath
unfoldable pub sanitize_upload_path : Str → Option Str
unfolding clean base_name
sanitize_upload_path name =
    let cleaned = trim_prefix (clean name) (codes "/") in
    if text_eq cleaned []
      || text_eq cleaned (codes ".")
      || text_eq cleaned (codes "..")
      || has_prefix cleaned (codes "../")
    then none
    else if text_eq (base_name cleaned) []
        || text_eq (base_name cleaned) (codes ".")
        || text_eq (base_name cleaned) (codes "/")
    then none
    else some cleaned

-- the place of a path below the opened directory
unfoldable pub place_in : Place → Str → Option Place
unfolding beneath
place_in root p = elim (beneath p) [ none ↦ none | some names ↦ some (root ++ names) ]

-- chownFileToMatchRoot
unfoldable pub chown_file_to_match_root : Place → Place → Node → Node
unfolding amend get
chown_file_to_match_root p root t = elim (owner_of (get root (some t))) [
  | none ↦ t
  | some o ↦ amend p (with_owner o) t
]

-- io.Copy into the file
unfoldable pub copy_body : Place → Body → Node → Node
unfolding amend
copy_body p body t = amend p (with_content body.bytes) t

-- Root.Stat and Root.Open
unfoldable pub stat : Place → Str → Node → Option Node
unfolding place_in get
stat root p t = elim (place_in root p) [ none ↦ none | some q ↦ get q (some t) ]

-- an open file gets the owner of the root and the bytes of the body
unfoldable pub fill : Place → Place → Body → Node → Node
unfolding chown_file_to_match_root copy_body
fill q root body t = copy_body q body (chown_file_to_match_root q root t)

-- Root.RemoveAll, which refuses the root itself
abbrev pub remove_below : Place → List Str → Node → Option Node
remove_below root [] t = none
remove_below root (x ∷ xs) t = remove_all (root ++ x ∷ xs) t

unfoldable pub remove : Place → Str → Node → Option Node
unfolding beneath remove_all
remove root p t = elim (beneath p) [ none ↦ none | some names ↦ remove_below root names t ]

-- the directory of a server's data
abbrev pub root_place : Str → Str → Place
root_place mount_root server = place (join_path mount_root server)

-- by a process of the owner
module _ (me : Owner) where
  -- Root.OpenFile for writing
  unfoldable pub open_file : Creation → Place → Str → Node → Option (Place × Node)
  unfolding place_in opened
  open_file mode root p t = elim (place_in root p) [
    | none ↦ none
    | some q ↦ elim (change q (opened me mode) (some t)) [ none ↦ none | some t' ↦ some (q, t') ]
  ]

  -- Root.MkdirAll
  unfoldable pub make_dirs : Place → Str → Node → Option Node
  unfolding place_in mkdir_all
  make_dirs root p t = elim (place_in root p) [ none ↦ none | some q ↦ mkdir_all me q (some t) ]

  -- the directories of the uploaded file, unless they are those of the request
  unfoldable pub upload_dirs : Place → Str → Node → Option Node
  unfolding make_dirs
  upload_dirs root p t =
      if text_eq (dir_path p) (codes ".") then some t else make_dirs root (dir_path p) t

-- What a Handler and its machine bring: the owner of the program's process, the mount root of the
-- configuration, whether the engine has a container of a name, if there is a client, the text of
-- the system's error for a path, and the size that the system gives for a directory.
pub record Setting : Type 0 where
  pub me : Owner
  pub mount_root : Str
  pub docker : Option (Str → Bool)
  pub os_error : Str → Str
  pub dir_size : Entries → ℕ

module _ (h : Setting) where
  open h use {me, mount_root, docker, os_error}

  -- resolveSafeRoot: the tree with the server's directory in it, and that directory with the path,
  -- or an error
  unfoldable pub resolve_safe_root : Str → Str → Node → Node × ((Place × Str) ⊎ (ℕ × Str))
  resolve_safe_root server query t =
      if not (is_valid_server server)
      then (t, inr (400, codes "Invalid server name format"))
      else elim docker [
        | none ↦ (t, inr (500, codes "Docker client unavailable"))
        | some has_container ↦
            if not (has_container server)
            then (t, inr (404, codes "Server not found or inaccessible"))
            else elim (mkdir_all me (root_place mount_root server) (some t)) [
              | none ↦ (
                t,
                inr (
                  500,
                  codes "Cannot create data directory for this server: "
                      ++ os_error (join_path mount_root server),
                ),
              )
              | some t' ↦ (t', inl (root_place mount_root server, request_path query))
            ]
      ]

  -- withSafeRoot, which the other handlers repeat
  unfoldable pub with_safe_root :
      {A : Type 0} → Str → Str → (Place → Str → Node → Node × Response A) → Node → Node × Response A
  with_safe_root server query f t =
      let (t', r) = resolve_safe_root server query t in
      elim r [ inr (code, message) ↦ (t', send_error code message) | inl (root, p) ↦ f root p t' ]
