-- ===== src/Files.antt =====
-- internal/modules/v2/files/handler.go: the handlers of the file manager.
pub mod Root
mod Steps
pub mod Confined
pub mod RoundTrip
pub mod Uploads
mod Tests
use serveo_api_golang.Prelude.{
  true, false, ◌||◌, Option, none, some, List, [], ◌∷◌, ◌++◌, if◌then◌else◌, length,
}
use serveo_api_golang.Text.{Str, codes, text_eq}
use serveo_api_golang.FilePath.{join_path, dir_path}
use serveo_api_golang.FileSystem.{
  Node, dir, file, Entries, no_entries, entry, Place, Creation, truncating, excluding,
}
use serveo_api_golang.Http.{Response, send_error, send_json}
use serveo_api_golang.Files.Root.{
  Setting, FileInfo, Body, Part, file_name, sanitize_upload_path, chown_file_to_match_root,
  open_file, make_dirs, stat, with_safe_root, fill, upload_dirs, remove,
}

-- Each handler is withSafeRoot around a function on the opened directory and the path; where the
-- source repeats the lines of withSafeRoot, the function is the rest of the handler.
module _ (h : Setting) where
  open h use {me, os_error, dir_size}

  -- the loop of ListFiles
  unfoldable pub file_infos : Str → Entries → List FileInfo
  file_infos p no_entries = []
  file_infos p (entry name (file o s) rest) =
      record {
        name = name;
        size = length s;
        is_dir = false;
        path =
            b'/'
            ∷ (if text_eq p (codes ".") || text_eq p (codes "/") then name else join_path p name);
      }
      ∷ file_infos p rest
  file_infos p (entry name (dir o es) rest) =
      record {
        name = name;
        size = dir_size es;
        is_dir = true;
        path =
            b'/'
            ∷ (if text_eq p (codes ".") || text_eq p (codes "/") then name else join_path p name);
      }
      ∷ file_infos p rest

  abbrev listing : Str → Option Node → Response (List FileInfo)
  listing p none = send_error 404 (codes "Directory not found or cannot be read")
  listing p (some (file o s)) = send_error 400 (codes "Target is not a directory")
  listing p (some (dir o es)) = send_json 200 (file_infos p es)

  abbrev pub list_in : Place → Str → Node → Node × Response (List FileInfo)
  list_in root p t = (t, listing p (stat root p t))

  unfoldable pub list_files : Str → Str → Node → Node × Response (List FileInfo)
  list_files server query t = with_safe_root h server query list_in t

  -- the copy of a directory fails, and the answer is 200 with nothing in it
  abbrev pub reading : Option Node → Response Str
  reading none = send_error 404 (codes "File not found or cannot be read")
  reading (some (file o s)) = send_json 200 s
  reading (some (dir o es)) = send_json 200 []

  abbrev pub read_in : Place → Str → Node → Node × Response Str
  read_in root p t = (t, reading (stat root p t))

  -- ReadFile; the payload is the bytes
  unfoldable pub read_file : Str → Str → Node → Node × Response Str
  read_file server query t = with_safe_root h server query read_in t

  unfoldable pub write_in : Body → Place → Str → Node → Node × Response Str
  write_in body root p t = elim (open_file me truncating root p t) [
    | none ↦ (t, send_error 500 (codes "Failed to open file for writing"))
    | some (q, t1) ↦ (
      fill q root body t1,
      (if body.broken
          then send_error 500 (codes "Failed to write content")
          else send_json 200 (codes "File written")),
    )
  ]

  unfoldable pub write_file : Body → Str → Str → Node → Node × Response Str
  write_file body server query t = with_safe_root h server query (write_in body) t

  -- the end of UploadFile, on the path of the file
  unfoldable pub upload_to : Body → Place → Str → Node → Node × Response Str
  upload_to body root p t = elim (upload_dirs me root p t) [
    | none ↦ (t, send_error 500 (codes "Cannot create directory: " ++ os_error (dir_path p)))
    | some t1 ↦ elim (open_file me truncating root p t1) [
      | none ↦ (t1, send_error 500 (codes "Cannot create file: " ++ os_error p))
      | some (q, t2) ↦ (
        fill q root body t2,
        (if body.broken
            then send_error 500 (codes "Error saving file")
            else send_json 200 (codes "File uploaded successfully")),
      )
    ]
  ]

  unfoldable pub upload_in : Option (Option Part) → Place → Str → Node → Node × Response Str
  unfolding upload_to
  upload_in none root p t = (t, send_error 400 (codes "Invalid multipart request"))
  upload_in (some none) root p t = (t, send_error 400 (codes "No file provided"))
  upload_in (some (some part)) root p t = elim (sanitize_upload_path (file_name part)) [
    | none ↦ (t, send_error 400 (codes "Invalid filename"))
    | some rel ↦ upload_to part.body root (join_path p rel) t
  ]

  -- UploadFile; `none` is a request that is not multipart, and `some none` one with no part
  unfoldable pub upload_file : Option (Option Part) → Str → Str → Node → Node × Response Str
  upload_file parts server query t = with_safe_root h server query (upload_in parts) t

  unfoldable pub create_directory_in : Place → Str → Node → Node × Response Str
  create_directory_in root p t =
      if text_eq p (codes ".")
      then (t, send_error 400 (codes "Invalid directory path"))
      else elim (stat root p t) [
        | some n ↦ (t, send_error 409 (codes "An item with this name already exists"))
        | none ↦ elim (make_dirs me root p t) [
          | none ↦ (t, send_error 500 (codes "Failed to create directory: " ++ os_error p))
          | some t1 ↦ (t1, send_json 201 (codes "Directory created"))
        ]
      ]

  unfoldable pub create_directory : Str → Str → Node → Node × Response Str
  create_directory server query t = with_safe_root h server query create_directory_in t

  -- the end of CreateFile, where nothing stands at the path
  unfoldable pub create_at : Place → Str → Node → Node × Response Str
  create_at root p t = elim (upload_dirs me root p t) [
    | none ↦ (t, send_error 500 (codes "Cannot create directory: " ++ os_error (dir_path p)))
    | some t1 ↦ elim (open_file me excluding root p t1) [
      | none ↦ (t1, send_error 500 (codes "Failed to create file: " ++ os_error p))
      | some (q, t2) ↦ (chown_file_to_match_root q root t2, send_json 201 (codes "File created"))
    ]
  ]

  unfoldable pub create_file_in : Place → Str → Node → Node × Response Str
  unfolding create_at
  create_file_in root p t =
      if text_eq p (codes ".")
      then (t, send_error 400 (codes "Invalid file path"))
      else elim (stat root p t) [
        | some n ↦ (t, send_error 409 (codes "An item with this name already exists"))
        | none ↦ create_at root p t
      ]

  unfoldable pub create_file : Str → Str → Node → Node × Response Str
  create_file server query t = with_safe_root h server query create_file_in t

  unfoldable pub delete_in : Place → Str → Node → Node × Response Str
  delete_in root p t =
      if text_eq p (codes ".")
      then (t, send_error 403 (codes "Cannot delete root directory"))
      else elim (remove root p t) [
        | none ↦ (t, send_error 500 (codes "Failed to delete file/folder"))
        | some t1 ↦ (t1, send_json 200 (codes "Deleted"))
      ]

  unfoldable pub delete_file : Str → Str → Node → Node × Response Str
  delete_file server query t = with_safe_root h server query delete_in t
