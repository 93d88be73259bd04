-- ===== src/Backups/Archive.antt =====
-- internal/modules/v2/backups/handler.go: the archives, which zipDir writes and unzip reads.
use serveo_api_golang.Prelude.{
  ℕ, Bool, true, false, not, Option, none, some, List, [], ◌∷◌, ◌++◌, map, if◌then◌else◌, ◌==◌,
  ◌&&◌, ◌||◌, ltb,
}
use serveo_api_golang.Text.{Str, codes, has_prefix, join}
use serveo_api_golang.FilePath.{clean, join_path, dir_path}
use serveo_api_golang.FileSystem.{
  Owner, Node, dir, file, Entries, no_entries, entry, Place, get, change, amend, mkdir_all,
  truncating, opened, with_content, place,
}

-- the order of Go's texts
unfoldable pub text_leb : Str → Str → Bool
text_leb [] t = true
text_leb (c ∷ s) [] = false
text_leb (c ∷ s) (d ∷ t) = ltb c d || (c == d && text_leb s t)

-- os.ReadDir and filepath.Walk go through a directory by the names.
module _ {A : Type 0} where
  unfoldable pub insert : Str → A → List (Str × A) → List (Str × A)
  insert name x [] = (name, x) ∷ []
  insert name x ((n, y) ∷ rest) =
      let later = insert name x rest in
      if text_leb name n then (name, x) ∷ (n, y) ∷ rest else (n, y) ∷ later

  unfoldable pub by_name : List (Str × A) → List (Str × A)
  unfolding insert
  by_name [] = []
  by_name ((name, x) ∷ rest) = insert name x (by_name rest)

  abbrev pub flatten : List (Str × List A) → List A
  flatten [] = []
  flatten ((name, xs) ∷ rest) = xs ++ flatten rest

abbrev pub under : Str → List (Place × Str) → List (Place × Str)
under name files = map (λ f. (name ∷ f.0, f.1)) files

-- filepath.Walk with the walker of zipDir: the files below, each with its place and its bytes
unfoldable mutual
  unfolding by_name

  pub walk : Node → List (Place × Str)
  walk (file o s) = ([], s) ∷ []
  walk (dir o es) = flatten (by_name (branches es))

  pub branches : Entries → List (Str × List (Place × Str))
  branches no_entries = []
  branches (entry name n rest) = (name, under name (walk n)) ∷ branches rest

-- filepath.Rel of a path below the directory
unfoldable pub rel_path : Place → Str
rel_path [] = codes "."
rel_path (x ∷ xs) = join (x ∷ xs) b'/'

-- A file of an archive: whether it opens, and what is read before the end or an error.
pub record ZipFile : Type 0 where
  pub name : Str
  pub is_dir : Bool
  pub readable : Bool
  pub bytes : Str
  pub broken : Bool

-- The machine: the owner of the program's process, the mount root of the configuration, the text
-- of an error at a path, the size that the system gives for a directory, and package archive/zip:
-- the bytes of an archive of named contents, and the files of one.
pub record Setting : Type 0 where
  pub me : Owner
  pub mount_root : Str
  pub error_text : Str → Str
  pub dir_size : Entries → ℕ
  pub zip_bytes : List (Str × Str) → Str
  pub zip_files : Str → Option (List ZipFile)

module _ (h : Setting) where
  open h use {me, error_text, zip_bytes, zip_files}

  abbrev pub archived : Option Node → List (Str × Str)
  archived none = []
  archived (some n) = map (λ f. (rel_path f.0, f.1)) (walk n)

  abbrev pub walk_error : Str → Option Node → Option Str
  walk_error src none = some (error_text src)
  walk_error src (some n) = none

  -- zipDir: the tree that it leaves, and its error
  unfoldable pub zip_dir : Str → Str → Node → Node × Option Str
  unfolding amend
  zip_dir src dest t = elim (change (place dest) (opened me truncating) (some t)) [
    | none ↦ (t, some (error_text dest))
    | some t1 ↦
        let found = get (place src) (some t1) in
        (amend (place dest) (with_content (zip_bytes (archived found))) t1, walk_error src found)
  ]

  -- MkdirAll with its error dropped
  unfoldable pub make_or_keep : Str → Node → Node
  unfolding mkdir_all
  make_or_keep path t = elim (mkdir_all me (place path) (some t)) [ none ↦ t | some t1 ↦ t1 ]

  -- the file of an entry is open at the path
  unfoldable pub copy_entry : ZipFile → Str → Node → Node × Option Str
  unfolding amend
  copy_entry f fpath t =
      if not f.readable
      then (t, some (error_text fpath))
      else let t1 = amend (place fpath) (with_content f.bytes) t in
        if f.broken then (t1, some (error_text fpath)) else (t1, none)

  unfoldable pub extract_file : ZipFile → Str → Node → Node × Option Str
  extract_file f fpath t = elim (mkdir_all me (place (dir_path fpath)) (some t)) [
    | none ↦ (t, some (error_text (dir_path fpath)))
    | some t1 ↦ elim (change (place fpath) (opened me truncating) (some t1)) [
      | none ↦ (t1, some (error_text fpath))
      | some t2 ↦ copy_entry f fpath t2
    ]
  ]

  -- one round of the loop in unzip
  unfoldable pub extract_entry : Str → ZipFile → Node → Node × Option Str
  extract_entry dest f t =
      let fpath = join_path dest f.name in
      if not (has_prefix fpath (clean dest ++ codes "/"))
      then (t, none)
      else if f.is_dir
      then (make_or_keep fpath t, none)
      else extract_file f fpath t

  unfoldable pub extract : Str → List ZipFile → Node → Node × Option Str
  extract dest [] t = (t, none)
  extract dest (f ∷ fs) t =
      let (t1, e) = extract_entry dest f t in
      let rest = extract dest fs t1 in elim e [ some message ↦ (t1, some message) | none ↦ rest ]

  abbrev pub extract_all : Str → Str → Option (List ZipFile) → Node → Node × Option Str
  extract_all src dest none t = (t, some (error_text src))
  extract_all src dest (some fs) t = extract dest fs t

  abbrev pub unzip_node : Str → Str → Option Node → Node → Node × Option Str
  unzip_node src dest none t = (t, some (error_text src))
  unzip_node src dest (some (dir o es)) t = (t, some (error_text src))
  unzip_node src dest (some (file o s)) t = extract_all src dest (zip_files s) t

  -- unzip
  unfoldable pub unzip : Str → Str → Node → Node × Option Str
  unfolding get
  unzip src dest t = unzip_node src dest (get (place src) (some t)) t
