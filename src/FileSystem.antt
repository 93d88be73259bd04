-- ===== src/FileSystem.antt =====
-- The files of the machine as the program's calls of package os see them: a tree of directories
-- and files with their owners. There are no symbolic links, and the program may read and write
-- everything.
pub mod Laws
pub mod Directories
pub mod Kept
pub mod Same
pub mod Separate
use serveo_api_golang.Prelude.{
  ℕ, Bool, true, false, ◌||◌, Option, none, some, List, [], ◌∷◌, if◌then◌else◌, reverse,
}
use serveo_api_golang.Text.{Str, codes, text_eq, split}
use serveo_api_golang.FilePath.{is_abs}
use serveo_api_golang.FilePath.Names.{names}

pub record Owner : Type 0 where
  pub uid : ℕ
  pub gid : ℕ

mutual
  pub data Node : Type 0 where
    dir : Owner → Entries → Node
    file : Owner → Str → Node

  pub data Entries : Type 0 where
    no_entries : Entries
    entry : Str → Node → Entries → Entries

-- The names from the root of the tree on.
abbrev pub Place : Type 0
Place = List Str

unfoldable pub find : Str → Entries → Option Node
find name no_entries = none
find name (entry n node rest) = if text_eq n name then some node else find name rest

unfoldable pub put : Str → Node → Entries → Entries
put name node no_entries = entry name node no_entries
put name node (entry n old rest) =
    let later = put name node rest in
    if text_eq n name then entry name node rest else entry n old later

-- every entry of the name goes
unfoldable pub erase : Str → Entries → Entries
erase name no_entries = no_entries
erase name (entry n node rest) =
    let later = erase name rest in if text_eq n name then later else entry n node later

-- what stands at a place
unfoldable pub get : Place → Option Node → Option Node
get [] m = m
get (x ∷ xs) (some (dir o es)) = get xs (find x es)
get (x ∷ xs) (some (file o s)) = none
get (x ∷ xs) none = none

abbrev pub put_in : Owner → Str → Entries → Option Node → Option Node
put_in o x es none = none
put_in o x es (some n) = some (dir o (put x n es))

-- What stands at a place is replaced by what `f` makes of it, which may be an error. The place's
-- parent must be a directory.
unfoldable pub change : Place → (Option Node → Option Node) → Option Node → Option Node
unfolding put
change [] f m = f m
change (x ∷ xs) f (some (dir o es)) = put_in o x es (change xs f (find x es))
change (x ∷ xs) f (some (file o s)) = none
change (x ∷ xs) f none = none

-- a change of an open file, which is still there
unfoldable pub amend : Place → (Option Node → Option Node) → Node → Node
unfolding change
amend p g t = elim (change p g (some t)) [ none ↦ t | some t' ↦ t' ]

-- MkdirAll, by a process of the owner; an error leaves the tree as it is
unfoldable pub mkdir_all : Owner → Place → Option Node → Option Node
unfolding put
mkdir_all me [] none = some (dir me no_entries)
mkdir_all me [] (some (dir o es)) = some (dir o es)
mkdir_all me [] (some (file o s)) = none
mkdir_all me (x ∷ xs) none = put_in me x no_entries (mkdir_all me xs none)
mkdir_all me (x ∷ xs) (some (dir o es)) = put_in o x es (mkdir_all me xs (find x es))
mkdir_all me (x ∷ xs) (some (file o s)) = none

-- RemoveAll below a directory; a place that is not there is no error
unfoldable pub remove_all : Place → Node → Option Node
unfolding put erase
remove_all [] n = none
remove_all (x ∷ xs) (file o s) = none
remove_all (x ∷ []) (dir o es) = some (dir o (erase x es))
remove_all (x ∷ y ∷ ys) (dir o es) = elim (find x es) [
  | none ↦ some (dir o es)
  | some n ↦ put_in o x es (remove_all (y ∷ ys) n)
]

-- os.IsNotExist of the error that a place gives; a file on the way is another error
unfoldable pub is_not_exist : Place → Option Node → Bool
is_not_exist p none = true
is_not_exist [] (some n) = false
is_not_exist (x ∷ xs) (some (dir o es)) = is_not_exist xs (find x es)
is_not_exist (x ∷ xs) (some (file o s)) = false

-- The flags of OpenFile that the program uses: O_WRONLY|O_CREATE with O_TRUNC or with O_EXCL.
pub data Creation : Type 0 where
  truncating excluding : Creation

unfoldable pub opened : Owner → Creation → Option Node → Option Node
opened me mode none = some (file me [])
opened me mode (some (dir o es)) = none
opened me truncating (some (file o s)) = some (file o [])
opened me excluding (some (file o s)) = none

abbrev pub with_owner : Owner → Option Node → Option Node
with_owner o (some (file old s)) = some (file o s)
with_owner o m = m

abbrev pub with_content : Str → Option Node → Option Node
with_content s (some (file o old)) = some (file o s)
with_content s m = m

abbrev pub owner_of : Option Node → Option Owner
owner_of (some (dir o es)) = some o
owner_of (some (file o s)) = some o
owner_of none = none

-- os.Root resolves the parts of a path from the directory on; ".." above it is an error.
unfoldable pub resolve : List Str → List Str → Option (List Str)
resolve above [] = some (reverse above)
resolve above (p ∷ ps) =
    let stay = resolve above ps in
    let down = resolve (p ∷ above) ps in
    let up : Option (List Str) = elim above [ [] ↦ none | q ∷ qs ↦ resolve qs ps ] in
    if text_eq p [] || text_eq p (codes ".")
    then stay
    else if text_eq p (codes "..")
    then up
    else down

-- the place below a directory that os.Root opens for a path
unfoldable pub beneath : Str → Option (List Str)
unfolding resolve
beneath s = if is_abs s || text_eq s [] then none else resolve [] (split s b'/')

-- the place of a path, the working directory being "/"
abbrev pub place : Str → Place
place s = names true s
