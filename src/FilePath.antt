-- ===== src/FilePath.antt =====
-- Go's path and path/filepath with the separator '/', as on the Linux hosts that the program is
-- released for, where filepath.ToSlash changes nothing.
pub mod Names
pub mod Clean
pub mod Last
pub mod Inside
pub mod Joined
use serveo_api_golang.Prelude.{
  ℕ, Bool, true, false, not, ◌&&◌, ◌||◌, List, [], ◌∷◌, ◌++◌, reverse, if◌then◌else◌, ◌==◌,
}
use serveo_api_golang.Text.{Str, codes, text_eq, has_prefix, split, join}

-- path.IsAbs
unfoldable pub is_abs : Str → Bool
is_abs s = has_prefix s (codes "/")

-- ".." at the directories above, innermost first: above the root is the root, and a relative path
-- keeps the ".." that it cannot resolve
abbrev pub back : Bool → List Str → List Str
back true [] = []
back false [] = codes ".." ∷ []
back true (q ∷ above) = above
back false (q ∷ above) = if text_eq q (codes "..") then codes ".." ∷ q ∷ above else above

unfoldable pub enter : Bool → Str → List Str → List Str
enter rooted p above =
    if text_eq p [] || text_eq p (codes ".")
    then above
    else if text_eq p (codes "..")
    then back rooted above
    else p ∷ above

unfoldable pub walk : Bool → List Str → List Str → List Str
unfolding enter
walk rooted above [] = above
walk rooted above (p ∷ ps) = walk rooted (enter rooted p above) ps

abbrev pub or_dot : Str → Str
or_dot [] = codes "."
or_dot (c ∷ s) = c ∷ s

-- path.Clean
unfoldable pub clean : Str → Str
unfolding is_abs walk
clean s =
    if is_abs s
    then b'/' ∷ join (reverse (walk true [] (split s b'/'))) b'/'
    else or_dot (join (reverse (walk false [] (split s b'/'))) b'/')

-- filepath.Join of two texts
unfoldable pub join_path : Str → Str → Str
join_path a b =
    if text_eq a [] && text_eq b []
    then []
    else if text_eq a []
    then clean b
    else if text_eq b []
    then clean a
    else clean (a ++ b'/' ∷ b)

-- What stands before the last "/" of a text, with it, and what stands after it, on the text read
-- backwards.
unfoldable pub drop_name : Str → Str
drop_name [] = []
drop_name (c ∷ s) = if c == b'/' then c ∷ s else drop_name s

unfoldable pub take_name : Str → Str
take_name [] = []
take_name (c ∷ s) = if c == b'/' then [] else c ∷ take_name s

-- filepath.Dir
unfoldable pub dir_path : Str → Str
unfolding clean drop_name
dir_path s = clean (reverse (drop_name (reverse s)))

unfoldable pub drop_slashes : Str → Str
drop_slashes [] = []
drop_slashes (c ∷ s) = if c == b'/' then drop_slashes s else c ∷ s

abbrev or_slash : Str → Str
or_slash [] = codes "/"
or_slash (c ∷ s) = c ∷ s

-- filepath.Base
unfoldable pub base_name : Str → Str
unfolding take_name drop_slashes
base_name [] = codes "."
base_name (c ∷ s) = or_slash (reverse (take_name (drop_slashes (reverse (c ∷ s)))))
