-- ===== src/FileSystem/Kept.antt =====
-- Directories stay where something below them changes, and what is changed back to itself.
use serveo_api_golang.Prelude.{
  ◌≡◌, refl, ◌∙◌, ap, Option, none, some, [], ◌∷◌, ◌++◌, arith, Option-cases, inl, inr,
}
use serveo_api_golang.Text.{Str, text_eq_iff}
use serveo_api_golang.FileSystem.{
  Creation, truncating, excluding, opened, Owner, Node, dir, file, Entries, no_entries, entry,
  Place, find, put, get, put_in, change, mkdir_all,
}
use serveo_api_golang.FileSystem.Laws.{find-put_self}

put_in-eq :
    (o : Owner) (x : Str) (es : Entries) (m : Option Node) (t : Node)
    → put_in o x es m ≡ some t
    → (n : Node) × (m ≡ some n) × (t ≡ dir o (put x n es))
put_in-eq o x es none t e = absurd (ground arith)
put_in-eq o x es (some n) t e = (n, refl, ground arith)

pub get-nothing : (q : Place) → get q none ≡ none
unfolding get
get-nothing [] = refl
get-nothing (x ∷ xs) = refl

put-same : (x : Str) (n : Node) (es : Entries) → find x es ≡ some n → put x n es ≡ es
unfolding put find
put-same x n no_entries e = absurd (ground arith)
put-same x n (entry y m rest) e = ground (arith, text_eq_iff y x, put-same x n rest)

-- Directories above the changed place stay, with their owner.
pub change-keeps_dir :
    (p xs : Place) (x : Str) (f : Option Node → Option Node) (m : Option Node) (t : Node)
    (o : Owner) (es : Entries)
    → get p m ≡ some (dir o es)
    → change (p ++ x ∷ xs) f m ≡ some t
    → (es' : Entries) × (get p (some t) ≡ some (dir o es'))
unfolding change get
change-keeps_dir [] xs x f none t o es d e = absurd (ground arith)
change-keeps_dir [] xs x f (some (file o' s)) t o es d e = absurd (ground arith)
change-keeps_dir [] xs x f (some (dir o' es')) t o es d e =
    let (n, below, at) = put_in-eq o' x es' (change xs f (find x es')) t e in
    (put x n es', ground arith)
change-keeps_dir (y ∷ ys) xs x f none t o es d e = absurd (ground arith)
change-keeps_dir (y ∷ ys) xs x f (some (file o' s)) t o es d e = absurd (ground arith)
change-keeps_dir (y ∷ ys) xs x f (some (dir o' es')) t o es d e =
    let (n, below, at) = put_in-eq o' y es' (change (ys ++ x ∷ xs) f (find y es')) t e in
    let (es2, there) = change-keeps_dir ys xs x f (find y es') n o es d below in
    (es2, ap (λ u. get (y ∷ ys) (some u)) at ∙ ap (get ys) (find-put_self y n es') ∙ there)

-- Where a change succeeds there is something afterwards.
pub get-change-some :
    (p : Place) (f : Option Node → Option Node) (m : Option Node) (t : Node)
    → change p f m ≡ some t
    → (n : Node) × (get p (some t) ≡ some n)
unfolding change get
get-change-some [] f m t e = (t, refl)
get-change-some (x ∷ xs) f none t e = absurd (ground arith)
get-change-some (x ∷ xs) f (some (file o s)) t e = absurd (ground arith)
get-change-some (x ∷ xs) f (some (dir o es)) t e =
    let (n, below, at) = put_in-eq o x es (change xs f (find x es)) t e in
    let (n', there) = get-change-some xs f (find x es) n below in
    (n', ap (λ u. get (x ∷ xs) (some u)) at ∙ ap (get xs) (find-put_self x n es) ∙ there)

-- A change of what is there, to something that is there, succeeds.
pub change_succeeds :
    (p : Place) (f : Option Node → Option Node) (m : Option Node) (n n' : Node)
    → get p m ≡ some n
    → f (some n) ≡ some n'
    → (t : Node) × (change p f m ≡ some t)
unfolding change get
change_succeeds [] f m n n' d e = (n', ap f d ∙ e)
change_succeeds (x ∷ xs) f none n n' d e = absurd (ground arith)
change_succeeds (x ∷ xs) f (some (file o s)) n n' d e = absurd (ground arith)
change_succeeds (x ∷ xs) f (some (dir o es)) n n' d e =
    let (t, done) = change_succeeds xs f (find x es) n n' d e in
    (dir o (put x t es), ap (put_in o x es) done)

-- Where there is a directory, MkdirAll changes nothing.
pub mkdir_all-dir :
    (me : Owner) (p : Place) (m : Option Node) (o : Owner) (es : Entries)
    → get p m ≡ some (dir o es)
    → mkdir_all me p m ≡ m
unfolding mkdir_all get
mkdir_all-dir me [] none o es d = absurd (ground arith)
mkdir_all-dir me [] (some (file o' s)) o es d = absurd (ground arith)
mkdir_all-dir me [] (some (dir o' es')) o es d = refl
mkdir_all-dir me (x ∷ xs) none o es d = absurd (ground arith)
mkdir_all-dir me (x ∷ xs) (some (file o' s)) o es d = absurd (ground arith)
mkdir_all-dir me (x ∷ xs) (some (dir o' es')) o es d = elim (Option-cases (find x es')) [
  | inl missing ↦ absurd (ground (arith, get-nothing xs))
  | inr (n, there) ↦
      ap (put_in o' x es') (mkdir_all-dir me xs (find x es') o es d ∙ there)
      ∙ ap (λ u. some (dir o' u)) (put-same x n es' there)
]

-- What an opened file is.
pub opened-file :
    (me : Owner) (mode : Creation) (m : Option Node) (n : Node)
    → opened me mode m ≡ some n
    → (o : Owner) × (n ≡ file o [])
unfolding opened
opened-file me mode none n e = (me, ground arith)
opened-file me mode (some (dir o es)) n e = absurd (ground arith)
opened-file me truncating (some (file o s)) n e = (o, ground arith)
opened-file me excluding (some (file o s)) n e = absurd (ground arith)
