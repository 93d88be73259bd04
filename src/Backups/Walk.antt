-- ===== src/Backups/Walk.antt =====
-- What zipDir stores of a directory: each of its files, with its content.
use serveo_api_golang.Prelude.{
  ◌≡◌, refl, sym, ap, ◌∙◌, none, some, List, [], ◌∷◌, arith, inl, inr, Option-cases, Bool-cases,
  All, subst, Some, here, there,
}
use serveo_api_golang.Text.{Str, text_eq, text_eq_iff, text_eq_refl}
use serveo_api_golang.FilePath.Clean.{IsProper}
use serveo_api_golang.FileSystem.{
  Owner, Node, dir, file, Entries, no_entries, entry, Place, find, get,
}
use serveo_api_golang.FileSystem.Kept.{get-nothing}
use serveo_api_golang.Backups.Sorted.{All-flatten, Some-flatten, All-by_name, Some-by_name}
use serveo_api_golang.Backups.Archive.{by_name, under, walk, branches}

-- A tree of files: the entries of a directory have names, and no two the same.
unfoldable mutual
  pub IsTree : Node → Type 0
  IsTree (file o s) = Unit
  IsTree (dir o es) = AreEntries es

  pub AreEntries : Entries → Type 0
  AreEntries no_entries = Unit
  AreEntries (entry name n rest) =
      IsProper name × (find name rest ≡ none) × IsTree n × AreEntries rest

-- The file of the place and the content stands in the tree.
abbrev pub Holds : Node → Place × Str → Type 0
Holds n f = All IsProper f.0 × (o : Owner) × (get f.0 (some n) ≡ some (file o f.1))

find-head : (name : Str) (n : Node) (rest : Entries) → find name (entry name n rest) ≡ some n
unfolding find
find-head name n rest = rw (text_eq_refl name) refl

find-tail :
    (x name : Str) (n m : Node) (rest : Entries)
    → find name rest ≡ none
    → find x rest ≡ some m
    → find x (entry name n rest) ≡ some m
unfolding find
find-tail x name n m rest fresh found = ground (arith, text_eq_iff name x)

Holds-head :
    (o : Owner) (name : Str) (n : Node) (rest : Entries) (f : Place × Str)
    → IsProper name
    → Holds n f
    → Holds (dir o (entry name n rest)) (name ∷ f.0, f.1)
unfolding get
Holds-head o name n rest (p, s) proper (hs, owner, e) =
    ((proper, hs), owner, ap (get p) (find-head name n rest) ∙ e)

Holds-tail :
    (o : Owner) (name : Str) (n : Node) (rest : Entries) (f : Place × Str)
    → find name rest ≡ none
    → Holds (dir o rest) f
    → Holds (dir o (entry name n rest)) f
unfolding get
Holds-tail o name n rest ([], s) fresh (hs, owner, e) = absurd (ground arith)
Holds-tail o name n rest (x ∷ xs, s) fresh (hs, owner, e) = elim (Option-cases (find x rest)) [
  | inl missing ↦ absurd (ground (arith, get-nothing xs))
  | inr (m, found) ↦
      (hs, owner, ap (get xs) (find-tail x name n m rest fresh found ∙ sym found) ∙ e)
]

All-under :
    (o : Owner) (name : Str) (n : Node) (rest : Entries) (fs : List (Place × Str))
    → IsProper name
    → All (Holds n) fs
    → All (Holds (dir o (entry name n rest))) (under name fs)
All-under o name n rest [] proper hs = tt
All-under o name n rest (f ∷ fs) proper (h, hs) =
    (Holds-head o name n rest f proper h, All-under o name n rest fs proper hs)

All-tail :
    (o : Owner) (name : Str) (n : Node) (rest : Entries) (fs : List (Place × Str))
    → find name rest ≡ none
    → All (Holds (dir o rest)) fs
    → All (Holds (dir o (entry name n rest))) fs
All-tail o name n rest [] fresh hs = tt
All-tail o name n rest (f ∷ fs) fresh (h, hs) =
    (Holds-tail o name n rest f fresh h, All-tail o name n rest fs fresh hs)

abbrev AllIn : Node → Str × List (Place × Str) → Type 0
AllIn n b = All (Holds n) b.1

All-tails :
    (o : Owner) (name : Str) (n : Node) (rest : Entries) (bs : List (Str × List (Place × Str)))
    → find name rest ≡ none
    → All (AllIn (dir o rest)) bs
    → All (AllIn (dir o (entry name n rest))) bs
All-tails o name n rest [] fresh hs = tt
All-tails o name n rest (b ∷ bs) fresh (h, hs) =
    (All-tail o name n rest b.1 fresh h, All-tails o name n rest bs fresh hs)

mutual
  unfolding IsTree AreEntries walk branches get

  walk_sound : (n : Node) → IsTree n → All (Holds n) (walk n)
  walk_sound (file o s) h = ((tt, o, refl), tt)
  walk_sound (dir o es) h =
      All-flatten (Holds (dir o es)) (by_name (branches es))
        (All-by_name (AllIn (dir o es)) (branches es) (branches_sound o es h))

  branches_sound : (o : Owner) (es : Entries) → AreEntries es → All (AllIn (dir o es)) (branches es)
  branches_sound o no_entries h = tt
  branches_sound o (entry name n rest) (proper, fresh, hn, hs) = (
    All-under o name n rest (walk n) proper (walk_sound n hn),
    All-tails o name n rest (branches rest) fresh (branches_sound o rest hs),
  )

Some-under :
    (name : Str) (p : Place) (s : Str) (fs : List (Place × Str))
    → Some (λ f. f ≡ (p, s)) fs
    → Some (λ f. f ≡ (name ∷ p, s)) (under name fs)
Some-under name p s [] h = elim h [ ]
Some-under name p s (f ∷ fs) (here e) = here (ap (λ g. (name ∷ g.0, g.1)) e)
Some-under name p s (f ∷ fs) (there h) = there (Some-under name p s fs h)

mutual
  unfolding walk branches get find

  walk_complete :
      (n : Node) (p : Place) (o : Owner) (s : Str)
      → get p (some n) ≡ some (file o s)
      → Some (λ f. f ≡ (p, s)) (walk n)
  walk_complete (file o' s') [] o s e = here (ground arith)
  walk_complete (file o' s') (x ∷ xs) o s e = absurd (ground arith)
  walk_complete (dir o' es) [] o s e = absurd (ground arith)
  walk_complete (dir o' es) (x ∷ xs) o s e =
      Some-flatten (λ f. f ≡ (x ∷ xs, s)) (by_name (branches es))
        (Some-by_name (λ b. Some (λ f. f ≡ (x ∷ xs, s)) b.1) (branches es)
          (branches_complete es x xs o s e))

  branches_complete :
      (es : Entries) (x : Str) (xs : Place) (o : Owner) (s : Str)
      → get xs (find x es) ≡ some (file o s)
      → Some (λ b. Some (λ f. f ≡ (x ∷ xs, s)) b.1) (branches es)
  branches_complete no_entries x xs o s e = absurd (ground (arith, get-nothing xs))
  branches_complete (entry name n rest) x xs o s e = elim (Bool-cases (text_eq name x)) [
    | inl same ↦
        let name_x : name ≡ x = (text_eq_iff name x).0 same in
        let at : get xs (some n) ≡ some (file o s) =
          ap (get xs) (sym (find-head name n rest) ∙ ap (λ z. find z (entry name n rest)) name_x)
          ∙ e in
        here (
          subst (λ z. Some (λ f. f ≡ (z ∷ xs, s)) (under name (walk n))) name_x
            (Some-under name xs s (walk n) (walk_complete n xs o s at)))
    | inr other ↦ there (branches_complete rest x xs o s (ground arith))
  ]

-- The files that the walk meets are those of the tree.
pub walk-Holds : (n : Node) → IsTree n → All (Holds n) (walk n)
walk-Holds n h = walk_sound n h

pub walk-has :
    (n : Node) (p : Place) (o : Owner) (s : Str)
    → get p (some n) ≡ some (file o s)
    → Some (λ f. f ≡ (p, s)) (walk n)
walk-has n p o s e = walk_complete n p o s e
