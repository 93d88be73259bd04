-- ===== src/FileSystem/Separate.antt =====
-- Files of a tree stand apart.
use serveo_api_golang.Prelude.{
  ◌≡◌, refl, ap, ◌∙◌, Option, none, some, [], ◌∷◌, ◌++◌, arith, inl, inr, ◌⊎◌, Bool-cases, subst,
}
use serveo_api_golang.Text.{Str, text_eq, text_eq_iff}
use serveo_api_golang.FileSystem.{Owner, Node, dir, file, Place, find, get}
use serveo_api_golang.FileSystem.Laws.{Apart, differ, deeper}
use serveo_api_golang.FileSystem.Kept.{get-nothing}

-- Two files of a tree are the same or stand apart.
pub files-Apart :
    (p q : Place) (m : Option Node) (o o' : Owner) (s s' : Str)
    → get p m ≡ some (file o s)
    → get q m ≡ some (file o' s')
    → (p ≡ q) ⊎ Apart p q
unfolding get
files-Apart p q none o o' s s' e e' = absurd (ground (arith, get-nothing p))
files-Apart [] [] (some n) o o' s s' e e' = inl refl
files-Apart [] (y ∷ ys) (some (dir d es)) o o' s s' e e' = absurd (ground arith)
files-Apart [] (y ∷ ys) (some (file d c)) o o' s s' e e' = absurd (ground arith)
files-Apart (x ∷ xs) [] (some (dir d es)) o o' s s' e e' = absurd (ground arith)
files-Apart (x ∷ xs) [] (some (file d c)) o o' s s' e e' = absurd (ground arith)
files-Apart (x ∷ xs) (y ∷ ys) (some (file d c)) o o' s s' e e' = absurd (ground arith)
files-Apart (x ∷ xs) (y ∷ ys) (some (dir d es)) o o' s s' e e' = elim (Bool-cases (text_eq x y)) [
  | inr other ↦ inr (differ (λ k. ground (arith, (text_eq_iff x y).1 k)))
  | inl same ↦
      let x_y : x ≡ y = (text_eq_iff x y).0 same in
      elim (files-Apart xs ys (find x es) o o' s s' e (ap (λ z. get ys (find z es)) x_y ∙ e')) [
        | inl equal ↦ inl (ap (λ z. z ∷ xs) x_y ∙ ap (λ zs. y ∷ zs) equal)
        | inr apart ↦ inr (subst (λ z. Apart (x ∷ xs) (z ∷ ys)) x_y (deeper apart))
      ]
]

pub content_eq : (o o' : Owner) (s s' : Str) → some (file o s) ≡ some (file o' s') → s ≡ s'
content_eq o o' s s' e = ground (arith, e)

pub Apart-below : (ds : Place) {p q : Place} → Apart p q → Apart (ds ++ p) (ds ++ q)
Apart-below [] a = a
Apart-below (d ∷ ds) a = deeper (Apart-below ds a)
