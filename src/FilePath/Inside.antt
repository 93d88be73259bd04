-- ===== src/FilePath/Inside.antt =====
-- A path that begins with another one and "/", and the directory in which it stands.
use serveo_api_golang.Prelude.{
  ℕ, ◌≡◌, ◌≢◌, refl, sym, ap, ◌∙◌, true, List, [], ◌∷◌, ◌++◌, append_assoc, All, append-nil, drop,
  subst,
}
use serveo_api_golang.Text.{Str, codes, has_prefix, has_prefix_split, join, split, text_eq}
use serveo_api_golang.FilePath.{is_abs, clean, join_path, dir_path, walk, enter}
use serveo_api_golang.FilePath.Names.{names, names-IsName, clean-abs, join_prefix}
use serveo_api_golang.FilePath.Clean.{
  IsProper, names-IsProper, names-join, names-clean, names-slash, join_path-clean,
}
use serveo_api_golang.FilePath.Last.{dir_path-append}

tail_eq : (c : ℕ) (s t : Str) → c ∷ s ≡ c ∷ t → s ≡ t
tail_eq c s t e = ap (drop 1) e

longer : (s t : Str) (c : ℕ) → s ≢ s ++ c ∷ t
longer [] t c e = cc
longer (x ∷ s) t c e = longer s t c (tail_eq x s (s ++ c ∷ t) e)

pub snoc : (x : Str) (xs : List Str) → (ys : List Str) × (y : Str) × (x ∷ xs ≡ ys ++ y ∷ [])
snoc x [] = ([], x, refl)
snoc x (z ∷ zs) = let (ys, y, e) = snoc z zs in (x ∷ ys, y, ap (λ u. x ∷ u) e)

All-before : (xs ys : List Str) → All IsProper (xs ++ ys) → All IsProper xs
All-before [] ys h = tt
All-before (x ∷ xs) ys (h, hs) = (h, All-before xs ys hs)

pub All-after : (xs ys : List Str) → All IsProper (xs ++ ys) → All IsProper ys
All-after [] ys h = h
All-after (x ∷ xs) ys (h, hs) = All-after xs ys hs

-- the clean path of the names, "" for the root
abbrev pub above : List Str → Str
above [] = []
above (p ∷ ps) = b'/' ∷ join (p ∷ ps) b'/'

pub join-snoc : (ps : List Str) (x : Str) → b'/' ∷ join (ps ++ x ∷ []) b'/' ≡ above ps ++ b'/' ∷ x
unfolding join
join-snoc [] x = refl
join-snoc (p ∷ []) x = refl
join-snoc (p ∷ q ∷ ps) x =
    ap (λ u. b'/' ∷ p ++ u) (join-snoc (q ∷ ps) x)
    ∙ ap (λ u. b'/' ∷ u) (sym (append_assoc p (b'/' ∷ join (q ∷ ps) b'/') (b'/' ∷ x)))

names-empty : names true [] ≡ []
unfolding walk split enter text_eq
names-empty = refl

names-above : (ps : List Str) → All IsProper ps → names true (above ps) ≡ ps
names-above [] h = names-empty
names-above (p ∷ ps) h = names-join (p ∷ ps) h

pub is_abs-above : (ps : List Str) → is_abs (above ps ++ b'/' ∷ []) ≡ true
unfolding is_abs has_prefix
is_abs-above [] = refl
is_abs-above (p ∷ ps) = refl

names-dir_path :
    (ps : List Str) (x : Str)
    → All IsProper (ps ++ x ∷ [])
    → names true (dir_path (b'/' ∷ join (ps ++ x ∷ []) b'/')) ≡ ps
names-dir_path ps x h =
    let (((full, k), dot, dots), rest) = All-after ps (x ∷ []) h in
    ap (λ u. names true (dir_path u)) (join-snoc ps x)
    ∙ ap (names true) (dir_path-append (above ps) x k)
    ∙ names-clean (above ps ++ b'/' ∷ []) (is_abs-above ps)
    ∙ names-slash (above ps)
    ∙ names-above ps (All-before ps (x ∷ []) h)

nonempty :
    (rest ns ds : List Str) (t : Str)
    → ns ≡ ds ++ rest
    → join ns b'/' ≡ join ds b'/' ++ b'/' ∷ t
    → (ys : List Str) × (y : Str) × (rest ≡ ys ++ y ∷ [])
nonempty [] ns ds t e texts =
    absurd
      (longer (join ds b'/') t b'/' (ap (λ u. join u b'/') (sym (append-nil ds) ∙ sym e) ∙ texts))
nonempty (x ∷ xs) ns ds t e texts = snoc x xs

-- A path that is joined to an absolute directory and begins with the directory's clean path and
-- "/" leads below the directory, and so does its own directory, or to the directory itself.
pub inside :
    (dest name : Str)
    → is_abs dest ≡ true
    → has_prefix (join_path dest name) (clean dest ++ codes "/") ≡ true
    → (above below : List Str) × (names true (join_path dest name) ≡ names true dest ++ below)
      × (names true (dir_path (join_path dest name)) ≡ names true dest ++ above)
inside dest name h pre =
    let (u, hu, e) = join_path-clean dest name h in
    let (t, cut) = has_prefix_split (join_path dest name) (clean dest ++ codes "/") pre in
    let texts : join (names true u) b'/' ≡ join (names true dest) b'/' ++ b'/' ∷ t =
      tail_eq b'/' (join (names true u) b'/') (join (names true dest) b'/' ++ b'/' ∷ t) (
        sym (clean-abs u hu)
        ∙ sym e
        ∙ cut
        ∙ ap (λ v. (v ++ codes "/") ++ t) (clean-abs dest h)
        ∙ ap (λ v. b'/' ∷ v) (append_assoc (join (names true dest) b'/') (codes "/") t)) in
    let (rest, within) =
      join_prefix (names true u) (names true dest) t (names-IsName true u) (names-IsName true dest)
        texts in
    let (ys, y, last) = nonempty rest (names true u) (names true dest) t within texts in
    let all : names true u ≡ (names true dest ++ ys) ++ y ∷ [] =
      within
      ∙ ap (λ v. names true dest ++ v) last
      ∙ sym (append_assoc (names true dest) ys (y ∷ [])) in
    (
      ys,
      rest,
      ap (names true) e ∙ names-clean u hu ∙ within,
      ap (λ v. names true (dir_path v)) (e ∙ clean-abs u hu ∙ ap (λ v. b'/' ∷ join v b'/') all)
          ∙ names-dir_path (names true dest ++ ys) y (subst (All IsProper) all (names-IsProper u)),
    )
