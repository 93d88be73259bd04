-- ===== src/FilePath/Clean.antt =====
-- The names of cleaned and of joined absolute paths.
use serveo_api_golang.Prelude.{
  ℕ, ◌≡◌, ◌≢◌, refl, ap, ◌∙◌, inl, inr, true, false, List, [], ◌∷◌, ◌++◌, reverse, reverse-append,
  reverse-reverse, arith, All, Bool-cases,
}
use mathlib.Core.List.{reverse_aux, reverse_aux-eq}
use serveo_api_golang.Text.{
  Str, codes, text_eq, text_eq_iff, has_prefix, split, join, Lacks, split-Lacks, split-join,
  split-concat, split_of_Lacks,
}
use serveo_api_golang.FilePath.{is_abs, back, enter, walk, clean, join_path, or_dot}
use serveo_api_golang.FilePath.Names.{IsName, names, clean-abs, ne_of}

-- A name that leads into a directory.
abbrev pub IsProper : Str → Type 0
IsProper p = IsName p × (p ≢ codes ".") × (p ≢ codes "..")

back-IsProper : (d : List Str) → All IsProper d → All IsProper (back true d)
back-IsProper [] h = tt
back-IsProper (q ∷ d) (h, hs) = hs

enter-IsProper :
    (p : Str) (d : List Str) → Lacks b'/' p → All IsProper d → All IsProper (enter true p d)
unfolding enter
enter-IsProper p d h hs = elim (Bool-cases (text_eq p [])) [
  | inl empty ↦ rw empty hs
  | inr full ↦ elim (Bool-cases (text_eq p (codes "."))) [
    | inl dot ↦ rw (full, dot) hs
    | inr no_dot ↦ elim (Bool-cases (text_eq p (codes ".."))) [
      | inl dots ↦ rw (full, no_dot, dots) (back-IsProper d hs)
      | inr name ↦
          rw (full, no_dot, name)
            (((ne_of p [] full, h), ne_of p (codes ".") no_dot, ne_of p (codes "..") name), hs)
    ]
  ]
]

walk-IsProper :
    (d ps : List Str) → All IsProper d → All (Lacks b'/') ps → All IsProper (walk true d ps)
unfolding walk
walk-IsProper d [] hs ks = hs
walk-IsProper d (p ∷ ps) hs (k, ks) = walk-IsProper (enter true p d) ps (enter-IsProper p d k hs) ks

reverse_aux-IsProper :
    (xs ys : List Str) → All IsProper xs → All IsProper ys → All IsProper (reverse_aux xs ys)
reverse_aux-IsProper [] ys hs ks = ks
reverse_aux-IsProper (x ∷ xs) ys (h, hs) ks = reverse_aux-IsProper xs (x ∷ ys) hs (h, ks)

pub names-IsProper : (s : Str) → All IsProper (names true s)
names-IsProper s =
    reverse_aux-IsProper (walk true [] (split s b'/')) []
      (walk-IsProper [] (split s b'/') tt (split-Lacks s b'/')) tt

text_ne : (s t : Str) → s ≢ t → text_eq s t ≡ false
text_ne s t h = elim (Bool-cases (text_eq s t)) [
  | inl same ↦ absurd (h ((text_eq_iff s t).0 same))
  | inr other ↦ other
]

enter_proper : (p : Str) (d : List Str) → IsProper p → enter true p d ≡ p ∷ d
unfolding enter
enter_proper p d ((full, h), dot, dots) =
    rw (text_ne p [] full, text_ne p (codes ".") dot, text_ne p (codes "..") dots) refl

walk_proper : (d ps : List Str) → All IsProper ps → walk true d ps ≡ reverse_aux ps d
unfolding walk
walk_proper d [] hs = refl
walk_proper d (p ∷ ps) (h, hs) =
    ap (λ u. walk true u ps) (enter_proper p d h) ∙ walk_proper (p ∷ d) ps hs

walk-append : (d ps qs : List Str) → walk true d (ps ++ qs) ≡ walk true (walk true d ps) qs
unfolding walk
walk-append d [] qs = refl
walk-append d (p ∷ ps) qs = walk-append (enter true p d) ps qs

walk-empty : (d ps : List Str) → walk true d ([] ∷ ps) ≡ walk true d ps
unfolding walk enter text_eq
walk-empty d ps = refl

split-slash : (s : Str) → split (b'/' ∷ s) b'/' ≡ [] ∷ split s b'/'
unfolding split
split-slash s = refl

All-Lacks : (ps : List Str) → All IsProper ps → All (Lacks b'/') ps
All-Lacks [] hs = tt
All-Lacks (p ∷ ps) (((full, h), dot, dots), hs) = (h, All-Lacks ps hs)

join-nil : join [] b'/' ≡ []
unfolding join
join-nil = refl

walk-split_nil : (d : List Str) → walk true d (split [] b'/') ≡ d
unfolding split walk enter text_eq
walk-split_nil d = refl

walk-split-join :
    (d ps : List Str) → All IsProper ps → walk true d (split (join ps b'/') b'/') ≡ reverse_aux ps d
walk-split-join d [] hs = ap (λ u. walk true d (split u b'/')) join-nil ∙ walk-split_nil d
walk-split-join d (p ∷ ps) hs =
    ap (walk true d) (split-join p ps b'/' (All-Lacks (p ∷ ps) hs)) ∙ walk_proper d (p ∷ ps) hs

-- The names of a clean path.
pub names-join : (ps : List Str) → All IsProper ps → names true (b'/' ∷ join ps b'/') ≡ ps
names-join ps hs =
    ap (λ u. reverse (walk true [] u)) (split-slash (join ps b'/'))
    ∙ ap reverse (walk-empty [] (split (join ps b'/') b'/'))
    ∙ ap reverse (walk-split-join [] ps hs)
    ∙ reverse-reverse ps

-- A name after a path.
pub names-concat : (s p : Str) → IsProper p → names true (s ++ b'/' ∷ p) ≡ names true s ++ p ∷ []
names-concat s p ((full, h), dot, dots) =
    ap (λ u. reverse (walk true [] u)) (split-concat s p b'/')
    ∙ ap reverse (walk-append [] (split s b'/') (split p b'/'))
    ∙ ap (λ u. reverse (walk true (walk true [] (split s b'/')) u)) (split_of_Lacks p b'/' h)
    ∙ ap reverse (walk_proper (walk true [] (split s b'/')) (p ∷ []) (((full, h), dot, dots), tt))
    ∙ reverse-append (p ∷ []) (walk true [] (split s b'/'))

-- A clean relative path after a path.
pub names-concat_join :
    (s p : Str) (ps : List Str)
    → All IsProper (p ∷ ps)
    → names true (s ++ b'/' ∷ join (p ∷ ps) b'/') ≡ names true s ++ p ∷ ps
names-concat_join s p ps hs =
    let w = walk true [] (split s b'/') in
    ap (λ u. reverse (walk true [] u)) (split-concat s (join (p ∷ ps) b'/') b'/')
    ∙ ap reverse (walk-append [] (split s b'/') (split (join (p ∷ ps) b'/') b'/'))
    ∙ ap reverse (walk-split-join w (p ∷ ps) hs)
    ∙ ap reverse (reverse_aux-eq (p ∷ ps) w)
    ∙ reverse-append (reverse (p ∷ ps)) w
    ∙ ap (λ u. reverse w ++ u) (reverse-reverse (p ∷ ps))

pub names-slash : (s : Str) → names true (s ++ b'/' ∷ []) ≡ names true s
names-slash s =
    ap (λ u. reverse (walk true [] u)) (split-concat s [] b'/')
    ∙ ap reverse (walk-append [] (split s b'/') (split [] b'/'))
    ∙ ap reverse (walk-split_nil (walk true [] (split s b'/')))

walk-dot : (d : List Str) → walk true d (split (codes ".") b'/') ≡ d
unfolding split walk enter text_eq
walk-dot d = refl

pub names-dot : (s : Str) → names true (s ++ b'/' ∷ codes ".") ≡ names true s
names-dot s =
    ap (λ u. reverse (walk true [] u)) (split-concat s (codes ".") b'/')
    ∙ ap reverse (walk-append [] (split s b'/') (split (codes ".") b'/'))
    ∙ ap reverse (walk-dot (walk true [] (split s b'/')))

or_dot-nonempty : (s : Str) → or_dot s ≢ []
or_dot-nonempty [] e = cc
or_dot-nonempty (c ∷ s) e = cc

pub clean-nonempty : (s : Str) → clean s ≢ []
unfolding clean
clean-nonempty s = elim (Bool-cases (is_abs s)) [
  | inl rooted ↦ rw rooted (λ e. cc)
  | inr relative ↦ rw relative (or_dot-nonempty (join (names false s) b'/'))
]

pub names-clean : (s : Str) → is_abs s ≡ true → names true (clean s) ≡ names true s
names-clean s h = ap (names true) (clean-abs s h) ∙ names-join (names true s) (names-IsProper s)

pub is_abs-append : (s t : Str) → is_abs s ≡ true → is_abs (s ++ t) ≡ true
unfolding is_abs has_prefix
is_abs-append [] t h = absurd (ground arith)
is_abs-append (c ∷ s) t h = ground arith

not_abs : is_abs [] ≡ false
unfolding is_abs has_prefix
not_abs = refl

join_path-nil : (c : ℕ) (a : Str) → join_path (c ∷ a) [] ≡ clean (c ∷ a)
unfolding join_path text_eq
join_path-nil c a = refl

join_path-cons : (c d : ℕ) (a b : Str) → join_path (c ∷ a) (d ∷ b) ≡ clean (c ∷ a ++ b'/' ∷ d ∷ b)
unfolding join_path text_eq
join_path-cons c d a b = refl

-- filepath.Join after an absolute path cleans an absolute path.
pub join_path-clean :
    (a b : Str) → is_abs a ≡ true → (u : Str) × (is_abs u ≡ true) × (join_path a b ≡ clean u)
join_path-clean [] b h = absurd (ground (arith, not_abs))
join_path-clean (c ∷ a) [] h = (c ∷ a, h, join_path-nil c a)
join_path-clean (c ∷ a) (d ∷ b) h =
    (c ∷ a ++ b'/' ∷ d ∷ b, is_abs-append (c ∷ a) (b'/' ∷ d ∷ b) h, join_path-cons c d a b)

-- filepath.Join of an absolute path and a text.
pub join_path-text : (a p : Str) → is_abs a ≡ true → p ≢ [] → join_path a p ≡ clean (a ++ b'/' ∷ p)
join_path-text a [] h full = absurd (full refl)
join_path-text [] (d ∷ p) h k = absurd (ground (arith, not_abs))
join_path-text (c ∷ a) (d ∷ p) h k = join_path-cons c d a p

pub is_abs-cons : (s : Str) → is_abs (b'/' ∷ s) ≡ true
unfolding is_abs has_prefix
is_abs-cons s = refl

-- filepath.Join after an absolute path is absolute.
pub is_abs-join_path : (a b : Str) → is_abs a ≡ true → is_abs (join_path a b) ≡ true
is_abs-join_path a b h =
    let (u, hu, e) = join_path-clean a b h in
    ap is_abs (e ∙ clean-abs u hu) ∙ is_abs-cons (join (names true u) b'/')
