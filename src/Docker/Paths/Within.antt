-- ===== src/Docker/Paths/Within.antt =====
-- An allowed bind source leads to the allowed directory or below it, whatever "." and ".." it has.
use serveo_api_golang.Prelude.{
  ℕ, ◌≡◌, ◌≢◌, sym, ap, ◌∙◌, inl, inr, true, ◌||◌, List, [], ◌∷◌, ◌++◌, reverse, reverse-append,
  reverse-reverse, arith, Bool-cases, append-nil, append_assoc, drop,
}
use serveo_api_golang.Text.{Str, codes, text_eq, has_prefix, has_prefix_split, split, join}
use serveo_api_golang.FilePath.{is_abs, back, enter, walk, clean}
use serveo_api_golang.Docker.Paths.{is_bind_source_allowed}
use serveo_api_golang.FilePath.Names.{
  eq_of, ne_of, names, names-IsName, join_inj, join_prefix, clean-abs, abs-clean,
}

-- From one directory the parts of a path lead to another; a directory is the list of the names
-- that lead to it, the last one first.
pub data Leads : List Str → List Str → List Str → Type 0 where
  arrive : {d : List Str} → Leads d [] d
  stay : {d ps e : List Str} → Leads d ps e → Leads d ([] ∷ ps) e
  here_dot : {d ps e : List Str} → Leads d ps e → Leads d (codes "." ∷ ps) e
  up : {q : Str} {d ps e : List Str} → Leads d ps e → Leads (q ∷ d) (codes ".." ∷ ps) e
  up_root : {ps e : List Str} → Leads [] ps e → Leads [] (codes ".." ∷ ps) e
  down :
      {p : Str} {d ps e : List Str}
      → p ≢ []
      → p ≢ codes "."
      → p ≢ codes ".."
      → Leads (p ∷ d) ps e
      → Leads d (p ∷ ps) e

back-Leads :
    (d ps : List Str)
    → ((d' : List Str) → Leads d' ps (walk true d' ps))
    → Leads d (codes ".." ∷ ps) (walk true (back true d) ps)
back-Leads [] ps rest = up_root (rest [])
back-Leads (q ∷ d) ps rest = up (rest d)

walk-Leads : (d ps : List Str) → Leads d ps (walk true d ps)
unfolding walk enter text_eq
walk-Leads d [] = arrive
walk-Leads d (p ∷ ps) = elim (Bool-cases (text_eq p [])) [
  | inl empty ↦ rw (eq_of p [] empty) (stay (walk-Leads d ps))
  | inr full ↦ elim (Bool-cases (text_eq p (codes "."))) [
    | inl dot ↦ rw (eq_of p (codes ".") dot) (here_dot (walk-Leads d ps))
    | inr no_dot ↦ elim (Bool-cases (text_eq p (codes ".."))) [
      | inl dots ↦ rw (eq_of p (codes "..") dots) (back-Leads d ps (λ d'. walk-Leads d' ps))
      | inr name ↦
          rw (full, no_dot, name)
            (down (ne_of p [] full) (ne_of p (codes ".") no_dot) (ne_of p (codes "..") name)
              (walk-Leads (p ∷ d) ps))
    ]
  ]
]

tail_eq : (c : ℕ) (s t : Str) → c ∷ s ≡ c ∷ t → s ≡ t
tail_eq c s t e = ap (drop 1) e

names_within :
    (src root : Str)
    → is_abs src ≡ true
    → is_abs root ≡ true
    → (text_eq (clean src) (clean root) || has_prefix (clean src) (clean root ++ codes "/")) ≡ true
    → (rest : List Str) × (names true src ≡ names true root ++ rest)
names_within src root hs hr h = elim (Bool-cases (text_eq (clean src) (clean root))) [
  | inl same ↦ (
    [],
    join_inj (names true src) (names true root) (names-IsName true src) (names-IsName true root) (
          tail_eq b'/' (join (names true src) b'/') (join (names true root) b'/')
            (sym (clean-abs src hs) ∙ eq_of (clean src) (clean root) same ∙ clean-abs root hr))
        ∙ sym (append-nil (names true root)),
  )
  | inr other ↦
      let (t, e) = has_prefix_split (clean src) (clean root ++ codes "/") (ground arith) in
      join_prefix (names true src) (names true root) t (names-IsName true src)
        (names-IsName true root)
        (tail_eq b'/' (join (names true src) b'/') ((join (names true root) b'/' ++ codes "/") ++ t)
            (sym (clean-abs src hs) ∙ e ∙ ap (λ u. (u ++ codes "/") ++ t) (clean-abs root hr))
          ∙ append_assoc (join (names true root) b'/') (codes "/") t)
]

allowed_parts :
    (src root : Str)
    → is_bind_source_allowed src root ≡ true
    → (is_abs (clean src) ≡ true)
      × ((text_eq (clean src) (clean root) || has_prefix (clean src) (clean root ++ codes "/"))
          ≡ true)
unfolding is_bind_source_allowed
allowed_parts src root h = elim (Bool-cases (is_abs (clean src))) [
  | inl rooted ↦ (rooted, ground arith)
  | inr relative ↦ absurd (ground arith)
]

-- The directory is the other one or lies below it.
abbrev pub IsWithin : Str → Str → Type 0
IsWithin src root =
    (e r rest : List Str) × Leads [] (split src b'/') e
    × Leads [] (split root b'/') r
    × (e ≡ rest ++ r)

-- A bind source that passes the check against an absolute root is absolute itself, and leads,
-- one part of the path after the other, to the directory of the root or to one below it.
pub is_bind_source_allowed-IsWithin :
    (src root : Str)
    → is_abs root ≡ true
    → is_bind_source_allowed src root ≡ true
    → (is_abs src ≡ true) × IsWithin src root
is_bind_source_allowed-IsWithin src root hr h =
    let (rooted, inside) = allowed_parts src root h in
    let hs = abs-clean src rooted in
    let (rest, e) = names_within src root hs hr inside in
    (
      hs,
      (
        walk true [] (split src b'/'),
        walk true [] (split root b'/'),
        reverse rest,
        walk-Leads [] (split src b'/'),
        walk-Leads [] (split root b'/'),
        sym (reverse-reverse (walk true [] (split src b'/')))
            ∙ ap reverse e
            ∙ reverse-append (names true root) rest
            ∙ ap (λ u. reverse rest ++ u) (reverse-reverse (walk true [] (split root b'/'))),
      ),
    )
