-- ===== src/FilePath/Names.antt =====
-- The names that path.Clean leaves of a path, and the text that it makes of them.
use serveo_api_golang.Prelude.{
  ℕ, ◌≡◌, ◌≢◌, refl, sym, ap, ◌∙◌, inl, inr, Bool, true, false, List, [], ◌∷◌, ◌==◌, ◌++◌, reverse,
  arith, All, Bool-cases,
}
use mathlib.Core.List.{reverse_aux}
use serveo_api_golang.Text.{
  Str, codes, text_eq, text_eq_iff, has_prefix, split, join, Lacks, split-Lacks, split-join,
  split-concat,
}
use serveo_api_golang.FilePath.{is_abs, back, enter, walk, or_dot, clean}

pub eq_of : (s t : Str) → text_eq s t ≡ true → s ≡ t
eq_of s t = (text_eq_iff s t).0

pub ne_of : (s t : Str) → text_eq s t ≡ false → s ≢ t
ne_of s t h e = ground (arith, (text_eq_iff s t).1 e)

-- A name in a path: it is not empty and holds no "/".
abbrev pub IsName : Str → Type 0
IsName p = (p ≢ []) × Lacks b'/' p

dots-IsName : IsName (codes "..")
dots-IsName = (λ e. cc, (λ e. omega arith, (λ e. omega arith, tt)))

back-IsName : (rooted : Bool) (d : List Str) → All IsName d → All IsName (back rooted d)
unfolding text_eq
back-IsName true [] hs = tt
back-IsName false [] hs = (dots-IsName, tt)
back-IsName true (q ∷ d) (h, hs) = hs
back-IsName false (q ∷ d) (h, hs) = elim (Bool-cases (text_eq q (codes ".."))) [
  | inl dots ↦ rw dots (dots-IsName, (h, hs))
  | inr name ↦ rw name hs
]

enter-IsName :
    (rooted : Bool) (p : Str) (d : List Str)
    → Lacks b'/' p
    → All IsName d
    → All IsName (enter rooted p d)
unfolding enter
enter-IsName rooted p d h hs = elim (Bool-cases (text_eq p [])) [
  | inl empty ↦ rw empty hs
  | inr full ↦ elim (Bool-cases (text_eq p (codes "."))) [
    | inl dot ↦ rw (full, dot) hs
    | inr no_dot ↦ elim (Bool-cases (text_eq p (codes ".."))) [
      | inl dots ↦ rw (full, no_dot, dots) (back-IsName rooted d hs)
      | inr name ↦ rw (full, no_dot, name) ((ne_of p [] full, h), hs)
    ]
  ]
]

walk-IsName :
    (rooted : Bool) (d ps : List Str)
    → All IsName d
    → All (Lacks b'/') ps
    → All IsName (walk rooted d ps)
unfolding walk
walk-IsName rooted d [] hs ks = hs
walk-IsName rooted d (p ∷ ps) hs (k, ks) =
    walk-IsName rooted (enter rooted p d) ps (enter-IsName rooted p d k hs) ks

reverse_aux-All :
    (P : Str → Type 0) (xs ys : List Str) → All P xs → All P ys → All P (reverse_aux xs ys)
reverse_aux-All P [] ys hs ks = ks
reverse_aux-All P (x ∷ xs) ys (h, hs) ks = reverse_aux-All P xs (x ∷ ys) hs (h, ks)

-- The names of the cleaned path, from the root on.
abbrev pub names : Bool → Str → List Str
names rooted s = reverse (walk rooted [] (split s b'/'))

pub names-IsName : (rooted : Bool) (s : Str) → All IsName (names rooted s)
names-IsName rooted s =
    reverse_aux-All IsName (walk rooted [] (split s b'/')) []
      (walk-IsName rooted [] (split s b'/') tt (split-Lacks s b'/')) tt

Lacks-of_IsName : (ps : List Str) → All IsName ps → All (Lacks b'/') ps
Lacks-of_IsName [] hs = tt
Lacks-of_IsName (p ∷ ps) ((nonempty, h), hs) = (h, Lacks-of_IsName ps hs)

-- A list of names that are joined begins with a byte other than "/", if there are any.
join-not_abs : (ps : List Str) (t : Str) → All IsName ps → join ps b'/' ≢ b'/' ∷ t
unfolding join
join-not_abs [] t hs e = cc
join-not_abs ([] ∷ ps) t ((h, k), hs) e = absurd (h refl)
join-not_abs ((c ∷ p) ∷ []) t ((h, (k, ks)), hs) e = k (ground (arith, e))
join-not_abs ((c ∷ p) ∷ q ∷ ps) t ((h, (k, ks)), hs) e = k (ground (arith, e))

join-nil : join [] b'/' ≡ []
unfolding join
join-nil = refl

pub join-nonempty : (p : Str) (ps : List Str) → All IsName (p ∷ ps) → join (p ∷ ps) b'/' ≢ []
unfolding join
join-nonempty [] ps ((h, k), hs) e = absurd (h refl)
join-nonempty (c ∷ p) [] hs e = cc
join-nonempty (c ∷ p) (q ∷ ps) hs e = cc

pub join_inj :
    (ps qs : List Str) → All IsName ps → All IsName qs → join ps b'/' ≡ join qs b'/' → ps ≡ qs
join_inj [] [] hs ks e = refl
join_inj [] (q ∷ qs) hs ks e = absurd (join-nonempty q qs ks (sym e ∙ join-nil))
join_inj (p ∷ ps) [] hs ks e = absurd (join-nonempty p ps hs (e ∙ join-nil))
join_inj (p ∷ ps) (q ∷ qs) hs ks e =
    sym (split-join p ps b'/' (Lacks-of_IsName (p ∷ ps) hs))
    ∙ ap (λ t. split t b'/') e
    ∙ split-join q qs b'/' (Lacks-of_IsName (q ∷ qs) ks)

append-nonempty : (s t : Str) (c : ℕ) → s ++ c ∷ t ≢ []
append-nonempty [] t c e = cc
append-nonempty (d ∷ s) t c e = cc

pub join_prefix :
    (ps qs : List Str) (t : Str)
    → All IsName ps
    → All IsName qs
    → join ps b'/' ≡ join qs b'/' ++ b'/' ∷ t
    → (rest : List Str) × (ps ≡ qs ++ rest)
join_prefix ps [] t hs ks e = absurd (join-not_abs ps t hs (e ∙ ap (λ u. u ++ b'/' ∷ t) join-nil))
join_prefix [] (q ∷ qs) t hs ks e =
    absurd (append-nonempty (join (q ∷ qs) b'/') t b'/' (sym e ∙ join-nil))
join_prefix (p ∷ ps) (q ∷ qs) t hs ks e = (
  split t b'/',
  sym (split-join p ps b'/' (Lacks-of_IsName (p ∷ ps) hs))
      ∙ ap (λ t. split t b'/') e
      ∙ split-concat (join (q ∷ qs) b'/') t b'/'
      ∙ ap (λ u. u ++ split t b'/') (split-join q qs b'/' (Lacks-of_IsName (q ∷ qs) ks)),
)

or_dot-not_abs : (t : Str) → ((u : Str) → t ≢ b'/' ∷ u) → is_abs (or_dot t) ≡ false
unfolding is_abs has_prefix
or_dot-not_abs [] h = refl
or_dot-not_abs (c ∷ t) h = elim (Bool-cases (c == b'/')) [
  | inl slash ↦ absurd (h t (ground arith))
  | inr other ↦ ground arith
]

clean-relative : (s : Str) → is_abs s ≡ false → is_abs (clean s) ≡ false
unfolding clean
clean-relative s h = rw h (
    or_dot-not_abs (join (names false s) b'/')
      (λ u. join-not_abs (names false s) u (names-IsName false s)))

pub clean-abs : (s : Str) → is_abs s ≡ true → clean s ≡ b'/' ∷ join (names true s) b'/'
unfolding clean
clean-abs s h = rw h refl

pub abs-clean : (s : Str) → is_abs (clean s) ≡ true → is_abs s ≡ true
abs-clean s h = elim (Bool-cases (is_abs s)) [
  | inl rooted ↦ rooted
  | inr relative ↦ absurd (ground (arith, clean-relative s relative))
]
