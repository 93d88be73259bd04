-- ===== src/Text/Split.antt =====
-- strings.Split, SplitN(…, 2) and Cut at a separator of one byte.
use serveo_api_golang.Text.Bytes.{Str}
use serveo_api_golang.Text.Affix.{has_prefix, contains}
use serveo_api_golang.Prelude.{
  ap, ◌∙◌, ℕ, ◌≡◌, ◌≢◌, refl, false, Option, none, some, List, [], ◌∷◌, ◌++◌, arith, ◌==◌,
  if◌then◌else◌, All, Bool-cases, Option-cases, inl, inr,
}

abbrev pub push : ℕ → List Str → List Str
push c [] = (c ∷ []) ∷ []
push c (p ∷ ps) = (c ∷ p) ∷ ps

-- strings.Split
unfoldable pub split : Str → ℕ → List Str
split [] sep = [] ∷ []
split (c ∷ s) sep = if c == sep then [] ∷ split s sep else push c (split s sep)

abbrev before : ℕ → Option (Str × Str) → Option (Str × Str)
before c none = none
before c (some (a, b)) = some (c ∷ a, b)

-- strings.Cut: the texts before and after the first separator, or `none` where there is none
unfoldable pub cut : Str → ℕ → Option (Str × Str)
cut [] sep = none
cut (c ∷ s) sep = if c == sep then some ([], s) else before c (cut s sep)

-- the first result of strings.Cut
unfoldable pub cut_head : Str → ℕ → Str
unfolding cut
cut_head s sep = elim (cut s sep) [ none ↦ s | some (a, b) ↦ a ]

-- strings.Join
unfoldable pub join : List Str → ℕ → Str
join [] sep = []
join (p ∷ []) sep = p
join (p ∷ q ∷ ps) sep = p ++ sep ∷ join (q ∷ ps) sep

-- No byte of the text is the separator.
abbrev pub Lacks : ℕ → Str → Type 0
Lacks sep s = All (λ c. c ≢ sep) s

pub cut-eq-some : (s : Str) (sep : ℕ) (a b : Str) → cut s sep ≡ some (a, b) → s ≡ a ++ sep ∷ b
unfolding cut
cut-eq-some [] sep a b h = absurd (ground arith)
cut-eq-some (c ∷ s) sep a b h = elim (Bool-cases (c == sep)) [
  | inl same ↦ ground arith
  | inr other ↦ elim (Option-cases (cut s sep)) [
    | inl missing ↦ absurd (ground arith)
    | inr ((a', b'), found) ↦ ground (arith, cut-eq-some s sep a' b' found)
  ]
]

pub Lacks-append : (sep : ℕ) (s t : Str) → Lacks sep s → Lacks sep t → Lacks sep (s ++ t)
Lacks-append sep [] t hs ht = ht
Lacks-append sep (c ∷ s) t (h, hs) ht = (h, Lacks-append sep s t hs ht)

pub contains-Lacks : (sep : ℕ) (s : Str) → contains s (sep ∷ []) ≡ false → Lacks sep s
unfolding contains has_prefix
contains-Lacks sep [] e = tt
contains-Lacks sep (c ∷ s) e = (λ k. ground (arith, k), contains-Lacks sep s (ground arith))

pub cut_of_Lacks : (s : Str) (sep : ℕ) → Lacks sep s → cut s sep ≡ none
unfolding cut
cut_of_Lacks [] sep h = refl
cut_of_Lacks (c ∷ s) sep h = ground (arith, cut_of_Lacks s sep)

pub cut-append : (s t : Str) (sep : ℕ) → Lacks sep s → cut (s ++ sep ∷ t) sep ≡ some (s, t)
unfolding cut
cut-append [] t sep h = ground arith
cut-append (c ∷ s) t sep h = ground (arith, cut-append s t sep)

pub cut_head-append : (s t : Str) (sep : ℕ) → Lacks sep s → cut_head (s ++ sep ∷ t) sep ≡ s
unfolding cut_head
cut_head-append s t sep h = ground (arith, cut-append s t sep h)

pub cut_head_of_Lacks : (s : Str) (sep : ℕ) → Lacks sep s → cut_head s sep ≡ s
unfolding cut_head
cut_head_of_Lacks s sep h = ground (arith, cut_of_Lacks s sep h)

pub split_of_Lacks : (s : Str) (sep : ℕ) → Lacks sep s → split s sep ≡ s ∷ []
unfolding split
split_of_Lacks [] sep h = refl
split_of_Lacks (c ∷ s) sep h = ground (arith, split_of_Lacks s sep)

pub split-append : (p s : Str) (sep : ℕ) → Lacks sep p → split (p ++ sep ∷ s) sep ≡ p ∷ split s sep
unfolding split
split-append [] s sep h = ground arith
split-append (c ∷ p) s sep h = ground (arith, split-append p s sep)

push-ne-nil : (c : ℕ) (ps : List Str) → push c ps ≢ []
push-ne-nil c [] = λ e. cc
push-ne-nil c (p ∷ ps) = λ e. cc

split-ne-nil : (s : Str) (sep : ℕ) → split s sep ≢ []
unfolding split
split-ne-nil [] sep = λ e. cc
split-ne-nil (c ∷ s) sep = elim (Bool-cases (c == sep)) [
  | inl same ↦ rw same (λ e. cc)
  | inr other ↦ rw other (push-ne-nil c (split s sep))
]

push-append : (c : ℕ) (ps qs : List Str) → ps ≢ [] → push c (ps ++ qs) ≡ push c ps ++ qs
push-append c [] qs h = absurd (h refl)
push-append c (p ∷ ps) qs h = refl

pub split-concat : (s t : Str) (sep : ℕ) → split (s ++ sep ∷ t) sep ≡ split s sep ++ split t sep
unfolding split
split-concat [] t sep = ground arith
split-concat (c ∷ s) t sep = elim (Bool-cases (c == sep)) [
  | inl same ↦ ground (arith, split-concat s t sep)
  | inr other ↦
      ground
        (arith, split-concat s t sep, push-append c (split s sep) (split t sep), split-ne-nil s sep)
]

push-Lacks :
    (c sep : ℕ) (ps : List Str) → c ≢ sep → All (Lacks sep) ps → All (Lacks sep) (push c ps)
push-Lacks c sep [] h hs = ((h, tt), tt)
push-Lacks c sep (p ∷ ps) h (hp, hps) = ((h, hp), hps)

pub split-Lacks : (s : Str) (sep : ℕ) → All (Lacks sep) (split s sep)
unfolding split
split-Lacks [] sep = (tt, tt)
split-Lacks (c ∷ s) sep = elim (Bool-cases (c == sep)) [
  | inl same ↦ rw same (tt, split-Lacks s sep)
  | inr other ↦ rw other (push-Lacks c sep (split s sep) (ground arith) (split-Lacks s sep))
]

-- What is joined and holds no separator is split again, where it is not empty.
pub split-join :
    (p : Str) (ps : List Str) (sep : ℕ)
    → All (Lacks sep) (p ∷ ps)
    → split (join (p ∷ ps) sep) sep ≡ p ∷ ps
unfolding join
split-join p [] sep (h, tt) = split_of_Lacks p sep h
split-join p (q ∷ ps) sep (h, hs) =
    split-append p (join (q ∷ ps) sep) sep h ∙ ap (λ t. p ∷ t) (split-join q ps sep hs)
