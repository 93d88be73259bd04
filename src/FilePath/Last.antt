-- ===== src/FilePath/Last.antt =====
-- The last name of a path, and what stands before it.
use serveo_api_golang.Prelude.{
  ℕ, ◌≡◌, ◌≢◌, refl, sym, ◌∙◌, ap, [], ◌∷◌, ◌++◌, reverse, append_assoc, reverse-append,
  reverse-reverse, arith,
}
use mathlib.Core.List.{reverse_aux}
use serveo_api_golang.Text.{Str, Lacks}
use serveo_api_golang.FilePath.{clean, drop_name, dir_path, drop_slashes, take_name, base_name}
use serveo_api_golang.FilePath.Names.{IsName}

reverse_aux-Lacks : (c : ℕ) (s t : Str) → Lacks c s → Lacks c t → Lacks c (reverse_aux s t)
reverse_aux-Lacks c [] t h k = k
reverse_aux-Lacks c (x ∷ s) t (hx, h) k = reverse_aux-Lacks c s (x ∷ t) h (hx, k)

take_name-append : (s t : Str) → Lacks b'/' s → take_name (s ++ b'/' ∷ t) ≡ s
unfolding take_name
take_name-append [] t h = refl
take_name-append (c ∷ s) t (hc, h) = ground (arith, take_name-append s t h)

take_name_of_Lacks : (s : Str) → Lacks b'/' s → take_name s ≡ s
unfolding take_name
take_name_of_Lacks [] h = refl
take_name_of_Lacks (c ∷ s) (hc, h) = ground (arith, take_name_of_Lacks s h)

drop_slashes-append : (s t : Str) → s ≢ [] → Lacks b'/' s → drop_slashes (s ++ t) ≡ s ++ t
unfolding drop_slashes
drop_slashes-append [] t full h = absurd (full refl)
drop_slashes-append (c ∷ s) t full (hc, h) = ground arith

drop_slashes_of_Lacks : (s : Str) → Lacks b'/' s → drop_slashes s ≡ s
unfolding drop_slashes
drop_slashes_of_Lacks [] h = refl
drop_slashes_of_Lacks (c ∷ s) (hc, h) = ground arith

reverse_nonempty : (s : Str) → s ≢ [] → reverse s ≢ []
reverse_nonempty s full e = full (sym (reverse-reverse s) ∙ ap reverse e)

base_name-eq :
    (t u : Str)
    → t ≢ []
    → reverse (take_name (drop_slashes (reverse t))) ≡ u
    → u ≢ []
    → base_name t ≡ u
unfolding base_name
base_name-eq [] u full e k = absurd (full refl)
base_name-eq (c ∷ t) [] full e k = absurd (k refl)
base_name-eq (c ∷ t) (d ∷ u) full e k = ground (arith, e)

pub append_nonempty : (d : Str) (c : ℕ) (s : Str) → d ++ c ∷ s ≢ []
append_nonempty [] c s e = cc
append_nonempty (x ∷ d) c s e = cc

reverse-concat : (d s : Str) → reverse (d ++ b'/' ∷ s) ≡ reverse s ++ b'/' ∷ reverse d
reverse-concat d s =
    reverse-append d (b'/' ∷ s)
    ∙ ap (λ u. u ++ reverse d) (reverse-append (b'/' ∷ []) s)
    ∙ append_assoc (reverse s) (b'/' ∷ []) (reverse d)

pub base_name-append : (d s : Str) → IsName s → base_name (d ++ b'/' ∷ s) ≡ s
base_name-append d s (full, h) =
    let kept = reverse_aux-Lacks b'/' s [] h tt in
    base_name-eq (d ++ b'/' ∷ s) s (append_nonempty d b'/' s)
      (ap (λ u. reverse (take_name (drop_slashes u))) (reverse-concat d s)
        ∙ ap (λ u. reverse (take_name u))
            (drop_slashes-append (reverse s) (b'/' ∷ reverse d) (reverse_nonempty s full) kept)
        ∙ ap reverse (take_name-append (reverse s) (reverse d) kept)
        ∙ reverse-reverse s)
      full

pub base_name_of_name : (s : Str) → IsName s → base_name s ≡ s
base_name_of_name s (full, h) =
    let kept = reverse_aux-Lacks b'/' s [] h tt in
    base_name-eq s s full
      (ap (λ u. reverse (take_name u)) (drop_slashes_of_Lacks (reverse s) kept)
        ∙ ap reverse (take_name_of_Lacks (reverse s) kept)
        ∙ reverse-reverse s)
      full

drop_name-append : (s t : Str) → Lacks b'/' s → drop_name (s ++ b'/' ∷ t) ≡ b'/' ∷ t
unfolding drop_name
drop_name-append [] t h = refl
drop_name-append (c ∷ s) t (hc, h) = ground (arith, drop_name-append s t h)

pub dir_path-append : (d s : Str) → Lacks b'/' s → dir_path (d ++ b'/' ∷ s) ≡ clean (d ++ b'/' ∷ [])
unfolding dir_path
dir_path-append d s h =
    ap (λ u. clean (reverse (drop_name u))) (reverse-concat d s)
    ∙ ap (λ u. clean (reverse u))
        (drop_name-append (reverse s) (reverse d) (reverse_aux-Lacks b'/' s [] h tt))
    ∙ ap clean
        (reverse-append (b'/' ∷ []) (reverse d) ∙ ap (λ u. u ++ b'/' ∷ []) (reverse-reverse d))
