-- ===== src/Text/Affix.antt =====
-- strings.HasPrefix, TrimPrefix, HasSuffix, TrimSuffix, Contains and ContainsAny.
use serveo_api_golang.Text.Bytes.{Str}
use mathlib.Core.List.{reverse_aux}
use serveo_api_golang.Prelude.{
  ◌+◌, ap₂, ◌≡◌, refl, sym, ap, ◌∙◌, Bool, true, false, ◌&&◌, ◌||◌, [], ◌∷◌, ◌++◌, reverse,
  reverse-append, reverse-reverse, arith, ◌==◌, if◌then◌else◌, any, drop, length,
}

unfoldable pub has_prefix : Str → Str → Bool
has_prefix s [] = true
has_prefix [] (p ∷ ps) = false
has_prefix (c ∷ s) (p ∷ ps) = c == p && has_prefix s ps

unfoldable pub trim_prefix : Str → Str → Str
unfolding has_prefix
trim_prefix s p = if has_prefix s p then drop (length p) s else s

unfoldable pub has_suffix : Str → Str → Bool
unfolding has_prefix
has_suffix s p = has_prefix (reverse s) (reverse p)

unfoldable pub trim_suffix : Str → Str → Str
unfolding has_suffix
trim_suffix s p = if has_suffix s p then reverse (drop (length p) (reverse s)) else s

unfoldable pub contains : Str → Str → Bool
unfolding has_prefix
contains [] sub = has_prefix [] sub
contains (c ∷ s) sub = has_prefix (c ∷ s) sub || contains s sub

-- `chars` holds ASCII characters
unfoldable pub contains_any : Str → Str → Bool
contains_any s chars = any (λ c. any (λ d. c == d) chars) s

pub has_prefix_append : (p rest : Str) → has_prefix (p ++ rest) p ≡ true
unfolding has_prefix
has_prefix_append [] rest = refl
has_prefix_append (c ∷ p) rest = ground (arith, has_prefix_append p rest)

pub has_prefix_split : (s p : Str) → has_prefix s p ≡ true → (rest : Str) × (s ≡ p ++ rest)
unfolding has_prefix
has_prefix_split s [] h = (s, refl)
has_prefix_split [] (c ∷ p) h = absurd (ground arith)
has_prefix_split (c ∷ s) (d ∷ p) h =
    let (rest, e) = has_prefix_split s p (ground arith) in (rest, ground arith)

pub drop-append : (p rest : Str) → drop (length p) (p ++ rest) ≡ rest
drop-append [] rest = refl
drop-append (c ∷ p) rest = drop-append p rest

pub trim_prefix-append : (p rest : Str) → trim_prefix (p ++ rest) p ≡ rest
unfolding trim_prefix
trim_prefix-append p rest = rw (has_prefix_append p rest) (drop-append p rest)

pub has_suffix_append : (s x : Str) → has_suffix (s ++ x) x ≡ true
unfolding has_suffix
has_suffix_append s x = rw (reverse-append s x) (has_prefix_append (reverse x) (reverse s))

pub has_suffix_split : (s x : Str) → has_suffix s x ≡ true → (front : Str) × (s ≡ front ++ x)
unfolding has_suffix
has_suffix_split s x h =
    let (rest, e) = has_prefix_split (reverse s) (reverse x) h in
    (
      reverse rest,
      sym (reverse-reverse s)
          ∙ ap reverse e
          ∙ reverse-append (reverse x) rest
          ∙ ap (λ t. reverse rest ++ t) (reverse-reverse x),
    )

length-reverse_aux : (x y : Str) → length (reverse_aux x y) ≡ length x + length y
length-reverse_aux [] y = omega arith
length-reverse_aux (c ∷ x) y = omega (arith, length-reverse_aux x (c ∷ y))

length-reverse : (x : Str) → length (reverse x) ≡ length x
length-reverse x = omega (arith, length-reverse_aux x [])

pub trim_suffix-append : (s x : Str) → trim_suffix (s ++ x) x ≡ s
unfolding trim_suffix
trim_suffix-append s x = rw (has_suffix_append s x) (
    ap reverse
      (ap₂ drop (sym (length-reverse x)) (reverse-append s x) ∙ drop-append (reverse x) (reverse s))
    ∙ reverse-reverse s)
