-- ===== src/Firewall/Covers/Words.antt =====
-- ToLower, TrimSpace and TrimSuffix, as ruleCoversPort uses them, on the texts of ports.
use serveo_api_golang.Prelude.{
  ℕ, ◌≡◌, ◌≢◌, refl, ap, ◌∙◌, Bool, true, false, not, ◌&&◌, [], ◌∷◌, ◌++◌, reverse, reverse-append,
  arith, all, ◌==◌,
}
use serveo_api_golang.Text.{
  Str, codes, trim_space, is_plain, starts_plain, trim_space_plain, trim_suffix, trim_suffix-append,
  has_suffix, has_prefix, to_lower,
}
use serveo_api_golang.Text.Number.{is_digit}
use serveo_api_golang.Text.Plain.{is_small, to_lower_small}
use serveo_api_golang.Firewall.Ports.Laws.{all-append, all-reverse_aux, trim_space_of_all}

-- a byte of the texts without the mark of IPv6
unfoldable pub is_word : ℕ → Bool
unfolding is_plain is_small
is_word c = is_plain c && is_small c && not (c == b')')

pub all_weaker :
    (p q : ℕ → Bool) (s : Str)
    → ((c : ℕ) → p c ≡ true → q c ≡ true)
    → all p s ≡ true
    → all q s ≡ true
all_weaker p q [] f h = refl
all_weaker p q (c ∷ s) f h = ground (arith, f c, all_weaker p q s f)

pub digit-word : (c : ℕ) → is_digit c ≡ true → is_word c ≡ true
unfolding is_digit is_word is_plain is_small
digit-word c h = ground arith

word-plain : (c : ℕ) → is_word c ≡ true → is_plain c ≡ true
unfolding is_word
word-plain c h = ground arith

word-small : (c : ℕ) → is_word c ≡ true → is_small c ≡ true
unfolding is_word
word-small c h = ground arith

pub colon-word : is_word b':' ≡ true
unfolding is_word is_plain is_small
colon-word = refl

starts_of_words : (s : Str) → all is_word s ≡ true → starts_plain s ≡ true
starts_of_words [] h = refl
starts_of_words (c ∷ s) h = word-plain c (ground arith)

starts_append : (s t : Str) → s ≢ [] → starts_plain s ≡ true → starts_plain (s ++ t) ≡ true
starts_append [] t full h = absurd (full refl)
starts_append (c ∷ s) t full h = h

no_mark : (s : Str) → all is_word s ≡ true → has_prefix s (reverse (codes " (v6)")) ≡ false
unfolding has_prefix is_word
no_mark [] h = refl
no_mark (c ∷ s) h = ground arith

-- without the mark of IPv6 the text stays, and with it it loses the mark
pub plain_words :
    (s : Str) → all is_word s ≡ true → trim_suffix (to_lower (trim_space s)) (codes " (v6)") ≡ s
unfolding trim_suffix has_suffix
plain_words s h =
    ap (λ x. trim_suffix (to_lower x) (codes " (v6)"))
      (trim_space_of_all s (all_weaker is_word is_plain s word-plain h))
    ∙ ap (λ x. trim_suffix x (codes " (v6)"))
        (to_lower_small s (all_weaker is_word is_small s word-small h))
    ∙ rw (trim_suffix, has_suffix, no_mark (reverse s) (all-reverse_aux is_word s [] h refl)) refl

mark_plain : starts_plain (reverse (codes " (v6)")) ≡ true
unfolding is_plain
mark_plain = refl

mark_small : all is_small (codes " (v6)") ≡ true
unfolding is_small
mark_small = refl

pub marked_words :
    (s : Str)
    → s ≢ []
    → all is_word s ≡ true
    → trim_suffix (to_lower (trim_space (s ++ codes " (v6)"))) (codes " (v6)") ≡ s
marked_words s full h =
    ap (λ x. trim_suffix (to_lower x) (codes " (v6)"))
      (trim_space_plain (s ++ codes " (v6)")
        (starts_append s (codes " (v6)") full (starts_of_words s h))
        (ap starts_plain (reverse-append s (codes " (v6)"))
          ∙ starts_append (reverse (codes " (v6)")) (reverse s) (λ e. cc) mark_plain))
    ∙ ap (λ x. trim_suffix x (codes " (v6)"))
        (to_lower_small (s ++ codes " (v6)") (
          all-append is_small s (codes " (v6)") (all_weaker is_word is_small s word-small h)
            mark_small))
    ∙ trim_suffix-append s (codes " (v6)")
