-- ===== src/Firewall/Covers.antt =====
-- The texts by which `ufw status` names a port, and that ruleCoversPort reads them.
pub mod Words
use serveo_api_golang.Prelude.{
  ℕ, ◌≤◌, ◌<◌, ◌^◌, ◌≡◌, ◌≢◌, refl, ap, ◌∙◌, Bool, true, false, not, ◌&&◌, some, [], ◌∷◌, ◌++◌,
  append-nil, reverse, reverse-append, arith, all, leb, ◌==◌,
}
use serveo_api_golang.Text.{
  Str, codes, Lacks, Lacks-append, cut-append, cut_of_Lacks, cut_head, cut_head-append,
  cut_head_of_Lacks, trim_space, is_plain, starts_plain, trim_space_plain, trim_suffix,
  trim_suffix-append, has_suffix, has_prefix, to_lower, contains, text_eq,
}
use serveo_api_golang.Text.Number.{pos, is_digit, digits}
use serveo_api_golang.Text.Plain.{
  is_small, to_lower_small, digits-all, digits-nonempty, atoi-digits,
}
use serveo_api_golang.Firewall.Ports.{port_range_contains}
use serveo_api_golang.Firewall.Ports.Laws.{
  all-append, all-reverse_aux, all_plain_of_digits, trim_space_of_all, contains_one, contains_two,
  colon_plain,
}
use serveo_api_golang.Firewall.Status.{rule_covers_port}
use serveo_api_golang.Firewall.Covers.Words.{
  is_word, all_weaker, digit-word, colon-word, plain_words, marked_words,
}

-- The text is the port in decimal, or a range "low:high" with the port in it, of numbers that fit
-- an int.
pub data Spec : Str → ℕ → Type 0 where
  single : {s : Str} {n : ℕ} → digits s ≡ some n → n < 2 ^ 63 → Spec s n
  range :
      {n : ℕ} (low high : Str) (a b : ℕ)
      → digits low ≡ some a
      → digits high ≡ some b
      → a ≤ n
      → n ≤ b
      → b < 2 ^ 63
      → Spec (low ++ b':' ∷ high) n

pub data Protocol : Str → Type 0 where
  every_protocol : Protocol []
  tcp : Protocol (codes "/tcp")
  udp : Protocol (codes "/udp")

-- The text of the column "To" names the port: by its number or a range, for a protocol or for all,
-- or by the application profile OpenSSH; and that for IPv4 or IPv6.
pub data Covers : Str → ℕ → Type 0 where
  by_port : {n : ℕ} (s p : Str) → Spec s n → Protocol p → Covers (s ++ p) n
  by_port_v6 : {n : ℕ} (s p : Str) → Spec s n → Protocol p → Covers ((s ++ p) ++ codes " (v6)") n
  by_profile : Covers (codes "OpenSSH") 22
  by_profile_v6 : Covers (codes "OpenSSH (v6)") 22

is_digit-Lacks : (sep : ℕ) (s : Str) → is_digit sep ≡ false → all is_digit s ≡ true → Lacks sep s
is_digit-Lacks sep [] h k = tt
is_digit-Lacks sep (c ∷ s) h k =
    (λ e. ground (arith, ap is_digit e), is_digit-Lacks sep s h (ground arith))

colon-other : is_digit b':' ≡ false
unfolding is_digit
colon-other = refl

slash-other : is_digit b'/' ≡ false
unfolding is_digit
slash-other = refl

append-nonempty : (s : Str) (c : ℕ) (t : Str) → s ++ c ∷ t ≢ []
append-nonempty [] c t e = cc
append-nonempty (d ∷ s) c t e = cc

leb_both : (a n b : ℕ) → a ≤ n → n ≤ b → (leb a n && leb n b) ≡ true
leb_both a n b h k = ground arith

Spec-words : (s : Str) (n : ℕ) → Spec s n → (all is_word s ≡ true) × Lacks b'/' s × (s ≢ [])
Spec-words s n (single e h) = (
  all_weaker is_digit is_word s digit-word (digits-all s n e),
  is_digit-Lacks b'/' s slash-other (digits-all s n e),
  digits-nonempty s n e,
)
Spec-words s n (range low high a b e e' l l' h) = (
  all-append is_word low (b':' ∷ high)
      (all_weaker is_digit is_word low digit-word (digits-all low a e))
      (ground
        (arith, colon-word, all_weaker is_digit is_word high digit-word (digits-all high b e'))),
  Lacks-append b'/' low (b':' ∷ high) (is_digit-Lacks b'/' low slash-other (digits-all low a e))
      (λ q. omega (arith, q), is_digit-Lacks b'/' high slash-other (digits-all high b e')),
  append-nonempty low b':' high,
)

Spec-contains : (s : Str) (n : ℕ) → Spec s n → port_range_contains s (pos n) ≡ true
Spec-contains s n (single e h) =
    contains_one s n n (trim_space_of_all s (all_plain_of_digits s (digits-all s n e)))
      (cut_of_Lacks s b':' (is_digit-Lacks b':' s colon-other (digits-all s n e)))
      (atoi-digits s n e h)
    ∙ leb_both n n n (omega arith) (omega arith)
Spec-contains s n (range low high a b e e' l l' h) =
    contains_two (low ++ b':' ∷ high) low high a b n
      (trim_space_of_all (low ++ b':' ∷ high) (
        all-append is_plain low (b':' ∷ high) (all_plain_of_digits low (digits-all low a e))
          (ground (arith, colon_plain, all_plain_of_digits high (digits-all high b e')))))
      (cut-append low high b':' (is_digit-Lacks b':' low colon-other (digits-all low a e)))
      (atoi-digits low a e (omega (arith, l, l', h))) (atoi-digits high b e' h)
    ∙ leb_both a n b l l'

Protocol-words : (p : Str) → Protocol p → all is_word p ≡ true
unfolding is_word is_plain is_small
Protocol-words p every_protocol = refl
Protocol-words p tcp = refl
Protocol-words p udp = refl

-- the protocol is cut off
cut_head-Protocol : (s p : Str) → Lacks b'/' s → Protocol p → cut_head (s ++ p) b'/' ≡ s
cut_head-Protocol s p h every_protocol =
    ap (λ x. cut_head x b'/') (append-nil s) ∙ cut_head_of_Lacks s b'/' h
cut_head-Protocol s p h tcp = cut_head-append s (codes "tcp") b'/' h
cut_head-Protocol s p h udp = cut_head-append s (codes "udp") b'/' h

rule_covers_port_of :
    (to s : Str) (n : ℕ)
    → cut_head (trim_suffix (to_lower (trim_space to)) (codes " (v6)")) b'/' ≡ s
    → port_range_contains s (pos n) ≡ true
    → rule_covers_port to (pos n) ≡ true
unfolding rule_covers_port
rule_covers_port_of to s n e h = ground (arith, e, h)

profile : rule_covers_port (codes "OpenSSH") (pos 22) ≡ true
unfolding rule_covers_port trim_space to_lower trim_suffix has_suffix has_prefix contains text_eq
profile = refl

profile_v6 : rule_covers_port (codes "OpenSSH (v6)") (pos 22) ≡ true
unfolding rule_covers_port trim_space to_lower trim_suffix has_suffix has_prefix contains text_eq
profile_v6 = refl

append-full : (s t : Str) → s ≢ [] → s ++ t ≢ []
append-full [] t full e = full refl
append-full (c ∷ s) t full e = cc

-- Each of these texts is read as covering the port.
pub Covers-rule_covers_port : (to : Str) (n : ℕ) → Covers to n → rule_covers_port to (pos n) ≡ true
Covers-rule_covers_port to n (by_port s p h k) =
    let (words, lacks, full) = Spec-words s n h in
    rule_covers_port_of (s ++ p) s n
      (ap (λ x. cut_head x b'/')
          (plain_words (s ++ p) (all-append is_word s p words (Protocol-words p k)))
        ∙ cut_head-Protocol s p lacks k)
      (Spec-contains s n h)
Covers-rule_covers_port to n (by_port_v6 s p h k) =
    let (words, lacks, full) = Spec-words s n h in
    rule_covers_port_of ((s ++ p) ++ codes " (v6)") s n
      (ap (λ x. cut_head x b'/')
          (marked_words (s ++ p) (append-full s p full)
            (all-append is_word s p words (Protocol-words p k)))
        ∙ cut_head-Protocol s p lacks k)
      (Spec-contains s n h)
Covers-rule_covers_port to n by_profile = profile
Covers-rule_covers_port to n by_profile_v6 = profile_v6
