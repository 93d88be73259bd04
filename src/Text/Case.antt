-- ===== src/Text/Case.antt =====
-- strings.ToLower and EqualFold, as far as a comparison with an ASCII text can tell.
-- Of the letters outside ASCII only U+0130 and the Kelvin sign have a lower case in ASCII, i and k;
-- all others stay outside ASCII, and are kept as they are.
use serveo_api_golang.Text.Bytes.{Str, text_eq}
use serveo_api_golang.Prelude.{ℕ, ◌+◌, ◌-◌, Bool, ◌&&◌, [], ◌∷◌, map, ◌==◌, leb, if◌then◌else◌}

unfoldable pub lower_ascii : ℕ → ℕ
lower_ascii c = if leb b'A' c && leb c b'Z' then c + 32 else c

unfoldable pub upper_ascii : ℕ → ℕ
upper_ascii c = if leb b'a' c && leb c b'z' then c - 32 else c

-- one-byte, two-byte and three-byte letters with a lower case in ASCII
abbrev lower2 : ℕ → ℕ → Str → Str → Str
lower2 a b here rest = if a == 0xC4 && b == 0xB0 then b'i' ∷ rest else here

abbrev lower3 : ℕ → ℕ → ℕ → Str → Str → Str
lower3 a b c here rest = if a == 0xE2 && b == 0x84 && c == 0xAA then b'k' ∷ rest else here

unfoldable pub to_lower : Str → Str
unfolding lower_ascii
to_lower [] = []
to_lower (a ∷ []) = lower_ascii a ∷ []
to_lower (a ∷ b ∷ []) = lower2 a b (lower_ascii a ∷ to_lower (b ∷ [])) []
to_lower (a ∷ b ∷ c ∷ s) =
    let next = to_lower (b ∷ c ∷ s) in
    let after2 = to_lower (c ∷ s) in
    let after3 = to_lower s in lower3 a b c (lower2 a b (lower_ascii a ∷ next) after2) after3

-- strings.ToUpper before a test for an ASCII prefix without I and S, which no other letter maps to
unfoldable pub to_upper : Str → Str
unfolding upper_ascii
to_upper s = map upper_ascii s

-- strings.EqualFold with an ASCII text that has no k and no s
unfoldable pub equal_fold : Str → Str → Bool
unfolding lower_ascii text_eq
equal_fold s t = text_eq (map lower_ascii s) (map lower_ascii t)
