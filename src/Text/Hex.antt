-- ===== src/Text/Hex.antt =====
-- encoding/hex: EncodeToString.
use serveo_api_golang.Prelude.{
  ℕ, ◌+◌, ◌*◌, ◌/◌, ◌%◌, ◌≡◌, ◌≢◌, refl, false, [], ◌∷◌, List, arith, length, if◌then◌else◌, ltb,
  ◌∙◌, ◌-◌,
}
use serveo_api_golang.Text.Bytes.{Str, codes}
use serveo_api_golang.Text.Affix.{contains, has_prefix}

unfoldable pub hex_digit : ℕ → ℕ
hex_digit n = if ltb n 10 then b'0' + n else b'a' + (n - 10)

unfoldable pub hex_encode : List ℕ → Str
unfolding hex_digit
hex_encode [] = []
hex_encode (b ∷ bs) = hex_digit (b / 16) ∷ hex_digit (b % 16) ∷ hex_encode bs

pub length-hex_encode : (bs : List ℕ) → length (hex_encode bs) ≡ 2 * length bs
unfolding hex_encode
length-hex_encode [] = refl
length-hex_encode (b ∷ bs) = omega (arith, length-hex_encode bs)

hex_digit-ne-dot : (n : ℕ) → hex_digit n ≢ b'.'
unfolding hex_digit
hex_digit-ne-dot n = ground arith

contains-cons_dot :
    (c : ℕ) (s : Str) → c ≢ b'.' → contains (c ∷ s) (codes ".") ≡ contains s (codes ".")
unfolding contains has_prefix
contains-cons_dot c s h = ground arith

-- A hexadecimal text has no dot.
pub contains-hex_encode : (bs : List ℕ) → contains (hex_encode bs) (codes ".") ≡ false
unfolding hex_encode
contains-hex_encode [] = unfold contains has_prefix in refl
contains-hex_encode (b ∷ bs) =
    contains-cons_dot (hex_digit (b / 16)) _ (hex_digit-ne-dot (b / 16))
    ∙ contains-cons_dot (hex_digit (b % 16)) _ (hex_digit-ne-dot (b % 16))
    ∙ contains-hex_encode bs
