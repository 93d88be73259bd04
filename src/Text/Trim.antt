-- ===== src/Text/Trim.antt =====
-- strings.TrimSpace: it takes Unicode white space off both ends, read in UTF-8.
use serveo_api_golang.Text.Bytes.{Str}
use serveo_api_golang.Prelude.{
  ℕ, zero, suc, Bool, ◌&&◌, ◌||◌, [], ◌∷◌, reverse, reverse-reverse, ltb, true, arith, ◌≡◌, refl,
  ◌==◌, leb, if◌then◌else◌,
}

-- tab, line feed, vertical tab, form feed, carriage return and the space
unfoldable pub ascii_space : ℕ → Bool
ascii_space c = (leb 9 c && leb c 13) || c == 32

-- the last byte of U+2000 to U+200A, U+2028, U+2029 and U+202F, after 0xE2 0x80
general_space : ℕ → Bool
general_space c = (leb 0x80 c && leb c 0x8A) || c == 0xA8 || c == 0xA9 || c == 0xAF

-- U+1680, the spaces above, U+205F and U+3000
wide_space : ℕ → ℕ → ℕ → Bool
unfolding general_space
wide_space a b c =
    (a == 0xE1 && b == 0x9A && c == 0x80)
    || (a == 0xE2 && b == 0x80 && general_space c)
    || (a == 0xE2 && b == 0x81 && c == 0x9F)
    || (a == 0xE3 && b == 0x80 && c == 0x80)

-- U+0085 and U+00A0
latin_space : ℕ → ℕ → Bool
latin_space a b = a == 0xC2 && (b == 0x85 || b == 0xA0)

-- the bytes of the white space that the text starts with, 0 if it starts with none
space_width : Str → ℕ
unfolding ascii_space latin_space wide_space
space_width [] = 0
space_width (a ∷ []) = if ascii_space a then 1 else 0
space_width (a ∷ b ∷ []) = if ascii_space a then 1 else if latin_space a b then 2 else 0
space_width (a ∷ b ∷ c ∷ s) =
    if ascii_space a then 1 else if latin_space a b then 2 else if wide_space a b c then 3 else 0

-- the same of a text that is read from its end
space_width_back : Str → ℕ
unfolding ascii_space latin_space wide_space
space_width_back [] = 0
space_width_back (a ∷ []) = if ascii_space a then 1 else 0
space_width_back (a ∷ b ∷ []) = if ascii_space a then 1 else if latin_space b a then 2 else 0
space_width_back (a ∷ b ∷ c ∷ s) =
    if ascii_space a then 1 else if latin_space b a then 2 else if wide_space c b a then 3 else 0

-- Drops white space from the front; the number counts the bytes still to drop.
strip : (Str → ℕ) → ℕ → Str → Str
strip width n [] = []
strip width (suc n) (c ∷ s) = strip width n s
strip width zero (c ∷ s) = elim (width (c ∷ s)) [ zero ↦ c ∷ s | suc n ↦ strip width n s ]

unfoldable pub trim_space : Str → Str
unfolding strip space_width space_width_back
trim_space s = reverse (strip space_width_back 0 (reverse (strip space_width 0 s)))

-- A printable ASCII character that is no space.
unfoldable pub is_plain : ℕ → Bool
is_plain c = ltb 32 c && ltb c 128

abbrev pub starts_plain : Str → Bool
starts_plain [] = true
starts_plain (c ∷ s) = is_plain c

space_width_plain : (s : Str) → starts_plain s ≡ true → space_width s ≡ 0
unfolding space_width is_plain
space_width_plain [] h = refl
space_width_plain (a ∷ []) h = ground arith
space_width_plain (a ∷ b ∷ []) h = ground arith
space_width_plain (a ∷ b ∷ c ∷ s) h = ground arith

space_width_back_plain : (s : Str) → starts_plain s ≡ true → space_width_back s ≡ 0
unfolding space_width_back is_plain
space_width_back_plain [] h = refl
space_width_back_plain (a ∷ []) h = ground arith
space_width_back_plain (a ∷ b ∷ []) h = ground arith
space_width_back_plain (a ∷ b ∷ c ∷ s) h = ground arith

strip_plain : (width : Str → ℕ) (s : Str) → width s ≡ 0 → strip width 0 s ≡ s
unfolding strip
strip_plain width [] h = refl
strip_plain width (c ∷ s) h = ground arith

-- A text that starts and ends with printable characters has nothing to trim.
pub trim_space_plain :
    (s : Str) → starts_plain s ≡ true → starts_plain (reverse s) ≡ true → trim_space s ≡ s
unfolding trim_space
trim_space_plain s h k =
    rw
      (
        strip_plain space_width s (space_width_plain s h),
        strip_plain space_width_back (reverse s) (space_width_back_plain (reverse s) k),
      )
      (reverse-reverse s)
