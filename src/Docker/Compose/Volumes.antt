-- ===== src/Docker/Compose/Volumes.antt =====
-- Which volumes DeployStack lets through.
use serveo_api_golang.Prelude.{
  append_assoc, ℕ, ◌≡◌, ◌≢◌, ◌⊎◌, inl, inr, refl, true, false, none, some, [], ◌∷◌, ◌++◌, arith,
  Bool-cases,
}
use serveo_api_golang.Text.{
  Str, codes, text_eq, text_eq_iff, has_prefix, contains_any, cut_head-append, cut_head_of_Lacks,
  Lacks,
}
use serveo_api_golang.FilePath.{is_abs}
use serveo_api_golang.Docker.Paths.Within.{IsWithin, is_bind_source_allowed-IsWithin}
use serveo_api_golang.Docker.Compose.{
  Yaml, string, mapping, Entries, lookup, volume_text, validate_source, validate_volume,
}

-- The source is a name and no path, or an absolute path that leads into the directory.
abbrev pub IsSafeSource : Str → Str → Type 0
IsSafeSource allowed_root src =
    ((contains_any src (codes "/\\") ≡ false) × (has_prefix src (codes ".") ≡ false))
    ⊎ ((is_abs src ≡ true) × IsWithin src allowed_root)

-- The part before the first ":" of the text of a volume, or of the entry "source" of its long
-- form, where that text is not empty.
pub data Source : Yaml → Str → Type 0 where
  plain : {src : Str} → src ≢ [] → Lacks b':' src → Source (string src) src
  bound : {src : Str} (target : Str) → Lacks b':' src → Source (string (src ++ b':' ∷ target)) src
  long :
      {m : Entries} {src : Str}
      → lookup (codes "source") m ≡ some (string src)
      → Lacks b':' src
      → Source (mapping m) src
  long_cut :
      {m : Entries} {src : Str} (rest : Str)
      → lookup (codes "source") m ≡ some (string (src ++ b':' ∷ rest))
      → Lacks b':' src
      → Source (mapping m) src

validate_source-IsSafeSource :
    (src name root : Str)
    → is_abs root ≡ true
    → validate_source src name root ≡ none
    → IsSafeSource root src
unfolding validate_source
validate_source-IsSafeSource src name root hr h =
    elim (Bool-cases (contains_any src (codes "/\\"))) [
      | inl path ↦ inr (is_bind_source_allowed-IsWithin src root hr (ground arith))
      | inr no_path ↦ elim (Bool-cases (has_prefix src (codes "."))) [
        | inl dot ↦ absurd (ground arith)
        | inr no_dot ↦ inl (no_path, no_dot)
      ]
    ]

append-text_eq : (s t : Str) (c : ℕ) → text_eq (s ++ c ∷ t) [] ≡ false
unfolding text_eq
append-text_eq [] t c = refl
append-text_eq (d ∷ s) t c = refl

pub validate_volume-IsSafeSource :
    (vol : Yaml) (src name root : Str)
    → is_abs root ≡ true
    → Source vol src
    → validate_volume vol name root ≡ none
    → IsSafeSource root src
unfolding validate_volume volume_text
validate_volume-IsSafeSource vol src name root hr (plain nonempty h) ok =
    validate_source-IsSafeSource src name root hr
      (ground (arith, text_eq_iff src [], cut_head_of_Lacks src b':' h))
validate_volume-IsSafeSource vol src name root hr (bound target h) ok =
    validate_source-IsSafeSource src name root hr
      (ground (arith, append-text_eq src target b':', cut_head-append src target b':' h))
validate_volume-IsSafeSource vol src name root hr (long e h) ok =
    validate_source-IsSafeSource src name root hr (
      ground
        (arith, append-text_eq src (codes "...") b':', cut_head-append src (codes "...") b':' h))
validate_volume-IsSafeSource vol src name root hr (long_cut rest e h) ok =
    validate_source-IsSafeSource src name root hr (
      ground (
        arith,
        append_assoc src (b':' ∷ rest) (codes ":..."),
        append-text_eq src (rest ++ codes ":...") b':',
        cut_head-append src (rest ++ codes ":...") b':' h,
      ))

-- Two volumes in the long form, one with a source without ":", the other with that source, ":"
-- and more text behind it, get the same verdict: what stands behind the first ":" is not looked
-- at.
pub validate_volume_after_colon :
    (m m' : Entries) (src rest name allowed_root : Str)
    → Lacks b':' src
    → lookup (codes "source") m ≡ some (string (src ++ b':' ∷ rest))
    → lookup (codes "source") m' ≡ some (string src)
    → validate_volume (mapping m) name allowed_root ≡ validate_volume (mapping m') name allowed_root
unfolding validate_volume volume_text
validate_volume_after_colon m m' src rest name allowed_root h e e' = ground (
  arith,
  append_assoc src (b':' ∷ rest) (codes ":..."),
  append-text_eq src (rest ++ codes ":...") b':',
  append-text_eq src (codes "...") b':',
  cut_head-append src (rest ++ codes ":...") b':' h,
  cut_head-append src (codes "...") b':' h,
)
