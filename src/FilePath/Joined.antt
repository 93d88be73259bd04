-- ===== src/FilePath/Joined.antt =====
-- What filepath.Join, Base and Dir make of an absolute directory and clean relative paths.
use serveo_api_golang.Prelude.{
  ◌≡◌, ◌≢◌, refl, sym, ap, ◌∙◌, true, List, [], ◌∷◌, ◌++◌, append_assoc, All, subst,
}
use serveo_api_golang.Text.{Str, codes, has_prefix, has_prefix_append, join, split, text_eq}
use serveo_api_golang.FilePath.{
  base_name, drop_name, is_abs, clean, join_path, dir_path, walk, enter,
}
use serveo_api_golang.FilePath.Names.{IsName, join-nonempty, names, clean-abs}
use serveo_api_golang.FilePath.Clean.{
  names-concat, is_abs-cons, is_abs-append, join_path-text, names-concat_join, IsProper,
  names-IsProper, names-clean,
}
use serveo_api_golang.FilePath.Last.{base_name-append, dir_path-append}
use serveo_api_golang.FilePath.Inside.{snoc, All-after, above, join-snoc, is_abs-above}

All-IsName : (ps : List Str) → All IsProper ps → All IsName ps
All-IsName [] hs = tt
All-IsName (p ∷ ps) ((h, dot, dots), hs) = (h, All-IsName ps hs)

join-append :
    (d : Str) (ds : List Str) (p : Str) (ps : List Str)
    → join ((d ∷ ds) ++ p ∷ ps) b'/' ≡ join (d ∷ ds) b'/' ++ b'/' ∷ join (p ∷ ps) b'/'
unfolding join
join-append d [] p ps = refl
join-append d (e ∷ ds) p ps =
    ap (λ u. d ++ b'/' ∷ u) (join-append e ds p ps)
    ∙ sym (append_assoc d (b'/' ∷ join (e ∷ ds) b'/') (b'/' ∷ join (p ∷ ps) b'/'))

begins :
    (ds : List Str) (p : Str) (ps : List Str)
    → ds ≢ []
    → has_prefix (b'/' ∷ join (ds ++ p ∷ ps) b'/') (b'/' ∷ join ds b'/' ++ codes "/") ≡ true
begins [] p ps full = absurd (full refl)
begins (d ∷ ds) p ps full =
    ap (λ v. has_prefix (b'/' ∷ v) (b'/' ∷ join (d ∷ ds) b'/' ++ codes "/"))
      (join-append d ds p ps
        ∙ sym (append_assoc (join (d ∷ ds) b'/') (codes "/") (join (p ∷ ps) b'/')))
    ∙ has_prefix_append (b'/' ∷ join (d ∷ ds) b'/' ++ codes "/") (join (p ∷ ps) b'/')

module _ (dest p : Str) (ps : List Str) (h : is_abs dest ≡ true) (hs : All IsProper (p ∷ ps)) where
  abbrev whole : Str
  whole = dest ++ b'/' ∷ join (p ∷ ps) b'/'

  rooted : is_abs whole ≡ true
  rooted = is_abs-append dest (b'/' ∷ join (p ∷ ps) b'/') h

  joined : join_path dest (join (p ∷ ps) b'/') ≡ clean whole
  joined = join_path-text dest (join (p ∷ ps) b'/') h (join-nonempty p ps (All-IsName (p ∷ ps) hs))

  -- The names of a clean relative path lead from the directory on.
  pub names-join_path : names true (join_path dest (join (p ∷ ps) b'/')) ≡ names true dest ++ p ∷ ps
  names-join_path =
      ap (names true) joined ∙ names-clean whole rooted ∙ names-concat_join dest p ps hs

  -- Below a directory other than the root, the path begins with the directory's and "/".
  pub join_path-begins :
      names true dest ≢ []
      → has_prefix (join_path dest (join (p ∷ ps) b'/')) (clean dest ++ codes "/") ≡ true
  join_path-begins below =
      ap (λ v. has_prefix v (clean dest ++ codes "/")) (joined ∙ clean-abs whole rooted)
      ∙ ap (λ v. has_prefix (b'/' ∷ join v b'/') (clean dest ++ codes "/"))
          (names-concat_join dest p ps hs)
      ∙ ap (λ v. has_prefix (b'/' ∷ join (names true dest ++ p ∷ ps) b'/') (v ++ codes "/"))
          (clean-abs dest h)
      ∙ begins (names true dest) p ps below

join-one : (p : Str) → join (p ∷ []) b'/' ≡ p
unfolding join
join-one p = refl

module _ (dest p : Str) (h : is_abs dest ≡ true) (hp : IsProper p) where
  -- A name below a directory.
  pub names-join_path_name : names true (join_path dest p) ≡ names true dest ++ p ∷ []
  names-join_path_name =
      ap (λ v. names true (join_path dest v)) (sym (join-one p))
      ∙ names-join_path dest p [] h (hp, tt)

  pub base_name-join_path : base_name (join_path dest p) ≡ p
  base_name-join_path =
      let u = dest ++ b'/' ∷ p in
      ap base_name (
        join_path-text dest p h hp.0.0
        ∙ clean-abs u (is_abs-append dest (b'/' ∷ p) h)
        ∙ ap (λ v. b'/' ∷ join v b'/') (names-concat dest p hp)
        ∙ join-snoc (names true dest) p)
      ∙ base_name-append (above (names true dest)) p hp.0

clean_root : is_abs (dir_path (b'/' ∷ join [] b'/')) ≡ true
unfolding dir_path drop_name clean walk enter split join text_eq is_abs has_prefix
clean_root = refl

is_abs-clean_abs : (u : Str) → is_abs u ≡ true → is_abs (clean u) ≡ true
is_abs-clean_abs u h = ap is_abs (clean-abs u h) ∙ is_abs-cons (join (names true u) b'/')

dir_path-abs : (ns : List Str) → All IsProper ns → is_abs (dir_path (b'/' ∷ join ns b'/')) ≡ true
dir_path-abs [] hs = clean_root
dir_path-abs (n ∷ ns) hs =
    let (ys, y, last) = snoc n ns in
    let ((hy, dot, dots), rest) = All-after ys (y ∷ []) (subst (All IsProper) last hs) in
    ap (λ v. is_abs (dir_path (b'/' ∷ join v b'/'))) last
    ∙ ap (λ v. is_abs (dir_path v)) (join-snoc ys y)
    ∙ ap is_abs (dir_path-append (above ys) y hy.1)
    ∙ is_abs-clean_abs (above ys ++ b'/' ∷ []) (is_abs-above ys)

-- filepath.Dir of a clean absolute path is absolute.
pub is_abs-dir_path : (s : Str) → is_abs s ≡ true → is_abs (dir_path (clean s)) ≡ true
is_abs-dir_path s h =
    ap (λ v. is_abs (dir_path v)) (clean-abs s h) ∙ dir_path-abs (names true s) (names-IsProper s)
