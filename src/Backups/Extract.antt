-- ===== src/Backups/Extract.antt =====
-- What unzip makes of the archive that zipDir writes.
use serveo_api_golang.Prelude.{
  ◌≡◌, ◌≢◌, refl, sym, ap, ◌∙◌, true, false, none, some, List, [], ◌∷◌, ◌++◌, arith, inl, inr,
  Option-cases, subst, All, Some, here, there, map,
}
use serveo_api_golang.Text.{Str}
use serveo_api_golang.FilePath.{is_abs, join_path, dir_path}
use serveo_api_golang.FilePath.Clean.{IsProper}
use serveo_api_golang.FileSystem.{
  Owner, Node, dir, file, Entries, Place, get, change, amend, mkdir_all, truncating, opened,
  with_content, place,
}
use serveo_api_golang.FileSystem.Separate.{files-Apart, content_eq, Apart-below}
use serveo_api_golang.FileSystem.Laws.{Apart, get-change, get-change-Apart}
use serveo_api_golang.FileSystem.Directories.{get-mkdir_all_file}
use serveo_api_golang.FileSystem.Kept.{change_succeeds, get-change-some, opened-file}
use serveo_api_golang.FileSystem.Same.{Same-amend}
use serveo_api_golang.FilePath.Joined.{names-join_path, join_path-begins}
use serveo_api_golang.Backups.Archive.{
  Setting, ZipFile, rel_path, copy_entry, extract_file, extract_entry, extract,
}
use serveo_api_golang.Backups.Walk.{Holds}

-- the file that zipDir writes for a place and its content
abbrev pub stored : Place × Str → ZipFile
stored f = record {
  name = rel_path f.0;
  is_dir = false;
  readable = true;
  bytes = f.1;
  broken = false;
}

-- A file with the content stands at the place.
abbrev pub Contains : Place → Str → Node → Type 0
Contains q s t = (o : Owner) × (get q (some t) ≡ some (file o s))

pub amend-Contains :
    (q : Place) (s s' : Str) (t : Node)
    → Contains q s t
    → Contains q s' (amend q (with_content s') t)
unfolding amend
amend-Contains q s s' t (o, e) =
    let (t', done) = change_succeeds q (with_content s') (some t) (file o s) (file o s') e refl in
    let same : amend q (with_content s') t ≡ t' = ground (arith, done) in
    (
      o,
      ap (λ u. get q (some u)) same
          ∙ get-change q (with_content s') (some t) t' done
          ∙ ap (with_content s') e,
    )

module _ (h : Setting) where
  open h use {me}

  copy_entry-stored :
      (f : Place × Str) (path : Str) (t : Node)
      → copy_entry h (stored f) path t ≡ (amend (place path) (with_content f.1) t, none)
  unfolding copy_entry
  copy_entry-stored f path t = refl

  -- What stands at the path after the extraction of a file, and what still stands elsewhere.
  extract_file-Contains :
      (f : Place × Str) (path : Str) (t t' : Node)
      → extract_file h (stored f) path t ≡ (t', none)
      → Contains (place path) f.1 t'
        × ((q : Place) (s : Str) → Apart q (place path) → Contains q s t → Contains q s t')
  unfolding extract_file
  extract_file-Contains f path t t' e =
      elim (Option-cases (mkdir_all me (place (dir_path path)) (some t))) [
        | inl failed ↦ absurd (ground arith)
        | inr (t1, made) ↦
            elim (Option-cases (change (place path) (opened me truncating) (some t1))) [
              | inl failed ↦ absurd (ground arith)
              | inr (t2, done) ↦
                  let t_is : amend (place path) (with_content f.1) t2 ≡ t' =
                    ground (arith, copy_entry-stored f path t2) in
                  let (n, at_path) =
                    get-change-some (place path) (opened me truncating) (some t1) t2 done in
                  let (o, n_is) = opened-file me truncating (get (place path) (some t1)) n (
                    sym (get-change (place path) (opened me truncating) (some t1) t2 done)
                    ∙ at_path) in
                  (
                    subst (Contains (place path) f.1) t_is
                        (amend-Contains (place path) [] f.1 t2 (o, at_path ∙ ap some n_is)),
                    λ q s a (owner, at). (
                      owner,
                      ap (λ u. get q (some u)) (sym t_is)
                          ∙ Same-amend q (place path) (with_content f.1) t2 a
                          ∙ get-change-Apart (place path) q (opened me truncating) (some t1) t2 a
                              done
                          ∙ get-mkdir_all_file me (place (dir_path path)) q (some t) t1 owner s made
                              at,
                    ),
                  )
            ]
      ]

  extract-nil : (dest : Str) (t t' : Node) → extract h dest [] t ≡ (t', none) → t ≡ t'
  unfolding extract
  extract-nil dest t t' e = ap (λ r. r.0) e

  extract-cons :
      (dest : Str) (f : ZipFile) (fs : List ZipFile) (t t' : Node)
      → extract h dest (f ∷ fs) t ≡ (t', none)
      → (t1 : Node) × (extract_entry h dest f t ≡ (t1, none)) × (extract h dest fs t1 ≡ (t', none))
  unfolding extract
  extract-cons dest f fs t t' e = elim (Option-cases (extract_entry h dest f t).1) [
    | inl fine ↦ ((extract_entry h dest f t).0, ground arith, ground arith)
    | inr (message, failed) ↦ absurd (ground arith)
  ]

  module _ (dest : Str) (rooted : is_abs dest ≡ true) (below : place dest ≢ []) where
    extract_entry-stored :
        (f : Place × Str) (t : Node)
        → f.0 ≢ []
        → All IsProper f.0
        → (extract_entry h dest (stored f) t
            ≡ extract_file h (stored f) (join_path dest (rel_path f.0)) t)
          × (place (join_path dest (rel_path f.0)) ≡ place dest ++ f.0)
    unfolding extract_entry rel_path
    extract_entry-stored ([], s) t full hs = absurd (full refl)
    extract_entry-stored (p ∷ ps, s) t full hs = (
      ground (arith, join_path-begins dest p ps rooted hs below),
      names-join_path dest p ps rooted hs,
    )

    -- An entry is written where it stood below the directory.
    extract_entry-Contains :
        (f : Place × Str) (t t' : Node)
        → f.0 ≢ []
        → All IsProper f.0
        → extract_entry h dest (stored f) t ≡ (t', none)
        → Contains (place dest ++ f.0) f.1 t'
          × ((q : Place) (s : Str)
              → Apart q f.0
              → Contains (place dest ++ q) s t
              → Contains (place dest ++ q) s t')
    extract_entry-Contains f t t' full hs e =
        let path = join_path dest (rel_path f.0) in
        let (same, at) = extract_entry-stored f t full hs in
        let (written, kept) = extract_file-Contains f path t t' (sym same ∙ e) in
        (
          subst (λ q. Contains q f.1 t') at written,
          λ q s a before.
              kept (place dest ++ q) s
                (subst (Apart (place dest ++ q)) (sym at) (Apart-below (place dest) a)) before,
        )

    module _ (o : Owner) (es : Entries) where
      Holds-nonempty : (f : Place × Str) → Holds (dir o es) f → f.0 ≢ []
      unfolding get
      Holds-nonempty ([], s) (hs, owner, e) k = ground arith
      Holds-nonempty (p ∷ ps, s) hf k = cc

      extract_entry-restores :
          (f g : Place × Str) (t t' : Node)
          → Holds (dir o es) f
          → Holds (dir o es) g
          → extract_entry h dest (stored f) t ≡ (t', none)
          → Contains (place dest ++ g.0) g.1 t
          → Contains (place dest ++ g.0) g.1 t'
      extract_entry-restores f g t t' (hp, o1, at1) (kp, o2, at2) e before =
          let (written, kept) =
            extract_entry-Contains f t t' (Holds-nonempty f (hp, o1, at1)) hp e in
          elim (files-Apart g.0 f.0 (some (dir o es)) o2 o1 g.1 f.1 at2 at1) [
            | inr apart ↦ kept g.0 g.1 apart before
            | inl equal ↦
                let content : f.1 ≡ g.1 =
                  content_eq o1 o2 f.1 g.1
                    (sym at1 ∙ ap (λ q. get q (some (dir o es))) (sym equal) ∙ at2) in
                subst (λ c. Contains (place dest ++ g.0) c t') content
                  (subst (λ q. Contains (place dest ++ q) f.1 t') (sym equal) written)
          ]

      extract-keeps :
          (fs : List (Place × Str)) (g : Place × Str) (t t' : Node)
          → All (Holds (dir o es)) fs
          → Holds (dir o es) g
          → extract h dest (map stored fs) t ≡ (t', none)
          → Contains (place dest ++ g.0) g.1 t
          → Contains (place dest ++ g.0) g.1 t'
      extract-keeps [] g t t' hs hg e before =
          subst (Contains (place dest ++ g.0) g.1) (extract-nil dest t t' e) before
      extract-keeps (f ∷ fs) g t t' (hf, hs) hg e before =
          let (t1, first, rest) = extract-cons dest (stored f) (map stored fs) t t' e in
          extract-keeps fs g t1 t' hs hg rest (extract_entry-restores f g t t1 hf hg first before)

      -- Every file of the archive stands below the directory with its content.
      pub extract-restores :
          (fs : List (Place × Str)) (g : Place × Str) (t t' : Node)
          → All (Holds (dir o es)) fs
          → Some (λ f. f ≡ g) fs
          → extract h dest (map stored fs) t ≡ (t', none)
          → Contains (place dest ++ g.0) g.1 t'
      extract-restores [] g t t' hs has e = elim has [ ]
      extract-restores (f ∷ fs) g t t' (hf, hs) (here f_g) e =
          let (t1, first, rest) = extract-cons dest (stored f) (map stored fs) t t' e in
          let (written, kept) = extract_entry-Contains f t t1 (Holds-nonempty f hf) hf.0 first in
          subst (λ c. Contains (place dest ++ c.0) c.1 t') f_g
            (extract-keeps fs f t1 t' hs hf rest written)
      extract-restores (f ∷ fs) g t t' (hf, hs) (there has) e =
          let (t1, first, rest) = extract-cons dest (stored f) (map stored fs) t t' e in
          extract-restores fs g t1 t' hs has rest
