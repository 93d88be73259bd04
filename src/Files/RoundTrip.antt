-- ===== src/Files/RoundTrip.antt =====
-- What WriteFile writes, ReadFile reads.
use serveo_api_golang.Prelude.{
  ◌≡◌, refl, sym, ◌∙◌, ap, Option, none, some, List, [], ◌∷◌, ◌++◌, arith, inl, inr, Option-cases,
  append-nil, subst,
}
use serveo_api_golang.Text.{Str}
use serveo_api_golang.FileSystem.{
  amend, Owner, Node, dir, file, Entries, Place, get, change, Creation, truncating, opened,
  with_owner, with_content, owner_of, beneath,
}
use serveo_api_golang.FileSystem.Laws.{get-change}
use serveo_api_golang.FileSystem.Directories.{get-mkdir_all}
use serveo_api_golang.FileSystem.Kept.{
  opened-file, change-keeps_dir, change_succeeds, mkdir_all-dir, get-change-some,
}
use serveo_api_golang.Http.{send_json}
use serveo_api_golang.Files.Root.{
  Setting, Body, place_in, chown_file_to_match_root, copy_body, open_file, stat, root_place,
  with_safe_root, request_path, fill,
}
use serveo_api_golang.Files.Steps.{resolve_cases, resolve_again}
use serveo_api_golang.Files.{read_in, read_file, write_in, write_file}

opened-dir :
    (me : Owner) (mode : Creation) (o : Owner) (es : Entries)
    → opened me mode (some (dir o es)) ≡ none
unfolding opened
opened-dir me mode o es = refl

-- A file below the root directory, with the owner and the content.
pub record HasFile (root q : Place) (o : Owner) (s : Str) (t : Node) : Type 0 where
  pub first : Str
  pub later : Place
  pub below : q ≡ root ++ first ∷ later
  pub root_owner : Owner
  pub entries : Entries
  pub is_dir : get root (some t) ≡ some (dir root_owner entries)
  pub is_file : get q (some t) ≡ some (file o s)

amend-HasFile :
    (root q : Place) (o o' : Owner) (s s' : Str) (g : Option Node → Option Node) (t : Node)
    → g (some (file o s)) ≡ some (file o' s')
    → HasFile root q o s t
    → HasFile root q o' s' (amend q g t)
unfolding amend
amend-HasFile root q o o' s s' g t e h =
    let (t', done) = change_succeeds q g (some t) (file o s) (file o' s') h.is_file e in
    let same : amend q g t ≡ t' = ground (arith, done) in
    let (es, d) =
      change-keeps_dir root h.later h.first g (some t) t' h.root_owner h.entries h.is_dir
        (ap (λ r. change r g (some t)) (sym h.below) ∙ done) in
    record {
      first = h.first;
      later = h.later;
      below = h.below;
      root_owner = h.root_owner;
      entries = es;
      is_dir = ap (λ u. get root (some u)) same ∙ d;
      is_file =
          ap (λ u. get q (some u)) same ∙ get-change q g (some t) t' done ∙ ap g h.is_file ∙ e;
    }

opened-HasFile :
    (me o : Owner) (mode : Creation) (root q : Place) (names : List Str) (es : Entries)
    (t t1 : Node)
    → get root (some t) ≡ some (dir o es)
    → root ++ names ≡ q
    → change q (opened me mode) (some t) ≡ some t1
    → (o' : Owner) × HasFile root q o' [] t1
opened-HasFile me o mode root q [] es t t1 d at e =
    let q_is : root ≡ q = sym (append-nil root) ∙ at in
    let (n, there) = get-change-some q (opened me mode) (some t) t1 e in
    let nothing : get q (some t1) ≡ none =
      get-change q (opened me mode) (some t) t1 e
      ∙ ap (opened me mode) (ap (λ r. get r (some t)) (sym q_is) ∙ d)
      ∙ opened-dir me mode o es in
    absurd (ground arith)
opened-HasFile me o mode root q (x ∷ xs) es t t1 d at e =
    let (n, there) = get-change-some q (opened me mode) (some t) t1 e in
    let (o', n_is) =
      opened-file me mode (get q (some t)) n
        (sym (get-change q (opened me mode) (some t) t1 e) ∙ there) in
    let (es', d') =
      change-keeps_dir root xs x (opened me mode) (some t) t1 o es d
        (ap (λ r. change r (opened me mode) (some t)) at ∙ e) in
    (
      o',
      record {
        first = x;
        later = xs;
        below = sym at;
        root_owner = o;
        entries = es';
        is_dir = d';
        is_file = there ∙ ap some n_is;
      },
    )

open_file-HasFile :
    (me o : Owner) (mode : Creation) (root q : Place) (p : Str) (es : Entries) (t t1 : Node)
    → get root (some t) ≡ some (dir o es)
    → open_file me mode root p t ≡ some (q, t1)
    → (place_in root p ≡ some q) × (o' : Owner) × HasFile root q o' [] t1
unfolding open_file place_in
open_file-HasFile me o mode root q p es t t1 d e = elim (Option-cases (beneath p)) [
  | inl outside ↦ absurd (ground arith)
  | inr (names, at) ↦ elim (Option-cases (change (root ++ names) (opened me mode) (some t))) [
    | inl failed ↦ absurd (ground arith)
    | inr (t2, done) ↦
        let q_is : root ++ names ≡ q = ground arith in
        let t_is : t2 ≡ t1 = ground arith in
        let (o', h) =
          opened-HasFile me o mode root q names es t t1 d q_is
            (ap (λ r. change r (opened me mode) (some t)) (sym q_is) ∙ done ∙ ap some t_is) in
        (ground arith, o', h)
  ]
]

chown-amend :
    (root q : Place) (o : Owner) (t : Node)
    → owner_of (get root (some t)) ≡ some o
    → chown_file_to_match_root q root t ≡ amend q (with_owner o) t
unfolding chown_file_to_match_root
chown-amend root q o t known = ground (arith, known)

fill-HasFile :
    (root q : Place) (o : Owner) (body : Body) (t : Node)
    → HasFile root q o [] t
    → (o' : Owner) × HasFile root q o' body.bytes (fill q root body t)
unfolding fill copy_body
fill-HasFile root q o body t h =
    let owned = amend-HasFile root q o h.root_owner [] [] (with_owner h.root_owner) t refl h in
    let filled =
      amend-HasFile root q h.root_owner h.root_owner [] body.bytes (with_content body.bytes)
        (amend q (with_owner h.root_owner) t) refl owned in
    let known : owner_of (get root (some t)) ≡ some h.root_owner = ap owner_of h.is_dir in
    (
      h.root_owner,
      subst (λ u. HasFile root q h.root_owner body.bytes (amend q (with_content body.bytes) u))
          (sym (chown-amend root q h.root_owner t known)) filled,
    )

module _ (h : Setting) where
  open h use {me, mount_root, docker, os_error}

  write_in-HasFile :
      (body : Body) (root : Place) (p answer : Str) (o : Owner) (es : Entries) (t t' : Node)
      → get root (some t) ≡ some (dir o es)
      → write_in h body root p t ≡ (t', send_json 200 answer)
      → (q : Place) × (o' : Owner) × (place_in root p ≡ some q) × HasFile root q o' body.bytes t'
  unfolding write_in
  write_in-HasFile body root p answer o es t t' d e =
      elim (Option-cases (open_file me truncating root p t)) [
        | inl failed ↦ absurd (ground arith)
        | inr ((q, t1), done) ↦
            let (at, o1, there) = open_file-HasFile me o truncating root q p es t t1 d done in
            let (o2, filled) = fill-HasFile root q o1 body t1 there in
            let t_is : fill q root body t1 ≡ t' = ground arith in
            (q, o2, at, subst (λ u. HasFile root q o2 body.bytes u) t_is filled)
      ]

  read_in-HasFile :
      (root q : Place) (p : Str) (o : Owner) (s : Str) (t : Node)
      → place_in root p ≡ some q
      → get q (some t) ≡ some (file o s)
      → read_in h root p t ≡ (t, send_json 200 s)
  unfolding stat
  read_in-HasFile root q p o s t at there = ground arith

  -- After a WriteFile that answers 200, the ReadFile of the same server and path answers 200 with
  -- the bytes of the body that was written, and leaves the tree as it is.
  pub write_file-read_file :
      (body : Body) (server query answer : Str) (t t' : Node)
      → write_file h body server query t ≡ (t', send_json 200 answer)
      → read_file h server query t' ≡ (t', send_json 200 body.bytes)
  unfolding write_file read_file with_safe_root
  write_file-read_file body server query answer t t' e = elim (resolve_cases h server query t) [
    | inl (code, message, refused) ↦ absurd (ground arith)
    | inr (t1, made, goes_on) ↦
        let root = root_place mount_root server in
        let (o, es, d) = get-mkdir_all me root (some t) t1 made in
        let (q, o', at, f) =
          write_in-HasFile body root (request_path query) answer o es t1 t' d (ground arith) in
        let again =
          resolve_again h server query t t1 t' root (request_path query) goes_on
            (mkdir_all-dir me root (some t') f.root_owner f.entries f.is_dir) in
        ground
          (arith, again, read_in-HasFile root q (request_path query) o' body.bytes t' at f.is_file)
  ]
