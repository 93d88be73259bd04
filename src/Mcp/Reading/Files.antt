-- ===== src/Mcp/Reading/Files.antt =====
-- The tool file_read against the handler ReadFile of the file manager.
use serveo_api_golang.Prelude.{
  ◌≡◌, refl, sym, ap, ◌∙◌, Option, none, some, [], ◌∷◌, arith, Option-cases, Bool-cases, inl, inr,
}
use serveo_api_golang.Text.{Str, codes, split, join, has_prefix, text_eq}
use serveo_api_golang.Http.{Context, send_json}
use serveo_api_golang.FilePath.{clean, or_dot, is_abs, walk, enter}
use serveo_api_golang.FileSystem.{Owner, Node, dir, file, Entries, Place, get}
use serveo_api_golang.FileSystem.Kept.{mkdir_all-dir}
use serveo_api_golang.Files.Root.{
  Setting, is_valid_server, root_place, strip_slashes, stat, request_path, resolve_safe_root,
  with_safe_root,
}
use serveo_api_golang.Files.{read_file}
use serveo_api_golang.Mcp.{tool_text, permission_error}
use serveo_api_golang.Mcp.Reading.{normalized, opened_file, opened_root, read_below, file_read}

clean_empty : clean [] ≡ codes "."
unfolding clean is_abs has_prefix walk split enter text_eq join
clean_empty = refl

clean_dot : clean (codes ".") ≡ codes "."
unfolding clean is_abs has_prefix walk split enter text_eq join
clean_dot = refl

normalized-request_path : (s : Str) → normalized s ≡ request_path s
unfolding normalized request_path
normalized-request_path [] = ap (λ u. or_dot (strip_slashes u)) (clean_empty ∙ sym clean_dot)
normalized-request_path (c ∷ s) = refl

opened_file-text :
    (m : Option Node) (s : Str) → opened_file m ≡ tool_text s → (o : Owner) × (m ≡ some (file o s))
opened_file-text none s e = absurd (ground arith)
opened_file-text (some (dir o es)) s e = absurd (ground arith)
opened_file-text (some (file o c)) s e = (o, ground arith)

opened_root-text :
    (root : Place) (path s : Str) (m : Option Node) (t : Node)
    → opened_root root path m t ≡ tool_text s
    → (o : Owner) × (es : Entries) × (m ≡ some (dir o es))
      × (opened_file (stat root path t) ≡ tool_text s)
opened_root-text root path s none t e = absurd (ground arith)
opened_root-text root path s (some (file o c)) t e = absurd (ground arith)
opened_root-text root path s (some (dir o es)) t e = (o, es, refl, e)

module _ (h : Setting) where
  open h use {me, mount_root, docker}

  read_below-read_file :
      (name path s : Str) (t : Node)
      → read_below mount_root docker name path t ≡ tool_text s
      → read_file h name path t ≡ (t, send_json 200 s)
  unfolding read_below read_file with_safe_root resolve_safe_root
  read_below-read_file name path s t e = elim (Bool-cases (is_valid_server name)) [
    | inr bad ↦ absurd (ground arith)
    | inl good ↦ elim (Option-cases docker) [
      | inl missing ↦ absurd (ground arith)
      | inr (has_container, there) ↦ elim (Bool-cases (has_container name)) [
        | inr absent ↦ absurd (ground arith)
        | inl present ↦
            let root = root_place mount_root name in
            let (o, es, is_dir, read) =
              opened_root-text root (normalized path) s (get root (some t)) t (ground arith) in
            let (owner, found) = opened_file-text (stat root (normalized path) t) s read in
            ground (
              arith,
              mkdir_all-dir me root (some t) o es is_dir,
              ap (λ p. stat root p t) (sym (normalized-request_path path)) ∙ found,
            )
      ]
    ]
  ]

  -- The tool file_read refines the handler ReadFile: a text that the tool gives of a container's
  -- file is what ReadFile answers, with 200, to the same name and path, in a tree that stays as it
  -- is; and it is given only to callers whose permissions grant files.read.
  pub file_read-read_file :
      (ctx : Context) (args : Str → Str) (s : Str) (t : Node)
      → file_read mount_root docker ctx (some args) t ≡ tool_text s
      → (permission_error ctx (codes "files.read") ≡ none)
        × (read_file h (args (codes "container_name")) (args (codes "file_path")) t
            ≡ (t, send_json 200 s))
  unfolding file_read
  file_read-read_file ctx args s t e =
      elim (Option-cases (permission_error ctx (codes "files.read"))) [
        | inr (message, refused) ↦ absurd (ground arith)
        | inl granted ↦ (
          granted,
          read_below-read_file (args (codes "container_name")) (args (codes "file_path")) s t
              (ground arith),
        )
      ]
