-- ===== src/Backups/Listing.antt =====
-- What ListBackups shows.
use serveo_api_golang.Prelude.{
  ◌≡◌, refl, sym, ap, ◌∙◌, true, false, some, List, [], ◌∷◌, ◌++◌, ◌&&◌, arith, inl, inr,
  Bool-cases, Some, here, there, length, append_assoc, subst,
}
use serveo_api_golang.Text.{
  Str, codes, text_eq, text_eq_iff, has_prefix, has_prefix_append, has_suffix, has_suffix_append,
}
use serveo_api_golang.FileSystem.{
  Owner, Node, dir, file, Entries, no_entries, entry, find, get, place,
}
use serveo_api_golang.Http.{send_json}
use serveo_api_golang.Backups.Archive.{Setting, by_name}
use serveo_api_golang.Backups.Sorted.{Some-by_name}
use serveo_api_golang.Backups.{
  BackupInfo, is_bad_name, backup_filename, listed, get_backups_dir, backup_infos, list_backups,
}

Some-listed :
    (name : Str) (n : Node) (es : Entries)
    → find name es ≡ some n
    → Some (λ b. b ≡ (name, n)) (listed es)
unfolding find
Some-listed name n no_entries e = absurd (ground arith)
Some-listed name n (entry x m es) e = elim (Bool-cases (text_eq x name)) [
  | inl same ↦
      let x_is : x ≡ name = (text_eq_iff x name).0 same in
      let m_is : m ≡ n = ground arith in here (ap (λ z. (z, m)) x_is ∙ ap (λ z. (name, z)) m_is)
  | inr other ↦ there (Some-listed name n es (ground arith))
]

begins_with :
    (server other timestamp : Str)
    → has_prefix (backup_filename (server ++ codes "_" ++ other) timestamp) (server ++ codes "_")
      ≡ true
begins_with server other timestamp =
    ap (λ u. has_prefix u (server ++ codes "_"))
      (append_assoc (server ++ codes "_") other (codes "_" ++ (timestamp ++ codes ".zip")))
    ∙ has_prefix_append (server ++ codes "_") (other ++ (codes "_" ++ (timestamp ++ codes ".zip")))

is_zip :
    (server timestamp : Str) → has_suffix (backup_filename server timestamp) (codes ".zip") ≡ true
is_zip server timestamp =
    ap (λ u. has_suffix u (codes ".zip"))
      (sym (append_assoc server (codes "_" ++ timestamp) (codes ".zip")))
    ∙ has_suffix_append (server ++ (codes "_" ++ timestamp)) (codes ".zip")

module _ (h : Setting) where
  Some-backup_infos :
      (prefix name : Str) (o : Owner) (s : Str) (bs : List (Str × Node))
      → has_prefix name prefix ≡ true
      → has_suffix name (codes ".zip") ≡ true
      → Some (λ b. b ≡ (name, file o s)) bs
      → Some (λ i. i ≡ record { filename = name; size = length s }) (backup_infos h prefix bs)
  unfolding backup_infos
  Some-backup_infos prefix name o s [] begins ends has = elim has [ ]
  Some-backup_infos prefix name o s (b ∷ bs) begins ends (here e) =
      subst
        (λ c.
          Some (λ i. i ≡ record { filename = name; size = length s })
            (backup_infos h prefix (c ∷ bs)))
        (sym e) (rw (begins, ends) (here refl))
  Some-backup_infos prefix name o s ((x, dir o' es) ∷ bs) begins ends (there has) =
      Some-backup_infos prefix name o s bs begins ends has
  Some-backup_infos prefix name o s ((x, file o' c) ∷ bs) begins ends (there has) =
      elim (Bool-cases (has_prefix x prefix && has_suffix x (codes ".zip"))) [
        | inl shown ↦ rw shown (there (Some-backup_infos prefix name o s bs begins ends has))
        | inr hidden ↦ rw hidden (Some-backup_infos prefix name o s bs begins ends has)
      ]

  -- ListBackups of a server also shows the archives of every other server whose name begins with
  -- the server's name and "_".
  pub list_backups-others :
      (server other timestamp : Str) (o o' : Owner) (es : Entries) (s : Str) (t : Node)
      → is_bad_name server ≡ false
      → get (place (get_backups_dir h)) (some t) ≡ some (dir o es)
      → find (backup_filename (server ++ codes "_" ++ other) timestamp) es ≡ some (file o' s)
      → (infos : List BackupInfo) × (list_backups h server t ≡ send_json 200 infos)
        × Some
            (λ i. i ≡ record {
              filename = backup_filename (server ++ codes "_" ++ other) timestamp;
              size = length s;
            })
            infos
  unfolding list_backups
  list_backups-others server other timestamp o o' es s t good at found =
      let name = backup_filename (server ++ codes "_" ++ other) timestamp in
      (
        backup_infos h (server ++ codes "_") (by_name (listed es)),
        ground (arith, good, at),
        Some-backup_infos (server ++ codes "_") name o' s (by_name (listed es))
            (begins_with server other timestamp) (is_zip (server ++ codes "_" ++ other) timestamp)
            (Some-by_name (λ b. b ≡ (name, file o' s)) (listed es)
              (Some-listed name (file o' s) es found)),
      )
