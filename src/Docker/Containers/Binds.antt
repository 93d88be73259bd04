-- ===== src/Docker/Containers/Binds.antt =====
-- Which volumes CreateContainer lets through.
use serveo_api_golang.Prelude.{
  ◌≡◌, ◌⊎◌, inl, inr, true, false, none, List, [], ◌∷◌, arith, Bool-cases, Option-cases, All,
}
use serveo_api_golang.Text.{Str, codes, contains_any, cut_head}
use serveo_api_golang.FilePath.{is_abs}
use serveo_api_golang.Docker.Paths.{is_bind_source_allowed}
use serveo_api_golang.Docker.Paths.Within.{IsWithin, is_bind_source_allowed-IsWithin}
use serveo_api_golang.Docker.Engine.{Client}
use serveo_api_golang.Docker.Containers.{
  CreateContainerRequest, failed, check_volumes, create_container,
}

-- The part of the volume before ":" has neither "/" nor "\", or it is an absolute path that leads
-- into the directory.
abbrev pub IsSafeBind : Str → Str → Type 0
IsSafeBind allowed_root v =
    (contains_any (cut_head v b':') (codes "/\\") ≡ false)
    ⊎ ((is_abs (cut_head v b':') ≡ true) × IsWithin (cut_head v b':') allowed_root)

check_volumes-IsSafeBind :
    (root : Str) (volumes : List Str)
    → is_abs root ≡ true
    → check_volumes root volumes ≡ none
    → All (IsSafeBind root) volumes
unfolding check_volumes
check_volumes-IsSafeBind root [] hr h = tt
check_volumes-IsSafeBind root (v ∷ rest) hr h =
    elim (Bool-cases (contains_any (cut_head v b':') (codes "/\\"))) [
      | inr name ↦ (inl name, check_volumes-IsSafeBind root rest hr (ground arith))
      | inl path ↦ elim (Bool-cases (is_bind_source_allowed (cut_head v b':') root)) [
        | inl good ↦ (
          inr (is_bind_source_allowed-IsWithin (cut_head v b':') root hr good),
          check_volumes-IsSafeBind root rest hr (ground arith),
        )
        | inr bad ↦ absurd (ground arith)
      ]
    ]

module _ {W : Type 0} (cli : Client W) where
  -- CreateContainer, the allowed directory being an absolute path, answers with an error and asks
  -- nothing of the engine, or every volume of the request is a name or a path into the directory.
  pub create_container-IsSafeBind :
      (allowed_root : Str) (req : CreateContainerRequest) (w : W)
      → is_abs allowed_root ≡ true
      → ((e : Str) × (create_container cli allowed_root req w ≡ (w, failed e)))
        ⊎ All (IsSafeBind allowed_root) req.volumes
  unfolding create_container
  create_container-IsSafeBind allowed_root req w hr =
      elim (Option-cases (check_volumes allowed_root req.volumes)) [
        | inl fine ↦ inr (check_volumes-IsSafeBind allowed_root req.volumes hr fine)
        | inr (e, bad) ↦ inl (e, ground arith)
      ]
