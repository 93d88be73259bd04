-- ===== src/Docker/Paths.antt =====
-- internal/modules/v2/docker/service.go, isBindSourceAllowed.
pub mod Within
use serveo_api_golang.Prelude.{Bool, false, not, ◌||◌, ◌++◌, if◌then◌else◌}
use serveo_api_golang.Text.{Str, codes, text_eq, has_prefix}
use serveo_api_golang.FilePath.{is_abs, clean}

-- isBindSourceAllowed
unfoldable pub is_bind_source_allowed : Str → Str → Bool
unfolding is_abs clean
is_bind_source_allowed src allowed_root =
    let normalized = clean src in
    let root = clean allowed_root in
    if not (is_abs normalized)
    then false
    else text_eq normalized root || has_prefix normalized (root ++ codes "/")
