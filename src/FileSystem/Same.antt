-- ===== src/FileSystem/Same.antt =====
-- A place that keeps what stands there.
use serveo_api_golang.Prelude.{◌≡◌, Option, some, arith, inl, inr, Option-cases}
use serveo_api_golang.FileSystem.{Node, Place, get, change, amend}
use serveo_api_golang.FileSystem.Laws.{Apart, get-change-Apart}

-- The same stands at the place in both trees.
abbrev pub Same : Place → Node → Node → Type 0
Same q t t' = get q (some t') ≡ get q (some t)

pub Same-amend :
    (q p : Place) (g : Option Node → Option Node) (t : Node) → Apart q p → Same q t (amend p g t)
unfolding amend
Same-amend q p g t a = elim (Option-cases (change p g (some t))) [
  | inl failed ↦ ground arith
  | inr (t', e) ↦ ground (arith, get-change-Apart p q g (some t) t' a e)
]
