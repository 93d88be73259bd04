-- ===== src/Rbac/Lists.antt =====
-- Permission lists that are put together from parts, and what the catalog cannot grant.
use serveo_api_golang.Prelude.{
  ◌≡◌, refl, Bool, false, ◌||◌, List, [], ◌∷◌, ◌++◌, arith, any, All, Some, here, there,
}
use serveo_api_golang.Text.{
  Str, codes, split, join, split-concat, trim_space, text_eq, has_prefix, has_suffix, trim_suffix,
}
use serveo_api_golang.Rbac.{part_grants, has_permission}
use serveo_api_golang.Rbac.Catalog.{catalog, keys, IsCatalogued}

any-append {ℓ} :
    {A : Type ℓ} (f : A → Bool) (xs ys : List A) → any f (xs ++ ys) ≡ (any f xs || any f ys)
any-append f [] ys = refl
any-append f (x ∷ xs) ys = ground (arith, any-append f xs ys)

-- A list of permissions that two lists make, with a comma between them, grants what the one or
-- the other grants, and nothing else.
pub has_permission-concat :
    (perms others required_perm : Str)
    → has_permission (perms ++ b',' ∷ others) required_perm
      ≡ (has_permission perms required_perm || has_permission others required_perm)
unfolding has_permission
has_permission-concat perms others required_perm =
    rw (split-concat perms others b',') (any-append _ (split perms b',') (split others b','))

join-refused :
    (k : Str) (ks : List Str) (required_perm : Str)
    → has_permission k required_perm ≡ false
    → has_permission (join ks b',') required_perm ≡ false
    → has_permission (join (k ∷ ks) b',') required_perm ≡ false
unfolding join
join-refused k [] required_perm h rest = h
join-refused k (j ∷ ks) required_perm h rest =
    ground (arith, has_permission-concat k (join (j ∷ ks) b',') required_perm)

refused_of_Some :
    (f : Str → Bool) (k : Str) (xs : List Str)
    → any f xs ≡ false
    → Some (λ j. j ≡ k) xs
    → f k ≡ false
refused_of_Some f k [] h s = elim s [ ]
refused_of_Some f k (x ∷ xs) h (here e) = rw (← e) (ground arith)
refused_of_Some f k (x ∷ xs) h (there s) = refused_of_Some f k xs (ground arith) s

-- The scope that the MCP tools docker_list and docker_logs ask for.
abbrev pub docker_read : Str
docker_read = codes "docker.read"

catalog_table : any (λ k. has_permission k docker_read) (keys catalog) ≡ false
unfolding has_permission split trim_space part_grants text_eq has_suffix has_prefix trim_suffix
catalog_table = refl

empty_refused : has_permission [] docker_read ≡ false
unfolding has_permission split trim_space part_grants text_eq has_suffix has_prefix trim_suffix
empty_refused = refl

-- A user who holds any scopes of the catalog, all of them even, and no wildcard, is refused
-- "docker.read", the scope of the MCP tools that list containers and read their logs.
pub catalog-lacks-docker_read :
    (ks : List Str) → All IsCatalogued ks → has_permission (join ks b',') docker_read ≡ false
catalog-lacks-docker_read [] h = unfold join in empty_refused
catalog-lacks-docker_read (k ∷ ks) (h, hs) =
    join-refused k ks docker_read
      (refused_of_Some (λ j. has_permission j docker_read) k (keys catalog) catalog_table h)
      (catalog-lacks-docker_read ks hs)
