-- ===== src/Rbac/Grants.antt =====
-- What one scope grants, as a relation, and that HasPermission decides it.
use serveo_api_golang.Prelude.{
  ◌≡◌, ◌∙◌, ap, ◌↔◌, true, List, [], ◌∷◌, ◌++◌, arith, any, Some, here, there, Bool-cases, inl, inr,
}
use serveo_api_golang.Text.{
  Str, codes, text_eq, text_eq_iff, split, trim_space, has_suffix, has_suffix_append,
  has_suffix_split, trim_suffix, trim_suffix-append, has_prefix, has_prefix_append,
  has_prefix_split,
}
use serveo_api_golang.Rbac.{part_grants, has_permission}

-- "*" grants everything, a scope grants itself, and "a.b.*" what begins with "a.b.".
pub data Grants (p required : Str) : Type 0 where
  root : p ≡ codes "*" → Grants p required
  exact : p ≡ required → Grants p required
  wildcard :
      (stem rest : Str)
      → p ≡ stem ++ codes ".*"
      → required ≡ (stem ++ codes ".") ++ rest
      → Grants p required

wildcard_of :
    (p required : Str)
    → has_suffix p (codes ".*") ≡ true
    → has_prefix required (trim_suffix p (codes ".*") ++ codes ".") ≡ true
    → Grants p required
wildcard_of p required h k =
    let (stem, e) = has_suffix_split p (codes ".*") h in
    let (rest, e') = has_prefix_split required (trim_suffix p (codes ".*") ++ codes ".") k in
    wildcard stem rest e (
      e'
      ∙ ap (λ t. (t ++ codes ".") ++ rest)
          (ap (λ t. trim_suffix t (codes ".*")) e ∙ trim_suffix-append stem (codes ".*")))

part_grants_sound : (p required : Str) → part_grants p required ≡ true → Grants p required
unfolding part_grants
part_grants_sound p required h = elim (Bool-cases (text_eq p (codes "*"))) [
  | inl star ↦ root ((text_eq_iff p (codes "*")).0 star)
  | inr other ↦ elim (Bool-cases (text_eq p required)) [
    | inl same ↦ exact ((text_eq_iff p required).0 same)
    | inr differ ↦ wildcard_of p required (ground arith) (ground arith)
  ]
]

part_grants_complete : (p required : Str) → Grants p required → part_grants p required ≡ true
unfolding part_grants
part_grants_complete p required (root e) = ground (arith, (text_eq_iff p (codes "*")).1 e)
part_grants_complete p required (exact e) = ground (arith, (text_eq_iff p required).1 e)
part_grants_complete p required (wildcard stem rest e e') =
    rw
      (
        e,
        e',
        has_suffix_append stem (codes ".*"),
        trim_suffix-append stem (codes ".*"),
        has_prefix_append (stem ++ codes ".") rest,
      )
      (ground arith)

any_sound :
    (required : Str) (parts : List Str)
    → any (λ p. part_grants (trim_space p) required) parts ≡ true
    → Some (λ p. Grants (trim_space p) required) parts
any_sound required [] h = absurd (ground arith)
any_sound required (p ∷ ps) h = elim (Bool-cases (part_grants (trim_space p) required)) [
  | inl granted ↦ here (part_grants_sound (trim_space p) required granted)
  | inr refused ↦ there (any_sound required ps (ground arith))
]

any_complete :
    (required : Str) (parts : List Str)
    → Some (λ p. Grants (trim_space p) required) parts
    → any (λ p. part_grants (trim_space p) required) parts ≡ true
any_complete required [] s = elim s [ ]
any_complete required (p ∷ ps) (here g) =
    ground (arith, part_grants_complete (trim_space p) required g)
any_complete required (p ∷ ps) (there s) = ground (arith, any_complete required ps s)

-- HasPermission accepts exactly when some part of the comma-separated list, with the white space
-- at its ends taken off, is "*", is the required scope, or is a text "stem.*" where the required
-- scope begins with "stem.".
pub has_permission_iff :
    (user_permissions required_perm : Str)
    → (has_permission user_permissions required_perm ≡ true)
      ↔ Some (λ p. Grants (trim_space p) required_perm) (split user_permissions b',')
unfolding has_permission
has_permission_iff user_permissions required_perm = (
  any_sound required_perm (split user_permissions b','),
  any_complete required_perm (split user_permissions b','),
)
