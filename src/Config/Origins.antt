-- ===== src/Config/Origins.antt =====
-- Which origins CORS lets read the answers, and what Load makes of the mount root.
use serveo_api_golang.Prelude.{
  ◌≡◌, ◌≢◌, ◌⊎◌, inl, inr, refl, Bool, true, false, ◌||◌, Option, none, some, List, [], ◌∷◌, arith,
  any, Some, here, there, Bool-cases, if◌then◌else◌,
}
use serveo_api_golang.Text.{Str, codes, text_eq, text_eq_iff, has_suffix, has_suffix_append}
use serveo_api_golang.Http.{Request, Handler}
use serveo_api_golang.Config.{
  Config, Environment, Headers, get_env, mount_root, load, is_origin_allowed, allows_any_origin,
  cors_headers, cors,
}

-- The value of a header, as a browser reads it.
unfoldable pub header_value : Str → Headers → Option Str
header_value name [] = none
header_value name ((n, value) ∷ rest) =
    let later = header_value name rest in if text_eq n name then some value else later

any-Some :
    (f : Str → Bool) (P : Str → Type 0) (xs : List Str)
    → ((x : Str) → f x ≡ true → P x)
    → any f xs ≡ true
    → Some P xs
any-Some f P [] sound h = absurd (ground arith)
any-Some f P (x ∷ xs) sound h = elim (Bool-cases (f x)) [
  | inl this ↦ here (sound x this)
  | inr other ↦ there (any-Some f P xs sound (ground arith))
]

-- The value lets the origin read: the list has "*" and the value is "*", or the value is the
-- origin, which is not empty and in the list.
abbrev pub IsGranted : Config → Str → Str → Type 0
IsGranted cfg origin value =
    ((value ≡ codes "*") × Some (λ o. o ≡ codes "*") cfg.allowed_origins)
    ⊎ ((value ≡ origin) × (origin ≢ []) × Some (λ o. o ≡ origin) cfg.allowed_origins)

origin_of :
    (cfg : Config) (origin : Str)
    → header_value (codes "Access-Control-Allow-Origin") (cors_headers cfg origin) ≡ (
        if allows_any_origin cfg
        then some (codes "*")
        else if is_origin_allowed cfg origin
        then some origin
        else none)
unfolding header_value cors_headers text_eq
origin_of cfg origin = elim (Bool-cases (allows_any_origin cfg)) [
  | inl every ↦ rw every refl
  | inr listed ↦ elim (Bool-cases (is_origin_allowed cfg origin)) [
    | inl good ↦ rw (listed, good) refl
    | inr bad ↦ rw (listed, bad) refl
  ]
]

allows_any_origin-Some :
    (cfg : Config) → allows_any_origin cfg ≡ true → Some (λ o. o ≡ codes "*") cfg.allowed_origins
unfolding allows_any_origin
allows_any_origin-Some cfg h =
    any-Some (λ o. text_eq o (codes "*")) (λ o. o ≡ codes "*") cfg.allowed_origins
      (λ o e. (text_eq_iff o (codes "*")).0 e) h

any-false :
    (f g : Str → Bool) (xs : List Str)
    → any f xs ≡ false
    → any (λ x. f x || g x) xs ≡ true
    → any g xs ≡ true
any-false f g [] h k = k
any-false f g (x ∷ xs) h k = ground (arith, any-false f g xs)

is_origin_allowed-Some :
    (cfg : Config) (origin : Str)
    → allows_any_origin cfg ≡ false
    → is_origin_allowed cfg origin ≡ true
    → (origin ≢ []) × Some (λ o. o ≡ origin) cfg.allowed_origins
unfolding allows_any_origin is_origin_allowed
is_origin_allowed-Some cfg origin h k = (
  (λ e. ground (arith, (text_eq_iff origin []).1 e)),
  any-Some (λ o. text_eq o origin) (λ o. o ≡ origin) cfg.allowed_origins
      (λ o e. (text_eq_iff o origin).0 e)
      (any-false (λ o. text_eq o (codes "*")) (λ o. text_eq o origin) cfg.allowed_origins h
        (ground arith)),
)

-- The value that CORS sends for Access-Control-Allow-Origin, if it sends one, is "*" and "*" is in
-- the configured list, or it is the request's origin, which is not empty and in the list.
pub cors-IsGranted :
    {S A : Type 0} (cfg : Config) (next : Handler S A) (r : Request) (s : S) (value : Str)
    → header_value (codes "Access-Control-Allow-Origin") (cors cfg next r s).0 ≡ some value
    → IsGranted cfg (r.header (codes "Origin")) value
unfolding cors
cors-IsGranted cfg next r s value e =
    let same = origin_of cfg (r.header (codes "Origin")) in
    elim (Bool-cases (allows_any_origin cfg)) [
      | inl every ↦ inl (ground arith, allows_any_origin-Some cfg every)
      | inr listed ↦ elim (Bool-cases (is_origin_allowed cfg (r.header (codes "Origin")))) [
        | inr bad ↦ absurd (ground arith)
        | inl good ↦
            let (nonempty, known) =
              is_origin_allowed-Some cfg (r.header (codes "Origin")) listed good in
            inr (ground arith, nonempty, known)
      ]
    ]

mount_root-slash : (amr : Str) → has_suffix (mount_root amr) (codes "/") ≡ true
unfolding mount_root
mount_root-slash [] = has_suffix_append (codes "/var/serveoapi/data") (codes "/")
mount_root-slash (c ∷ s) = elim (Bool-cases (has_suffix (c ∷ s) (codes "/"))) [
  | inl there_already ↦ rw there_already there_already
  | inr missing ↦ rw missing (has_suffix_append (c ∷ s) (codes "/"))
]

-- In every environment the mount root that Load configures ends with "/".
pub load_mount_root :
    (env : Environment) → has_suffix (load env).allowed_mount_root (codes "/") ≡ true
unfolding load
load_mount_root env = mount_root-slash (get_env env (codes "ALLOWED_MOUNT_ROOT") [])
