-- ===== src/Storage/Memory.antt =====
-- A database, a bcrypt and a JWT package in memory, which show that what is assumed of them can
-- be met. A row that is saved stands in front of the older rows with its number.
use serveo_api_golang.Prelude.{
  length, sym, subst, ℕ, ◌<◌, ◌≡◌, refl, Bool, true, false, ◌&&◌, Option, none, some, List, [], ◌∷◌,
  arith, if◌then◌else◌, ◌==◌, ltb, Bool-cases, inl, inr,
}
use serveo_api_golang.Text.{Str, codes, text_eq, text_eq_refl, contains, has_prefix}
use serveo_api_golang.Text.Number.{digits}
use serveo_api_golang.Storage.Rows.{User, ApiKey}
use serveo_api_golang.Storage.{
  Database, Schema, Bcrypt, Floats, Jwt, Claim, float64, other_claim, LoginClaims,
}

pub record Tables : Type 0 where
  pub users : List User
  pub keys : List ApiKey

abbrev pub find_user : ℕ → List User → Option User
find_user i [] = none
find_user i (u ∷ us) = if i == u.id then some u else find_user i us

abbrev pub find_named : Str → List User → List User → Option User
find_named name all [] = none
find_named name all (u ∷ us) =
    if text_eq u.username name then find_user u.id all else find_named name all us

abbrev pub drop_user : ℕ → List User → List User
drop_user i [] = []
drop_user i (u ∷ us) = let rest = drop_user i us in if i == u.id then rest else u ∷ rest

abbrev pub owner : Option User → ℕ × Str
owner none = (0, [])
owner (some u) = (u.id, u.permissions)

abbrev pub find_key : Str → List ApiKey → List User → ℕ × Str
find_key h [] us = (0, [])
find_key h (k ∷ ks) us =
    if text_eq k.token_hash h then owner (find_user k.user_id us) else find_key h ks us

abbrev pub keys_of : ℕ → List ApiKey → List ApiKey
keys_of i [] = []
keys_of i (k ∷ ks) = let rest = keys_of i ks in if i == k.user_id then k ∷ rest else rest

pub find_user-id : (i : ℕ) (us : List User) (u : User) → find_user i us ≡ some u → u.id ≡ i
find_user-id i [] u e = absurd (ground arith)
find_user-id i (v ∷ us) u e = ground (arith, find_user-id i us u)

pub find_named-id :
    (name : Str) (all us : List User) (u : User)
    → find_named name all us ≡ some u
    → find_user u.id all ≡ some u
find_named-id name all [] u e = absurd (ground arith)
find_named-id name all (v ∷ us) u e = elim (Bool-cases (text_eq v.username name)) [
  | inl same ↦
      let e' : find_user v.id all ≡ some u = ground arith in
      subst (λ (i : ℕ). find_user i all ≡ some u) (sym (find_user-id v.id all u e')) e'
  | inr other ↦ find_named-id name all us u (ground arith)
]

find_user-drop_user :
    (i n : ℕ) (us : List User)
    → find_user i (drop_user n us) ≡ (if i == n then none else find_user i us)
find_user-drop_user i n [] = ground arith
find_user-drop_user i n (u ∷ us) = ground (arith, find_user-drop_user i n us)

abbrev pub first_of_text : Str → List User → Option User
first_of_text s us = elim (digits s) [ none ↦ none | some n ↦ find_user n us ]

abbrev pub erase_of_text : Str → Tables → Option Tables
erase_of_text s t = elim (digits s) [
  | none ↦ none
  | some n ↦ some (record t { users = drop_user n t.users })
]

pub first-erase :
    (s : Str) (n i : ℕ) (t t' : Tables)
    → digits s ≡ some n
    → erase_of_text s t ≡ some t'
    → find_user i t'.users ≡ (if i == n then none else find_user i t.users)
first-erase s n i t t' read e = ground (arith, find_user-drop_user i n t.users)

pub first-save :
    (i : ℕ) (u : User) (t t' : Tables)
    → some (record t { users = u ∷ t.users }) ≡ some t'
    → find_user i t'.users ≡ (if i == u.id then some u else find_user i t.users)
first-save i u t t' e = ground arith

pub first_of_text-digits :
    (s : Str) (n : ℕ) (t : Tables)
    → digits s ≡ some n
    → first_of_text s t.users ≡ find_user n t.users
first_of_text-digits s n t e = ground arith

pub scan-create :
    (k k' : ApiKey) (t t' : Tables) (u : User)
    → ◌≡◌ {A = Option (ApiKey × Tables)} (some (k, record t { keys = k ∷ t.keys })) (some (k', t'))
    → find_user k.user_id t.users ≡ some u
    → some (find_key k.token_hash t'.keys t'.users) ≡ some (k.user_id, u.permissions)
scan-create k k' t t' u e found =
    ground (arith, text_eq_refl k.token_hash, find_user-id k.user_id t.users u found)

abbrev pub memory : Database
memory = record {
  Db = Tables;
  first = λ i t. find_user i t.users;
  first_text = λ s t. first_of_text s t.users;
  first_named = λ s t. find_named s t.users t.users;
  find_users = λ t. some t.users;
  insert_user = λ u t. some (u, record t { users = u ∷ t.users });
  save_user = λ u t. some (record t { users = u ∷ t.users });
  erase_user = erase_of_text;
  scan_key = λ h t. some (find_key h t.keys t.users);
  create_key = λ k t. some (k, record t { keys = k ∷ t.keys });
  find_keys = λ i t. some (keys_of i t.keys);
  delete_key = λ s i t. some (0, t);
  id-first = λ i t u e. find_user-id i t.users u e;
  first-first_named = λ s t u e. find_named-id s t.users t.users u e;
  first-save_user = first-save;
  first_text-digits = first_of_text-digits;
  scan-create_key = scan-create;
  first-erase_user = first-erase;
}

pub first_named-insert :
    (u u' : User) (t t' : Tables)
    → ◌≡◌ {A = Option ℕ} (some (length t.users)) (some 0)
    → ◌≡◌ {A = Option (User × Tables)} (some (u, record t { users = u ∷ t.users })) (some (u', t'))
    → (find_named u.username t'.users t'.users ≡ some u')
      × (u'.password ≡ u.password)
      × (u'.permissions ≡ u.permissions)
first_named-insert u u' t t' empty e =
    (ground (arith, text_eq_refl u.username), ground arith, ground arith)

abbrev pub tables : Schema memory
tables = record {
  auto_migrate = λ t. some t;
  count_users = λ t. some (length t.users);
  first_named-insert_user = first_named-insert;
}

pub matches-plain : (password hash : Str) → some password ≡ some hash → text_eq hash password ≡ true
matches-plain password hash e = ground (arith, text_eq_refl password)

abbrev pub plain : Bcrypt
plain = record {
  generate = λ salt password. some password;
  matches = text_eq;
  matches-generate = λ salt password hash e. matches-plain password hash e;
}

abbrev pub whole : Floats
whole = record {
  Float = ℕ;
  of_ℕ = λ n. n;
  is_negative = λ n. false;
  is_whole = λ n. true;
  to_uint = λ n. n;
  is_negative-of_ℕ = λ n h. refl;
  is_whole-of_ℕ = λ n h. refl;
  to_uint-of_ℕ = λ n h. refl;
}

-- A token in the clear: a dot, the three numbers and the key.
abbrev pub sign_plain : LoginClaims → Str → Option Str
sign_plain c key = some (b'.' ∷ c.sub ∷ c.token_version ∷ c.exp ∷ key)

abbrev pub claims_of : ℕ → ℕ → Str → Claim ℕ
claims_of sub version name =
    if text_eq name (codes "sub")
    then float64 sub
    else if text_eq name (codes "token_version")
    then float64 version
    else other_claim

abbrev pub checked : Option Str → Str → Bool → Option (Str → Claim ℕ) → Option (Str → Claim ℕ)
checked none key fresh claims = none
checked (some k) key fresh claims = if text_eq k key && fresh then claims else none

abbrev pub parse_plain : Str → (Unit {0} → Option Str) → ℕ → Option (Str → Claim ℕ)
parse_plain (dot ∷ sub ∷ version ∷ exp ∷ key) key_func now =
    checked (key_func tt) key (ltb now exp) (some (claims_of sub version))
parse_plain _ key_func now = none

pub sign-dot :
    (c : LoginClaims) (key token : Str)
    → sign_plain c key ≡ some token
    → contains token (codes ".") ≡ true
unfolding contains has_prefix
sign-dot c key token e = ground arith

pub parse-sign_plain :
    (c : LoginClaims) (key token : Str) (key_func : Unit {0} → Option Str) (now : ℕ)
    → sign_plain c key ≡ some token
    → key_func tt ≡ some key
    → now < c.exp
    → (claims : Str → Claim ℕ) × (parse_plain token key_func now ≡ some claims)
      × (claims (codes "sub") ≡ float64 c.sub)
      × (claims (codes "token_version") ≡ float64 c.token_version)
unfolding text_eq
parse-sign_plain c key token key_func now e k h =
    (claims_of c.sub c.token_version, ground (arith, text_eq_refl key), refl, refl)

abbrev pub clear : Jwt whole
clear = record {
  Method = Unit {0};
  is_hmac = λ m. true;
  hs256 = tt;
  is_hmac-hs256 = refl;
  sign = λ m c key. sign_plain c key;
  parse = parse_plain;
  contains-sign = λ m c key token e. sign-dot c key token e;
  parse-sign = λ m c key token key_func now e k h. parse-sign_plain c key token key_func now e k h;
}
