-- ===== src/Users/SelfDelete.antt =====
-- The guard of DeleteUser against deleting one's own account.
use serveo_api_golang.Prelude.{
  ℕ, ◌≡◌, ◌≢◌, ap, false, none, some, ◌∷◌, arith, length, Bool-cases, inl, inr,
}
use serveo_api_golang.Text.{Str, text_eq, text_eq_iff}
use serveo_api_golang.Text.Number.{format_uint, digits-format_uint, digits-zero_cons}
use serveo_api_golang.Http.{Context, write_header}
use serveo_api_golang.Storage.{Database}
use serveo_api_golang.Users.{delete_user}

cons-ne_self : (c : ℕ) (s : Str) → c ∷ s ≢ s
cons-ne_self c s e = omega (arith, ap length e)

text_eq-cons_self : (c : ℕ) (s : Str) → text_eq (c ∷ s) s ≡ false
text_eq-cons_self c s = elim (Bool-cases (text_eq (c ∷ s) s)) [
  | inl same ↦ absurd (cons-ne_self c s ((text_eq_iff (c ∷ s) s).0 same))
  | inr differ ↦ differ
]

module _ (D : Database) where
  open D use {Db, first, erase_user, first-erase_user}

  -- With a zero in front of the number the guard does not see it: if the database's Delete works,
  -- the handler answers 204 and the account of the user that asked is gone.
  pub delete_user_self_zero :
      (ctx : Context) (user_id : ℕ) (d d' : Db)
      → ctx.user_id ≡ some user_id
      → erase_user (b'0' ∷ format_uint user_id) d ≡ some d'
      → (delete_user D ctx (b'0' ∷ format_uint user_id) d ≡ (d', write_header 204))
        × (first user_id d' ≡ none)
  unfolding delete_user
  delete_user_self_zero ctx user_id d d' logged_in erased = (
    ground (arith, text_eq-cons_self b'0' (format_uint user_id)),
    ground (
      arith,
      first-erase_user (b'0' ∷ format_uint user_id) user_id user_id d d'
          (digits-zero_cons (format_uint user_id) user_id (digits-format_uint user_id)) erased,
    ),
  )
