-- ===== src/Templates/Filled.antt =====
-- What DeployTemplate puts in the place of the markers of a template.
use serveo_api_golang.Prelude.{
  ℕ, zero, suc, ◌-◌, ◌≤◌, ◌≡◌, ◌≢◌, ◌⊎◌, inl, inr, refl, sym, ap, ap₂, ◌∙◌, subst, false, Option,
  none, some, List, [], ◌∷◌, ◌++◌, reverse, reverse-append, reverse-reverse, length, length-append,
  drop, arith, Bool-cases, Option-cases, All, Some, here, there,
}
use serveo_api_golang.Text.{Str, codes, text_eq, text_eq_iff, has_prefix, has_prefix_split}
use serveo_api_golang.Templates.{
  TemplateVariable, Setting, replace_from, replace_all, provided, generate_random_id,
  json_string_escape, interpolate, fill_in,
}

-- The second text is the first with every `old` in it, from the left on, replaced by `new`.
pub data Replaces (old new : Str) : Str → Str → Type 0 where
  at_end : Replaces old new [] []
  kept_byte :
      {c : ℕ} {s t : Str}
      → has_prefix (c ∷ s) old ≡ false
      → Replaces old new s t
      → Replaces old new (c ∷ s) (c ∷ t)
  replaced : {s t : Str} → Replaces old new s t → Replaces old new (old ++ s) (new ++ t)

-- the bytes of a marker just replaced are skipped
replace_from-append :
    (old new p s : Str) → replace_from old new (length p) (p ++ s) ≡ replace_from old new 0 s
unfolding replace_from
replace_from-append old new [] s = refl
replace_from-append old new (c ∷ p) s = replace_from-append old new p s

after_marker :
    (a : ℕ) (old new s rest : Str)
    → s ≡ old ++ rest
    → replace_from (a ∷ old) new (length (a ∷ old) - 1) s ≡ replace_from (a ∷ old) new 0 rest
after_marker a old new s rest e =
    let same : length (a ∷ old) - 1 ≡ length old = omega arith in
    ap (λ k. replace_from (a ∷ old) new k s) same
    ∙ ap (replace_from (a ∷ old) new (length old)) e
    ∙ replace_from-append (a ∷ old) new old rest

replaced_at :
    (old new s rest t u : Str)
    → s ≡ old ++ rest
    → u ≡ t
    → Replaces old new rest t
    → Replaces old new s (new ++ u)
replaced_at old new s rest t u e q h =
    subst (λ x. Replaces old new x (new ++ u)) (sym e)
      (subst (λ x. Replaces old new (old ++ rest) (new ++ x)) (sym q) (replaced h))

shorter : (s old rest : Str) (n : ℕ) → s ≡ old ++ rest → length s ≤ n → length rest ≤ n
shorter s old rest n e h = omega (arith, ap length e, length-append old rest, h)

replace_from-Replaces :
    (n : ℕ) (a : ℕ) (old new s : Str)
    → length s ≤ n
    → Replaces (a ∷ old) new s (replace_from (a ∷ old) new 0 s)
unfolding replace_from
replace_from-Replaces n a old new [] h = at_end
replace_from-Replaces zero a old new (c ∷ s) h = absurd (omega (arith, h))
replace_from-Replaces (suc n) a old new (c ∷ s) h =
    elim (Bool-cases (has_prefix (c ∷ s) (a ∷ old))) [
      | inr other ↦
          rw (replace_from, other)
            (kept_byte other (replace_from-Replaces n a old new s (omega (arith, h))))
      | inl found ↦
          let (rest, e) = has_prefix_split (c ∷ s) (a ∷ old) found in
          rw (replace_from, found)
            (replaced_at (a ∷ old) new (c ∷ s) rest (replace_from (a ∷ old) new 0 rest)
              (replace_from (a ∷ old) new (length (a ∷ old) - 1) s) e
              (after_marker a old new s rest (ap (drop 1) e))
              (replace_from-Replaces n a old new rest
                (shorter s old rest n (ap (drop 1) e) (omega (arith, h)))))
    ]

module _ (h : Setting) where
  open h use {marshal}

  -- the JSON text of the value is the text between two quotes
  abbrev pub Escapes : Str → Str → Type 0
  Escapes val text = marshal val ≡ some (b'"' ∷ text ++ b'"' ∷ [])

  escape-Escapes : (val text : Str) → Escapes val text → json_string_escape h val ≡ text
  unfolding json_string_escape
  escape-Escapes val [] e = rw (e, json_string_escape) refl
  escape-Escapes val (c ∷ text) e =
      let e' : reverse (drop 1 (reverse ((c ∷ text) ++ b'"' ∷ []))) ≡ c ∷ text =
        ap (λ x. reverse (drop 1 x)) (reverse-append (c ∷ text) (b'"' ∷ []))
        ∙ reverse-reverse (c ∷ text) in
      rw (e, json_string_escape) e'

  -- The value of a variable: one that is given for its name, or its default if there is none.
  abbrev pub Value : List (Str × Str) → TemplateVariable → Str → Type 0
  Value given v val =
      Some (λ e. e ≡ (v.name, val)) given ⊎ (All (λ e. e.0 ≢ v.name) given × (val ≡ v.default))

  provided-none :
      (name : Str) (given : List (Str × Str))
      → provided name given ≡ none
      → All (λ e. e.0 ≢ name) given
  unfolding provided
  provided-none name [] e = tt
  provided-none name ((k, value) ∷ rest) e = elim (Bool-cases (text_eq k name)) [
    | inl same ↦ absurd (ground arith)
    | inr other ↦
        (λ q. ground (arith, (text_eq_iff k name).1 q), provided-none name rest (ground arith))
  ]

  provided-some :
      (name val : Str) (given : List (Str × Str))
      → provided name given ≡ some val
      → Some (λ e. e ≡ (name, val)) given
  unfolding provided
  provided-some name val [] e = absurd (ground arith)
  provided-some name val ((k, value) ∷ rest) e = elim (Bool-cases (text_eq k name)) [
    | inl same ↦
        let at_name : k ≡ name = (text_eq_iff k name).0 same in
        let at_val : value ≡ val = ground arith in here (ap₂ (λ x y. (x, y)) at_name at_val)
    | inr other ↦ there (provided-some name val rest (ground arith))
  ]

  module _ (given : List (Str × Str)) (random : Option (List ℕ)) where
    -- The second text is the first with "{{name}}" replaced, for the variables in their order, and
    -- then "{{id}}" by the random ID; each by the JSON text of its value without the quotes.
    pub data Fills : List TemplateVariable → Str → Str → Type 0 where
      id_filled :
          {text s t : Str}
          → Escapes (generate_random_id random) text
          → Replaces (codes "{{id}}") text s t
          → Fills [] s t
      variable_filled :
          {v : TemplateVariable} {vs : List TemplateVariable} {val text s s' t : Str}
          → Value given v val
          → Escapes val text
          → Replaces (codes "{{" ++ v.name ++ codes "}}") text s s'
          → Fills vs s' t
          → Fills (v ∷ vs) s t

    abbrev chosen : TemplateVariable → Str
    chosen v = elim (provided v.name given) [ none ↦ v.default | some value ↦ value ]

    chosen-Value : (v : TemplateVariable) → Value given v (chosen v)
    chosen-Value v = elim (Option-cases (provided v.name given)) [
      | inl missing ↦ inr (provided-none v.name given missing, ground arith)
      | inr (val, found) ↦ rw (found, chosen) (inl (provided-some v.name val given found))
    ]

    module _ (json : (val : Str) → (text : Str) × Escapes val text) where
      escaped : (val : Str) → Escapes val (json_string_escape h val)
      escaped val =
          let (text, e) = json val in subst (Escapes val) (sym (escape-Escapes val text e)) e

      replace_all-Replaces :
          (a : ℕ) (old new s : Str) → Replaces (a ∷ old) new s (replace_all s (a ∷ old) new)
      unfolding replace_all
      replace_all-Replaces a old new s = replace_from-Replaces (length s) a old new s (omega arith)

      interpolate-Fills :
          (vs : List TemplateVariable) (s : Str)
          → Fills vs s (
              replace_all
                (interpolate h given vs s)
                (codes "{{id}}")
                (json_string_escape h (generate_random_id random)))
      unfolding interpolate
      interpolate-Fills [] s = id_filled (escaped (generate_random_id random)) (
          replace_all-Replaces b'{' (codes "{id}}")
            (json_string_escape h (generate_random_id random)) s)
      interpolate-Fills (v ∷ vs) s =
          let text = json_string_escape h (chosen v) in
          variable_filled (chosen-Value v) (escaped (chosen v))
            (replace_all-Replaces b'{' (codes "{" ++ v.name ++ codes "}}") text s)
            (interpolate-Fills vs (replace_all s (codes "{{" ++ v.name ++ codes "}}") text))

      pub fill_in-Fills : (s : Str) → Fills (h.unmarshal s).0.variables s (fill_in h given random s)
      unfolding fill_in
      fill_in-Fills s = interpolate-Fills (h.unmarshal s).0.variables s
