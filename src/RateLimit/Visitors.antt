-- ===== src/RateLimit/Visitors.antt =====
-- No two addresses share a limiter.
use serveo_api_golang.Prelude.{
  ℕ, ◌+◌, ◌<◌, ◌≡◌, ◌≢◌, sym, ◌∙◌, some, [], ◌∷◌, arith, All, Option-cases, Bool-cases, inl, inr,
  ltb, ◌-◌, ◌*◌,
}
use serveo_api_golang.Text.{Str, text_eq, text_eq_iff}
use serveo_api_golang.RateLimit.{
  Rate, Visitor, Visitors, find_visitor, seen, recent, minute, State, start, get_visitor,
  take_token, cleanup,
}

abbrev Below : ℕ → Visitors → Type 0
Below n vs = All (λ e. e.1.limiter < n) vs

abbrev Without : ℕ → Visitors → Type 0
Without a vs = All (λ e. e.1.limiter ≢ a) vs

abbrev Distinct : Visitors → Type 0
Distinct [] = Unit
Distinct (e ∷ vs) = Without e.1.limiter vs × Distinct vs

module _ (P : ℕ → Type 0) where
  All-seen :
      (ip : Str) (now : ℕ) (vs : Visitors)
      → All (λ e. P e.1.limiter) vs
      → All (λ e. P e.1.limiter) (seen ip now vs)
  unfolding seen
  All-seen ip now [] hs = tt
  All-seen ip now ((k, v) ∷ vs) (h, hs) = elim (Bool-cases (text_eq k ip)) [
    | inl same ↦ rw same (h, hs)
    | inr other ↦ rw other (h, All-seen ip now vs hs)
  ]

  All-recent :
      (now : ℕ) (vs : Visitors)
      → All (λ e. P e.1.limiter) vs
      → All (λ e. P e.1.limiter) (recent now vs)
  unfolding recent
  All-recent now [] hs = tt
  All-recent now ((k, v) ∷ vs) (h, hs) = elim (Bool-cases (ltb (3 * minute) (now - v.last_seen))) [
    | inl old ↦ rw old (All-recent now vs hs)
    | inr new ↦ rw new (h, All-recent now vs hs)
  ]

Distinct-seen : (ip : Str) (now : ℕ) (vs : Visitors) → Distinct vs → Distinct (seen ip now vs)
unfolding seen
Distinct-seen ip now [] hs = tt
Distinct-seen ip now ((k, v) ∷ vs) (h, hs) = elim (Bool-cases (text_eq k ip)) [
  | inl same ↦ rw same (h, hs)
  | inr other ↦ rw other (All-seen (λ b. b ≢ v.limiter) ip now vs h, Distinct-seen ip now vs hs)
]

Distinct-recent : (now : ℕ) (vs : Visitors) → Distinct vs → Distinct (recent now vs)
unfolding recent
Distinct-recent now [] hs = tt
Distinct-recent now ((k, v) ∷ vs) (h, hs) =
    elim (Bool-cases (ltb (3 * minute) (now - v.last_seen))) [
      | inl old ↦ rw old (Distinct-recent now vs hs)
      | inr new ↦ rw new (All-recent (λ b. b ≢ v.limiter) now vs h, Distinct-recent now vs hs)
    ]

Below-suc : (n : ℕ) (vs : Visitors) → Below n vs → Below (n + 1) vs
Below-suc n [] hs = tt
Below-suc n (e ∷ vs) (h, hs) = (omega (arith, h), Below-suc n vs hs)

Below-Without : (n : ℕ) (vs : Visitors) → Below n vs → Without n vs
Below-Without n [] hs = tt
Below-Without n (e ∷ vs) (h, hs) = ((λ k. omega (arith, h, k)), Below-Without n vs hs)

find-Without :
    (ip : Str) (a : ℕ) (v : Visitor) (vs : Visitors)
    → Without a vs
    → find_visitor ip vs ≡ some v
    → v.limiter ≢ a
unfolding find_visitor
find-Without ip a v [] hs e = absurd (ground arith)
find-Without ip a v ((k, w) ∷ vs) (h, hs) e = elim (Bool-cases (text_eq k ip)) [
  | inl same ↦ λ x. h (ground arith)
  | inr other ↦ find-Without ip a v vs hs (ground arith)
]

Distinct-find :
    (a b : Str) (v w : Visitor) (vs : Visitors)
    → Distinct vs
    → find_visitor a vs ≡ some v
    → find_visitor b vs ≡ some w
    → v.limiter ≡ w.limiter
    → a ≡ b
unfolding find_visitor
Distinct-find a b v w [] hs ea eb same = absurd (ground arith)
Distinct-find a b v w ((k, u) ∷ vs) (h, hs) ea eb same = elim (Bool-cases (text_eq k a)) [
  | inl k_a ↦ elim (Bool-cases (text_eq k b)) [
    | inl k_b ↦ sym ((text_eq_iff k a).0 k_a) ∙ (text_eq_iff k b).0 k_b
    | inr not_b ↦ absurd (find-Without b u.limiter w vs h (ground arith) (ground arith))
  ]
  | inr not_a ↦ elim (Bool-cases (text_eq k b)) [
    | inl k_b ↦ absurd (find-Without a u.limiter v vs h (ground arith) (ground arith))
    | inr not_b ↦ Distinct-find a b v w vs hs (ground arith) (ground arith) same
  ]
]

module _ (R : Rate) where
  -- The steps of the requests and of the cleaning goroutine, in the order in which they happen.
  pub data Step : State R → State R → Type 0 where
    visit : {s : State R} (ip : Str) (rps now : ℕ) → Step s (get_visitor R ip rps now s).0
    take : {s : State R} (address now : ℕ) → Step s (take_token R address now s).0
    clean_up : {s : State R} (now : ℕ) → Step s (cleanup R now s)

  pub data Reachable : State R → Type 0 where
    started : Reachable (start R)
    then_step : {s t : State R} → Reachable s → Step s t → Reachable t

  abbrev WellFormed : State R → Type 0
  WellFormed s = Below s.next_address s.visitors × Distinct s.visitors

  get_visitor-WellFormed :
      (ip : Str) (rps now : ℕ) (s : State R)
      → WellFormed s
      → WellFormed (get_visitor R ip rps now s).0
  unfolding get_visitor
  get_visitor-WellFormed ip rps now s (below, distinct) =
      elim (Option-cases (find_visitor ip s.visitors)) [
        | inl new ↦
            rw (new, get_visitor)
              (
                (omega arith, Below-suc s.next_address s.visitors below),
                (Below-Without s.next_address s.visitors below, distinct),
              )
        | inr (v, found) ↦
            rw (found, get_visitor)
              (
                All-seen (λ b. b < s.next_address) ip now s.visitors below,
                Distinct-seen ip now s.visitors distinct,
              )
      ]

  take_token-WellFormed :
      (address now : ℕ) (s : State R) → WellFormed s → WellFormed (take_token R address now s).0
  unfolding take_token
  take_token-WellFormed address now s wf = elim (Option-cases (s.limiters address)) [
    | inl missing ↦ rw (missing, take_token) wf
    | inr (l, there) ↦ rw (there, take_token) wf
  ]

  cleanup-WellFormed : (now : ℕ) (s : State R) → WellFormed s → WellFormed (cleanup R now s)
  unfolding cleanup
  cleanup-WellFormed now s (below, distinct) = (
    All-recent (λ b. b < s.next_address) now s.visitors below,
    Distinct-recent now s.visitors distinct,
  )

  Step-WellFormed : (s t : State R) → Step s t → WellFormed s → WellFormed t
  Step-WellFormed s t (visit ip rps now) wf = get_visitor-WellFormed ip rps now s wf
  Step-WellFormed s t (take address now) wf = take_token-WellFormed address now s wf
  Step-WellFormed s t (clean_up now) wf = cleanup-WellFormed now s wf

  Reachable-WellFormed : (s : State R) → Reachable s → WellFormed s
  Reachable-WellFormed s started = (tt, tt)
  Reachable-WellFormed s (then_step {s = r} h step) =
      Step-WellFormed r s step (Reachable-WellFormed r h)

  take_token-other :
      (a b now : ℕ) (s : State R) → a ≢ b → (take_token R a now s).0.limiters b ≡ s.limiters b
  unfolding take_token
  take_token-other a b now s other = elim (Option-cases (s.limiters a)) [
    | inl missing ↦ ground arith
    | inr (l, found) ↦ ground arith
  ]

  -- However the steps of the requests and of the cleaning goroutine follow each other, two
  -- clients of different addresses have different limiters: a token that one of them takes leaves
  -- the limiter of the other as it is.
  pub take_token-unshared :
      (s : State R) (a b : Str) (v w : Visitor) (now : ℕ)
      → Reachable s
      → find_visitor a s.visitors ≡ some v
      → find_visitor b s.visitors ≡ some w
      → a ≢ b
      → (take_token R w.limiter now s).0.limiters v.limiter ≡ s.limiters v.limiter
  take_token-unshared s a b v w now h ea eb other =
      take_token-other w.limiter v.limiter now s (λ same.
        other (Distinct-find a b v w s.visitors (Reachable-WellFormed s h).1 ea eb (sym same)))
