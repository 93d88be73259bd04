-- ===== src/Mcp/Race.antt =====
-- The sections of two calls of ovh_reboot, in any order: the cooldown does not hold between calls
-- that overlap.
use serveo_api_golang.Prelude.{
  ℕ, suc, ◌+◌, ◌-◌, ◌≤◌, ◌≡◌, ◌∙◌, inl, inr, Option-cases, refl, subst, false, none, List, [], ◌∷◌,
  arith,
}
use serveo_api_golang.Text.{Str, codes}
use serveo_api_golang.Mcp.{
  is_cooling, Outside, Shared, reboot_path, initiated, Phase, to_check, to_post, to_mark, to_save,
  ended, check, post_reboot, save_cooldowns, advance,
}

-- Which of the two calls moves.
pub data Mover : Type 0 where
  one two : Mover

abbrev pub other_one : Mover → Mover
other_one one = two
other_one two = one

-- how often the mover moves
abbrev pub moves : Mover → List (Mover × ℕ) → ℕ
moves m [] = 0
moves one ((one, now) ∷ ms) = suc (moves one ms)
moves one ((two, now) ∷ ms) = moves one ms
moves two ((one, now) ∷ ms) = moves two ms
moves two ((two, now) ∷ ms) = suc (moves two ms)

-- A call that has passed the test, with the number of sections and of requests to come.
data Stage : ℕ → ℕ → Phase → Type 0 where
  posting : Stage 3 1 to_post
  marking : Stage 2 0 to_mark
  saving : Stage 1 0 to_save
  over : Stage 0 0 (ended initiated)

Stage-end : {n : ℕ} {p : Phase} → Stage 0 n p → (n ≡ 0) × (p ≡ ended initiated)
Stage-end over = (refl, refl)

module _ {W : Type 0} (outside : Outside W) where
  -- Two calls for one service.
  pub record Calls : Type 0 where
    pub shared : Shared W
    pub first : Phase
    pub second : Phase

  unfoldable pub move : Str → ℕ → Mover → Calls → Calls
  move service now one c =
      let (s, p) = advance outside service now c.first c.shared in
      record c { shared = s; first = p }
  move service now two c =
      let (s, p) = advance outside service now c.second c.shared in
      record c { shared = s; second = p }

  -- the movers in their order, each with the time of the clock
  unfoldable pub run : Str → List (Mover × ℕ) → Calls → Calls
  unfolding move
  run service [] c = c
  run service ((m, now) ∷ ms) c = run service ms (move service now m c)

  -- The client takes every request for the service; `posts` counts its requests, and nothing else
  -- that a call does changes the count.
  pub record Counts (service : Str) (posts : W → ℕ) : Type 0 where
    pub takes : (w : W) → (outside.post (reboot_path service) w).1 ≡ none
    pub counts : (w : W) → posts (outside.post (reboot_path service) w).0 ≡ posts w + 1
    pub mkdir_keeps : (d : Str) (w : W) → posts (outside.mkdir_all d w) ≡ posts w
    pub write_keeps : (f b : Str) (w : W) → posts (outside.write_file f b w) ≡ posts w

  module _ (service : Str) (posts : W → ℕ) (client : Counts service posts) where
    save_keeps : (s : Shared W) → posts (save_cooldowns outside s).world ≡ posts s.world
    unfolding save_cooldowns
    save_keeps s = elim (Option-cases (outside.marshal s.last_reboot)) [
      | inl nothing ↦ rw nothing (client.mkdir_keeps (codes "data") s.world)
      | inr (b, text) ↦ rw text (
          client.write_keeps (codes "data/mcp_cooldowns.json") b
            (outside.mkdir_all (codes "data") s.world)
          ∙ client.mkdir_keeps (codes "data") s.world)
    ]

    advance-Stage :
        (now k n : ℕ) (p : Phase) (s : Shared W)
        → Stage k n p
        → (n' : ℕ) × Stage (k - 1) n' (advance outside service now p s).1
          × (posts (advance outside service now p s).0.world + n' ≡ posts s.world + n)
    unfolding advance post_reboot
    advance-Stage now k n p s posting =
        (0, rw (client.takes s.world) marking, omega (arith, client.counts s.world))
    advance-Stage now k n p s marking = (0, saving, refl)
    advance-Stage now k n p s saving = (0, over, omega (arith, save_keeps s))
    advance-Stage now k n p s over = (0, over, refl)

    run-Stage :
        (ms : List (Mover × ℕ)) (c : Calls) (k n l m : ℕ)
        → Stage k n c.first
        → Stage l m c.second
        → (n' : ℕ) × (m' : ℕ) × Stage (k - moves one ms) n' (run service ms c).first
          × Stage (l - moves two ms) m' (run service ms c).second
          × (posts (run service ms c).shared.world + (n' + m') ≡ posts c.shared.world + (n + m))
    unfolding run move
    run-Stage [] c k n l m h h' = (
      n,
      m,
      subst (λ i. Stage i n c.first) (omega arith) h,
      subst (λ i. Stage i m c.second) (omega arith) h',
      refl,
    )
    run-Stage ((one, now) ∷ ms) c k n l m h h' =
        let (n1, h1, e1) = advance-Stage now k n c.first c.shared h in
        let (n2, m2, h2, h2', e2) = run-Stage ms (move service now one c) (k - 1) n1 l m h1 h' in
        (
          n2,
          m2,
          subst (λ i. Stage i n2 (run service ((one, now) ∷ ms) c).first) (omega arith) h2,
          h2',
          omega (arith, e1, e2),
        )
    run-Stage ((two, now) ∷ ms) c k n l m h h' =
        let (n1, h1, e1) = advance-Stage now l m c.second c.shared h' in
        let (n2, m2, h2, h2', e2) = run-Stage ms (move service now two c) k n (l - 1) n1 h h1 in
        (
          n2,
          m2,
          h2,
          subst (λ i. Stage i m2 (run service ((two, now) ∷ ms) c).second) (omega arith) h2',
          omega (arith, e1, e2),
        )

    -- the two calls after their tests at the two times, in one order or the other, and the moves
    abbrev pub raced : Mover → ℕ → ℕ → List (Mover × ℕ) → Shared W → Calls
    raced m t1 t2 ms s =
        run service ((m, t1) ∷ (other_one m, t2) ∷ ms)
          (record { shared = s; first = to_check; second = to_check })

    tests_pass :
        (m : Mover) (t1 t2 : ℕ) (ms : List (Mover × ℕ)) (s : Shared W)
        → is_cooling (s.last_reboot service) t1 ≡ false
        → is_cooling (s.last_reboot service) t2 ≡ false
        → raced m t1 t2 ms s
          ≡ run service ms (record { shared = s; first = to_post; second = to_post })
    unfolding run move advance check
    tests_pass one t1 t2 ms s h1 h2 = rw (h1, h2) refl
    tests_pass two t1 t2 ms s h1 h2 = rw (h1, h2) refl

    -- Two calls for a service run their tests first, in either order, at times at which it is not
    -- cooling down, and then their other sections in any order and at any times, each of them to
    -- its end. If the client takes every request, and counts its requests in a number that nothing
    -- else in the calls changes, then it gets two requests to reboot the server, and both calls
    -- answer that the reboot is initiated.
    pub ovh_reboot_race :
        (m : Mover) (t1 t2 : ℕ) (ms : List (Mover × ℕ)) (s : Shared W)
        → is_cooling (s.last_reboot service) t1 ≡ false
        → is_cooling (s.last_reboot service) t2 ≡ false
        → 3 ≤ moves one ms
        → 3 ≤ moves two ms
        → (posts (raced m t1 t2 ms s).shared.world ≡ posts s.world + 2)
          × ((raced m t1 t2 ms s).first ≡ ended initiated)
          × ((raced m t1 t2 ms s).second ≡ ended initiated)
    ovh_reboot_race m t1 t2 ms s h1 h2 k1 k2 =
        let c : Calls = record { shared = s; first = to_post; second = to_post } in
        let (n, l, first, second, e) = run-Stage ms c 3 1 3 1 posting posting in
        let (n0, p) =
          Stage-end (subst (λ i. Stage i n (run service ms c).first) (omega arith) first) in
        let (l0, q) =
          Stage-end (subst (λ i. Stage i l (run service ms c).second) (omega arith) second) in
        rw (tests_pass m t1 t2 ms s h1 h2) (omega (arith, e, n0, l0), p, q)
