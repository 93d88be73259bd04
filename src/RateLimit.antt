-- ===== src/RateLimit.antt =====
-- internal/core/middleware/ratelimit.go: the limiter of requests per address.
pub mod Visitors
mod Tests
use serveo_api_golang.Prelude.{
  zero, suc, ℕ, ◌+◌, ◌-◌, ◌*◌, ◌%◌, ◌^◌, Bool, true, false, not, Option, none, some, List, [], ◌∷◌,
  if◌then◌else◌, ltb, ◌==◌,
}
use serveo_api_golang.Text.{Str, codes, text_eq, trim_space, cut}
use serveo_api_golang.Text.Number.{ℤ, pos, negsuc}
use serveo_api_golang.Http.{Request, Handler, Response, send_error}

-- golang.org/x/time/rate: NewLimiter of a rate and the 64 bits of a burst, and Allow at a time in
-- nanoseconds, which changes the limiter
pub record Rate : Type 1 where
  pub Limiter : Type 0
  pub new_limiter : ℕ → ℕ → Limiter
  pub allow : ℕ → Limiter → Limiter × Bool

-- visitor; the limiter is a pointer, given by its address
pub record Visitor : Type 0 where
  pub limiter : ℕ
  pub last_seen : ℕ

abbrev pub Visitors : Type 0
Visitors = List (Str × Visitor)

unfoldable pub find_visitor : Str → Visitors → Option Visitor
find_visitor ip [] = none
find_visitor ip ((k, v) ∷ rest) = if text_eq k ip then some v else find_visitor ip rest

-- `v.lastSeen = time.Now()`
unfoldable pub seen : Str → ℕ → Visitors → Visitors
seen ip now [] = []
seen ip now ((k, v) ∷ rest) =
    let later = seen ip now rest in
    if text_eq k ip then (k, record v { last_seen = now }) ∷ rest else (k, v) ∷ later

abbrev pub minute : ℕ
minute = 60 * 10 ^ 9

-- the loop of cleanupVisitors
unfoldable pub recent : ℕ → Visitors → Visitors
recent now [] = []
recent now ((ip, v) ∷ rest) =
    let later = recent now rest in
    if ltb (3 * minute) (now - v.last_seen) then later else (ip, v) ∷ later

-- clientIP; `split_host_port` gives the host of net.SplitHostPort
unfoldable pub client_ip : (Str → Option Str) → Bool → Request → Str
client_ip split_host_port trust_proxy r =
    let remote : Str = elim (split_host_port r.remote_addr) [
      | none ↦ r.remote_addr
      | some ip ↦ ip
    ] in
    let forwarded = r.header (codes "X-Forwarded-For") in
    let first : Str = elim (cut forwarded b',') [ none ↦ forwarded | some (ip, rest) ↦ ip ] in
    let real = trim_space (r.header (codes "X-Real-Ip")) in
    if not trust_proxy
    then remote
    else if not (text_eq (trim_space first) [])
    then trim_space first
    else if not (text_eq real [])
    then real
    else remote

-- the rate of RateLimit, from the configuration
unfoldable pub effective_rps : ℤ → ℕ
effective_rps (pos zero) = 10
effective_rps (pos (suc n)) = suc n
effective_rps (negsuc n) = 10

module _ (R : Rate) where
  open R use {Limiter, new_limiter, allow}

  -- The variable visitors, and the limiters by their addresses.
  pub record State : Type 0 where
    pub visitors : Visitors
    pub limiters : ℕ → Option Limiter
    pub next_address : ℕ

  abbrev pub start : State
  start = record { visitors = []; limiters = (λ a. none); next_address = 0 }

  abbrev put_limiter : ℕ → Limiter → (ℕ → Option Limiter) → ℕ → Option Limiter
  put_limiter a l limiters b = if a == b then some l else limiters b

  -- getVisitor, which holds the mutex
  unfoldable pub get_visitor : Str → ℕ → ℕ → State → State × ℕ
  unfolding seen
  get_visitor ip rps now s = elim (find_visitor ip s.visitors) [
    | some v ↦ (record s { visitors = seen ip now s.visitors }, v.limiter)
    | none ↦ (
      record {
        visitors = (ip, record { limiter = s.next_address; last_seen = now }) ∷ s.visitors;
        limiters = put_limiter s.next_address (new_limiter rps (rps * 2 % 2 ^ 64)) s.limiters;
        next_address = s.next_address + 1;
      },
      s.next_address,
    )
  ]

  -- limiter.Allow(), which the limiter's own mutex makes one step
  unfoldable pub take_token : ℕ → ℕ → State → State × Bool
  take_token address now s = elim (s.limiters address) [
    | none ↦ (s, false)
    | some l ↦
        let (l', granted) = allow now l in
        (record s { limiters = put_limiter address l' s.limiters }, granted)
  ]

  -- one round of cleanupVisitors
  unfoldable pub cleanup : ℕ → State → State
  unfolding recent
  cleanup now s = record s { visitors = recent now s.visitors }

  -- RateLimit, where nothing comes between getVisitor and Allow
  unfoldable pub rate_limit :
      {T A : Type 0} → (Str → Option Str) → Bool → ℤ → ℕ → Handler T A → Handler (State × T) A
  unfolding client_ip effective_rps
  rate_limit split_host_port trust_proxy rate now next r (s, t) =
      let (s1, address) =
        get_visitor (client_ip split_host_port trust_proxy r) (effective_rps rate) now s in
      let (s2, granted) = take_token address now s1 in
      let (t', answer) = next r t in
      if not granted
      then ((s2, t), send_error 429 (codes "Rate limit exceeded. Try again later."))
      else ((s2, t'), answer)
