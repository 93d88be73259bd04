-- ===== src/Auth/Tickets/SingleUse.antt =====
-- A ticket is good once, for thirty seconds, whatever other requests do in between.
use serveo_api_golang.Prelude.{
  ℕ, ◌+◌, ◌≤◌, ◌≡◌, ◌≢◌, Option, none, some, List, [], ◌∷◌, arith, All, if◌then◌else◌, ltb,
}
use serveo_api_golang.Text.{Str, text_eq_iff, text_eq_refl}
use serveo_api_golang.Text.Hex.{hex_encode}
use serveo_api_golang.Auth.Tickets.{
  TicketEntry, TicketStore, is_expired, clean, lifetime, generate_ticket, consume_ticket,
}

-- What goroutines do to the store.
pub data Event : Type 0 where
  generated : Option (List ℕ) → ℕ → Str → Event
  consumed : Str → ℕ → Event
  cleaned : ℕ → Event

unfoldable pub step : TicketStore → Event → TicketStore
unfolding generate_ticket consume_ticket clean
step tickets (generated random now token) = (generate_ticket random now token tickets).0
step tickets (consumed ticket now) = (consume_ticket ticket now tickets).0
step tickets (cleaned now) = clean now tickets

unfoldable pub run : TicketStore → List Event → TicketStore
unfolding step
run tickets [] = tickets
run tickets (e ∷ es) = run (step tickets e) es

-- The event does not give the ticket out again.
abbrev pub NotReissued : Str → Event → Type 0
NotReissued ticket (generated (some bytes) now token) = hex_encode bytes ≢ ticket
NotReissued ticket _ = Unit

-- The event does not consume the ticket or give it out again, nor clean after a time.
abbrev pub Untouched : Str → ℕ → Event → Type 0
Untouched ticket until (generated (some bytes) now token) = hex_encode bytes ≢ ticket
Untouched ticket until (generated none now token) = Unit
Untouched ticket until (consumed other now) = other ≢ ticket
Untouched ticket until (cleaned now) = now ≤ until

step_absent :
    (ticket : Str) (e : Event) (tickets : TicketStore)
    → NotReissued ticket e
    → tickets ticket ≡ none
    → step tickets e ticket ≡ none
unfolding step
step_absent ticket (generated none now token) tickets n h = h
step_absent ticket (generated (some bytes) now token) tickets n h =
    ground (arith, text_eq_iff ticket (hex_encode bytes))
step_absent ticket (consumed other now) tickets n h = ground arith
step_absent ticket (cleaned now) tickets n h = ground arith

run_absent :
    (ticket : Str) (es : List Event) (tickets : TicketStore)
    → All (NotReissued ticket) es
    → tickets ticket ≡ none
    → run tickets es ticket ≡ none
unfolding run
run_absent ticket [] tickets n h = h
run_absent ticket (e ∷ es) tickets (n, ns) h =
    run_absent ticket es (step tickets e) ns (step_absent ticket e tickets n h)

consume_absent :
    (ticket : Str) (now : ℕ) (tickets : TicketStore)
    → tickets ticket ≡ none
    → (consume_ticket ticket now tickets).1 ≡ none
unfolding consume_ticket
consume_absent ticket now tickets h = ground arith

deleted :
    (ticket : Str) (now : ℕ) (tickets : TicketStore)
    → (consume_ticket ticket now tickets).0 ticket ≡ none
unfolding consume_ticket
deleted ticket now tickets = ground (arith, text_eq_refl ticket)

-- After one ConsumeTicket of a ticket, successful or not, and any events of which none gives the
-- ticket out again, every further ConsumeTicket of it fails, at whatever time.
pub consume_ticket-single_use :
    (ticket : Str) (now later : ℕ) (tickets : TicketStore) (es : List Event)
    → All (NotReissued ticket) es
    → (consume_ticket ticket later (run (consume_ticket ticket now tickets).0 es)).1 ≡ none
consume_ticket-single_use ticket now later tickets es n =
    consume_absent ticket later (run (consume_ticket ticket now tickets).0 es)
      (run_absent ticket es (consume_ticket ticket now tickets).0 n (deleted ticket now tickets))

step_kept :
    (ticket : Str) (entry : TicketEntry) (e : Event) (tickets : TicketStore)
    → Untouched ticket entry.expires_at e
    → tickets ticket ≡ some entry
    → step tickets e ticket ≡ some entry
unfolding step is_expired
step_kept ticket entry (generated none now token) tickets n h = h
step_kept ticket entry (generated (some bytes) now token) tickets n h =
    ground (arith, text_eq_iff ticket (hex_encode bytes))
step_kept ticket entry (consumed other now) tickets n h = ground (arith, text_eq_iff ticket other)
step_kept ticket entry (cleaned now) tickets n h = ground arith

run_kept :
    (ticket : Str) (entry : TicketEntry) (es : List Event) (tickets : TicketStore)
    → All (Untouched ticket entry.expires_at) es
    → tickets ticket ≡ some entry
    → run tickets es ticket ≡ some entry
unfolding run
run_kept ticket entry [] tickets n h = h
run_kept ticket entry (e ∷ es) tickets (n, ns) h =
    run_kept ticket entry es (step tickets e) ns (step_kept ticket entry e tickets n h)

issued :
    (bytes : List ℕ) (now : ℕ) (token : Str) (tickets : TicketStore)
    → (generate_ticket (some bytes) now token tickets).0 (hex_encode bytes)
      ≡ some (record { token = token; expires_at = now + lifetime })
unfolding generate_ticket
issued bytes now token tickets = ground (arith, text_eq_refl (hex_encode bytes))

-- A ticket that was given out gives back its token exactly up to thirty seconds later, whatever
-- was done in between to other tickets, and however often the store was cleaned by then.
pub consume_ticket-generate_ticket :
    (bytes : List ℕ) (now later : ℕ) (token : Str) (tickets : TicketStore) (es : List Event)
    → All (Untouched (hex_encode bytes) (now + lifetime)) es
    → (consume_ticket
        (hex_encode bytes)
        later
        (run (generate_ticket (some bytes) now token tickets).0 es)).1
      ≡ (if ltb (now + lifetime) later then none else some token)
unfolding consume_ticket is_expired
consume_ticket-generate_ticket bytes now later token tickets es n = ground (
  arith,
  run_kept (hex_encode bytes) (record { token = token; expires_at = now + lifetime }) es
      (generate_ticket (some bytes) now token tickets).0 n (issued bytes now token tickets),
)
