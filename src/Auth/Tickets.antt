-- ===== src/Auth/Tickets.antt =====
-- internal/modules/v2/auth/tickets.go: the store of one-time tickets, and GetTicket of handler.go.
-- The store is a sync.Map, whose operations are atomic: concurrent requests are a sequence of
-- them. Times are in nanoseconds.
pub mod SingleUse
mod Tests
use serveo_api_golang.Prelude.{
  ℕ, ◌+◌, ◌*◌, ◌^◌, Bool, Option, none, some, List, [], ◌∷◌, if◌then◌else◌, ltb,
}
use serveo_api_golang.Text.{Str, codes, text_eq}
use serveo_api_golang.Text.Hex.{hex_encode}
use serveo_api_golang.Http.{Response, send_error, send_json}

-- ticketEntry
pub record TicketEntry : Type 0 where
  pub token : Str
  pub expires_at : ℕ

abbrev pub TicketStore : Type 0
TicketStore = Str → Option TicketEntry

unfoldable pub store : TicketStore → Str → TicketEntry → TicketStore
store tickets key entry ticket = if text_eq ticket key then some entry else tickets ticket

unfoldable pub delete : TicketStore → Str → TicketStore
delete tickets key ticket = if text_eq ticket key then none else tickets ticket

-- now.After(entry.ExpiresAt)
unfoldable pub is_expired : ℕ → TicketEntry → Bool
is_expired now entry = ltb entry.expires_at now

abbrev pub unless_expired : ℕ → Option TicketEntry → Option TicketEntry
unless_expired now none = none
unless_expired now (some entry) = if is_expired now entry then none else some entry

-- one round of the cleaning goroutine, its Range with the Deletes, taken as one step
unfoldable pub clean : ℕ → TicketStore → TicketStore
clean now tickets ticket = unless_expired now (tickets ticket)

abbrev pub lifetime : ℕ
lifetime = 30 * 10 ^ 9

-- GenerateTicket; `random` is what crypto/rand gives, `none` where it fails
unfoldable pub generate_ticket : Option (List ℕ) → ℕ → Str → TicketStore → TicketStore × Option Str
unfolding store
generate_ticket none now token_string tickets = (tickets, none)
generate_ticket (some bytes) now token_string tickets =
    let ticket = hex_encode bytes in
    (
      store tickets ticket (record { token = token_string; expires_at = now + lifetime }),
      some ticket,
    )

abbrev pub live_token : ℕ → Option TicketEntry → Option Str
live_token now none = none
live_token now (some entry) = if is_expired now entry then none else some entry.token

-- ConsumeTicket: LoadAndDelete, then the test of the time
unfoldable pub consume_ticket : Str → ℕ → TicketStore → TicketStore × Option Str
unfolding delete
consume_ticket ticket now tickets = (delete tickets ticket, live_token now (tickets ticket))

-- GetTicket, on the bearer token of the request
unfoldable pub get_ticket : Option (List ℕ) → ℕ → Str → TicketStore → TicketStore × Response Str
unfolding generate_ticket
get_ticket random now token_string tickets =
    if text_eq token_string []
    then (tickets, send_error 401 (codes "Missing token"))
    else elim (generate_ticket random now token_string tickets).1 [
      | none ↦ (tickets, send_error 500 (codes "Could not generate ticket"))
      | some ticket ↦ ((generate_ticket random now token_string tickets).0, send_json 200 ticket)
    ]
