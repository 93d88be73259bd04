-- ===== src/Auth/Tickets/Tests.antt =====
-- Tickets in an empty store.
use serveo_api_golang.Prelude.{◌≡◌, ◌≢◌, none, some, List, [], ◌∷◌, arith}
use serveo_api_golang.Text.{codes}
use serveo_api_golang.Text.Hex.{hex_encode}
use serveo_api_golang.Auth.Tickets.{TicketStore, generate_ticket, consume_ticket}
use serveo_api_golang.Auth.Tickets.SingleUse.{
  Event, generated, consumed, cleaned, run, consume_ticket-single_use,
  consume_ticket-generate_ticket,
}

abbrev empty : TicketStore
empty ticket = none

abbrev traffic : List Event
traffic = generated none 5 (codes "b") ∷ cleaned 60 ∷ consumed (codes "other") 9 ∷ []

other_ticket : codes "other" ≢ hex_encode (171 ∷ [])
unfolding hex_encode
other_ticket e = cc

consume_ticket-single_use_example :
    (consume_ticket (hex_encode (171 ∷ [])) 9 (
      run
        (consume_ticket
          (hex_encode (171 ∷ []))
          7
          (generate_ticket (some (171 ∷ [])) 5 (codes "a") empty).0).0
        traffic)).1
    ≡ none
consume_ticket-single_use_example =
    consume_ticket-single_use (hex_encode (171 ∷ [])) 7 9
      (generate_ticket (some (171 ∷ [])) 5 (codes "a") empty).0 traffic (tt, (tt, (tt, tt)))

consume_ticket-generate_ticket_example :
    (consume_ticket
      (hex_encode (171 ∷ []))
      30000000005
      (run (generate_ticket (some (171 ∷ [])) 5 (codes "a") empty).0 traffic)).1
    ≡ some (codes "a")
consume_ticket-generate_ticket_example =
    consume_ticket-generate_ticket (171 ∷ []) 5 30000000005 (codes "a") empty traffic
      (tt, (omega arith, (other_ticket, tt)))
