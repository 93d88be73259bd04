-- ===== src/RateLimit/Tests.antt =====
-- Two clients.
use serveo_api_golang.Prelude.{ℕ, ◌≡◌, refl, true, none, [], if◌then◌else◌, arith, ltb, ◌-◌}
use serveo_api_golang.Text.{Str, codes, text_eq, trim_space, cut}
use serveo_api_golang.RateLimit.{
  Rate, Visitor, State, start, find_visitor, get_visitor, take_token, client_ip,
}
use serveo_api_golang.RateLimit.Visitors.{
  Reachable, started, then_step, visit, take, take_token-unshared,
}

-- a bucket of tokens that is never filled up
abbrev bucket : Rate
bucket = record {
  Limiter = ℕ;
  new_limiter = λ rate burst. burst;
  allow = λ now tokens. (tokens - 1, ltb 0 tokens);
}

abbrev one_client : State bucket
one_client = (get_visitor bucket (codes "10.0.0.1") 10 100 (start bucket)).0

abbrev after_one : State bucket
after_one = (take_token bucket 0 100 one_client).0

abbrev two_clients : State bucket
two_clients = (get_visitor bucket (codes "10.0.0.2") 10 200 after_one).0

two_clients-Reachable : Reachable bucket two_clients
two_clients-Reachable =
    then_step (then_step (then_step started (visit (codes "10.0.0.1") 10 100)) (take 0 100))
      (visit (codes "10.0.0.2") 10 200)

abbrev second : Visitor
second = record { limiter = 1; last_seen = 200 }

abbrev first : Visitor
first = record { limiter = 0; last_seen = 100 }

take_token-unshared_example :
    (take_token bucket 0 300 two_clients).0.limiters 1 ≡ two_clients.limiters 1
unfolding get_visitor take_token find_visitor text_eq
take_token-unshared_example =
    take_token-unshared bucket two_clients (codes "10.0.0.2") (codes "10.0.0.1") second first 300
      two_clients-Reachable refl refl (λ e. ground arith)

abbrev headers : Str → Str
headers name = if text_eq name (codes "X-Forwarded-For") then codes " 1.2.3.4 , 10.0.0.1" else []

-- Behind a trusted proxy the client is the first address of the header, which the client writes.
forwarded :
    client_ip
      (λ a. none)
      true
      (record {
        method = codes "GET";
        remote_addr = codes "10.0.0.9:1";
        header = headers;
        query = λ name. [];
        path_value = λ name. [];
        context = record { user_id = none; user_permissions = none };
      })
    ≡ codes "1.2.3.4"
unfolding client_ip text_eq trim_space cut
forwarded = refl
