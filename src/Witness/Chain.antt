-- ===== src/Witness/Chain.antt =====
-- A delivery that fails once, and one that the receiver refuses.
use openedx_webhook_relay.Base.{
  ℕ, ◌≤◌, ◌≡◌, refl, ap, some, true, false, [], ◌∷◌, ◌++◌, arith, strip_prefix, split_dots,
}
use openedx_webhook_relay.Json.{truthy}
use openedx_webhook_relay.Json.Dict.{get, put, pop}
use openedx_webhook_relay.Security.{event_data_key}
use openedx_webhook_relay.Security.Nested.{delete_path, delete_nested_path}
use openedx_webhook_relay.Security.Allowlist.{keep_whole, keep_path, keep_paths, apply_allowlist}
use openedx_webhook_relay.Security.Denylist.{drop_nested, drop_path, drop_paths, apply_denylist}
use openedx_webhook_relay.Security.Passing.{first_status, should_send_passing_event}
use openedx_webhook_relay.Models.{Endpoint, Attempt, succeeded, find_row}
use openedx_webhook_relay.Secrets.{get_secret_backend, get_secret, effective_secret}
use openedx_webhook_relay.Tasks.{World, Ending, done}
use openedx_webhook_relay.Tasks.Shape.{shape_and_check, as_paths}
use openedx_webhook_relay.Tasks.Deliver.{if_enabled}
use openedx_webhook_relay.Tasks.Retries.{Meeting, asks_again}
use openedx_webhook_relay.Tasks.Recovery.{IsReady, chain_result, chain_ends, recovered_in_time}
use openedx_webhook_relay.Models.Circuit.Breaker.{Config, shut, tripped, Represents}
use openedx_webhook_relay.Tasks.{Moment, Request}
use openedx_webhook_relay.Tasks.Deliver.{deliver_webhook}
use openedx_webhook_relay.Tasks.Moves.{Stands}
use openedx_webhook_relay.Tasks.Failures.{IsUsable, IsExhausting, run_all}
use openedx_webhook_relay.Tasks.Outage.{IsRefusal, outage_opens}
use openedx_webhook_relay.Examples.{
  digests, client, settings, endpoint, request, world, answered, shaped_payload,
}

shapes : shape_and_check request.raw_payload endpoint ≡ some (shaped_payload, true)
unfolding shape_and_check as_paths apply_allowlist keep_paths keep_path keep_whole apply_denylist
    drop_paths drop_path drop_nested strip_prefix split_dots event_data_key get put pop delete_path
    delete_nested_path should_send_passing_event first_status truthy
shapes = refl

found : if_enabled (find_row world.endpoints request.endpoint_id) ≡ some endpoint
unfolding find_row
found = refl

found_row : find_row world.endpoints 7 ≡ some endpoint
unfolding find_row
found_row = refl

has_secret : effective_secret client settings false 0 endpoint ≡ some "s3cret"
unfolding effective_secret get_secret get_secret_backend
has_secret = refl

allows_three :
    (e : Endpoint)
    → if_enabled (find_row world.endpoints request.endpoint_id) ≡ some e
    → e.max_retries ≤ 3
allows_three e h =
    let same : endpoint ≡ e = cc (found, h) in
    omega (arith, ap (λ (r : Endpoint). r.max_retries) same)

abbrev meeting : ℕ → Meeting
meeting code = (request.raw_payload, world, answered code)

chain_ends_example :
    (r : Ending × World) × (chain_result digests client 0 false settings request
        (meeting 503 ∷ meeting 500 ∷ meeting 503 ∷ [])
      ≡ some r)
    × (asks_again r.0 ≡ false)
chain_ends_example =
    chain_ends digests client 0 false settings request 3
      (meeting 503 ∷ meeting 500 ∷ meeting 503 ∷ [])
      (allows_three, (allows_three, (allows_three, tt))) (omega arith)

ready : (code : ℕ) → IsReady digests client 0 false settings 7 3 (meeting code)
ready code = record {
  endpoint = endpoint;
  payload = shaped_payload;
  secret = "s3cret";
  is_found = found;
  allows = refl;
  passes = refl;
  is_shaped = shapes;
  has_headers = refl;
  has_secret = has_secret;
}

recovered_in_time_example :
    (w' : World) × (chain_result digests client 0 false settings request
        ((meeting 503 ∷ meeting 429 ∷ []) ++ meeting 200 ∷ [])
      ≡ some (done, w'))
    × (row : Attempt) × (w'.attempts ≡ [] ++ row ∷ [])
    × (row.status ≡ succeeded)
    × (row.attempt_number ≡ 3)
    × (row.correlation_id ≡ "5f0c")
recovered_in_time_example =
    recovered_in_time digests client 0 false settings request 3 (meeting 503 ∷ meeting 429 ∷ [])
      (meeting 200) [] ((ready 503, refl), ((ready 429, refl), tt)) (ready 200) refl (omega arith)

abbrev config : Config
config = record { switched_on = true; threshold = 2; cooldown = 60 }

stands : Represents config endpoint (shut 0)
stands = record { switched = refl; at_threshold = refl; cools = refl; state = refl; reached = refl }

usable : IsUsable client 0 false settings endpoint
usable = record { enabled = refl; has_headers = refl; secret = "s3cret"; has_secret = has_secret }

-- A third attempt, to which the receiver answers 503.
abbrev third_attempt : Request × Moment
third_attempt = (record request { retries = 2 }, answered 503)

exhausts : IsExhausting endpoint third_attempt
exhausts = record { own = refl; payload = shaped_payload; is_shaped = shapes; last = refl }

outage_opens_example :
    Stands config 7
      (run_all config digests client 0 false settings
        ((third_attempt ∷ []) ++ third_attempt ∷ [])
        world).endpoints
      (tripped 2 3000)
    × IsRefusal
        (run_all config digests client 0 false settings
          ((third_attempt ∷ []) ++ third_attempt ∷ [])
          world)
        (deliver_webhook digests client 0 false settings (answered 200) request (
          run_all config digests client 0 false settings
            ((third_attempt ∷ []) ++ third_attempt ∷ [])
            world))
outage_opens_example =
    outage_opens config digests client 0 false settings world 7 0 endpoint (third_attempt ∷ [])
      third_attempt (request, answered 200) shaped_payload found_row stands usable (exhausts, tt)
      exhausts refl refl refl refl shapes (omega arith)
