-- ===== src/Tests/Sessions.antt =====
-- Tests of the agent's lifecycle: agent/internal/agent/agent.go.
use ex_gocd.Base.{◌≡◌, ◌*◌, refl, inr, none, List, [], ◌∷◌, ◌++◌, map, All, length, arith}
use ex_gocd.Text.{codes, ◌==◌}
use ex_gocd.Text.Laws.{==_iff}
use ex_gocd.Json.{decode_field}
use ex_gocd.Protocol.{Message, build_action, set_cookie_action, reregister_action}
use ex_gocd.Protocol.Decode.{data_string, data_build}
use ex_gocd.Agent.{idle}
use ex_gocd.Agent.Checks.Laws.{IsTrusted}
use ex_gocd.Agent.Build.{handle_build, build_result, has_work, idle_wait, conclude}
use ex_gocd.Agent.Messages.{handle_message, set_cookie}
use ex_gocd.Agent.Session.{
  unless_panic, Event, ping_tick, receive_closed, received, still_open, run_events, start, going_on,
  rounds, next_delay, behind, run_with_connection, second,
}
use ex_gocd.Agent.Session.Backoff.{Follows, start-Follows, start_of_refused}
use ex_gocd.Agent.Session.Requests.{
  requested_urls, cancelled_builds, start-IsTrusted, start-never_cancels, run_events_goes_on,
  PingsBehind, ping_carries_cookie,
}
use ex_gocd.Agent.Session.Ledger.{free, ledger, ledger_of}
use ex_gocd.Agent.Session.Journal.{
  IsSettled, IsReported, assigned, done_of, start-IsSettled, run_events-IsReported,
}
use ex_gocd.Tests.Fixtures.{
  host, config, agent, bare, cookie_message, build_message, refused, tries,
}

start-IsTrusted_example :
    All (IsTrusted host config) (requested_urls (start host tries agent).agent.trace)
start-IsTrusted_example = start-IsTrusted host config tries

start-never_cancels_example :
    let a = (start host tries agent).agent in
    (cancelled_builds a.trace ≡ [])
    × (a.state ≡ idle)
    × (a.current_build ≡ [])
    × (a.cancel_fn ≡ none)
start-never_cancels_example = start-never_cancels host config tries

run_events_goes_on_example :
    run_events host
      (received (bare (codes "phx_close") none) ∷ ping_tick ∷ receive_closed ∷ [])
      agent
    ≡ run_events host (ping_tick ∷ receive_closed ∷ []) agent
run_events_goes_on_example =
    run_events_goes_on host (bare (codes "phx_close") none) (ping_tick ∷ receive_closed ∷ []) agent
      (inr refl)

-- A build and a request to register again come in between.
abbrev in_between : List Message
in_between = bare build_action none ∷ bare reregister_action none ∷ []

stays_open :
    (run_events host (received cookie_message ∷ map received in_between) agent).0 ≡ still_open
unfolding run_events handle_message unless_panic ◌==◌ set_cookie data_build handle_build
    build_result has_work idle_wait conclude decode_field
stays_open = refl

ping_carries_cookie_example :
    PingsBehind
      (data_string cookie_message)
      (run_events host (received cookie_message ∷ map received in_between) agent).1.trace
      (run_events host
        (received cookie_message ∷ map received in_between ++ ping_tick ∷ [])
        agent).1.trace
ping_carries_cookie_example =
    ping_carries_cookie host cookie_message in_between agent refl
      (λ e. absurd (ground (arith, ==_iff build_action set_cookie_action)), (λ e. cc, tt))
      stays_open

start-Follows_example : Follows 0 (start host tries agent).delays
start-Follows_example = start-Follows host tries agent

start_of_refused_example :
    ((start host (refused ∷ refused ∷ []) agent).stop ≡ going_on)
    × (length (start host (refused ∷ refused ∷ []) agent).delays ≡ 2)
    × ((start host (refused ∷ refused ∷ []) agent).agent ≡ agent)
start_of_refused_example =
    start_of_refused host (refused ∷ refused ∷ []) agent
      ((refl, refl, refl, refl), ((refl, refl, refl, refl), tt))

-- The waits behind six refused connections.
delays_of_refused :
    (start host (refused ∷ refused ∷ refused ∷ refused ∷ refused ∷ refused ∷ []) agent).delays
    ≡ 2 * second ∷ 4 * second ∷ 8 * second ∷ 16 * second ∷ 32 * second ∷ 60 * second ∷ []
unfolding start rounds next_delay behind run_with_connection
delays_of_refused = refl

start-IsSettled_example :
    IsSettled (start host tries agent).stop (ledger_of (start host tries agent).agent)
start-IsSettled_example = start-IsSettled host tries config

abbrev one_build : List Event
one_build = received cookie_message ∷ ping_tick ∷ received build_message ∷ receive_closed ∷ []

fresh : (ledger_of agent).phase ≡ free
unfolding ledger
fresh = refl

run_events-IsReported_example :
    IsReported
      (run_events host one_build agent).0
      (done_of (ledger_of agent))
      (assigned one_build)
      (ledger_of (run_events host one_build agent).1)
run_events-IsReported_example = run_events-IsReported host one_build agent fresh
