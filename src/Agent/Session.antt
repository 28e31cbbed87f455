-- ===== src/Agent/Session.antt =====
-- The agent's lifecycle: `runWithConnection` and the reconnection loop of `Start` in
-- agent/internal/agent/agent.go, over the events in the order in which `select` takes them.
pub mod Backoff
pub mod Invariant
pub mod Ledger
pub mod Handled
pub mod Journal
pub mod Requests
use ex_gocd.Base.{
  ℕ, ◌*◌, Bool, true, false, List, [], ◌∷◌, Result, ok, err, ltb, ◌||◌, is_positive, if◌then◌else◌,
}
use ex_gocd.Protocol.{Message}
use ex_gocd.Agent.{Fault, panic, Host, Agent}
use ex_gocd.Agent.Messages.{send_join, send_ping, handle_message}

pub data Event : Type 0 where
  context_done ping_tick receive_closed : Event
  received : Message → Event

-- How a connection ends: cleanly, with an error, by a panic that ends the program, of the handling
-- of a message or of `NewTicker`; or the events given leave it open.
pub data Outcome : Type 0 where
  clean lost crashed no_ticker still_open : Outcome

-- A panic ends the program; any other error of `handleMessage` is only logged.
unfoldable pub unless_panic : Result Fault (Unit {0}) → Agent → Outcome × Agent → Outcome × Agent
unless_panic (err panic) a rest = (crashed, a)
unless_panic _ a rest = rest

module _ (h : Host) where
  -- The event loop.
  unfoldable pub run_events : List Event → Agent → Outcome × Agent
  run_events [] a = (still_open, a)
  run_events (context_done ∷ es) a = (clean, a)
  run_events (ping_tick ∷ es) a = run_events es (send_ping h a)
  run_events (receive_closed ∷ es) a = (lost, a)
  run_events (received msg ∷ es) a =
      let (r, a') = handle_message h msg a in let rest = run_events es a' in unless_panic r a' rest

  -- A new connection has no cookie; the join is sent once. `NewTicker` panics unless the interval is
  -- positive.
  unfoldable pub run_with_connection : Bool → List Event → Agent → Outcome × Agent
  run_with_connection false es a = (lost, a)
  run_with_connection true es a =
      let joined = send_join h (record a { conn_cookie = [] }) in
      let over = run_events es joined in
      if is_positive a.config.heartbeat_interval then over else (no_ticker, joined)

-- One round of the loop of `Start`, as its surroundings decide it: is the context done before, does
-- the connection succeed, what happens on it, is the context done behind it, and is it done before
-- the wait is over.
pub record Attempt : Type 0 where
  pub done_before : Bool
  pub connects : Bool
  pub events : List Event
  pub done_after : Bool
  pub done_waiting : Bool

pub data End : Type 0 where
  shut_down died ticker_refused going_on : End

-- A second in nanoseconds.
abbrev pub second : ℕ
second = 1000000000

abbrev pub first_delay : ℕ
first_delay = 2 * second

abbrev pub max_retry_delay : ℕ
max_retry_delay = 60 * second

unfoldable pub next_delay : ℕ → ℕ
next_delay delay = if ltb max_retry_delay (delay * 2) then max_retry_delay else delay * 2

-- The rounds, the delays waited in full, and the agent behind them.
pub record Journey : Type 0 where
  pub stop : End
  pub delays : List ℕ
  pub agent : Agent

abbrev pub stopped : End → Agent → Journey
stopped e a = record { stop = e; delays = []; agent = a }

-- What follows a connection: `again` is the rest of the loop.
unfoldable pub behind : ℕ → Attempt → Outcome → Agent → Journey → Journey
behind delay t clean a again = stopped shut_down a
behind delay t crashed a again = stopped died a
behind delay t no_ticker a again = stopped ticker_refused a
behind delay t still_open a again = stopped going_on a
behind delay t lost a again =
    if t.done_after || t.done_waiting
    then stopped shut_down a
    else record again { delays = delay ∷ again.delays }

module _ (h : Host) where
  unfoldable pub rounds : ℕ → List Attempt → Agent → Journey
  rounds delay [] a = stopped going_on a
  rounds delay (t ∷ ts) a =
      let (o, a') = run_with_connection h t.connects t.events a in
      let again = rounds (next_delay delay) ts a' in
      if t.done_before then stopped shut_down a else behind delay t o a' again

  -- The loop of `Start` behind the registration.
  unfoldable pub start : List Attempt → Agent → Journey
  start attempts a = rounds first_delay attempts a
