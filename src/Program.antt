-- ===== src/Program.antt =====
-- The program: `main` (agent/main.go), `runAgent` (agent/cmd/root.go), and `New` and `Start` of
-- agent/internal/agent/agent.go, from the registration on.
pub mod Secured
pub mod Exits
use ex_gocd.Base.{ℕ, Bool, true, false, Option, none, some, List, Result, ok, err}
use ex_gocd.Text.{Text, codes}
use ex_gocd.Config.{Config, Environment, LoadError, load}
use ex_gocd.Registration.{World, Desk, Task, ◌>>=◌, ◌>>◌, give, wrapped}
use ex_gocd.Registration.Tls.{create_tls_config}
use ex_gocd.Registration.Flow.{register, load_or_generate_uuid}
use ex_gocd.Connection.Dial.{Dial, dial}
use ex_gocd.Agent.{Host, Agent, new_agent}
use ex_gocd.Agent.Session.{Attempt, End, shut_down, died, ticker_refused, going_on, Journey, start}

-- What the attempts to connect lead to, each of which dials alike.
abbrev pub Attempts : Type 0
Attempts = Dial → List Attempt

-- How the program ends, if it does: with a status, or by a panic.
pub data Exit : Type 0 where
  status : ℕ → Exit
  panicked : Exit
  running : Exit

pub record Run : Type 0 where
  pub exit : Exit
  pub journey : Option Journey
  pub desk : Desk

abbrev pub journey_of : Result Text Journey → Option Journey
journey_of (ok j) = some j
journey_of (err e) = none

-- The `select` of `runAgent`: when a signal came first, the error of `Start` is dropped.
unfoldable pub exit_of_end : End → Exit
exit_of_end shut_down = status 0
exit_of_end died = panicked
exit_of_end ticker_refused = panicked
exit_of_end going_on = running

unfoldable pub exit_of : Bool → Result Text Journey → Exit
exit_of signalled (ok j) = exit_of_end j.stop
exit_of true (err e) = status 0
exit_of false (err e) = status 1

module _ (w : World) (h : Host) where
  -- `New`; `new_id` is what the package uuid would generate.
  unfoldable pub new : Text → Config → Task Agent
  new new_id c = do c' ← load_or_generate_uuid w c new_id; give (ok (new_agent c'))

  -- `Start`.
  unfoldable pub register_and_start : Attempts → Agent → Task Journey
  register_and_start attempts a = do
    wrapped (codes "registration failed: ") (register w a.config)
    tls_config ← wrapped (codes "failed to create TLS config: ") (create_tls_config w a.config true)
    give (ok (start h (attempts (dial w.url_string a.config tls_config)) a))

  unfoldable pub run_start : Bool → Attempts → Result Text Agent × Desk → Run
  run_start signalled attempts (err e, s) = record { exit = status 1; journey = none; desk = s }
  run_start signalled attempts (ok a, s) =
      let (r, s') = register_and_start attempts a s in
      record { exit = exit_of signalled r; journey = journey_of r; desk = s' }

  unfoldable pub run_loaded : Text → Bool → Attempts → Desk → Result LoadError Config → Run
  run_loaded new_id signalled attempts s (err e) = record {
    exit = status 1;
    journey = none;
    desk = s;
  }
  run_loaded new_id signalled attempts s (ok c) = run_start signalled attempts (new new_id c s)

  -- `runAgent`; `signalled` says that a signal arrives before `Start` returns.
  unfoldable pub run_agent : Environment → Text → Bool → Attempts → Desk → Run
  run_agent env new_id signalled attempts s = run_loaded new_id signalled attempts s (load env)
