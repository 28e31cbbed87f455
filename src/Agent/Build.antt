-- ===== src/Agent/Build.antt =====
-- `handleBuild` and `reportStatus` of agent/internal/agent/agent.go.
pub mod Reports
use ex_gocd.Base.{
  Bool, true, false, not, ◌&&◌, ◌||◌, Option, none, some, List, [], ◌∷◌, Result, ok, err,
  if◌then◌else◌,
}
use ex_gocd.Text.{Text, codes, ◌==◌}
use ex_gocd.Protocol.{
  Message, Report, BuildCommand, none_set, command, nil, cons, Build, report_completed_message,
  report_completing_message, report_current_status_message,
}
use ex_gocd.Agent.{
  Fault, canceled, panic, sent, Host, Agent, Act, record_effect, get_runtime_info, idle, building,
}
use ex_gocd.Agent.Commands.{run_build_command}

abbrev pub passed : Text
passed = codes "Passed"

abbrev failed : Text
failed = codes "Failed"

abbrev cancelled : Text
cancelled = codes "Cancelled"

abbrev pub completing : Text
completing = codes "Completing"

abbrev pub completed : Text
completed = codes "Completed"

-- `(c *Connection) Send`.
abbrev pub send : Message → Agent → Agent
send m a = record_effect (sent m) a

-- Is there a command or a subcommand to run?
unfoldable pub has_work : BuildCommand → Bool
has_work none_set = false
has_work (command fields nil on_cancel) = not (fields.command == [])
has_work (command fields (cons sub subs) on_cancel) = true

-- The result reported for the error of `runBuildCommand`; a panic is none.
unfoldable pub result_of : Result Fault (Unit {0}) → Result Fault Text
result_of (ok x) = ok passed
result_of (err canceled) = ok cancelled
result_of (err panic) = err panic
result_of (err e) = ok failed

-- An action that gives the result to report.
unfoldable pub judged : Act (Unit {0}) → Act Text
judged m a = (result_of (m a).0, (m a).1)

unfoldable pub begin_build : Build → Agent → Agent
begin_build build a = record a {
  state = building;
  current_build = build.build_id;
  cancel_fn = some build.build_id;
}

-- The deferred functions.
unfoldable pub end_build : Agent → Agent
end_build a = record a { state = idle; current_build = []; cancel_fn = none }

module _ (h : Host) where
  unfoldable pub status_report : Text → Text → Text → Agent → Report
  status_report build_id job_state result a = record {
    build_id = build_id;
    result = result;
    job_state = job_state;
    agent_runtime_info = some (get_runtime_info h a);
  }

  unfoldable pub status_message : Text → Text → Text → Agent → Message
  status_message build_id job_state result a =
      let report = status_report build_id job_state result a in
      if job_state == completed
      then report_completed_message report
      else if job_state == completing
      then report_completing_message report
      else report_current_status_message report

  unfoldable pub report_status : Text → Text → Text → Agent → Agent
  report_status build_id job_state result a = send (status_message build_id job_state result a) a

  -- Without work the build waits, and the context may be cancelled meanwhile.
  unfoldable pub idle_wait : Act Text
  idle_wait a = (if h.is_cancelled a.trace then ok cancelled else ok passed, a)

  unfoldable pub build_result : Build → Act Text
  build_result build =
      if has_work build.build_command then judged (run_build_command h build) else idle_wait

  unfoldable pub report_result : Text → Text → Agent → Agent
  report_result build_id result a =
      report_status build_id completed result (report_status build_id completing result a)

  -- The end of `handleBuild`; the deferred functions run behind a panic too.
  unfoldable pub conclude : Text → Result Fault Text → Agent → Result Fault (Unit {0}) × Agent
  conclude build_id (ok result) a = (ok tt, end_build (report_result build_id result a))
  conclude build_id (err e) a = (err e, end_build a)

  unfoldable pub handle_build : Build → Act (Unit {0})
  handle_build build a =
      let (r, a') =
        build_result build (report_status build.build_id building [] (begin_build build a)) in
      conclude build.build_id r a'
