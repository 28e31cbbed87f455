-- ===== src/Agent/Commands.antt =====
-- Running a build's command tree: `runOneCommand`, `executeCommandTree` and `runBuildCommand` of
-- agent/internal/agent/agent.go.
pub mod Export
pub mod Leaves
use ex_gocd.Base.{
  Bool, true, false, not, ◌&&◌, Option, none, some, List, [], ◌∷◌, Result, ok, err, if◌then◌else◌,
}
use ex_gocd.Text.{Text, codes, ◌==◌}
use ex_gocd.FilePath.{clean, abs}
use ex_gocd.Json.{Json, as_text}
use ex_gocd.Protocol.{
  CommandFields, BuildCommand, none_set, command, BuildCommands, nil, cons, Build,
}
use ex_gocd.Agent.{
  Fault, canceled, panic, process_error, Invocation, invoked, Run, Start, up, cancelled_before,
  start_failed, Host, Agent, Act, ◌>>=◌, ◌>>◌, return, fail, asks, record_effect,
}
use ex_gocd.Agent.Console.{lift, stream_to_console}
use ex_gocd.Agent.Archive.{from_path}
use ex_gocd.Agent.Artifacts.{command_dir, run_upload_artifact, run_fetch_artifact}

-- The exported variables of a build, a map from names to values.
abbrev pub Env : Type 0
Env = List (Text × Text)

unfoldable pub assign : Text → Text → Env → Env
assign name value [] = (name, value) ∷ []
assign name value ((n, v) ∷ env) =
    if n == name then (name, value) ∷ env else (n, v) ∷ assign name value env

unfoldable pub lookup {ℓ} : {V : Type ℓ} → Text → List (Text × V) → Option V
lookup name [] = none
lookup name ((n, v) ∷ env) = if n == name then some v else lookup name env

abbrev attribute_text : Option Json → Text
attribute_text none = []
attribute_text (some v) = as_text [] v

-- The attributes "name" and "value".
abbrev pub from_attributes : CommandFields → Text × Text
from_attributes cmd = (
  attribute_text (lookup (codes "name") cmd.attributes),
  attribute_text (lookup (codes "value") cmd.attributes),
)

-- The first two arguments, if no name was found before.
abbrev pub or_args : List Text → Text × Text → Text × Text
or_args (n ∷ v ∷ args) ([], value) = (n, v)
or_args args found = found

-- The command and its first argument, if no name was found before.
abbrev pub or_command : Text → List Text → Text × Text → Text × Text
or_command (c ∷ cmd) (v ∷ args) ([], value) = (c ∷ cmd, v)
or_command (c ∷ cmd) [] ([], value) = (c ∷ cmd, value)
or_command cmd args found = found

abbrev pub set_if_named : Text × Text → Env → Env
set_if_named ([], value) env = env
set_if_named (c ∷ name, value) env = assign (c ∷ name) value env

-- The case "export" of `runOneCommand`.
unfoldable pub export_command : CommandFields → Env → Env
export_command cmd env =
    set_if_named (or_command cmd.command cmd.args (or_args cmd.args (from_attributes cmd))) env

abbrev or_path : Option Text → Text → Text
or_path none p = p
or_path (some q) p = q

module _ (h : Host) where
  -- The error of a process that was started, or not.
  unfoldable pub wait_error : Bool → Bool → Result Fault (Unit {0})
  wait_error true cancelled = ok tt
  wait_error false true = err canceled
  wait_error false false = err process_error

  -- `Wait`, and the error that it gives.
  unfoldable pub wait : Run → Act (Unit {0})
  wait run = do
    is_cancelled ← asks (λ a. h.is_cancelled a.trace)
    lift (wait_error run.succeeded is_cancelled)

  -- With a console URL the output is streamed, and a failure to start is returned as it is.
  unfoldable pub run_streamed : Text → Run → Act (Unit {0})
  run_streamed console_url run = elim run.start [
    | up ↦ (do stream_to_console h console_url run.output; wait run)
    | cancelled_before ↦ fail canceled
    | start_failed ↦ fail process_error
  ]

  unfoldable pub run_plain : Run → Act (Unit {0})
  run_plain run = elim run.start [
    | up ↦ wait run
    | cancelled_before ↦ fail canceled
    | start_failed ↦ wait (record run { succeeded = false })
  ]

  -- Starts the process.
  unfoldable pub launch : Invocation → Act Run
  launch call a = (ok (h.run a.trace call), record_effect (invoked call) a)

  unfoldable pub run_process : Build → CommandFields → Env → Act (Unit {0})
  run_process build cmd env = do
    given_dir ← asks (λ a. command_dir a.config cmd)
    dir ← lift (from_path (abs h.working_dir given_dir))
    found ← asks (λ a. h.look_path a.trace (clean cmd.command))
    run ←
        launch (record {
          path = or_path found (clean cmd.command);
          args = cmd.args;
          dir = dir;
          env = env;
        })
    if build.console_url == [] then run_plain run else run_streamed build.console_url run

  -- The environment behind the command is returned.
  unfoldable pub run_one_command : Build → CommandFields → Env → Act Env
  run_one_command build cmd env =
      if cmd.name == codes "uploadArtifact"
      then (do run_upload_artifact h build cmd; return env)
      else if cmd.name == codes "fetchArtifact"
      then (do run_fetch_artifact h build cmd; return env)
      else if cmd.name == codes "export"
      then return (export_command cmd env)
      else if cmd.command == []
      then return env
      else (do run_process build cmd env; return env)

  -- A command with subcommands stands for these alone; a nil command is followed.
  unfoldable mutual
    pub execute_command_tree : Build → BuildCommand → Env → Act Env
    execute_command_tree build none_set env = fail panic
    execute_command_tree build (command fields nil on_cancel) env = run_one_command build fields env
    execute_command_tree build (command fields (cons sub subs) on_cancel) env = do
      env' ← execute_command_tree build sub env
      execute_all build subs env'

    pub execute_all : Build → BuildCommands → Env → Act Env
    execute_all build nil env = return env
    execute_all build (cons sub subs) env = do
      env' ← execute_command_tree build sub env
      execute_all build subs env'

  unfoldable pub run_build_command : Build → Act (Unit {0})
  run_build_command build = elim build.build_command [
    | none_set ↦ return tt
    | _ ↦ (do execute_command_tree build build.build_command []; return tt)
  ]
