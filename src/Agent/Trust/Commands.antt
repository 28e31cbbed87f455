-- ===== src/Agent/Trust/Commands.antt =====
-- The effects of a build's commands.
use ex_gocd.Base.{false, []}
use ex_gocd.Text.{Text, codes, ◌==◌}
use ex_gocd.FilePath.{dir_of}
use ex_gocd.Config.{Config}
use ex_gocd.Protocol.{
  CommandFields, Build, BuildCommand, none_set, command, BuildCommands, nil, cons,
}
use ex_gocd.Agent.{
  Effect, called, requested, invoked, Request, OsCall, make_dirs, create, copy_into, canceled,
  process_error, return, fail, Invocation, Run, Start, up, cancelled_before, start_failed, Host,
  Act, ◌>>◌,
}
use ex_gocd.Agent.Checks.Laws.{IsTrusted}
use ex_gocd.Agent.Console.{stream_to_console}
use ex_gocd.Agent.Commands.{
  Env, run_streamed, run_plain, wait, launch, run_process, run_one_command, execute_command_tree,
  execute_all, run_build_command,
}
use ex_gocd.Agent.Growth.{
  Adds, Grows-effect, Adds-bind, Adds-then, Adds-lift, Adds-return, Adds-fail, Adds-if, Adds-asks,
}
use ex_gocd.Agent.Trust.{stream_to_console-Adds}
use ex_gocd.Agent.Trust.Artifacts.{run_upload_artifact-Adds, run_fetch_artifact-Adds}

-- Requests go to trusted URLs; calls and processes are free.
module _ (h : Host) {c : Config} {P : Effect → Type 0}
    (trusted : (r : Request) → IsTrusted h c r.url → P (requested r))
    (calls : (o : OsCall) → P (called o)) (runs : (i : Invocation) → P (invoked i)) where
  wait-Adds : (r : Run) → Adds c P (wait h r)
  unfolding wait
  wait-Adds r = Adds-bind _ _ (Adds-asks _) λ cancelled. Adds-lift _

  -- The cases of a process's start.
  run_streamed-Adds : (url : Text) (r : Run) → Adds c P (run_streamed h url r)
  unfolding run_streamed
  run_streamed-Adds url r = by_start r.start
    where
      by_start :
          (s : Start)
          → Adds c P (elim s as (λ _. Act (Unit {0})) [
            | up ↦ (stream_to_console h url r.output >> wait h r)
            | cancelled_before ↦ fail canceled
            | start_failed ↦ fail process_error
          ])
      by_start up = Adds-then _ _ (stream_to_console-Adds h trusted url r.output) (wait-Adds r)
      by_start cancelled_before = Adds-fail _ _
      by_start start_failed = Adds-fail _ _

  run_plain-Adds : (r : Run) → Adds c P (run_plain h r)
  unfolding run_plain
  run_plain-Adds r = by_start r.start
    where
      by_start :
          (s : Start)
          → Adds c P (elim s as (λ _. Act (Unit {0})) [
            | up ↦ wait h r
            | cancelled_before ↦ fail canceled
            | start_failed ↦ wait h (record r { succeeded = false })
          ])
      by_start up = wait-Adds r
      by_start cancelled_before = Adds-fail _ _
      by_start start_failed = wait-Adds (record r { succeeded = false })

  launch-Adds : (i : Invocation) → Adds c P (launch h i)
  unfolding launch
  launch-Adds i a same = Grows-effect (invoked i) a (runs i)

  run_process-Adds :
      (b : Build) (cmd : CommandFields) (env : Env) → Adds c P (run_process h b cmd env)
  unfolding run_process
  run_process-Adds b cmd env = Adds-bind _ _ (Adds-asks _) λ dir.
      Adds-bind _ _ (Adds-lift _) λ abs_dir. Adds-bind _ _ (Adds-asks _) λ found.
        Adds-bind _ _ (launch-Adds _) λ run.
          Adds-if (b.console_url == []) _ _ (run_plain-Adds run)
            (run_streamed-Adds b.console_url run)

  run_one_command-Adds :
      (b : Build) (cmd : CommandFields) (env : Env) → Adds c P (run_one_command h b cmd env)
  unfolding run_one_command
  run_one_command-Adds b cmd env =
      Adds-if (cmd.name == codes "uploadArtifact") _ _
        (Adds-then _ _ (run_upload_artifact-Adds h trusted (λ o q. calls o) b cmd)
          (Adds-return env))
        (Adds-if (cmd.name == codes "fetchArtifact") _ _
          (Adds-then _ _
            (run_fetch_artifact-Adds h trusted (λ o q. calls o) b cmd
              (λ p. (
                calls (create p),
                calls (copy_into p),
                calls (make_dirs p),
                calls (make_dirs (dir_of p)),
              )))
            (Adds-return env))
          (Adds-if (cmd.name == codes "export") _ _ (Adds-return _) (
            Adds-if (cmd.command == []) _ _ (Adds-return env)
              (Adds-then _ _ (run_process-Adds b cmd env) (Adds-return env)))))

  mutual
    unfolding execute_command_tree

    execute_command_tree-Adds :
        (b : Build) (cmd : BuildCommand) (env : Env) → Adds c P (execute_command_tree h b cmd env)
    execute_command_tree-Adds b none_set env = Adds-fail _ _
    execute_command_tree-Adds b (command fields nil on_cancel) env =
        run_one_command-Adds b fields env
    execute_command_tree-Adds b (command fields (cons sub subs) on_cancel) env =
        Adds-bind _ _ (execute_command_tree-Adds b sub env) λ env'. execute_all-Adds b subs env'

    execute_all-Adds :
        (b : Build) (cmds : BuildCommands) (env : Env) → Adds c P (execute_all h b cmds env)
    execute_all-Adds b nil env = Adds-return env
    execute_all-Adds b (cons sub subs) env =
        Adds-bind _ _ (execute_command_tree-Adds b sub env) λ env'. execute_all-Adds b subs env'

  -- A build's commands change nothing of the agent but its trace, and their requests are trusted.
  pub run_build_command-Adds : (b : Build) → Adds c P (run_build_command h b)
  unfolding run_build_command
  run_build_command-Adds b = by_command b.build_command
    where
      by_command :
          (cmd : BuildCommand)
          → Adds c P (elim cmd as (λ _. Act (Unit {0})) [
            | none_set ↦ return tt
            | _ ↦ (execute_command_tree h b b.build_command [] >> return tt)
          ])
      by_command none_set = Adds-return tt
      by_command (command f subs o) =
          Adds-then _ _ (execute_command_tree-Adds b b.build_command []) (Adds-return tt)
