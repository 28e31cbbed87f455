-- ===== src/Tests/Builds.antt =====
-- Tests of builds and their commands: agent/internal/agent/agent.go.
use ex_gocd.Base.{◌≡◌, refl, arith, none, some, [], ◌∷◌, ◌++◌, map, ok, if◌then◌else◌}
use ex_gocd.Text.{codes, ◌==◌}
use ex_gocd.Text.Utf8.{utf8}
use ex_gocd.Protocol.{build_action}
use ex_gocd.Agent.{idle}
use ex_gocd.Agent.Commands.{lookup, export_command, execute_command_tree}
use ex_gocd.Agent.Commands.Export.{Exports, by_args, lookup-export_command}
use ex_gocd.Agent.Commands.Leaves.{leaves, run_in_order, execute_command_tree-leaves}
use ex_gocd.Agent.Build.{handle_build, passed}
use ex_gocd.Agent.Build.Reports.{
  brief, sent_of, reports, as_told, outcome, handle_build-reports, handle_build-idle,
}
use ex_gocd.Agent.Messages.{handle_message}
use ex_gocd.Agent.Messages.Builds.{handle_message_without_build}
use ex_gocd.Tests.Fixtures.{host, agent, build, tree, export_home, echo, bare}

execute_command_tree-leaves_example :
    execute_command_tree host build tree [] ≡ run_in_order host build (leaves tree) []
execute_command_tree-leaves_example = execute_command_tree-leaves host build tree []

leaves_of_tree : leaves tree ≡ some export_home ∷ some echo ∷ none ∷ []
unfolding leaves
leaves_of_tree = refl

Exports-home : Exports export_home (codes "HOME") (codes "/root")
Exports-home =
    by_args (codes "HOME") (codes "/root") [] [] (unfold lookup in refl) refl (ground arith)

lookup-export_command_example :
    lookup (codes "HOME") (export_command export_home ((codes "HOME", codes "/") ∷ [])) ≡ (
      if codes "HOME" == codes "HOME"
      then some (codes "/root")
      else lookup (codes "HOME") ((codes "HOME", codes "/") ∷ []))
lookup-export_command_example =
    lookup-export_command export_home ((codes "HOME", codes "/") ∷ []) (codes "HOME") Exports-home

handle_build-reports_example :
    map brief (sent_of (handle_build host build agent).1.trace)
    ≡ reports (utf8 (codes "b7")) (as_told (outcome host build agent)) ++ []
handle_build-reports_example = handle_build-reports host build agent

handle_build-idle_example : (handle_build host build agent).1 ≡ record agent {
  state = idle;
  current_build = [];
  cancel_fn = none;
  trace = (handle_build host build agent).1.trace;
}
handle_build-idle_example = handle_build-idle host build agent

handle_message_without_build_example :
    map brief (sent_of (handle_message host (bare build_action none) agent).1.trace)
    ≡ reports [] (ok passed) ++ []
handle_message_without_build_example =
    handle_message_without_build host (bare build_action none) agent refl refl (λ t. refl)
