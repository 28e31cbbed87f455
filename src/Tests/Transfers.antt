-- ===== src/Tests/Transfers.antt =====
-- Tests of artifact transfers: agent/internal/agent/agent.go.
use ex_gocd.Base.{◌≡◌}
use ex_gocd.Agent.Artifacts.{run_upload_artifact, run_fetch_artifact}
use ex_gocd.Agent.Artifacts.Temporaries.{left_over}
use ex_gocd.Agent.Artifacts.Transfers.{transfers_leave_nothing}
use ex_gocd.Tests.Fixtures.{host, agent, build, fetch_lib}

transfers_leave_nothing_example :
    (left_over host (run_upload_artifact host build fetch_lib agent).1.trace
      ≡ left_over host agent.trace)
    × (left_over host (run_fetch_artifact host build fetch_lib agent).1.trace
        ≡ left_over host agent.trace)
transfers_leave_nothing_example = transfers_leave_nothing host build fetch_lib agent
