-- ===== src/Tests/Programs.antt =====
-- Tests of the program: agent/main.go, agent/cmd/root.go and `Start` of
-- agent/internal/agent/agent.go.
use ex_gocd.Base.{refl, false, some, [], ◌∷◌}
use ex_gocd.Text.{codes}
use ex_gocd.Config.{Config, Environment}
use ex_gocd.Registration.Tls.{TlsConfig}
use ex_gocd.Agent.{new_agent}
use ex_gocd.Agent.Session.{Journey, start}
use ex_gocd.Program.{run_agent}
use ex_gocd.Program.Exits.{IsNoShutdown, run_agent-IsNoShutdown}
use ex_gocd.Tests.Fixtures.{server, host, refused, tries}
use ex_gocd.Tests.Registrations.{world, bare_desk}
use ex_gocd.Tests.Settings.{environment, loaded}

abbrev secure : Environment
secure = record environment { parse_url = λ t. some (record server { scheme = codes "https" }) }

abbrev identified : Config
identified = record loaded {
  server_url = record server { scheme = codes "https" };
  uuid = codes "u2";
}

abbrev tls : TlsConfig
tls = record {
  root_cas = codes "x";
  server_name = codes "ci";
  certificates = codes "certificate" ∷ [];
}

abbrev session : Journey
session = start host tries (new_agent identified)

run_agent-IsNoShutdown_example :
    IsNoShutdown
      (run_agent world host secure (codes "u2") false (λ t. refused ∷ refused ∷ []) bare_desk)
run_agent-IsNoShutdown_example =
    run_agent-IsNoShutdown world host (λ t. refused ∷ refused ∷ [])
      (λ t. ((refl, refl, refl, tt), ((refl, refl, refl, tt), tt))) secure (codes "u2") bare_desk
