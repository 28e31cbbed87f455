-- ===== src/Tests/Variables.antt =====
-- Tests of the environment's variables: agent/internal/config/config.go.
use ex_gocd.Base.{pos, ◌≡◌, refl, [], ◌∷◌, ◌++◌, arith, if◌then◌else◌, ok}
use ex_gocd.Text.{Text, codes, ◌==◌}
use ex_gocd.Text.Laws.{==_iff}
use ex_gocd.Config.{Config, Environment, default_of, load}
use ex_gocd.Config.Viper.{
  env_key_replacer, env_name, upper, IsViper, IsConfigured, load-IsConfigured,
}
use ex_gocd.Tests.Fixtures.{config}
use ex_gocd.Tests.Settings.{environment as settled, running}

abbrev variable : Text → Text → Text
variable prefix key = upper (prefix ++ b'_' ∷ key)

env_name_of_server : env_name variable (codes "server.url") ≡ codes "AGENT_SERVER_URL"
unfolding env_key_replacer upper
env_name_of_server = refl

-- Two variables of the agent's own, and a legacy one.
abbrev variables : Text → Text
variables name =
    if name == codes "AGENT_SERVER_URL"
    then codes "https://ci/go"
    else if name == codes "GOCD_AGENT_WORK_DIR"
    then codes "/old"
    else []

abbrev get_string : Text → Text
get_string key =
    let own = variables (env_name variable key) in if own == [] then default_of key else own

abbrev environment : Environment
environment = record settled { viper_string = get_string; getenv = variables }

environment-IsViper : IsViper variable environment
unfolding default_of env_key_replacer upper ◌==◌
environment-IsViper = record {
  named = λ prefix key. refl;
  from_env = λ key set. ground (arith, ==_iff (variables (env_name variable key)) []);
  from_defaults =
      (λ e. cc, (λ e. refl, (λ e. refl, (λ e. refl, (λ e. refl, (λ e. refl, (λ e. refl, tt)))))));
}

abbrev loaded : Config
loaded = record config {
  working_dir = codes "/old";
  work_dir = codes "/old";
  config_dir = codes "/old/config";
  uuid = [];
  heartbeat_interval = pos 10;
  work_poll_interval = pos 10;
}

loads : load environment ≡ ok loaded
unfolding running env_key_replacer upper
loads = refl

load-IsConfigured_example : IsConfigured environment loaded
load-IsConfigured_example = load-IsConfigured variable environment environment-IsViper loaded loads
