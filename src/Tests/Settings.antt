-- ===== src/Tests/Settings.antt =====
-- Tests of the configuration: agent/internal/config/config.go.
use ex_gocd.Base.{pos, ◌≡◌, ◌≢◌, ◌⊎◌, refl, inl, inr, true, false, some, [], ◌∷◌, ok}
use ex_gocd.Text.{Text, codes, ◌==◌, has_suffix, trim_suffix}
use ex_gocd.FilePath.{slash, file_path}
use ex_gocd.Config.{
  Address, Config, Environment, default_of, get_env_with_legacy_fallback, first_usable, loopback,
  load, detect_ip_address, web_socket_path, registration_url, token_url, web_socket_url,
  web_socket_target, uuid_file,
}
use ex_gocd.Config.Load.{get_env_with_legacy_fallback_cases, first_usable_lem, load_total}
use ex_gocd.Config.Urls.{web_socket_path-slash, web_socket_path_go}
use ex_gocd.Tests.Fixtures.{server, config, host}

abbrev pub lo : Address
lo = record { is_ip_net = true; is_loopback = true; is_v4 = true; shown = codes "127.0.0.1" }

abbrev v6 : Address
v6 = record { is_ip_net = true; is_loopback = false; is_v4 = false; shown = codes "fe80::1" }

abbrev pub eth : Address
eth = record { is_ip_net = true; is_loopback = false; is_v4 = true; shown = codes "10.0.0.2" }

-- Only the legacy variables are set.
abbrev legacy_only : Text → Text
legacy_only name = codes "/old"

abbrev pub defaults : Text → Text
unfolding default_of ◌==◌
defaults key = default_of key

abbrev pub environment : Environment
environment = record {
  viper_string = defaults;
  viper_bool = λ k. false;
  viper_duration = λ k. pos 10;
  getenv = λ name. [];
  parse_url = λ t. some server;
  can_make_dir = λ p. true;
  hostname = some (codes "box");
  addresses = some (lo ∷ eth ∷ []);
}

unfoldable pub running : Unit {0}
unfolding file_path default_of ◌==◌ get_env_with_legacy_fallback load has_suffix trim_suffix
    web_socket_path first_usable detect_ip_address
running = tt

abbrev pub loaded : Config
loaded = record config {
  working_dir = codes "./work";
  work_dir = codes "./work";
  uuid = [];
  heartbeat_interval = pos 10;
  work_poll_interval = pos 10;
}

get_env_with_legacy_fallback_cases_example :
    let result =
      get_env_with_legacy_fallback defaults legacy_only
        (codes "work.dir")
        (codes "GOCD_AGENT_WORK_DIR") in
    ((defaults (codes "work.dir") ≢ [])
      × (defaults (codes "work.dir") ≢ default_of (codes "work.dir"))
      × (result ≡ defaults (codes "work.dir")))
    ⊎ (((defaults (codes "work.dir") ≡ [])
          ⊎ (defaults (codes "work.dir") ≡ default_of (codes "work.dir")))
        × (((legacy_only (codes "GOCD_AGENT_WORK_DIR") ≢ [])
              × (result ≡ legacy_only (codes "GOCD_AGENT_WORK_DIR")))
            ⊎ ((legacy_only (codes "GOCD_AGENT_WORK_DIR") ≡ [])
                × (result ≡ defaults (codes "work.dir")))))
get_env_with_legacy_fallback_cases_example =
    get_env_with_legacy_fallback_cases defaults legacy_only (codes "work.dir")
      (codes "GOCD_AGENT_WORK_DIR")

first_usable_lem_example :
    (true ≡ true
      → false ≡ false
      → true ≡ true
      → first_usable (lo ∷ v6 ∷ eth ∷ []) ≡ codes "10.0.0.2")
    × (first_usable (lo ∷ v6 ∷ []) ≡ loopback)
first_usable_lem_example =
    first_usable_lem (lo ∷ v6 ∷ []) [] eth (inr (inl refl), (inr (inr refl), tt))

loads : load environment ≡ ok loaded
unfolding running
loads = refl

load_total_example : (c : Config) × (load environment ≡ ok c)
load_total_example = load_total environment refl refl refl refl

no_slash : has_suffix (codes "/ci/go") (slash ∷ []) ≡ false
unfolding running
no_slash = refl

web_socket_path-slash_example : web_socket_path (codes "/ci/go/") ≡ web_socket_path (codes "/ci/go")
web_socket_path-slash_example = web_socket_path-slash (codes "/ci/go") no_slash

web_socket_path_go_example :
    (web_socket_path (codes "/ci/go") ≡ codes "/ci/go/agent-websocket")
    × (web_socket_path (codes "/ci/go/") ≡ codes "/ci/go/agent-websocket")
web_socket_path_go_example = web_socket_path_go (codes "/ci")

-- Another path is that of the rewritten server.
web_socket_path_root : web_socket_path (codes "/") ≡ codes "/agent-websocket/websocket"
unfolding running
web_socket_path_root = refl

registration_url_of_config :
    registration_url host.url_string config ≡ codes "http://ci/go/admin/agent"
unfolding running registration_url
registration_url_of_config = refl

token_url_of_config : token_url host.url_string config ≡ codes "http://ci/go/admin/agent/token"
unfolding running token_url
token_url_of_config = refl

web_socket_url_of_config :
    web_socket_url host.url_string config ≡ codes "ws://ci/go/agent-websocket"
unfolding running web_socket_url web_socket_target
web_socket_url_of_config = refl

uuid_file_of_config : uuid_file config ≡ codes "work/config/agent.uuid"
unfolding running uuid_file
uuid_file_of_config = refl
