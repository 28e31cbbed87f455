-- ===== src/Config.antt =====
-- The agent's configuration: agent/internal/config/config.go.
-- The package viper, the environment, the file system and the network interfaces enter as the
-- record `Environment`; so do the parser and the printer of `net/url`.
pub mod Files
pub mod Load
pub mod Viper
pub mod Urls
use ex_gocd.Base.{
  ℤ, ℕ, Bool, true, false, ◌||◌, ◌&&◌, not, Result, ok, err, ◌>>=◌, Option, none, some, List, [],
  ◌∷◌, ◌++◌, if◌then◌else◌,
}
use ex_gocd.Text.{Text, codes, ◌==◌, has_suffix, trim_suffix}
use ex_gocd.FilePath.{slash, path_join}

-- The fields of `url.URL`.
pub record Url : Type 0 where
  pub scheme : Text
  pub opaque : Text
  pub user : Option Text
  pub host : Text
  pub path : Text
  pub raw_path : Text
  pub force_query : Bool
  pub raw_query : Text
  pub fragment : Text
  pub raw_fragment : Text

pub record Config : Type 0 where
  pub server_url : Url
  pub insecure_skip_verify : Bool
  pub working_dir : Text
  pub work_dir : Text
  pub config_dir : Text
  pub hostname : Text
  pub ip_address : Text
  pub uuid : Text
  pub auto_register_key : Text
  pub resources : Text
  pub environments : Text
  pub elastic_agent_id : Text
  pub elastic_plugin_id : Text
  pub heartbeat_interval : ℤ  -- nanoseconds, the 64 bits of a Duration
  pub work_poll_interval : ℤ  -- nanoseconds, the 64 bits of a Duration

abbrev default_server_url : Text
default_server_url = codes "http://localhost:8153/go"

abbrev pub default_work_dir : Text
default_work_dir = codes "./work"

unfoldable pub default_of : Text → Text
default_of key =
    if key == codes "server.url"
    then default_server_url
    else if key == codes "work.dir"
    then default_work_dir
    else []

-- `getEnvWithLegacyFallback`, over `viper.GetString` and `os.Getenv`.
unfoldable pub get_env_with_legacy_fallback : (Text → Text) → (Text → Text) → Text → Text → Text
get_env_with_legacy_fallback viper getenv key legacy =
    if (viper key == []) || (viper key == default_of key)
    then if getenv legacy == [] then viper key else getenv legacy
    else viper key

-- An address of an interface: is it an `IPNet`, a loopback address, an IPv4 address; its text.
pub record Address : Type 0 where
  pub is_ip_net : Bool
  pub is_loopback : Bool
  pub is_v4 : Bool
  pub shown : Text

abbrev pub loopback : Text
loopback = codes "127.0.0.1"

abbrev pub is_usable : Address → Bool
is_usable a = a.is_ip_net && not a.is_loopback && a.is_v4

unfoldable pub first_usable : List Address → Text
first_usable [] = loopback
first_usable (a ∷ rest) = if is_usable a then a.shown else first_usable rest

-- `none` if `net.InterfaceAddrs` fails.
unfoldable pub detect_ip_address : Option (List Address) → Option Text
detect_ip_address none = none
detect_ip_address (some addresses) = some (first_usable addresses)

-- The files of the configuration directory.
unfoldable pub uuid_file : Config → Text
uuid_file c = path_join c.config_dir (codes "agent.uuid")

unfoldable pub go_server_ca_file : Config → Text
go_server_ca_file c = path_join c.config_dir (codes "go-server-ca.pem")

unfoldable pub agent_private_key_file : Config → Text
agent_private_key_file c = path_join c.config_dir (codes "agent-private-key.pem")

unfoldable pub agent_cert_file : Config → Text
agent_cert_file c = path_join c.config_dir (codes "agent-cert.pem")

unfoldable pub agent_token_file : Config → Text
agent_token_file c = path_join c.config_dir (codes "token")

-- The URLs of the server; `string` is `(*url.URL).String`.
unfoldable pub registration_url : (Url → Text) → Config → Text
registration_url string c =
    string (record c.server_url { path = path_join c.server_url.path (codes "admin/agent") })

unfoldable pub token_url : (Url → Text) → Config → Text
token_url string c = string (record c.server_url {
  path = path_join c.server_url.path (codes "admin/agent/token");
  raw_query = codes "uuid=" ++ c.uuid;
})

abbrev pub go_suffix : Text
go_suffix = codes "/go"

-- The path of `WebSocketURL`: that of the original server if the path ends in "/go".
unfoldable pub web_socket_path : Text → Text
web_socket_path path =
    let trimmed = trim_suffix path (slash ∷ []) in
    if (trimmed == go_suffix) || has_suffix trimmed go_suffix
    then trimmed ++ codes "/agent-websocket"
    else trimmed ++ codes "/agent-websocket/websocket"

unfoldable pub web_socket_target : Config → Url
web_socket_target c =
    let u = c.server_url in
    record u {
      scheme = if u.scheme == codes "https" then codes "wss" else codes "ws";
      path = web_socket_path u.path;
    }

unfoldable pub web_socket_url : (Url → Text) → Config → Text
web_socket_url string c = string (web_socket_target c)

-- What `Load` asks of its surroundings.
pub record Environment : Type 0 where
  pub viper_string : Text → Text
  pub viper_bool : Text → Bool
  pub viper_duration : Text → ℤ
  pub getenv : Text → Text
  pub parse_url : Text → Option Url
  pub can_make_dir : Text → Bool
  pub hostname : Option Text
  pub addresses : Option (List Address)

pub data LoadError : Type 0 where
  invalid_server_url work_dir_failed config_dir_failed no_hostname : LoadError

abbrev pub ip_or_loopback : Option Text → Text
ip_or_loopback none = loopback
ip_or_loopback (some ip) = ip

abbrev require : Bool → LoadError → Result LoadError (Unit {0})
require true e = ok tt
require false e = err e

abbrev given {ℓ} : {A : Type ℓ} → Option A → LoadError → Result LoadError A
given none e = err e
given (some a) e = ok a

unfoldable pub load : Environment → Result LoadError Config
load env =
    let get = get_env_with_legacy_fallback env.viper_string env.getenv in
    let work_dir = get (codes "work.dir") (codes "GOCD_AGENT_WORK_DIR") in
    let config_dir = path_join work_dir (codes "config") in
    do
      server_url ←
          given (env.parse_url (get (codes "server.url") (codes "GOCD_SERVER_URL")))
            invalid_server_url
      _ ← require (env.can_make_dir work_dir) work_dir_failed
      _ ← require (env.can_make_dir config_dir) config_dir_failed
      hostname ← given env.hostname no_hostname
      ok (record {
        server_url = server_url;
        insecure_skip_verify = env.viper_bool (codes "insecure.skip.verify");
        working_dir = work_dir;
        work_dir = work_dir;
        config_dir = config_dir;
        hostname = hostname;
        ip_address = ip_or_loopback (detect_ip_address env.addresses);
        uuid = [];
        auto_register_key = get (codes "auto.register.key") (codes "GOCD_AUTO_REGISTER_KEY");
        resources = get (codes "auto.register.resources") (codes "GOCD_AUTO_REGISTER_RESOURCES");
        environments =
            get (codes "auto.register.environments") (codes "GOCD_AUTO_REGISTER_ENVIRONMENTS");
        elastic_agent_id = env.viper_string (codes "auto.register.elastic.agent.id");
        elastic_plugin_id = env.viper_string (codes "auto.register.elastic.plugin.id");
        heartbeat_interval = env.viper_duration (codes "heartbeat.interval");
        work_poll_interval = env.viper_duration (codes "work.poll.interval");
      })
