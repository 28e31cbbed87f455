-- ===== src/Tests/Fixtures.antt =====
-- A server, a host, a configuration, a build and messages for the tests of the agent
-- (agent/internal/agent/agent.go).
use ex_gocd.Base.{
  pos, ◌≡◌, true, false, Option, none, some, List, [], ◌∷◌, ◌++◌, drop, if◌then◌else◌,
}
use ex_gocd.Text.{Text, codes, has_prefix}
use ex_gocd.FilePath.{is_abs}
use ex_gocd.Json.{Json, str, obj, arr, Elems, field, one}
use ex_gocd.Config.{Url, Config}
use ex_gocd.Protocol.{
  Message, CommandFields, BuildCommand, none_set, command, BuildCommands, Build, set_cookie_action,
  build_action,
}
use ex_gocd.Agent.{line, up, Host, Agent, new_agent}
use ex_gocd.Agent.Session.{context_done, ping_tick, receive_closed, received, Attempt}

abbrev pub server : Url
server = record {
  scheme = codes "http";
  opaque = [];
  user = none;
  host = codes "ci";
  path = codes "/go";
  raw_path = [];
  force_query = false;
  raw_query = [];
  fragment = [];
  raw_fragment = [];
}

abbrev pub config : Config
config = record {
  server_url = server;
  insecure_skip_verify = false;
  working_dir = codes "work";
  work_dir = codes "work";
  config_dir = codes "work/config";
  hostname = codes "box";
  ip_address = codes "10.0.0.2";
  uuid = codes "u1";
  auto_register_key = [];
  resources = [];
  environments = [];
  elastic_agent_id = [];
  elastic_plugin_id = [];
  heartbeat_interval = pos 10;
  work_poll_interval = pos 5;
}

-- URLs of the servers "ci" and "evil".
abbrev pub parse : Text → Option Url
unfolding has_prefix
parse t =
    if has_prefix t (codes "http://ci/")
    then some (record server { path = drop 9 t })
    else if has_prefix t (codes "http://evil/")
    then some (record server { host = codes "evil"; path = drop 11 t })
    else none

abbrev pub host : Host
host = record {
  parse_url = λ t. parse t;
  url_string = λ u. u.scheme ++ codes "://" ++ u.host ++ u.path;
  os_name = codes "Linux";
  working_dir = some (codes "/w");
  disk = λ t. some (1000, 4096);
  clock = λ t. codes "12:00:00";
  accepts_request = λ r. true;
  has_tls_config = λ t. true;
  http = λ t r. some (record { status = 200; content_type = codes "application/zip" });
  os = λ t c. true;
  look_path = λ t p. some (codes "/bin/" ++ p);
  run = λ t i. record {
    start = up;
    output = (false, line (codes "hi") false) ∷ [];
    succeeded = true;
  };
  is_dir = λ t p. false;
  walk = λ t p. [];
  temp_name = λ t. codes "/tmp/a.zip";
  md5 = λ t. some (codes "d41d8");
  zip_entries = λ t.
      record { name = codes "lib"; is_dir = true }
      ∷ record { name = codes "lib/a.txt"; is_dir = false }
      ∷ record { name = codes "../../etc/passwd"; is_dir = false }
      ∷ [];
  is_cancelled = λ t. false;
}

pub host-is_abs : (w : Text) → host.working_dir ≡ some w → is_abs w ≡ true
unfolding is_abs has_prefix
host-is_abs w e = cc

abbrev pub agent : Agent
agent = new_agent config

abbrev pub plain : CommandFields
plain = record {
  name = [];
  run_if = [];
  working_dir = [];
  command = [];
  args = [];
  test = [];
  src = [];
  dest = [];
  url = [];
  branch = [];
  attributes = [];
}

abbrev pub fetch_lib : CommandFields
fetch_lib = record plain {
  name = codes "fetchArtifact";
  src = codes "p/1/s/1/j/lib.zip";
  dest = codes "deps";
}

abbrev pub echo : CommandFields
echo = record plain { name = codes "exec"; command = codes "echo"; args = codes "hi" ∷ [] }

abbrev pub export_home : CommandFields
export_home = record plain { name = codes "export"; args = codes "HOME" ∷ codes "/root" ∷ [] }

-- A tree of an export, a process and a nil command.
abbrev pub tree : BuildCommand
tree =
    command plain
      (BuildCommands.cons (command export_home BuildCommands.nil none_set) (
        BuildCommands.cons (command echo BuildCommands.nil none_set)
          (BuildCommands.cons none_set BuildCommands.nil)))
      none_set

abbrev pub build : Build
build = record {
  build_id = codes "b7";
  build_locator = codes "p/1/s/1/j";
  build_locator_for_display = codes "p/1/s/1/j";
  console_url = codes "http://ci/console";
  artifact_upload_base_url = codes "http://ci/files/p/1/s/1/j";
  property_base_url = [];
  build_command = command echo BuildCommands.nil none_set;
}

abbrev pub bare : Text → Option Json → Message
bare action payload = record { action = action; payload = payload; ack_id = []; message_type = [] }

abbrev pub cookie_message : Message
cookie_message = bare set_cookie_action (some (str (codes "c1")))

-- A build that says something on the console of another server.
abbrev pub build_message : Message
build_message = bare build_action (
    some (
      obj (
        field (codes "buildId") (str (codes "b8")) (
          field (codes "consoleURI") (str (codes "http://evil/console")) (
            one (codes "buildCommand") (
              obj (
                field (codes "name") (str (codes "exec")) (
                  field (codes "command") (str (codes "echo"))
                    (one (codes "args") (arr (Elems.cons (str (codes "hi")) Elems.nil)))))))))))

abbrev pub refused : Attempt
refused = record {
  done_before = false;
  connects = false;
  events = [];
  done_after = false;
  done_waiting = false;
}

-- A refused connection, one that is lost behind a build, and one that is shut down.
abbrev pub tries : List Attempt
tries =
    refused
    ∷ record refused {
      connects = true;
      events = received cookie_message ∷ ping_tick ∷ received build_message ∷ receive_closed ∷ [];
    }
    ∷ record refused { connects = true; events = context_done ∷ [] }
    ∷ []
