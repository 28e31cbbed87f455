-- ===== src/Protocol.antt =====
-- The messages between agent and server: agent/pkg/protocol/websocket.go. JSON is modelled as the
-- value that a text stands for, since `ReadJSON` and `json.Marshal` only pass valid texts on.
pub mod Decode
pub mod RoundTrip
use ex_gocd.Base.{Bool, true, false, Option, none, some, List, [], ◌∷◌, ◌++◌, ℕ}
use ex_gocd.Text.{Text, codes}
use ex_gocd.Text.Utf8.{utf8}
use ex_gocd.Json.{Json, null, str, obj, num, bool, Fields, end, field, optional, one}

-- The actions, the constants of the protocol.
abbrev pub set_cookie_action : Text
set_cookie_action = codes "setCookie"

abbrev pub cancel_build_action : Text
cancel_build_action = codes "cancelBuild"

abbrev pub reregister_action : Text
reregister_action = codes "reregister"

abbrev pub build_action : Text
build_action = codes "build"

abbrev pub join_action : Text
join_action = codes "join"

abbrev pub ping_action : Text
ping_action = codes "ping"

abbrev pub ack_action : Text
ack_action = codes "acknowledge"

abbrev pub report_current_status_action : Text
report_current_status_action = codes "reportCurrentStatus"

abbrev pub report_completing_action : Text
report_completing_action = codes "reportCompleting"

abbrev pub report_completed_action : Text
report_completed_action = codes "reportCompleted"

-- `Data` is `none` where the message has no payload.
pub record Message : Type 0 where
  pub action : Text
  pub payload : Option Json
  pub ack_id : Text
  pub message_type : Text

pub record AgentIdentifier : Type 0 where
  pub host_name : Text
  pub ip_address : Text
  pub uuid : Text

pub record AgentBuildingInfo : Type 0 where
  pub building_info : Text
  pub build_locator : Text

pub record AgentRuntimeInfo : Type 0 where
  pub identifier : Option AgentIdentifier
  pub building_info : Option AgentBuildingInfo
  pub runtime_status : Text
  pub location : Text
  pub usable_space : ℕ  -- the 64 bits of an int64
  pub operating_system_name : Text
  pub cookie : Text
  pub agent_launcher_version : Text
  pub elastic_plugin_id : Text
  pub elastic_agent_id : Text
  pub supports_build_command_protocol : Bool

-- What the server answers to a registration.
pub record Registration : Type 0 where
  pub agent_private_key : Text
  pub agent_certificate : Text

pub record Report : Type 0 where
  pub build_id : Text
  pub result : Text
  pub job_state : Text
  pub agent_runtime_info : Option AgentRuntimeInfo

-- What `Build` describes: pointers to commands, `none_set` where a pointer is nil.
pub record CommandFields : Type 0 where
  pub name : Text
  pub run_if : Text
  pub working_dir : Text
  pub command : Text
  pub args : List Text
  pub test : List (Text × Text)
  pub src : Text
  pub dest : Text
  pub url : Text
  pub branch : Text
  pub attributes : List (Text × Json)  -- the last entry made stands first

mutual
  -- `command fields sub_commands on_cancel_cmd`.
  pub data BuildCommand : Type 0 where
    none_set : BuildCommand
    command : CommandFields → BuildCommands → BuildCommand → BuildCommand

  pub data BuildCommands : Type 0 where
    nil : BuildCommands
    cons : BuildCommand → BuildCommands → BuildCommands

pub record Build : Type 0 where
  pub build_id : Text
  pub build_locator : Text
  pub build_locator_for_display : Text
  pub console_url : Text
  pub artifact_upload_base_url : Text
  pub property_base_url : Text
  pub build_command : BuildCommand

-- `json.Marshal` of each struct; a field marked `omitempty` is left out if it is empty.
abbrev pub marshal_identifier : Option AgentIdentifier → Json
marshal_identifier none = null
marshal_identifier (some i) = obj (
    field (codes "hostName") (str (utf8 i.host_name)) (
      field (codes "ipAddress") (str (utf8 i.ip_address)) (one (codes "uuid") (str (utf8 i.uuid)))))

abbrev pub marshal_building_info : Option AgentBuildingInfo → Json
marshal_building_info none = null
marshal_building_info (some b) = obj (
    field (codes "buildingInfo") (str (utf8 b.building_info))
      (one (codes "buildLocator") (str (utf8 b.build_locator))))

abbrev pub marshal_runtime_info : Option AgentRuntimeInfo → Json
marshal_runtime_info none = null
marshal_runtime_info (some i) = obj (
    field (codes "identifier") (marshal_identifier i.identifier) (
      field (codes "buildingInfo") (marshal_building_info i.building_info) (
        field (codes "runtimeStatus") (str (utf8 i.runtime_status)) (
          field (codes "location") (str (utf8 i.location)) (
            field (codes "usableSpace") (num i.usable_space) (
              field (codes "operatingSystemName") (str (utf8 i.operating_system_name)) (
                optional (codes "cookie") i.cookie (
                  optional (codes "agentLauncherVersion") i.agent_launcher_version (
                    optional (codes "elasticPluginId") i.elastic_plugin_id (
                      optional (codes "elasticAgentId") i.elastic_agent_id (
                        one (codes "supportsBuildCommandProtocol")
                          (bool i.supports_build_command_protocol))))))))))))

abbrev pub marshal_report : Report → Json
marshal_report r = obj (
    field (codes "buildId") (str (utf8 r.build_id)) (
      optional (codes "result") r.result (
        optional (codes "jobState") r.job_state
          (one (codes "agentRuntimeInfo") (marshal_runtime_info r.agent_runtime_info)))))

abbrev message : Text → Option Json → Message
message action payload = record {
  action = action;
  payload = payload;
  ack_id = [];
  message_type = [];
}

unfoldable pub join_message : AgentRuntimeInfo → Message
join_message info = message join_action (some (marshal_runtime_info (some info)))

unfoldable pub ping_message : AgentRuntimeInfo → Message
ping_message info = message ping_action (some (marshal_runtime_info (some info)))

unfoldable pub ack_message : Text → Message
ack_message ack_id = record (message ack_action none) { ack_id = ack_id }

unfoldable pub report_message : Text → Report → Message
report_message action report = message action (some (marshal_report report))

unfoldable pub report_completed_message : Report → Message
report_completed_message report = report_message report_completed_action report

unfoldable pub report_completing_message : Report → Message
report_completing_message report = report_message report_completing_action report

unfoldable pub report_current_status_message : Report → Message
report_current_status_message report = report_message report_current_status_action report
