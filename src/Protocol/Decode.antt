-- ===== src/Protocol/Decode.antt =====
-- The typed readers of a message's payload: `AgentRuntimeInfo`, `Report`, `DataString`,
-- `BuildIdFromData` and `DataBuild` of agent/pkg/protocol/websocket.go. A payload that cannot be
-- decoded leaves the zero value, since the readers drop the error.
use ex_gocd.Base.{false, Option, none, some, List, [], ◌∷◌, if◌then◌else◌}
use ex_gocd.Text.{Text, codes}
use ex_gocd.Protocol.{
  Message, AgentIdentifier, AgentBuildingInfo, AgentRuntimeInfo, Report, CommandFields,
  BuildCommand, none_set, command, BuildCommands, Build,
}
use ex_gocd.Json.{
  Json, null, arr, obj, Elems, Fields, end, field, fold_eq, as_text, as_num, as_bool, fields_of,
  decode_field, text_field,
}

abbrev get_or {ℓ} : {A : Type ℓ} → Option A → A → A
get_or none d = d
get_or (some a) d = a

-- A pointer field: null sets it to nil, any other value is stored in what it points to.
abbrev pub read_identifier : Option AgentIdentifier → Json → Option AgentIdentifier
read_identifier old null = none
read_identifier old v =
    let base : AgentIdentifier =
      get_or old (record { host_name = []; ip_address = []; uuid = [] }) in
    some (record {
      host_name = decode_field as_text (codes "hostName") base.host_name (fields_of v);
      ip_address = decode_field as_text (codes "ipAddress") base.ip_address (fields_of v);
      uuid = decode_field as_text (codes "uuid") base.uuid (fields_of v);
    })

abbrev pub read_building_info : Option AgentBuildingInfo → Json → Option AgentBuildingInfo
read_building_info old null = none
read_building_info old v =
    let base : AgentBuildingInfo = get_or old (record { building_info = []; build_locator = [] }) in
    some (record {
      building_info = decode_field as_text (codes "buildingInfo") base.building_info (fields_of v);
      build_locator = decode_field as_text (codes "buildLocator") base.build_locator (fields_of v);
    })

abbrev pub no_runtime_info : AgentRuntimeInfo
no_runtime_info = record {
  identifier = none;
  building_info = none;
  runtime_status = [];
  location = [];
  usable_space = 0;
  operating_system_name = [];
  cookie = [];
  agent_launcher_version = [];
  elastic_plugin_id = [];
  elastic_agent_id = [];
  supports_build_command_protocol = false;
}

abbrev pub decode_runtime_info : AgentRuntimeInfo → Fields → AgentRuntimeInfo
decode_runtime_info old fs = record {
  identifier = decode_field read_identifier (codes "identifier") old.identifier fs;
  building_info = decode_field read_building_info (codes "buildingInfo") old.building_info fs;
  runtime_status = decode_field as_text (codes "runtimeStatus") old.runtime_status fs;
  location = decode_field as_text (codes "location") old.location fs;
  usable_space = decode_field as_num (codes "usableSpace") old.usable_space fs;
  operating_system_name =
      decode_field as_text (codes "operatingSystemName") old.operating_system_name fs;
  cookie = decode_field as_text (codes "cookie") old.cookie fs;
  agent_launcher_version =
      decode_field as_text (codes "agentLauncherVersion") old.agent_launcher_version fs;
  elastic_plugin_id = decode_field as_text (codes "elasticPluginId") old.elastic_plugin_id fs;
  elastic_agent_id = decode_field as_text (codes "elasticAgentId") old.elastic_agent_id fs;
  supports_build_command_protocol =
      decode_field as_bool (codes "supportsBuildCommandProtocol")
        old.supports_build_command_protocol fs;
}

abbrev pub read_runtime_info : Option AgentRuntimeInfo → Json → Option AgentRuntimeInfo
read_runtime_info old null = none
read_runtime_info old v = some (decode_runtime_info (get_or old no_runtime_info) (fields_of v))

abbrev pub payload_fields : Option Json → Fields
payload_fields none = end
payload_fields (some v) = fields_of v

-- `(m *Message) AgentRuntimeInfo`.
unfoldable pub runtime_info_of : Message → AgentRuntimeInfo
runtime_info_of m = decode_runtime_info no_runtime_info (payload_fields m.payload)

-- `(m *Message) Report`.
unfoldable pub report_of : Message → Report
report_of m =
    let fs = payload_fields m.payload in
    record {
      build_id = text_field (codes "buildId") fs;
      result = text_field (codes "result") fs;
      job_state = text_field (codes "jobState") fs;
      agent_runtime_info = decode_field read_runtime_info (codes "agentRuntimeInfo") none fs;
    }

abbrev text_of : Option Json → Text
text_of none = []
text_of (some v) = as_text [] v

-- `DataString`.
unfoldable pub data_string : Message → Text
data_string m = text_of m.payload

-- `BuildIdFromData`.
unfoldable pub build_id_from_data : Message → Text
build_id_from_data m = text_field (codes "buildId") (payload_fields m.payload)

abbrev texts_of : Elems → List Text
texts_of Elems.nil = []
texts_of (Elems.cons v vs) = as_text [] v ∷ texts_of vs

abbrev read_texts : List Text → Json → List Text
read_texts old null = []
read_texts old (arr vs) = texts_of vs
read_texts old _ = old

-- The entries of an object put into a map, the last one at the front.
abbrev enter {ℓ} : {A : Type ℓ} → (Json → A) → List (Text × A) → Fields → List (Text × A)
enter read old end = old
enter read old (field k v fs) = enter read ((k, read v) ∷ old) fs

abbrev read_test : List (Text × Text) → Json → List (Text × Text)
read_test old null = []
read_test old (obj fs) = enter (as_text []) old fs
read_test old _ = old

abbrev read_attributes : List (Text × Json) → Json → List (Text × Json)
read_attributes old null = []
read_attributes old (obj fs) = enter (λ v. v) old fs
read_attributes old _ = old

abbrev command_fields : Fields → CommandFields
command_fields fs = record {
  name = text_field (codes "name") fs;
  run_if = text_field (codes "runIfConfig") fs;
  working_dir = text_field (codes "workingDirectory") fs;
  command = text_field (codes "command") fs;
  args = decode_field read_texts (codes "args") [] fs;
  test = decode_field read_test (codes "test") [] fs;
  src = text_field (codes "src") fs;
  dest = text_field (codes "dest") fs;
  url = text_field (codes "url") fs;
  branch = text_field (codes "branch") fs;
  attributes = decode_field read_attributes (codes "attributes") [] fs;
}

-- A command inside a payload. A repeated key of a nested command replaces the earlier value.
unfoldable mutual
  pub read_command : Json → BuildCommand
  read_command null = none_set
  read_command (obj fs) =
      command (command_fields fs) (sub_commands fs BuildCommands.nil) (on_cancel fs none_set)
  read_command _ = command (command_fields end) BuildCommands.nil none_set

  pub read_commands : Elems → BuildCommands
  read_commands Elems.nil = BuildCommands.nil
  read_commands (Elems.cons v vs) = BuildCommands.cons (read_command v) (read_commands vs)

  pub read_sub_commands : Json → BuildCommands → BuildCommands
  read_sub_commands null old = BuildCommands.nil
  read_sub_commands (arr vs) old = read_commands vs
  read_sub_commands _ old = old

  pub sub_commands : Fields → BuildCommands → BuildCommands
  sub_commands end old = old
  sub_commands (field k v fs) old =
      sub_commands fs (if fold_eq k (codes "subCommands") then read_sub_commands v old else old)

  pub on_cancel : Fields → BuildCommand → BuildCommand
  on_cancel end old = old
  on_cancel (field k v fs) old =
      on_cancel fs (if fold_eq k (codes "onCancelCommand") then read_command v else old)

-- `DataBuild`: never nil, the zero build if the payload cannot be decoded.
unfoldable pub data_build : Message → Build
data_build m =
    let fs = payload_fields m.payload in
    record {
      build_id = text_field (codes "buildId") fs;
      build_locator = text_field (codes "buildLocator") fs;
      build_locator_for_display = text_field (codes "buildLocatorForDisplay") fs;
      console_url = text_field (codes "consoleURI") fs;
      artifact_upload_base_url = text_field (codes "artifactUploadBaseUrl") fs;
      property_base_url = text_field (codes "propertyBaseUrl") fs;
      build_command = decode_field (λ old v. read_command v) (codes "buildCommand") none_set fs;
    }
