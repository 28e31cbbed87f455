-- ===== src/Protocol/RoundTrip.antt =====
-- What a reader finds of reports and runtime information that are written.
use mathlib.Core.Option
use ex_gocd.Base.{◌≡◌, refl, ap, ◌∙◌, Option, none, some, [], ◌∷◌}
use ex_gocd.Text.{Text, ◌==◌}
use ex_gocd.Text.Utf8.{utf8, coerced}
use ex_gocd.Json.{fold_eq, decode_field, text_field, fields_of}
use ex_gocd.Protocol.{
  AgentIdentifier, AgentBuildingInfo, AgentRuntimeInfo, Report, ping_message, report_message,
  marshal_runtime_info, marshal_identifier, marshal_building_info,
}
use ex_gocd.Protocol.Decode.{
  runtime_info_of, report_of, no_runtime_info, decode_runtime_info, read_identifier,
  read_building_info, read_runtime_info,
}

reading : Unit {0}
unfolding decode_field fold_eq ◌==◌ utf8 coerced
reading = tt

abbrev pub sent_identifier : AgentIdentifier → AgentIdentifier
sent_identifier i = record {
  host_name = utf8 i.host_name;
  ip_address = utf8 i.ip_address;
  uuid = utf8 i.uuid;
}

abbrev pub sent_building_info : AgentBuildingInfo → AgentBuildingInfo
sent_building_info b = record {
  building_info = utf8 b.building_info;
  build_locator = utf8 b.build_locator;
}

-- Runtime information with its texts made UTF-8.
abbrev pub sent_runtime_info : AgentRuntimeInfo → AgentRuntimeInfo
sent_runtime_info info = record info {
  identifier = Option.map sent_identifier info.identifier;
  building_info = Option.map sent_building_info info.building_info;
  runtime_status = utf8 info.runtime_status;
  location = utf8 info.location;
  operating_system_name = utf8 info.operating_system_name;
  cookie = utf8 info.cookie;
  agent_launcher_version = utf8 info.agent_launcher_version;
  elastic_plugin_id = utf8 info.elastic_plugin_id;
  elastic_agent_id = utf8 info.elastic_agent_id;
}

-- A report with its texts made UTF-8.
abbrev pub sent_report : Report → Report
sent_report r = record {
  build_id = utf8 r.build_id;
  result = utf8 r.result;
  job_state = utf8 r.job_state;
  agent_runtime_info = Option.map sent_runtime_info r.agent_runtime_info;
}

read-marshal_identifier :
    (i : Option AgentIdentifier)
    → read_identifier none (marshal_identifier i) ≡ Option.map sent_identifier i
unfolding reading
read-marshal_identifier none = refl
read-marshal_identifier (some i) = refl

read-marshal_building_info :
    (b : Option AgentBuildingInfo)
    → read_building_info none (marshal_building_info b) ≡ Option.map sent_building_info b
unfolding reading
read-marshal_building_info none = refl
read-marshal_building_info (some b) = refl

-- The fields marked `omitempty` are split, each into empty and not.
decode-marshal :
    (info : AgentRuntimeInfo) (cookie version plugin elastic : Text)
    → let sent : AgentRuntimeInfo = record info {
      cookie = cookie;
      agent_launcher_version = version;
      elastic_plugin_id = plugin;
      elastic_agent_id = elastic;
    } in
      decode_runtime_info no_runtime_info (fields_of (marshal_runtime_info (some sent)))
      ≡ record (sent_runtime_info sent) {
        identifier = read_identifier none (marshal_identifier info.identifier);
        building_info = read_building_info none (marshal_building_info info.building_info);
      }
unfolding reading
decode-marshal info [] [] [] [] = refl
decode-marshal info [] [] [] (x3 ∷ s3) = refl
decode-marshal info [] [] (x2 ∷ s2) [] = refl
decode-marshal info [] [] (x2 ∷ s2) (x3 ∷ s3) = refl
decode-marshal info [] (x1 ∷ s1) [] [] = refl
decode-marshal info [] (x1 ∷ s1) [] (x3 ∷ s3) = refl
decode-marshal info [] (x1 ∷ s1) (x2 ∷ s2) [] = refl
decode-marshal info [] (x1 ∷ s1) (x2 ∷ s2) (x3 ∷ s3) = refl
decode-marshal info (x0 ∷ s0) [] [] [] = refl
decode-marshal info (x0 ∷ s0) [] [] (x3 ∷ s3) = refl
decode-marshal info (x0 ∷ s0) [] (x2 ∷ s2) [] = refl
decode-marshal info (x0 ∷ s0) [] (x2 ∷ s2) (x3 ∷ s3) = refl
decode-marshal info (x0 ∷ s0) (x1 ∷ s1) [] [] = refl
decode-marshal info (x0 ∷ s0) (x1 ∷ s1) [] (x3 ∷ s3) = refl
decode-marshal info (x0 ∷ s0) (x1 ∷ s1) (x2 ∷ s2) [] = refl
decode-marshal info (x0 ∷ s0) (x1 ∷ s1) (x2 ∷ s2) (x3 ∷ s3) = refl

decode-marshal_runtime_info :
    (info : AgentRuntimeInfo)
    → decode_runtime_info no_runtime_info (fields_of (marshal_runtime_info (some info)))
      ≡ sent_runtime_info info
decode-marshal_runtime_info info =
    decode-marshal info info.cookie info.agent_launcher_version info.elastic_plugin_id
      info.elastic_agent_id
    ∙ λ i. record (sent_runtime_info info) {
      identifier = read-marshal_identifier info.identifier i;
      building_info = read-marshal_building_info info.building_info i;
    }

-- The runtime information read from a ping is that which it was made of, its texts made UTF-8.
pub runtime_info_of-ping_message :
    (info : AgentRuntimeInfo) → runtime_info_of (ping_message info) ≡ sent_runtime_info info
unfolding runtime_info_of ping_message
runtime_info_of-ping_message info = decode-marshal_runtime_info info

read-marshal_runtime_info :
    (i : Option AgentRuntimeInfo)
    → read_runtime_info none (marshal_runtime_info i) ≡ Option.map sent_runtime_info i
read-marshal_runtime_info none = refl
read-marshal_runtime_info (some i) = ap some (decode-marshal_runtime_info i)

report_fields :
    (r : Report) (result job_state : Text)
    → report_of (report_message [] (record r { result = result; job_state = job_state })) ≡ record {
      build_id = utf8 r.build_id;
      result = utf8 result;
      job_state = utf8 job_state;
      agent_runtime_info = read_runtime_info none (marshal_runtime_info r.agent_runtime_info);
    }
unfolding reading report_of report_message text_field
report_fields r [] [] = refl
report_fields r [] (c ∷ s) = refl
report_fields r (c ∷ s) [] = refl
report_fields r (c ∷ s) (d ∷ t) = refl

report_of_action :
    (action : Text) (r : Report)
    → report_of (report_message action r) ≡ report_of (report_message [] r)
unfolding report_of report_message
report_of_action action r = refl

-- A report read from its message is the report that was sent, its texts made UTF-8, under every
-- action.
pub report_of-report_message :
    (action : Text) (r : Report) → report_of (report_message action r) ≡ sent_report r
report_of-report_message action r =
    report_of_action action r ∙ report_fields r r.result r.job_state ∙ λ i. record (sent_report r) {
      agent_runtime_info = read-marshal_runtime_info r.agent_runtime_info i;
    }
