-- ===== src/Tests/Wire.antt =====
-- Tests of the messages: agent/pkg/protocol/websocket.go.
use ex_gocd.Base.{◌≡◌, refl, some, [], ◌∷◌}
use ex_gocd.Text.{codes, ◌==◌}
use ex_gocd.Text.Utf8.{utf8, coerced}
use ex_gocd.Json.{fold_eq, decode_field, text_field}
use ex_gocd.Protocol.{
  AgentRuntimeInfo, Report, command, BuildCommands, none_set, ping_message, report_message,
  report_completed_action,
}
use ex_gocd.Protocol.Decode.{runtime_info_of, report_of, data_string, data_build, read_command}
use ex_gocd.Protocol.RoundTrip.{
  sent_runtime_info, sent_report, runtime_info_of-ping_message, report_of-report_message,
}
use ex_gocd.Agent.{get_runtime_info, get_usable_space}
use ex_gocd.Tests.Fixtures.{host, agent, build, echo, cookie_message, build_message}

abbrev info : AgentRuntimeInfo
unfolding get_runtime_info get_usable_space
info = get_runtime_info host agent

abbrev report : Report
report = record {
  build_id = codes "b7";
  result = codes "Passed";
  job_state = codes "Completed";
  agent_runtime_info = some info;
}

runtime_info_of-ping_message_example : runtime_info_of (ping_message info) ≡ sent_runtime_info info
runtime_info_of-ping_message_example = runtime_info_of-ping_message info

report_of-report_message_example :
    report_of (report_message report_completed_action report) ≡ sent_report report
report_of-report_message_example = report_of-report_message report_completed_action report

-- Texts that are UTF-8 stay as they are; other bytes are replaced.
report_is_sent : sent_report report ≡ report
unfolding info utf8 coerced
report_is_sent = refl

utf8_of_others :
    utf8 (b'a' ∷ 255 ∷ 195 ∷ 188 ∷ 195 ∷ [])
    ≡ b'a' ∷ 239 ∷ 191 ∷ 189 ∷ 195 ∷ 188 ∷ 239 ∷ 191 ∷ 189 ∷ []
unfolding utf8 coerced
utf8_of_others = refl

cookie_read : data_string cookie_message ≡ codes "c1"
unfolding data_string
cookie_read = refl

build_read : data_build build_message ≡ record build {
  build_id = codes "b8";
  build_locator = [];
  build_locator_for_display = [];
  console_url = codes "http://evil/console";
  artifact_upload_base_url = [];
  build_command = command echo BuildCommands.nil none_set;
}
unfolding data_build text_field decode_field fold_eq ◌==◌ read_command
build_read = refl
