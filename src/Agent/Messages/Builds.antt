-- ===== src/Agent/Messages/Builds.antt =====
-- What a build message leads to, in particular one whose payload holds no build.
use ex_gocd.Base.{◌≡◌, ap, ◌∙◌, false, [], ◌++◌, map, arith, ok}
use ex_gocd.Text.{◌==◌}
use ex_gocd.Json.{end, decode_field, text_field}
use ex_gocd.Text.Utf8.{utf8, coerced}
use ex_gocd.Protocol.{Message, Build, none_set, build_action}
use ex_gocd.Protocol.Decode.{data_build, payload_fields}
use ex_gocd.Agent.{Trace, Host, Agent}
use ex_gocd.Agent.Build.{handle_build, build_result, idle_wait, has_work, passed}
use ex_gocd.Agent.Build.Reports.{
  brief, sent_of, reports, as_told, outcome, started, handle_build-reports,
}
use ex_gocd.Agent.Messages.{handle_message}

pub handle_message-build :
    (h : Host) (msg : Message) (a : Agent)
    → msg.action ≡ build_action
    → handle_message h msg a ≡ handle_build h (data_build msg) a
unfolding handle_message ◌==◌
handle_message-build h msg a e = ground arith

-- The zero build, which stands for a payload that holds no build.
abbrev pub no_build : Build
no_build = record {
  build_id = [];
  build_locator = [];
  build_locator_for_display = [];
  console_url = [];
  artifact_upload_base_url = [];
  property_base_url = [];
  build_command = none_set;
}

data_build_of_end : (msg : Message) → payload_fields msg.payload ≡ end → data_build msg ≡ no_build
unfolding data_build decode_field text_field
data_build_of_end msg e = rw e

outcome-no_build :
    (h : Host) (a : Agent)
    → ((t : Trace) → h.is_cancelled t ≡ false)
    → outcome h no_build a ≡ ok passed
unfolding build_result idle_wait has_work
outcome-no_build h a free = rw (free (started h no_build a).trace)

-- A build message whose payload is absent, or is no JSON object, is not refused: a build with an
-- empty id is reported as passed, unless its context is cancelled meanwhile.
pub handle_message_without_build :
    (h : Host) (msg : Message) (a : Agent)
    → msg.action ≡ build_action
    → payload_fields msg.payload ≡ end
    → ((t : Trace) → h.is_cancelled t ≡ false)
    → map brief (sent_of (handle_message h msg a).1.trace)
      ≡ reports [] (ok passed) ++ map brief (sent_of a.trace)
unfolding utf8 coerced
handle_message_without_build h msg a e p free =
    ap (λ r. map brief (sent_of r.1.trace))
      (handle_message-build h msg a e ∙ ap (λ b. handle_build h b a) (data_build_of_end msg p))
    ∙ handle_build-reports h no_build a
    ∙ ap (λ r. reports [] (as_told r) ++ map brief (sent_of a.trace)) (outcome-no_build h a free)
