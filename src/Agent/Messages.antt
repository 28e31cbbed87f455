-- ===== src/Agent/Messages.antt =====
-- `handleMessage`, `sendJoin` and `sendPing` of agent/internal/agent/agent.go.
pub mod Builds
pub mod Sent
use ex_gocd.Base.{
  Bool, true, false, ◌&&◌, Option, none, some, List, [], ◌∷◌, Result, ok, err, if◌then◌else◌,
}
use ex_gocd.Text.{Text, codes, ◌==◌}
use ex_gocd.Protocol.{
  Message, join_message, ping_message, set_cookie_action, cancel_build_action, reregister_action,
  build_action,
}
use ex_gocd.Protocol.Decode.{data_string, build_id_from_data, data_build}
use ex_gocd.Agent.{
  Fault, reregister_requested, channel_closed, context_cancelled, Host, Agent, Act, record_effect,
  return, fail, get_runtime_info,
}
use ex_gocd.Agent.Build.{send, handle_build}

unfoldable pub set_cookie : Text → Agent → Agent
set_cookie cookie a = record a { cookie = cookie; conn_cookie = cookie }

-- Calls the cancel function of the running build if it is the one named.
unfoldable pub cancel_build : Text → Agent → Agent
cancel_build build_id a =
    if a.current_build == build_id
    then elim a.cancel_fn [ some id ↦ record_effect (context_cancelled id) a | none ↦ a ]
    else a

module _ (h : Host) where
  unfoldable pub send_join : Agent → Agent
  send_join a = send (join_message (get_runtime_info h a)) a

  unfoldable pub send_ping : Agent → Agent
  send_ping a = send (ping_message (get_runtime_info h a)) a

  unfoldable pub handle_message : Message → Act (Unit {0})
  handle_message msg a =
      if msg.action == codes "phx_reply"
      then (ok tt, a)
      else if msg.action == codes "presence_diff"
      then (ok tt, a)
      else if msg.action == set_cookie_action
      then (ok tt, set_cookie (data_string msg) a)
      else if msg.action == reregister_action
      then (err reregister_requested, a)
      else if msg.action == cancel_build_action
      then (ok tt, cancel_build (build_id_from_data msg) a)
      else if msg.action == build_action
      then handle_build h (data_build msg) a
      else if msg.action == codes "phx_close"
      then (err channel_closed, a)
      else (ok tt, a)
