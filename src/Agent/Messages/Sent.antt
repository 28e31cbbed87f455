-- ===== src/Agent/Messages/Sent.antt =====
-- Which messages the agent sends while it handles an event: reports, pings and joins, behind those
-- that it sent before.
use ex_gocd.Base.{
  ◌≡◌, ◌≢◌, refl, ap, ◌∙◌, arith, Bool, List, [], ◌∷◌, ◌++◌, All, Result, ok, err, if◌then◌else◌,
  if_both, some, none, Option,
}
use ex_gocd.Text.{Text, codes, ◌==◌}
use ex_gocd.Protocol.{
  Message, Build, ack_action, join_message, ping_message, report_message, report_completed_message,
  report_completing_message, report_current_status_message, set_cookie_action, cancel_build_action,
  reregister_action, build_action,
}
use ex_gocd.Protocol.Decode.{data_string, data_build}
use ex_gocd.Agent.{Fault, Host, Agent, record_effect, context_cancelled}
use ex_gocd.Agent.Build.{
  completing, completed, status_message, report_status, begin_build, end_build, build_result,
  conclude, report_result, handle_build,
}
use ex_gocd.Agent.Build.Reports.{sent_of, sent_of-IsQuiet, build_result-Grows, started, outcome}
use ex_gocd.Agent.Messages.{handle_message, cancel_build, set_cookie, send_join, send_ping}

-- No acknowledgement: these are sent by the connection alone.
abbrev pub IsOwn : Message → Type 0
IsOwn m = m.action ≢ ack_action

-- The second agent sent further messages, which are its own.
abbrev pub SendsMore : Agent → Agent → Type 0
SendsMore a a' = (new : List Message) × (sent_of a'.trace ≡ new ++ sent_of a.trace) × All IsOwn new

sends_nothing : (a a' : Agent) → a'.trace ≡ a.trace → SendsMore a a'
sends_nothing a a' e = ([], ap sent_of e, tt)

status_message-IsOwn :
    (h : Host) (id state result : Text) (a : Agent) → IsOwn (status_message h id state result a)
unfolding status_message report_completed_message report_completing_message
    report_current_status_message report_message
status_message-IsOwn h id state result a =
    if_both IsOwn (state == completed) _ _ (ground arith)
      (if_both IsOwn (state == completing) _ _ (ground arith) (ground arith))

conclude-SendsMore :
    (h : Host) (id : Text) (r : Result Fault Text) (a a' : Agent)
    → SendsMore a a'
    → SendsMore a (conclude h id r a').1
unfolding conclude report_result report_status end_build
conclude-SendsMore h id (ok result) a a' (new, e, own) = (
  status_message h id completed result (report_status h id completing result a')
      ∷ status_message h id completing result a'
      ∷ new,
  ap
      (λ l.
        status_message h id completed result (report_status h id completing result a')
        ∷ status_message h id completing result a'
        ∷ l)
      e,
  (
    status_message-IsOwn h id completed result _,
    (status_message-IsOwn h id completing result a', own),
  ),
)
conclude-SendsMore h id (err x) a a' more = more

started-SendsMore :
    (h : Host) (b : Build) (a : Agent) → SendsMore a (build_result h b (started h b a)).1
unfolding report_status begin_build
started-SendsMore h b a =
    let work = build_result-Grows h b (started h b a) in
    (
      _ ∷ [],
      ap (λ (x : Agent). sent_of x.trace) work.grown
          ∙ sent_of-IsQuiet h a.config work.added (started h b a).trace work.hold,
      (status_message-IsOwn h b.build_id _ [] _, tt),
    )

handle_build-SendsMore : (h : Host) (b : Build) (a : Agent) → SendsMore a (handle_build h b a).1
unfolding handle_build
handle_build-SendsMore h b a =
    conclude-SendsMore h b.build_id (outcome h b a) a (build_result h b (started h b a)).1
      (started-SendsMore h b a)

cancel_build-SendsMore : (id : Text) (a : Agent) → SendsMore a (cancel_build id a)
unfolding cancel_build
cancel_build-SendsMore id a =
    if_both (SendsMore a) (a.current_build == id) _ _ (by_function a.cancel_fn)
      (sends_nothing a a refl)
  where
    by_function :
        (f : Option Text)
        → SendsMore a
            (elim f as (λ _. Agent) [ some id ↦ record_effect (context_cancelled id) a | none ↦ a ])
    by_function (some id) = ([], refl, tt)
    by_function none = ([], refl, tt)

set_cookie-SendsMore : (cookie : Text) (a : Agent) → SendsMore a (set_cookie cookie a)
unfolding set_cookie
set_cookie-SendsMore cookie a = ([], refl, tt)

-- Handling a message sends reports only.
pub handle_message-SendsMore :
    (h : Host) (msg : Message) (a : Agent) → SendsMore a (handle_message h msg a).1
unfolding handle_message
handle_message-SendsMore h msg a = either (msg.action == codes "phx_reply") _ _ nothing (
    either (msg.action == codes "presence_diff") _ _ nothing (
      either (msg.action == set_cookie_action) _ _ (set_cookie-SendsMore (data_string msg) a) (
        either (msg.action == reregister_action) _ _ nothing (
          either (msg.action == cancel_build_action) _ _ (cancel_build-SendsMore _ a) (
            either (msg.action == build_action) _ _ (handle_build-SendsMore h (data_build msg) a)
              (either (msg.action == codes "phx_close") _ _ nothing nothing))))))
  where
    nothing : SendsMore a a
    nothing = ([], refl, tt)

    either :
        (b : Bool) (x y : Result Fault (Unit {0}) × Agent)
        → SendsMore a x.1
        → SendsMore a y.1
        → SendsMore a (if b then x else y).1
    either = if_both (λ r. SendsMore a r.1)

pub send_ping-SendsMore : (h : Host) (a : Agent) → SendsMore a (send_ping h a)
unfolding send_ping ping_message
send_ping-SendsMore h a = (_ ∷ [], refl, (ground arith, tt))

pub send_join-SendsMore : (h : Host) (a : Agent) → SendsMore a (send_join h a)
unfolding send_join join_message
send_join-SendsMore h a = (_ ∷ [], refl, (ground arith, tt))
