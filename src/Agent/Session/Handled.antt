-- ===== src/Agent/Session/Handled.antt =====
-- How the handling of a message goes into the ledger.
use ex_gocd.Base.{
  ◌≡◌, ◌≢◌, refl, sym, ap, ◌∙◌, subst, Bool, true, false, List, [], ◌∷◌, ◌++◌, map, arith, Result,
  ok, err, if_both,
}
use ex_gocd.Text.{Text, ◌==◌}
use ex_gocd.Text.Utf8.{utf8}
use ex_gocd.Text.Laws.{==_iff, ==_refl}
use ex_gocd.Protocol.{
  Message, Build, build_action, ping_action, join_action, ping_message, join_message,
}
use ex_gocd.Protocol.Decode.{data_build}
use ex_gocd.Agent.{Fault, panic, Host, Agent}
use ex_gocd.Agent.Build.{
  send, handle_build, result_of, judged, build_result, conclude, has_work, idle_wait,
}
use ex_gocd.Agent.Build.Reports.{
  brief, reports, sent_of, started, outcome, as_told, handle_build-reports,
}
use ex_gocd.Agent.Commands.{run_build_command}
use ex_gocd.Agent.Messages.{handle_message, cancel_build, set_cookie, send_ping, send_join}
use ex_gocd.Agent.Messages.Builds.{handle_message-build}
use ex_gocd.Agent.Session.Ledger.{
  free, busy, Ledger, is_greeting, ledger, ledger_of, ledger-reports, ledger-died, note-greeting,
}

-- The id of the build that a message assigns, as reports tell it.
abbrev pub assigned_id : Message → Text
assigned_id msg = utf8 (data_build msg).build_id

-- How a message is handled, in the ledger.
pub data Handled (msg : Message) (l : Ledger) : Result Fault (Unit {0}) → Ledger → Type 0 where
  passed_by :
      (r : Result Fault (Unit {0})) → msg.action ≢ build_action → r ≢ err panic → Handled msg l r l
  built :
      (result : Text)
      → msg.action ≡ build_action
      → Handled msg l
          (ok tt)
          (record { phase = free; jobs = l.jobs ++ ((assigned_id msg), result) ∷ [] })
  cut_off :
      msg.action ≡ build_action
      → Handled msg l (err panic) (record { phase = busy (assigned_id msg); jobs = l.jobs })

result_of_panic : (r : Result Fault (Unit {0})) (x : Fault) → result_of r ≡ err x → x ≡ panic
unfolding result_of
result_of_panic (ok y) x e = cc
result_of_panic (err panic) x e = cc
result_of_panic (err _) x e = cc

outcome_panic : (h : Host) (b : Build) (a : Agent) (x : Fault) → outcome h b a ≡ err x → x ≡ panic
unfolding build_result judged idle_wait
outcome_panic h b a x e =
    if_both (λ (m : Agent → Result Fault Text × Agent). (m (started h b a)).0 ≡ err x → x ≡ panic)
      (has_work b.build_command) (judged (run_build_command h b)) (idle_wait h)
      (λ f. result_of_panic _ x f)
      (λ f.
        if_both (λ (r : Result Fault Text). r ≡ err x → x ≡ panic)
          (h.is_cancelled (started h b a).trace) _ _ (λ g. cc) (λ g. cc) f)
      e

module _ (h : Host) where
  conclude-Handled :
      (msg : Message) (a a' : Agent) (r : Result Fault Text)
      → msg.action ≡ build_action
      → (ledger_of a).phase ≡ free
      → ((x : Fault) → r ≡ err x → x ≡ panic)
      → let id = (assigned_id msg) in
        Handled msg
          (ledger_of a)
          (conclude h (data_build msg).build_id r a').0
          (ledger (reports id (as_told r) ++ map brief (sent_of a.trace)))
  unfolding conclude
  conclude-Handled msg a a' (ok result) at e only =
      subst (λ l. Handled msg (ledger_of a) (ok tt) l)
        (sym (ledger-reports (assigned_id msg) (utf8 result) (map brief (sent_of a.trace)) e))
        (built (utf8 result) at)
  conclude-Handled msg a a' (err x) at e only =
      subst
        (λ y.
          Handled msg (ledger_of a) (err y)
            (ledger (reports (assigned_id msg) (err x) ++ map brief (sent_of a.trace))))
        (sym (only x refl))
        (subst (λ l. Handled msg (ledger_of a) (err panic) l)
          (sym (ledger-died (assigned_id msg) x (map brief (sent_of a.trace)) e)) (cut_off at))

  handle_build-Handled :
      (msg : Message) (a : Agent)
      → msg.action ≡ build_action
      → (ledger_of a).phase ≡ free
      → Handled msg
          (ledger_of a)
          (handle_build h (data_build msg) a).0
          (ledger_of (handle_build h (data_build msg) a).1)
  unfolding handle_build
  handle_build-Handled msg a at e =
      let b = data_build msg in
      subst (λ l. Handled msg (ledger_of a) (handle_build h b a).0 l)
        (sym (ap ledger (handle_build-reports h b a)))
        (conclude-Handled msg a (build_result h b (started h b a)).1 (outcome h b a) at e
          (outcome_panic h b a))

  -- A message that assigns no build leads to no report and no panic.
  handle_message-quiet :
      (msg : Message) (a : Agent)
      → msg.action ≢ build_action
      → ((handle_message h msg a).0 ≢ err panic)
        × (sent_of (handle_message h msg a).1.trace ≡ sent_of a.trace)
  unfolding handle_message set_cookie cancel_build
  handle_message-quiet msg a other = ground (arith, ==_iff msg.action build_action)

  pub handle_message-Handled :
      (msg : Message) (a : Agent)
      → (ledger_of a).phase ≡ free
      → Handled msg (ledger_of a) (handle_message h msg a).0 (ledger_of (handle_message h msg a).1)
  handle_message-Handled msg a e = go (msg.action == build_action) refl
    where
      go :
          (b : Bool)
          → (msg.action == build_action) ≡ b
          → Handled msg
              (ledger_of a)
              (handle_message h msg a).0
              (ledger_of (handle_message h msg a).1)
      go true t =
          let at : msg.action ≡ build_action = ground (arith, ==_iff msg.action build_action) in
          subst
            (λ (r : Result Fault (Unit {0}) × Agent). Handled msg (ledger_of a) r.0 (ledger_of r.1))
            (sym (handle_message-build h msg a at)) (handle_build-Handled msg a at e)
      go false t =
          let other : msg.action ≢ build_action = ground (arith, ==_iff msg.action build_action) in
          let (fine, same) = handle_message-quiet msg a other in
          subst
            (λ (ms : List Message).
              Handled msg (ledger_of a) (handle_message h msg a).0 (ledger (map brief ms)))
            (sym same) (passed_by (handle_message h msg a).0 other fine)

  send_greeting :
      (m : Message) (a : Agent)
      → is_greeting m.action ≡ true
      → (ledger_of a).phase ≡ free
      → ledger_of (send m a) ≡ ledger_of a
  unfolding ledger
  send_greeting m a g e =
      note-greeting (ledger_of a).phase (ledger_of a).jobs (brief m) e g
      ∙ ap (λ p. record { phase = p; jobs = (ledger_of a).jobs }) (sym e)

  pub send_ping-ledger :
      (a : Agent) → (ledger_of a).phase ≡ free → ledger_of (send_ping h a) ≡ ledger_of a
  unfolding send_ping ping_message
  send_ping-ledger a e = send_greeting _ a (ground (arith, ==_refl ping_action)) e

  pub send_join-ledger :
      (a : Agent) → (ledger_of a).phase ≡ free → ledger_of (send_join h a) ≡ ledger_of a
  unfolding send_join join_message
  send_join-ledger a e = send_greeting _ a (ground (arith, ==_refl join_action)) e
