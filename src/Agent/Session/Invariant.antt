-- ===== src/Agent/Session/Invariant.antt =====
-- What holds of the agent between two events, whatever messages the server sends.
use ex_gocd.Base.{
  is_positive, ℕ, ◌≡◌, refl, sym, ap, ◌∙◌, subst, Bool, true, false, ◌||◌, none, List, [], ◌∷◌, All,
  All-append, arith, Result, ok, err, if◌then◌else◌, if_both,
}
use ex_gocd.Text.{Text, codes, ◌==◌}
use ex_gocd.Config.{Config}
use ex_gocd.Protocol.{
  Message, Build, set_cookie_action, cancel_build_action, reregister_action, build_action,
}
use ex_gocd.Protocol.Decode.{data_string, build_id_from_data, data_build}
use ex_gocd.Agent.{
  Fault, panic, Effect, sent, requested, called, invoked, context_cancelled, Trace, Host, Agent,
  idle, new_agent,
}
use ex_gocd.Agent.Checks.Laws.{IsTrusted}
use ex_gocd.Agent.Build.{
  send, handle_build, build_result, conclude, report_result, report_status, begin_build, end_build,
}
use ex_gocd.Agent.Build.Reports.{IsQuiet, build_result-Grows, handle_build-idle, started, outcome}
use ex_gocd.Agent.Messages.{handle_message, cancel_build, set_cookie, send_join, send_ping}
use ex_gocd.Agent.Session.{
  Event, context_done, ping_tick, receive_closed, received, Outcome, clean, lost, crashed,
  no_ticker, still_open, run_events, run_with_connection, Attempt, Journey, rounds, behind,
  unless_panic, start, next_delay, first_delay,
}

-- A request goes to a trusted URL, and no context is cancelled.
abbrev pub IsAllowed : Host → Config → Effect → Type 0
IsAllowed h c (requested r) = IsTrusted h c r.url
IsAllowed h c (context_cancelled id) = ⊥
IsAllowed h c _ = Unit

-- The agent has its configuration, is idle, and no effect was out of order.
pub record IsCalm (h : Host) (c : Config) (a : Agent) : Type 0 where
  pub configured : a.config ≡ c
  pub is_idle : a.state ≡ idle
  pub no_build : a.current_build ≡ []
  pub no_cancel : a.cancel_fn ≡ none
  pub effects : All (IsAllowed h c) a.trace

quiet-IsAllowed : (h : Host) (c : Config) (t : Trace) → All (IsQuiet h c) t → All (IsAllowed h c) t
quiet-IsAllowed h c [] q = tt
quiet-IsAllowed h c (sent m ∷ t) (q, qs) = absurd q
quiet-IsAllowed h c (requested r ∷ t) (q, qs) = (q, quiet-IsAllowed h c t qs)
quiet-IsAllowed h c (called o ∷ t) (q, qs) = (tt, quiet-IsAllowed h c t qs)
quiet-IsAllowed h c (invoked i ∷ t) (q, qs) = (tt, quiet-IsAllowed h c t qs)
quiet-IsAllowed h c (context_cancelled i ∷ t) (q, qs) = absurd q

conclude-IsAllowed :
    (h : Host) (c : Config) (id : Text) (r : Result Fault Text) (a : Agent)
    → All (IsAllowed h c) a.trace
    → All (IsAllowed h c) (conclude h id r a).1.trace
unfolding conclude report_result report_status end_build
conclude-IsAllowed h c id (ok result) a t = (tt, (tt, t))
conclude-IsAllowed h c id (err e) a t = t

handle_build-IsAllowed :
    (h : Host) (b : Build) (a : Agent)
    → All (IsAllowed h a.config) a.trace
    → All (IsAllowed h a.config) (handle_build h b a).1.trace
unfolding handle_build report_status begin_build
handle_build-IsAllowed h b a t =
    let work = build_result-Grows h b (started h b a) in
    conclude-IsAllowed h a.config b.build_id (outcome h b a) (build_result h b (started h b a)).1 (
      subst (λ (x : Agent). All (IsAllowed h a.config) x.trace) (sym work.grown)
        (All-append (IsAllowed h a.config) work.added _
          (quiet-IsAllowed h a.config work.added work.hold) (tt, t)))

handle_build-IsCalm :
    (h : Host) (c : Config) (b : Build) (a : Agent)
    → IsCalm h c a
    → IsCalm h c (handle_build h b a).1
handle_build-IsCalm h c b a k =
    let e = handle_build-idle h b a in
    record {
      configured = ap (λ (x : Agent). x.config) e ∙ k.configured;
      is_idle = ap (λ (x : Agent). x.state) e;
      no_build = ap (λ (x : Agent). x.current_build) e;
      no_cancel = ap (λ (x : Agent). x.cancel_fn) e;
      effects =
          subst (λ d. All (IsAllowed h d) (handle_build h b a).1.trace) k.configured
            (handle_build-IsAllowed h b a
              (subst (λ d. All (IsAllowed h d) a.trace) (sym k.configured) k.effects));
    }

-- No build is running when a message is handled, so a request to cancel one does nothing.
cancel_build_lem :
    (h : Host) (c : Config) (id : Text) (a : Agent) → IsCalm h c a → cancel_build id a ≡ a
unfolding cancel_build
cancel_build_lem h c id a k = ground arith

set_cookie-IsCalm :
    (h : Host) (c : Config) (cookie : Text) (a : Agent)
    → IsCalm h c a
    → IsCalm h c (set_cookie cookie a)
unfolding set_cookie
set_cookie-IsCalm h c cookie a k = record {
  configured = k.configured;
  is_idle = k.is_idle;
  no_build = k.no_build;
  no_cancel = k.no_cancel;
  effects = k.effects;
}

handle_message-IsCalm :
    (h : Host) (c : Config) (msg : Message) (a : Agent)
    → IsCalm h c a
    → IsCalm h c (handle_message h msg a).1
unfolding handle_message
handle_message-IsCalm h c msg a k = either (msg.action == codes "phx_reply") _ _ k (
    either (msg.action == codes "presence_diff") _ _ k (
      either (msg.action == set_cookie_action) _ _ (set_cookie-IsCalm h c (data_string msg) a k) (
        either (msg.action == reregister_action) _ _ k (
          either (msg.action == cancel_build_action) _ _
            (subst (λ x. IsCalm h c x) (sym (cancel_build_lem h c (build_id_from_data msg) a k)) k)
            (either (msg.action == build_action) _ _ (handle_build-IsCalm h c (data_build msg) a k)
              (either (msg.action == codes "phx_close") _ _ k k))))))
  where
    either :
        (b : Bool) (x y : Result Fault (Unit {0}) × Agent)
        → IsCalm h c x.1
        → IsCalm h c y.1
        → IsCalm h c (if b then x else y).1
    either = if_both (λ r. IsCalm h c r.1)

send-IsCalm :
    (h : Host) (c : Config) (m : Message) (a : Agent) → IsCalm h c a → IsCalm h c (send m a)
send-IsCalm h c m a k = record {
  configured = k.configured;
  is_idle = k.is_idle;
  no_build = k.no_build;
  no_cancel = k.no_cancel;
  effects = (tt, k.effects);
}

unless_panic-IsCalm :
    (h : Host) (c : Config) (r : Result Fault (Unit {0})) (a : Agent) (rest : Outcome × Agent)
    → IsCalm h c a
    → IsCalm h c rest.1
    → IsCalm h c (unless_panic r a rest).1
unfolding unless_panic
unless_panic-IsCalm h c (err panic) a rest k l = k
unless_panic-IsCalm h c _ a rest k l = l

-- However the events come, a session leaves the agent calm.
run_events-IsCalm :
    (h : Host) (c : Config) (es : List Event) (a : Agent)
    → IsCalm h c a
    → IsCalm h c (run_events h es a).1
unfolding run_events
run_events-IsCalm h c [] a k = k
run_events-IsCalm h c (context_done ∷ es) a k = k
run_events-IsCalm h c (ping_tick ∷ es) a k =
    run_events-IsCalm h c es (send_ping h a) (unfold send_ping in send-IsCalm h c _ a k)
run_events-IsCalm h c (receive_closed ∷ es) a k = k
run_events-IsCalm h c (received msg ∷ es) a k =
    let k' = handle_message-IsCalm h c msg a k in
    unless_panic-IsCalm h c (handle_message h msg a).0 _ _ k' (run_events-IsCalm h c es _ k')

run_with_connection-IsCalm :
    (h : Host) (c : Config) (b : Bool) (es : List Event) (a : Agent)
    → IsCalm h c a
    → IsCalm h c (run_with_connection h b es a).1
unfolding run_with_connection send_join
run_with_connection-IsCalm h c false es a k = k
run_with_connection-IsCalm h c true es a k =
    if_both (λ (r : Outcome × Agent). IsCalm h c r.1) (is_positive a.config.heartbeat_interval) _ _
      (run_events-IsCalm h c es _ joined) joined
  where
    joined : IsCalm h c (send_join h (record a { conn_cookie = [] }))
    joined = record {
      configured = k.configured;
      is_idle = k.is_idle;
      no_build = k.no_build;
      no_cancel = k.no_cancel;
      effects = (tt, k.effects);
    }

behind-IsCalm :
    (h : Host) (c : Config) (delay : ℕ) (t : Attempt) (o : Outcome) (a : Agent) (again : Journey)
    → IsCalm h c a
    → IsCalm h c again.agent
    → IsCalm h c (behind delay t o a again).agent
unfolding behind
behind-IsCalm h c delay t clean a again k l = k
behind-IsCalm h c delay t crashed a again k l = k
behind-IsCalm h c delay t no_ticker a again k l = k
behind-IsCalm h c delay t still_open a again k l = k
behind-IsCalm h c delay t lost a again k l =
    if_both (λ (j : Journey). IsCalm h c j.agent) (t.done_after || t.done_waiting) _ _ k l

rounds-IsCalm :
    (h : Host) (c : Config) (delay : ℕ) (ts : List Attempt) (a : Agent)
    → IsCalm h c a
    → IsCalm h c (rounds h delay ts a).agent
unfolding rounds
rounds-IsCalm h c delay [] a k = k
rounds-IsCalm h c delay (t ∷ ts) a k =
    let k' = run_with_connection-IsCalm h c t.connects t.events a k in
    if_both (λ (j : Journey). IsCalm h c j.agent) t.done_before _ _ k
      (behind-IsCalm h c delay t _ _ _ k' (rounds-IsCalm h c (next_delay delay) ts _ k'))

new_agent-IsCalm : (h : Host) (c : Config) → IsCalm h c (new_agent c)
new_agent-IsCalm h c = record {
  configured = refl;
  is_idle = refl;
  no_build = refl;
  no_cancel = refl;
  effects = tt;
}

pub start-IsCalm :
    (h : Host) (c : Config) (ts : List Attempt) → IsCalm h c (start h ts (new_agent c)).agent
unfolding start
start-IsCalm h c ts = rounds-IsCalm h c first_delay ts (new_agent c) (new_agent-IsCalm h c)
