-- ===== src/Agent/Build/Reports.antt =====
-- Which status reports a build sends, and the agent behind it.
use ex_gocd.Base.{◌≡◌, refl, ap, ◌∙◌, none, List, [], ◌∷◌, ◌++◌, map, All, Result, ok, err}
use ex_gocd.Text.{Text, ◌==◌}
use ex_gocd.Text.Utf8.{utf8, coerced}
use ex_gocd.Config.{Config}
use ex_gocd.Protocol.{
  Message, Report, Build, report_message, report_completed_action, report_completing_action,
  report_current_status_action, report_completed_message, report_completing_message,
  report_current_status_message,
}
use ex_gocd.Protocol.Decode.{report_of}
use ex_gocd.Protocol.RoundTrip.{report_of-report_message}
use ex_gocd.Agent.{
  Fault, Effect, sent, requested, called, invoked, context_cancelled, Trace, Host, Agent, Act, idle,
  building,
}
use ex_gocd.Agent.Checks.Laws.{IsTrusted}
use ex_gocd.Agent.Growth.{Grows, Adds, Adds-if, Grows-refl}
use ex_gocd.Agent.Trust.Commands.{run_build_command-Adds}
use ex_gocd.Agent.Commands.{run_build_command}
use ex_gocd.Agent.Build.{
  completing, completed, has_work, status_report, status_message, report_status, build_result,
  idle_wait, judged, conclude, begin_build, end_build, report_result, handle_build,
}

-- What a build's commands may do: requests go to trusted URLs, no message is sent and no context
-- cancelled.
abbrev pub IsQuiet : Host → Config → Effect → Type 0
IsQuiet h c (sent m) = ⊥
IsQuiet h c (requested r) = IsTrusted h c r.url
IsQuiet h c (called o) = Unit
IsQuiet h c (invoked i) = Unit
IsQuiet h c (context_cancelled id) = ⊥

-- The messages sent, the latest first.
abbrev pub sent_of : Trace → List Message
sent_of [] = []
sent_of (sent m ∷ t) = m ∷ sent_of t
sent_of (_ ∷ t) = sent_of t

pub sent_of-IsQuiet :
    (h : Host) (c : Config) (new old : Trace)
    → All (IsQuiet h c) new
    → sent_of (new ++ old) ≡ sent_of old
sent_of-IsQuiet h c [] old q = refl
sent_of-IsQuiet h c (sent m ∷ new) old (q, qs) = absurd q
sent_of-IsQuiet h c (requested r ∷ new) old (q, qs) = sent_of-IsQuiet h c new old qs
sent_of-IsQuiet h c (called o ∷ new) old (q, qs) = sent_of-IsQuiet h c new old qs
sent_of-IsQuiet h c (invoked i ∷ new) old (q, qs) = sent_of-IsQuiet h c new old qs
sent_of-IsQuiet h c (context_cancelled i ∷ new) old (q, qs) = absurd q

judged-Adds :
    {c : Config} {P : Effect → Type 0} (m : Act (Unit {0})) → Adds c P m → Adds c P (judged m)
unfolding judged
judged-Adds m g = g

idle_wait-Adds : (h : Host) {c : Config} {P : Effect → Type 0} → Adds c P (idle_wait h)
unfolding idle_wait
idle_wait-Adds h a same = Grows-refl a

-- A build's work changes nothing of the agent but its trace, and is quiet.
pub build_result-Grows :
    (h : Host) (b : Build) (a : Agent) → Grows (IsQuiet h a.config) a (build_result h b a).1
unfolding build_result
build_result-Grows h b a =
    Adds-if (has_work b.build_command) (judged (run_build_command h b)) (idle_wait h)
      (judged-Adds _ (run_build_command-Adds h (λ r t. t) (λ o. tt) (λ i. tt) b)) (idle_wait-Adds h)
      a refl

-- A report as the server reads it: the action, the build, the job's state and the result.
abbrev pub brief : Message → Text × Text × Text × Text
brief m = let r = report_of m in (m.action, r.build_id, r.job_state, r.result)

report_message-action : (action : Text) (r : Report) → (report_message action r).action ≡ action
unfolding report_message
report_message-action action r = refl

brief-report_message :
    (action : Text) (r : Report)
    → brief (report_message action r) ≡ (action, utf8 r.build_id, utf8 r.job_state, utf8 r.result)
brief-report_message action r =
    let read = report_of-report_message action r in
    λ i. (report_message-action action r i, (read i).build_id, (read i).job_state, (read i).result)

-- The reports of a build, the latest first: after a panic only the first one was sent.
abbrev pub reports : Text → Result Fault Text → List (Text × Text × Text × Text)
reports id (ok result) =
    (report_completed_action, id, completed, result)
    ∷ (report_completing_action, id, completing, result)
    ∷ (report_current_status_action, id, building, [])
    ∷ []
reports id (err e) = (report_current_status_action, id, building, []) ∷ []

-- The outcome with its text made UTF-8.
abbrev pub as_told : Result Fault Text → Result Fault Text
as_told (ok result) = ok (utf8 result)
as_told (err e) = err e

-- The agent when a build's work begins: the first report is sent.
abbrev pub started : Host → Build → Agent → Agent
started h b a = report_status h b.build_id building [] (begin_build b a)

-- The outcome of a build, as `handleBuild` finds it behind its first report.
abbrev pub outcome : Host → Build → Agent → Result Fault Text
outcome h b a = (build_result h b (started h b a)).0

brief-building :
    (h : Host) (id : Text) (a : Agent)
    → brief (status_message h id building [] a)
      ≡ (report_current_status_action, utf8 id, building, [])
unfolding status_message report_current_status_message status_report ◌==◌ utf8 coerced
brief-building h id a = brief-report_message _ _

brief-completing :
    (h : Host) (id result : Text) (a : Agent)
    → brief (status_message h id completing result a)
      ≡ (report_completing_action, utf8 id, completing, utf8 result)
unfolding status_message report_completing_message status_report ◌==◌ utf8 coerced
brief-completing h id result a = brief-report_message _ _

brief-completed :
    (h : Host) (id result : Text) (a : Agent)
    → brief (status_message h id completed result a)
      ≡ (report_completed_action, utf8 id, completed, utf8 result)
unfolding status_message report_completed_message status_report ◌==◌ utf8 coerced
brief-completed h id result a = brief-report_message _ _

conclude-reports :
    (h : Host) (id : Text) (r : Result Fault Text) (a : Agent)
    (old : List (Text × Text × Text × Text))
    → map brief (sent_of a.trace) ≡ (report_current_status_action, utf8 id, building, []) ∷ old
    → map brief (sent_of (conclude h id r a).1.trace) ≡ reports (utf8 id) (as_told r) ++ old
unfolding conclude report_result report_status end_build
conclude-reports h id (ok result) a old e =
    cc (brief-completed h id result _, brief-completing h id result a)
conclude-reports h id (err x) a old e = e

started-reports :
    (h : Host) (b : Build) (a : Agent)
    → map brief (sent_of (build_result h b (started h b a)).1.trace)
      ≡ (report_current_status_action, utf8 b.build_id, building, []) ∷ map brief (sent_of a.trace)
unfolding report_status begin_build
started-reports h b a =
    let work = build_result-Grows h b (started h b a) in
    ap (λ (x : Agent). map brief (sent_of x.trace)) work.grown
    ∙ ap (λ l. map brief l) (sent_of-IsQuiet h a.config work.added (started h b a).trace work.hold)
    ∙ ap (λ m. m ∷ map brief (sent_of a.trace)) (brief-building h b.build_id (begin_build b a))

-- A build sends the report "Building" first and then, unless a nil command is met, "Completing" and
-- "Completed" with its outcome, each under its own action and with the build's id, its texts made
-- UTF-8, and no other message.
pub handle_build-reports :
    (h : Host) (b : Build) (a : Agent)
    → map brief (sent_of (handle_build h b a).1.trace)
      ≡ reports (utf8 b.build_id) (as_told (outcome h b a)) ++ map brief (sent_of a.trace)
unfolding handle_build
handle_build-reports h b a =
    conclude-reports h b.build_id (outcome h b a) (build_result h b (started h b a)).1 _
      (started-reports h b a)

conclude-idle :
    (h : Host) (id : Text) (r : Result Fault Text) (a : Agent)
    → (conclude h id r a).1 ≡ record a {
      state = idle;
      current_build = [];
      cancel_fn = none;
      trace = (conclude h id r a).1.trace;
    }
unfolding conclude report_result report_status end_build
conclude-idle h id (ok result) a = refl
conclude-idle h id (err e) a = refl

-- Behind a build, also behind a panic, the agent is idle and has no build to cancel; its
-- configuration and cookies are as before.
pub handle_build-idle :
    (h : Host) (b : Build) (a : Agent)
    → let a' = (handle_build h b a).1 in
      a' ≡ record a { state = idle; current_build = []; cancel_fn = none; trace = a'.trace }
unfolding handle_build begin_build report_status
handle_build-idle h b a =
    let work = build_result-Grows h b (started h b a) in
    let last =
      (conclude h b.build_id (outcome h b a) (build_result h b (started h b a)).1).1.trace in
    conclude-idle h b.build_id (outcome h b a) (build_result h b (started h b a)).1
    ∙ ap
        (λ (x : Agent). record x {
          state = idle;
          current_build = [];
          cancel_fn = none;
          trace = last;
        })
        work.grown
