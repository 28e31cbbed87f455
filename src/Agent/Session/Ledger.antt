-- ===== src/Agent/Session/Ledger.antt =====
-- The protocol of a build's reports, as a ledger that the server may keep.
use ex_gocd.Base.{◌≡◌, Bool, true, ◌&&◌, ◌||◌, List, [], ◌∷◌, ◌++◌, map, ok, err, if◌then◌else◌}
use ex_gocd.Text.{Text, ◌==◌}
use ex_gocd.Text.Laws.{==_refl}
use ex_gocd.Protocol.{
  ping_action, join_action, report_completed_action, report_completing_action,
  report_current_status_action,
}
use ex_gocd.Agent.{Fault, Agent, building}
use ex_gocd.Agent.Build.{completing, completed}
use ex_gocd.Agent.Build.Reports.{brief, reports, sent_of, outcome}

-- What the server knows of the agent's build.
pub data Phase : Type 0 where
  free : Phase
  busy : Text → Phase
  finishing : Text → Text → Phase
  out_of_order : Phase

-- The builds that were completed, with their results, in this order.
pub record Ledger : Type 0 where
  pub phase : Phase
  pub jobs : List (Text × Text)

abbrev pub Brief : Type 0
Brief = Text × Text × Text × Text

abbrev pub is_greeting : Text → Bool
is_greeting action = (action == join_action) || (action == ping_action)

-- A build is reported as building, then as completing with its result, then as completed with the
-- same one; joins and pings come between builds only.
unfoldable pub note : Phase → List (Text × Text) → Brief → Ledger
note free jobs (action, id, state, result) =
    if is_greeting action
    then record { phase = free; jobs = jobs }
    else if (action == report_current_status_action) && (state == building) && (result == [])
    then record { phase = busy id; jobs = jobs }
    else record { phase = out_of_order; jobs = jobs }
note (busy build) jobs (action, id, state, result) =
    if (action == report_completing_action) && (state == completing) && (id == build)
    then record { phase = finishing id result; jobs = jobs }
    else record { phase = out_of_order; jobs = jobs }
note (finishing build outcome) jobs (action, id, state, result) =
    if (action == report_completed_action)
      && (state == completed)
      && (id == build)
      && (result == outcome)
    then record { phase = free; jobs = jobs ++ (id, result) ∷ [] }
    else record { phase = out_of_order; jobs = jobs }
note out_of_order jobs b = record { phase = out_of_order; jobs = jobs }

-- The ledger behind the messages, the latest of which comes first.
unfoldable pub ledger : List Brief → Ledger
ledger [] = record { phase = free; jobs = [] }
ledger (b ∷ bs) = let before = ledger bs in note before.phase before.jobs b

abbrev pub ledger_of : Agent → Ledger
ledger_of a = ledger (map brief (sent_of a.trace))

-- The reports of a build that is run between others, and of one whose run ends in a panic.
pub note-building :
    (p : Phase) (jobs : List (Text × Text)) (id : Text)
    → p ≡ free
    → note p jobs (report_current_status_action, id, building, [])
      ≡ record { phase = busy id; jobs = jobs }
unfolding note ◌==◌
note-building p jobs id e = rw e

pub ledger-reports :
    (id result : Text) (bs : List Brief)
    → (ledger bs).phase ≡ free
    → ledger (reports id (ok result) ++ bs)
      ≡ record { phase = free; jobs = (ledger bs).jobs ++ (id, result) ∷ [] }
unfolding ledger note
ledger-reports id result bs e = rw (
  note-building (ledger bs).phase (ledger bs).jobs id e,
  ==_refl report_completing_action,
  ==_refl completing,
  ==_refl id,
  ==_refl report_completed_action,
  ==_refl completed,
  ==_refl id,
  ==_refl result,
)

pub ledger-died :
    (id : Text) (x : Fault) (bs : List Brief)
    → (ledger bs).phase ≡ free
    → ledger (reports id (err x) ++ bs) ≡ record { phase = busy id; jobs = (ledger bs).jobs }
unfolding ledger
ledger-died id x bs e = note-building (ledger bs).phase (ledger bs).jobs id e

pub note-greeting :
    (p : Phase) (jobs : List (Text × Text)) (b : Brief)
    → p ≡ free
    → is_greeting b.0 ≡ true
    → note p jobs b ≡ record { phase = free; jobs = jobs }
unfolding note
note-greeting p jobs b e g = rw (e, g)
