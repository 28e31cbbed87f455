-- ===== src/Agent/Session/Journal.antt =====
-- What the server is told of the builds on a connection, and over a whole session.
use ex_gocd.Config.{Config}
use ex_gocd.Base.{
  is_positive, ℕ, ◌≡◌, ◌≢◌, refl, sym, ap, ◌∙◌, subst, Bool, true, false, ◌||◌, List, [], ◌∷◌, ◌++◌,
  map, arith, Result, err, if◌then◌else◌, if_both, append_assoc, append-nil,
}
use mathlib.Core.List.{map-append}
use ex_gocd.Text.{Text, ◌==◌}
use ex_gocd.Text.Laws.{==_iff}
use ex_gocd.Protocol.{Message, build_action}
use ex_gocd.Agent.{Fault, panic, Host, Agent, new_agent}
use ex_gocd.Agent.Messages.{handle_message, send_ping, send_join}
use ex_gocd.Agent.Session.{
  Event, context_done, ping_tick, receive_closed, received, Outcome, clean, lost, crashed,
  no_ticker, still_open, unless_panic, run_events, End, died, Attempt, Journey, behind, rounds,
  next_delay, first_delay, start, run_with_connection,
}
use ex_gocd.Agent.Session.Ledger.{free, busy, Ledger, ledger, ledger_of}
use ex_gocd.Agent.Session.Handled.{
  Handled, assigned_id, passed_by, built, cut_off, handle_message-Handled, send_ping-ledger,
  send_join-ledger,
}

-- The builds that the messages assign, up to the event that ends the connection.
abbrev pub assigned : List Event → List Text
assigned [] = []
assigned (context_done ∷ es) = []
assigned (receive_closed ∷ es) = []
assigned (ping_tick ∷ es) = assigned es
assigned (received m ∷ es) =
    let rest = assigned es in if m.action == build_action then assigned_id m ∷ rest else rest

abbrev pub done_of : Ledger → List Text
done_of l = map (λ (job : Text × Text). job.0) l.jobs

-- The builds assigned are done, in order; behind a panic, those before the one that is cut off.
abbrev pub IsReported : Outcome → List Text → List Text → Ledger → Type 0
IsReported crashed before new l =
    (run : List Text) × (id : Text) × (left : List Text) × (new ≡ run ++ id ∷ left)
    × (l.phase ≡ busy id)
    × (done_of l ≡ before ++ run)
IsReported _ before new l = (l.phase ≡ free) × (done_of l ≡ before ++ new)

one_more :
    (o : Outcome) (before new : List Text) (id : Text) (l : Ledger)
    → IsReported o (before ++ id ∷ []) new l
    → IsReported o before (id ∷ new) l
one_more crashed before new id l (run, cut, left, e, p, d) =
    (id ∷ run, cut, left, ap (λ t. id ∷ t) e, p, d ∙ append_assoc before (id ∷ []) run)
one_more clean before new id l (p, d) = (p, d ∙ append_assoc before (id ∷ []) new)
one_more lost before new id l (p, d) = (p, d ∙ append_assoc before (id ∷ []) new)
one_more no_ticker before new id l (p, d) = (p, d ∙ append_assoc before (id ∷ []) new)
one_more still_open before new id l (p, d) = (p, d ∙ append_assoc before (id ∷ []) new)

is_assigned :
    (m : Message) (es : List Event)
    → m.action ≡ build_action
    → assigned (received m ∷ es) ≡ assigned_id m ∷ assigned es
is_assigned m es e = ground (arith, ==_iff m.action build_action)

not_assigned :
    (m : Message) (es : List Event)
    → m.action ≢ build_action
    → assigned (received m ∷ es) ≡ assigned es
not_assigned m es e = ground (arith, ==_iff m.action build_action)

unless_panic_fine :
    (r : Result Fault (Unit {0})) (a : Agent) (rest : Outcome × Agent)
    → r ≢ err panic
    → unless_panic r a rest ≡ rest
unfolding unless_panic
unless_panic_fine (err panic) a rest fine = absurd (fine refl)
unless_panic_fine _ a rest fine = refl

module _ (h : Host) where
  unless_panic-IsReported :
      (msg : Message) (l : Ledger) (r : Result Fault (Unit {0})) (l' : Ledger) (a : Agent)
      (es : List Event) (rest : Outcome × Agent)
      → Handled msg l r l'
      → ledger_of a ≡ l'
      → l.phase ≡ free
      → (l'.phase ≡ free → IsReported rest.0 (done_of l') (assigned es) (ledger_of rest.1))
      → IsReported
          (unless_panic r a rest).0
          (done_of l)
          (assigned (received msg ∷ es))
          (ledger_of (unless_panic r a rest).1)
  unfolding unless_panic
  unless_panic-IsReported msg l r l' a es rest (passed_by q other fine) at e k =
      let goes_on = unless_panic_fine r a rest fine in
      let same = not_assigned msg es other in
      subst
        (λ (x : Outcome × Agent).
          IsReported x.0 (done_of l) (assigned (received msg ∷ es)) (ledger_of x.1))
        (sym goes_on)
        (subst (λ ids. IsReported rest.0 (done_of l) ids (ledger_of rest.1)) (sym same) (k e))
  unless_panic-IsReported msg l r l' a es rest (built result action) at e k =
      subst (λ ids. IsReported rest.0 (done_of l) ids (ledger_of rest.1))
        (sym (is_assigned msg es action))
        (one_more rest.0 (done_of l) (assigned es) (assigned_id msg) (ledger_of rest.1) (
          subst (λ ids. IsReported rest.0 ids (assigned es) (ledger_of rest.1))
            (map-append _ l.jobs (((assigned_id msg), result) ∷ [])) (k refl)))
  unless_panic-IsReported msg l r l' a es rest (cut_off action) at e k = (
    [],
    (assigned_id msg),
    assigned es,
    is_assigned msg es action,
    ap (λ (m : Ledger). m.phase) at,
    ap done_of at ∙ sym (append-nil (done_of l)),
  )

  -- On one connection every build that a message assigns is reported as building, as completing and as
  -- completed before anything else is sent, in the order of the messages, each once; behind a panic
  -- this holds of the builds before, and the one that panics is left as building.
  pub run_events-IsReported :
      (es : List Event) (a : Agent)
      → (ledger_of a).phase ≡ free
      → IsReported
          (run_events h es a).0
          (done_of (ledger_of a))
          (assigned es)
          (ledger_of (run_events h es a).1)
  unfolding run_events
  run_events-IsReported [] a e = (e, sym (append-nil _))
  run_events-IsReported (context_done ∷ es) a e = (e, sym (append-nil _))
  run_events-IsReported (receive_closed ∷ es) a e = (e, sym (append-nil _))
  run_events-IsReported (ping_tick ∷ es) a e =
      let same = send_ping-ledger h a e in
      subst
        (λ (l : Ledger).
          IsReported (run_events h es (send_ping h a)).0 (done_of l) (assigned es)
            (ledger_of (run_events h es (send_ping h a)).1))
        same (run_events-IsReported es (send_ping h a) (ap (λ (l : Ledger). l.phase) same ∙ e))
  run_events-IsReported (received msg ∷ es) a e =
      let a' = (handle_message h msg a).1 in
      unless_panic-IsReported msg (ledger_of a) _ (ledger_of a') a' es (run_events h es a')
        (handle_message-Handled h msg a e) refl e (run_events-IsReported es a')

-- Behind a session no build is left open, but for the one that a panic has ended.
abbrev pub IsSettled : End → Ledger → Type 0
IsSettled died l = (id : Text) × (l.phase ≡ busy id)
IsSettled _ l = l.phase ≡ free

abbrev IsOver : Outcome → Ledger → Type 0
IsOver crashed l = (id : Text) × (l.phase ≡ busy id)
IsOver _ l = l.phase ≡ free

reported-IsOver :
    (o : Outcome) (before new : List Text) (l : Ledger) → IsReported o before new l → IsOver o l
reported-IsOver crashed before new l (run, id, left, e, p, d) = (id, p)
reported-IsOver clean before new l (p, d) = p
reported-IsOver lost before new l (p, d) = p
reported-IsOver no_ticker before new l (p, d) = p
reported-IsOver still_open before new l (p, d) = p

behind-IsSettled :
    (delay : ℕ) (t : Attempt) (o : Outcome) (a : Agent) (again : Journey)
    → IsOver o (ledger_of a)
    → ((ledger_of a).phase ≡ free → IsSettled again.stop (ledger_of again.agent))
    → IsSettled (behind delay t o a again).stop (ledger_of (behind delay t o a again).agent)
unfolding behind
behind-IsSettled delay t clean a again p k = p
behind-IsSettled delay t crashed a again p k = p
behind-IsSettled delay t no_ticker a again p k = p
behind-IsSettled delay t still_open a again p k = p
behind-IsSettled delay t lost a again p k =
    if_both (λ (j : Journey). IsSettled j.stop (ledger_of j.agent)) (t.done_after || t.done_waiting)
      _ _ p (k p)

module _ (h : Host) where
  run_with_connection-IsOver :
      (b : Bool) (es : List Event) (a : Agent)
      → (ledger_of a).phase ≡ free
      → IsOver (run_with_connection h b es a).0 (ledger_of (run_with_connection h b es a).1)
  unfolding run_with_connection
  run_with_connection-IsOver false es a e = e
  run_with_connection-IsOver true es a e =
      let opened = record a { conn_cookie = [] } in
      let fresh = ap (λ (l : Ledger). l.phase) (send_join-ledger h opened e) ∙ e in
      if_both (λ (r : Outcome × Agent). IsOver r.0 (ledger_of r.1))
        (is_positive a.config.heartbeat_interval) _ _
        (reported-IsOver (run_events h es (send_join h opened)).0 _ (assigned es) _
          (run_events-IsReported h es (send_join h opened) fresh))
        fresh

  rounds-IsSettled :
      (delay : ℕ) (ts : List Attempt) (a : Agent)
      → (ledger_of a).phase ≡ free
      → IsSettled (rounds h delay ts a).stop (ledger_of (rounds h delay ts a).agent)
  unfolding rounds
  rounds-IsSettled delay [] a e = e
  rounds-IsSettled delay (t ∷ ts) a e =
      if_both (λ (j : Journey). IsSettled j.stop (ledger_of j.agent)) t.done_before _ _ e
        (behind-IsSettled delay t _ _ _ (run_with_connection-IsOver t.connects t.events a e)
          (rounds-IsSettled (next_delay delay) ts _))

  -- Over a whole session, with any number of connections, the agent's messages follow the protocol of
  -- the ledger: joins and pings come between builds, and each build is reported as building, then as
  -- completing and as completed with one result. No build is left open at the end, but for the one
  -- that a panic has ended.
  pub start-IsSettled :
      (ts : List Attempt) (c : Config)
      → IsSettled (start h ts (new_agent c)).stop (ledger_of (start h ts (new_agent c)).agent)
  unfolding start ledger
  start-IsSettled ts c = rounds-IsSettled first_delay ts (new_agent c) refl
