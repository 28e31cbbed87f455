-- ===== src/System/Rounds.antt =====
-- What one round of the event loop sends, and what one step of a pump leaves alone.
use ex_gocd.Base.{
  ◌≡◌, refl, sym, ap, ◌∙◌, subst, List, [], ◌∷◌, ◌++◌, arith, drop, length, reverse, length-reverse,
  drop-append, All, All-reverse, append-nil, Result, err, if◌then◌else◌,
}
use mathlib.Core.List.{reverse-append}
use ex_gocd.Text.{◌==◌}
use ex_gocd.Text.Laws.{==_iff, ==_refl}
use ex_gocd.Protocol.{Message, ack_action, ack_message}
use ex_gocd.Connection.{
  Connection, Step, send_queued, send_dropped, receive, close, seen_done, seen_open, read_message,
  read_failed, ack_queued, ack_dropped, delivery, delivery_given_up, write, write_failed,
  ping_failed, writer_done,
}
use ex_gocd.Agent.{Fault, panic, Host, Agent}
use ex_gocd.Agent.Build.Reports.{sent_of}
use ex_gocd.Agent.Messages.{handle_message, send_ping}
use ex_gocd.Agent.Messages.Sent.{IsOwn, SendsMore, handle_message-SendsMore, send_ping-SendsMore}
use ex_gocd.Agent.Session.{
  Event, context_done, ping_tick, receive_closed, received, Outcome, still_open, unless_panic,
  run_events,
}
use ex_gocd.System.{sent_since, IsPump}

-- The messages among the events.
abbrev pub messages_of : List Event → List Message
messages_of [] = []
messages_of (received m ∷ es) = m ∷ messages_of es
messages_of (_ ∷ es) = messages_of es

-- The messages that are no acknowledgements.
abbrev pub own : List Message → List Message
own [] = []
own (m ∷ ms) = let rest = own ms in if m.action == ack_action then rest else m ∷ rest

pub messages_of-append :
    (es ds : List Event) → messages_of (es ++ ds) ≡ messages_of es ++ messages_of ds
messages_of-append [] ds = refl
messages_of-append (received m ∷ es) ds = ap (λ l. m ∷ l) (messages_of-append es ds)
messages_of-append (context_done ∷ es) ds = messages_of-append es ds
messages_of-append (ping_tick ∷ es) ds = messages_of-append es ds
messages_of-append (receive_closed ∷ es) ds = messages_of-append es ds

pub own-append : (ms ns : List Message) → own (ms ++ ns) ≡ own ms ++ own ns
own-append [] ns = refl
own-append (m ∷ ms) ns = ground (arith, own-append ms ns)

own_ack : (ms : List Message) (id : _) → own (ms ++ ack_message id ∷ []) ≡ own ms
unfolding ack_message
own_ack ms id =
    own-append ms _
    ∙ ap (λ l. own ms ++ l) (ground (arith, ==_refl ack_action))
    ∙ append-nil (own ms)

pub own-IsOwn : (m : Message) → IsOwn m → own (m ∷ []) ≡ m ∷ []
own-IsOwn m h = ground (arith, ==_iff m.action ack_action)

-- What is sent in between stands behind what was sent before.
pub sent_since_lem :
    (a a' : Agent)
    → SendsMore a a'
    → (reverse (sent_of a'.trace) ≡ reverse (sent_of a.trace) ++ sent_since a a')
      × All IsOwn (sent_since a a')
sent_since_lem a a' (new, e, fresh) =
    let behind : reverse (sent_of a'.trace) ≡ reverse (sent_of a.trace) ++ reverse new =
      ap reverse e ∙ reverse-append new (sent_of a.trace) in
    let since : sent_since a a' ≡ reverse new =
      ap (λ l. drop (length (sent_of a.trace)) l) behind
      ∙ ap (λ n. drop n (reverse (sent_of a.trace) ++ reverse new))
          (sym (length-reverse (sent_of a.trace)))
      ∙ drop-append (reverse (sent_of a.trace)) (reverse new) in
    (
      behind ∙ ap (λ l. reverse (sent_of a.trace) ++ l) (sym since),
      subst (λ l. All IsOwn l) (sym since) (All-reverse IsOwn new fresh),
    )

module _ (h : Host) where
  unless_panic-agent :
      (r : Result Fault (Unit {0})) (a : Agent) → (unless_panic r a (still_open, a)).1 ≡ a
  unfolding unless_panic
  unless_panic-agent (err panic) a = refl
  unless_panic-agent _ a = refl

  pub run_event-SendsMore : (e : Event) (a : Agent) → SendsMore a (run_events h (e ∷ []) a).1
  unfolding run_events
  run_event-SendsMore context_done a = ([], refl, tt)
  run_event-SendsMore ping_tick a = send_ping-SendsMore h a
  run_event-SendsMore receive_closed a = ([], refl, tt)
  run_event-SendsMore (received m) a =
      subst (SendsMore a)
        (sym (unless_panic-agent (handle_message h m a).0 (handle_message h m a).1))
        (handle_message-SendsMore h m a)

  unless_panic_open :
      (r : Result Fault (Unit {0})) (a b : Agent) (rest : Outcome × Agent)
      → unless_panic r a rest ≡ (still_open, b)
      → (rest ≡ (still_open, b)) × ((again : Outcome × Agent) → unless_panic r a again ≡ again)
  unfolding unless_panic
  unless_panic_open (err panic) a b rest e = cc
  unless_panic_open _ a b rest e = (e, λ again. refl)

  -- Further events continue where the loop stands.
  pub run_events-append :
      (es ds : List Event) (a b : Agent)
      → run_events h es a ≡ (still_open, b)
      → run_events h (es ++ ds) a ≡ run_events h ds b
  unfolding run_events
  run_events-append [] ds a b e = ap (λ (p : Outcome × Agent). run_events h ds p.1) e
  run_events-append (context_done ∷ es) ds a b e = cc
  run_events-append (ping_tick ∷ es) ds a b e = run_events-append es ds (send_ping h a) b e
  run_events-append (receive_closed ∷ es) ds a b e = cc
  run_events-append (received m ∷ es) ds a b e =
      let (goes_on, same) =
        unless_panic_open (handle_message h m a).0 (handle_message h m a).1 b
          (run_events h es (handle_message h m a).1) e in
      same (run_events h (es ++ ds) (handle_message h m a).1)
      ∙ run_events-append es ds (handle_message h m a).1 b goes_on

-- A pump neither takes from `receive` nor sends but acknowledgements, and it does not close.
pub pump_quiet :
    {c d : Connection} (p : Step c d)
    → IsPump p
    → (d.delivered ≡ c.delivered) × (own d.queued ≡ own c.queued) × (d.done ≡ c.done)
pump_quiet (send_queued c m room other) q = absurd q
pump_quiet (send_dropped c e) q = absurd q
pump_quiet (receive c m rest e) q = absurd q
pump_quiet (close c e) q = absurd q
pump_quiet (ack_queued c m at room) q = (refl, own_ack c.queued m.ack_id, refl)
pump_quiet (seen_done c at e) q = (refl, refl, refl)
pump_quiet (seen_open c at e) q = (refl, refl, refl)
pump_quiet (read_message c m at) q = (refl, refl, refl)
pump_quiet (read_failed c at) q = (refl, refl, refl)
pump_quiet (ack_dropped c m at e) q = (refl, refl, refl)
pump_quiet (delivery c m at room) q = (refl, refl, refl)
pump_quiet (delivery_given_up c m at e) q = (refl, refl, refl)
pump_quiet (write c m rest at e) q = (refl, refl, refl)
pump_quiet (write_failed c m rest at e) q = (refl, refl, refl)
pump_quiet (ping_failed c at) q = (refl, refl, refl)
pump_quiet (writer_done c at e) q = (refl, refl, refl)
