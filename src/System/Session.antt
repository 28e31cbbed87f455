-- ===== src/System/Session.antt =====
-- Whatever the order of steps, the agent on its connection runs as the event loop does alone.
use ex_gocd.Base.{
  ◌<◌, ◌≡◌, ◌≢◌, refl, sym, ap, ◌∙◌, subst, false, List, [], ◌∷◌, ◌++◌, length, reverse, All,
  append_assoc, append-nil,
}
use ex_gocd.Protocol.{Message}
use ex_gocd.Connection.{
  Connection, connected, capacity, enqueue, Step, send_queued, receive, close, Steps, here, further,
}
use ex_gocd.Connection.Delivery.{held, Steps-IsOrdered}
use ex_gocd.Agent.{Host, Agent}
use ex_gocd.Agent.Build.Reports.{sent_of}
use ex_gocd.Agent.Messages.Sent.{IsOwn, send_join-SendsMore}
use ex_gocd.Agent.Session.{
  Event, context_done, ping_tick, receive_closed, received, crashed, still_open, run_events,
}
use ex_gocd.System.{
  System, sent_since, IsPump, take_first, close_link, joining, opened, happens, Move, pump, push,
  take, tick, finish, lose, unwind, Reach, begun, later,
}
use ex_gocd.System.Rounds.{
  messages_of, own, messages_of-append, own-append, own-IsOwn, sent_since_lem, run_event-SendsMore,
  run_events-append, pump_quiet,
}

crashed-ne-still_open : crashed ≢ still_open
crashed-ne-still_open e = cc

module _ (h : Host) (a : Agent) where
  -- The sequential event loop explains the state reached.
  record IsExplained (s : System) : Type 0 where
    ran : run_events h s.events (joining h a) ≡ (s.over, s.agent)
    heard : messages_of s.events ≡ s.link.delivered
    said :
        reverse (sent_of a.trace) ++ (own s.link.queued ++ s.outbox)
        ≡ reverse (sent_of s.agent.trace)
    own_outbox : All IsOwn s.outbox
    linked : Steps connected s.link
    unclosed : s.over ≡ still_open → s.link.done ≡ false

  begun-IsExplained : IsExplained (opened h a)
  begun-IsExplained =
      let (said, fresh) =
        sent_since_lem a (joining h a) (send_join-SendsMore h (record a { conn_cookie = [] })) in
      record {
        ran = unfold run_events in refl;
        heard = refl;
        said = sym said;
        own_outbox = fresh;
        linked = here connected;
        unclosed = λ e. refl;
      }

  pump-IsExplained :
      (s : System) (d : Connection) (p : Step s.link d)
      → IsPump p
      → IsExplained s
      → IsExplained (record s { link = d })
  pump-IsExplained s d p q x =
      let (heard, said, open_link) = pump_quiet p q in
      record {
        ran = x.ran;
        heard = x.heard ∙ sym heard;
        said = ap (λ l. reverse (sent_of a.trace) ++ (l ++ s.outbox)) said ∙ x.said;
        own_outbox = x.own_outbox;
        linked = further connected s.link d x.linked p;
        unclosed = λ e. open_link ∙ x.unclosed e;
      }

  push-IsExplained :
      (s : System) (m : Message) (rest : List Message)
      → s.outbox ≡ m ∷ rest
      → length s.link.sends < capacity
      → IsExplained s
      → IsExplained (record s { link = enqueue m s.link; outbox = rest })
  push-IsExplained s m rest e room x =
      let (mine, others) : IsOwn m × All IsOwn rest = subst (λ l. All IsOwn l) e x.own_outbox in
      record {
        ran = x.ran;
        heard = x.heard;
        said =
            ap (λ l. reverse (sent_of a.trace) ++ l)
              (ap (λ l. l ++ rest)
                  (own-append s.link.queued (m ∷ [])
                    ∙ ap (λ l. own s.link.queued ++ l) (own-IsOwn m mine))
                ∙ append_assoc (own s.link.queued) (m ∷ []) rest
                ∙ ap (λ l. own s.link.queued ++ l) (sym e))
            ∙ x.said;
        own_outbox = others;
        linked = further connected s.link _ x.linked (send_queued s.link m room mine);
        unclosed = x.unclosed;
      }

  sent_so_far :
      (s : System)
      → s.outbox ≡ []
      → IsExplained s
      → reverse (sent_of a.trace) ++ own s.link.queued ≡ reverse (sent_of s.agent.trace)
  sent_so_far s e x =
      ap (λ l. reverse (sent_of a.trace) ++ l)
        (sym (append-nil (own s.link.queued)) ∙ ap (λ l. own s.link.queued ++ l) (sym e))
      ∙ x.said

  -- The loop takes one more event; `link` is the connection behind it.
  happens-IsExplained :
      (s : System) (e : Event) (link : Connection)
      → s.over ≡ still_open
      → s.outbox ≡ []
      → link.delivered ≡ s.link.delivered ++ messages_of (e ∷ [])
      → link.queued ≡ s.link.queued
      → Steps connected link
      → ((happens h e s).over ≡ still_open → link.done ≡ false)
      → IsExplained s
      → IsExplained (record (happens h e s) { link = link })
  unfolding happens
  happens-IsExplained s e link at sent_all heard same linked unclosed x =
      let (said, fresh) =
        sent_since_lem s.agent (run_events h (e ∷ []) s.agent).1
          (run_event-SendsMore h e s.agent) in
      record {
        ran =
            run_events-append h s.events (e ∷ []) (joining h a) s.agent
              (x.ran ∙ ap (λ o. (o, s.agent)) at);
        heard =
            messages_of-append s.events (e ∷ [])
            ∙ ap (λ l. l ++ messages_of (e ∷ [])) x.heard
            ∙ sym heard;
        said =
            ap
              (λ q.
                reverse (sent_of a.trace)
                ++ (own q ++ sent_since s.agent (run_events h (e ∷ []) s.agent).1))
              same
            ∙ sym (append_assoc (reverse (sent_of a.trace)) (own s.link.queued) _)
            ∙ ap (λ l. l ++ sent_since s.agent (run_events h (e ∷ []) s.agent).1)
                (sent_so_far s sent_all x)
            ∙ sym said;
        own_outbox = fresh;
        linked = linked;
        unclosed = unclosed;
      }

  Move-IsExplained : {s t : System} → Move h s t → IsExplained s → IsExplained t
  unfolding happens run_events
  Move-IsExplained {s} (pump d p q) x = pump-IsExplained s d p q x
  Move-IsExplained {s} (push m rest e room) x = push-IsExplained s m rest e room x
  Move-IsExplained {s} (take m rest at sent_all e) x =
      happens-IsExplained s (received m) (take_first m rest s.link) at sent_all refl refl
        (further connected s.link _ x.linked (receive s.link m rest e)) (λ _. x.unclosed at) x
  Move-IsExplained {s} (tick at sent_all) x =
      happens-IsExplained s ping_tick s.link at sent_all (sym (append-nil s.link.delivered)) refl
        x.linked (λ _. x.unclosed at) x
  Move-IsExplained {s} (finish at sent_all) x =
      happens-IsExplained s context_done (close_link s.link) at sent_all
        (sym (append-nil s.link.delivered)) refl
        (further connected s.link _ x.linked (close s.link (x.unclosed at))) (λ e. cc) x
  Move-IsExplained {s} (lose left at sent_all e r) x =
      happens-IsExplained s receive_closed (close_link s.link) at sent_all
        (sym (append-nil s.link.delivered)) refl
        (further connected s.link _ x.linked (close s.link (x.unclosed at))) (λ e. cc) x
  Move-IsExplained {s} (unwind at sent_all open_link) x = record {
    ran = x.ran;
    heard = x.heard;
    said = x.said;
    own_outbox = x.own_outbox;
    linked = further connected s.link _ x.linked (close s.link open_link);
    unclosed = λ e. absurd (crashed-ne-still_open (sym at ∙ e));
  }

  Reach-IsExplained : {s : System} → Reach h a s → IsExplained s
  Reach-IsExplained (begun p) = begun-IsExplained
  Reach-IsExplained (later r m) = Move-IsExplained m (Reach-IsExplained r)

  -- Whatever the order in which the agent, `readPump` and `writePump` take their steps: the event
  -- loop run alone on the events taken so far gives the agent's state and the outcome, and the
  -- messages read from the socket are those among these events, then those that wait for the agent
  -- and the one that `readPump` holds.
  pub Reach-runs :
      {s : System}
      → Reach h a s
      → (run_events h s.events (joining h a) ≡ (s.over, s.agent))
        × (s.link.read ≡ messages_of s.events ++ (s.link.receives ++ held s.link.reader))
  Reach-runs {s} r =
      let x = Reach-IsExplained r in
      (
        x.ran,
        (Steps-IsOrdered s.link x.linked).0
            ∙ ap (λ l. l ++ (s.link.receives ++ held s.link.reader)) (sym x.heard),
      )

  -- Whatever the order in which the agent, `readPump` and `writePump` take their steps: the messages
  -- of the agent are in the channel `send` in the order in which the agent sent them, none twice,
  -- with nothing between them but acknowledgements, and those that are not yet in it wait behind.
  pub Reach-sends :
      {s : System}
      → Reach h a s
      → reverse (sent_of a.trace) ++ (own s.link.queued ++ s.outbox)
        ≡ reverse (sent_of s.agent.trace)
  Reach-sends r = (Reach-IsExplained r).said
