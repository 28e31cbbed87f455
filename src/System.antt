-- ===== src/System.antt =====
-- The event loop of `runWithConnection` (agent/internal/agent/agent.go) on a connection
-- (agent/internal/websocket/connection.go): the agent, `readPump` and `writePump` in any order of
-- their steps. The agent handles an event with all its effects in one step; the messages that it
-- sends meanwhile wait in `outbox` and enter the channel one by one, as `Send` finds room.
pub mod Rounds
pub mod Session
use ex_gocd.Base.{
  is_positive, ◌<◌, ◌≡◌, Bool, true, false, List, [], ◌∷◌, ◌++◌, drop, length, reverse,
  if◌then◌else◌,
}
use ex_gocd.Text.{◌==◌}
use ex_gocd.Protocol.{Message, ack_action}
use ex_gocd.Connection.{
  Connection, connected, capacity, enqueue, stopped, Step, send_queued, send_dropped, receive,
  close, seen_done, seen_open, read_message, read_failed, ack_queued, ack_dropped, delivery,
  delivery_given_up, write, write_failed, ping_failed, writer_done,
}
use ex_gocd.Agent.{Host, Agent}
use ex_gocd.Agent.Build.Reports.{sent_of}
use ex_gocd.Agent.Messages.{send_join}
use ex_gocd.Agent.Session.{
  Event, context_done, ping_tick, receive_closed, received, Outcome, crashed, still_open,
  run_events,
}

-- `events` are those that the loop has taken so far, `over` how it ended.
pub record System : Type 0 where
  pub link : Connection
  pub agent : Agent
  pub outbox : List Message
  pub over : Outcome
  pub events : List Event

-- What the second agent sent that the first one had not, the oldest first.
abbrev pub sent_since : Agent → Agent → List Message
sent_since a a' = drop (length (sent_of a.trace)) (reverse (sent_of a'.trace))

-- The steps of `readPump` and `writePump`.
abbrev pub IsPump : {c d : Connection} → Step c d → Type 0
IsPump (send_queued c m room other) = ⊥
IsPump (send_dropped c e) = ⊥
IsPump (receive c m rest e) = ⊥
IsPump (close c e) = ⊥
IsPump _ = Unit

abbrev pub take_first : Message → List Message → Connection → Connection
take_first m rest c = record c { receives = rest; delivered = c.delivered ++ m ∷ [] }

-- `defer conn.Close()`.
abbrev pub close_link : Connection → Connection
close_link c = record c { done = true }

-- A join is sent once a connection is made.
abbrev pub joining : Host → Agent → Agent
joining h a = send_join h (record a { conn_cookie = [] })

abbrev pub opened : Host → Agent → System
opened h a = record {
  link = connected;
  agent = joining h a;
  outbox = sent_since a (joining h a);
  over = still_open;
  events = [];
}

-- One round of the event loop.
unfoldable pub happens : Host → Event → System → System
happens h e s =
    let (o, a) = run_events h (e ∷ []) s.agent in
    record s { agent = a; outbox = sent_since s.agent a; over = o; events = s.events ++ e ∷ [] }

-- The loop takes an event once all messages of the one before are in the channel. A panic unwinds
-- through `defer conn.Close()` behind what was sent before it.
pub data Move (h : Host) (s : System) : System → Type 0 where
  pump : (d : Connection) (p : Step s.link d) → IsPump p → Move h s (record s { link = d })
  push :
      (m : Message) (rest : List Message)
      → s.outbox ≡ m ∷ rest
      → length s.link.sends < capacity
      → Move h s (record s { link = enqueue m s.link; outbox = rest })
  take :
      (m : Message) (rest : List Message)
      → s.over ≡ still_open
      → s.outbox ≡ []
      → s.link.receives ≡ m ∷ rest
      → Move h s (record (happens h (received m) s) { link = take_first m rest s.link })
  tick : s.over ≡ still_open → s.outbox ≡ [] → Move h s (happens h ping_tick s)
  finish :
      s.over ≡ still_open
      → s.outbox ≡ []
      → Move h s (record (happens h context_done s) { link = close_link s.link })
  lose :
      (left : List Message)
      → s.over ≡ still_open
      → s.outbox ≡ []
      → s.link.receives ≡ []
      → s.link.reader ≡ stopped left
      → Move h s (record (happens h receive_closed s) { link = close_link s.link })
  unwind :
      s.over ≡ crashed
      → s.outbox ≡ []
      → s.link.done ≡ false
      → Move h s (record s { link = close_link s.link })

-- The loop begins behind `NewTicker`.
pub data Reach (h : Host) (a : Agent) : System → Type 0 where
  begun : is_positive a.config.heartbeat_interval ≡ true → Reach h a (opened h a)
  later : {s t : System} → Reach h a s → Move h s t → Reach h a t
