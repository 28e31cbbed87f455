-- ===== src/Connection.antt =====
-- The WebSocket connection: agent/internal/websocket/connection.go. `readPump`, `writePump` and the
-- agent, which calls `Send`, `Receive` and `Close`, run at once; a step is what one of them does
-- between two looks at the channels, and any order of steps may happen.
pub mod Delivery
pub mod Dial
pub mod Stall
use ex_gocd.Base.{ℕ, ◌<◌, ◌≡◌, ◌≢◌, Bool, true, false, List, [], ◌∷◌, ◌++◌, length, if◌then◌else◌}
use ex_gocd.Text.{◌==◌}
use ex_gocd.Protocol.{Message, ack_action, ack_message}

-- The capacity of the channels `send` and `receive`.
abbrev pub capacity : ℕ
capacity = 10

-- Where `readPump` stands: before its look at `done`, in `ReadJSON`, at the acknowledgement of a
-- message, at its delivery; or it has returned, with the message that it did not deliver.
pub data Reader : Type 0 where
  checking reading : Reader
  acking delivering : Message → Reader
  stopped : List Message → Reader

-- `writePump` runs, or it has returned, with the message that could not be written.
pub data Writer : Type 0 where
  writing : Writer
  gone : List Message → Writer

-- The channels `sends` and `receives`, the oldest message first, and what happened so far: the
-- messages read from the socket, taken by the agent, put into `send`, and written to the socket.
pub record Connection : Type 0 where
  pub reader : Reader
  pub writer : Writer
  pub sends : List Message
  pub receives : List Message
  pub done : Bool
  pub read : List Message
  pub delivered : List Message
  pub queued : List Message
  pub written : List Message

-- `Connect`, behind the handshake.
abbrev pub connected : Connection
connected = record {
  reader = checking;
  writer = writing;
  sends = [];
  receives = [];
  done = false;
  read = [];
  delivered = [];
  queued = [];
  written = [];
}

abbrev pub enqueue : Message → Connection → Connection
enqueue m c = record c { sends = c.sends ++ m ∷ []; queued = c.queued ++ m ∷ [] }

-- What `readPump` does with a message next: an empty acknowledgement id asks for none.
unfoldable pub next_reader : Message → Reader
next_reader m = if m.ack_id == [] then delivering m else acking m

abbrev pub read_next : Message → Connection → Connection
read_next m c = record c { reader = next_reader m; read = c.read ++ m ∷ [] }

abbrev pub acknowledge : Message → Connection → Connection
acknowledge m c = record (enqueue (ack_message m.ack_id) c) { reader = delivering m }

abbrev pub deliver : Message → Connection → Connection
deliver m c = record c { reader = checking; receives = c.receives ++ m ∷ [] }

abbrev pub stop_reader : List Message → Connection → Connection
stop_reader left c = record c { reader = stopped left }

-- Each step is one that Go's `select` may take in the state given.
pub data Step : Connection → Connection → Type 0 where
  -- `Send` by the agent, which sends no acknowledgements itself.
  send_queued :
      (c : Connection) (m : Message)
      → length c.sends < capacity
      → m.action ≢ ack_action
      → Step c (enqueue m c)
  send_dropped : (c : Connection) → c.done ≡ true → Step c c
  -- `Receive` by the agent.
  receive :
      (c : Connection) (m : Message) (rest : List Message)
      → c.receives ≡ m ∷ rest
      → Step c (record c { receives = rest; delivered = c.delivered ++ m ∷ [] })
  close : (c : Connection) → c.done ≡ false → Step c (record c { done = true })
  -- `readPump`.
  seen_done : (c : Connection) → c.reader ≡ checking → c.done ≡ true → Step c (stop_reader [] c)
  seen_open :
      (c : Connection)
      → c.reader ≡ checking
      → c.done ≡ false
      → Step c (record c { reader = reading })
  read_message : (c : Connection) (m : Message) → c.reader ≡ reading → Step c (read_next m c)
  read_failed : (c : Connection) → c.reader ≡ reading → Step c (stop_reader [] c)
  ack_queued :
      (c : Connection) (m : Message)
      → c.reader ≡ acking m
      → length c.sends < capacity
      → Step c (acknowledge m c)
  ack_dropped :
      (c : Connection) (m : Message)
      → c.reader ≡ acking m
      → c.done ≡ true
      → Step c (record c { reader = delivering m })
  delivery :
      (c : Connection) (m : Message)
      → c.reader ≡ delivering m
      → length c.receives < capacity
      → Step c (deliver m c)
  delivery_given_up :
      (c : Connection) (m : Message)
      → c.reader ≡ delivering m
      → c.done ≡ true
      → Step c (stop_reader (m ∷ []) c)
  -- `writePump`; its own pings change nothing unless they fail.
  write :
      (c : Connection) (m : Message) (rest : List Message)
      → c.writer ≡ writing
      → c.sends ≡ m ∷ rest
      → Step c (record c { sends = rest; written = c.written ++ m ∷ [] })
  write_failed :
      (c : Connection) (m : Message) (rest : List Message)
      → c.writer ≡ writing
      → c.sends ≡ m ∷ rest
      → Step c (record c { sends = rest; writer = gone (m ∷ []) })
  ping_failed : (c : Connection) → c.writer ≡ writing → Step c (record c { writer = gone [] })
  writer_done :
      (c : Connection) → c.writer ≡ writing → c.done ≡ true → Step c (record c { writer = gone [] })

-- Any number of steps.
pub data Steps : Connection → Connection → Type 0 where
  here : (c : Connection) → Steps c c
  further : (a b c : Connection) → Steps a b → Step b c → Steps a c
