-- ===== src/Lib.antt =====
-- The GoCD agent, a Go program under agent/: it loads its configuration, registers with the server,
-- keeps a WebSocket connection open, runs the builds that the server assigns, moves their artifacts
-- over HTTP and reports their status.
--
-- The parts, and the files that model them:
--
-- - agent/internal/config/config.go: Config.antt. `Config` is `Config.Config`, `Load` is `load` over
--   an `Environment` (viper, the process's variables, directories, the host's name and addresses),
--   `WebSocketURL` is `web_socket_url`. `setupViper` is in Config/Viper.antt. Laws in
--   Config/Load.antt, Config/Urls.antt, Config/Files.antt and Config/Viper.antt.
-- - agent/pkg/protocol/websocket.go: Protocol.antt holds the structs, their JSON and the messages,
--   Protocol/Decode.antt the readers of payloads (`DataBuild` is `data_build`). Laws in
--   Protocol/RoundTrip.antt. Json.antt models JSON values and how fields are decoded.
-- - agent/internal/agent/agent.go: Agent.antt holds the agent's state, the effects that it has and
--   the host that answers them. Below it, Checks.antt is `validateURL` and `validatePath`,
--   Console.antt `postConsole` and `streamReaderToConsole`, Archive.antt `unzipSecurely`,
--   Artifacts.antt upload and fetch, Commands.antt `runOneCommand` and `executeCommandTree`,
--   Build.antt `handleBuild` and `reportStatus`, Messages.antt `handleMessage`, and Session.antt the
--   event loop `runWithConnection` and the reconnection loop `Start`.
-- - agent/internal/websocket/connection.go: Connection.antt, whose steps are those of `readPump`,
--   `writePump` and the agent at the two channels; what `Connect` dials is in Connection/Dial.antt.
--   Laws in Connection/Delivery.antt and Connection/Stall.antt.
-- - agent/internal/registration/registration.go: Registration.antt holds the surroundings and the
--   calls, Registration/Flow.antt what is made of them, where `Register` is `register` over a
--   `World` and the files of a `Desk`; `loadOrGenerateUUID` of agent/internal/agent/agent.go
--   stands there too. `createTLSConfig` is in Registration/Tls.antt. Laws in
--   Registration/Certificates.antt, Registration/Retry.antt, Registration/Identity.antt,
--   Registration/Asks.antt and Registration/Dummy.antt, by Registration/Runs.antt,
--   Registration/Deeds.antt and Registration/Issued.antt.
-- - agent/cmd/root.go, and `New` and `Start` of agent/internal/agent/agent.go: Program.antt, which
--   puts the configuration, the registration and the session together; laws in
--   Program/Secured.antt and Program/Exits.antt.
-- - `runWithConnection` of agent/internal/agent/agent.go on a connection of
--   agent/internal/websocket/connection.go: System.antt; laws in System/Session.antt.
-- - Text.antt and FilePath.antt model the functions of the packages `strings` and `path/filepath`
--   (on Unix) that these files call, over strings as lists of bytes; Text/Utf8.antt is what
--   `encoding/json` makes of a string that is not UTF-8.
--
-- How they interact: an event of the session is a message, which `handle_message` turns into a
-- change of the agent's cookie or into a build; the build runs its commands, which post to the
-- console and move artifacts behind the checks of URLs and paths; reports and pings carry the
-- agent's runtime information as JSON. Agent/Growth.antt says what it is for an action to change
-- nothing of the agent but its trace, and Agent/Trust.antt and the files below it say so of every
-- action of a build; Agent/Session/Invariant.antt carries this over a whole session.
--
-- The session alone sees the messages that the connection delivers as events, and sending one as an
-- effect. System.antt puts both together: the agent, `readPump` and `writePump` take their steps in
-- any order, and System/Session.antt says what the session alone tells of every state reached.
-- Agent/Session/Ledger.antt is what a server may note of the reports that it gets.
--
-- State and effects: an action (`Act`) takes the agent to a result and an agent. What it does to
-- the world is an `Effect` at the head of the agent's `trace`. What the world answers is a function
-- of the trace (`Host`), so that the same question may be answered differently later; the parser
-- and the printer of the package `net/url` are functions of the host too. Theorems hold for every
-- host; only those on the directory of a fetch and of `validate_path` ask that the process's
-- working directory be absolute, as `os.Getwd` gives it.
--
-- Bounds and fuel: no function needs fuel. The loops over a connection's events and over the
-- attempts to connect are recursions on the lists of what happens, which may be of any length; the
-- loop of the registration is one on the attempts left, 4 behind the first, as in the source; a
-- command tree is finite data. Numbers are unbounded (a duration is an integer), but for the usable
-- space, which is the 64 bits of an int64, so that a product beyond them wraps around. Delays stay
-- below 120 s.
--
-- What is simplified: the two readers of a process's output run at once in the program and are one
-- sequence of readings in the order of their posts. A panic (a nil command that is followed) is an
-- error that ends the program behind the deferred functions; the one of `NewTicker` at an interval
-- that is not positive is an end of its own. A key of a JSON object fits a field up to the case of
-- ASCII letters, and a repeated key of a nested command replaces the earlier value as a whole; the
-- texts of a JSON value stand as a decoder gives them. `fill_temp_zip` stands for the calls that
-- write and close a temporary file. The environment of a process is what is added to the inherited
-- one.
--
-- What is not modelled: the course of the handshake and the deadlines of the WebSocket, the parsing
-- of certificates and keys (parameters of the registration), the command of the library cobra, log
-- lines, the contents of transferred artifacts, symbolic links, HTTP redirects, and the server,
-- which is the Elixir program under lib/.
pub mod Base
pub mod Text
pub mod FilePath
pub mod Json
pub mod Config
pub mod Protocol
pub mod Connection
pub mod Registration
pub mod Agent
pub mod System
pub mod Program
pub mod Tests
