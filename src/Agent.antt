-- ===== src/Agent.antt =====
-- The agent's state, what it asks of its host, and the actions it is made of:
-- agent/internal/agent/agent.go.
-- The host (processes, files, HTTP, the clock) answers by the trace of all that was done before, so
-- that it may answer the same question differently at another time.
pub mod Checks
pub mod Console
pub mod Archive
pub mod Artifacts
pub mod Commands
pub mod Build
pub mod Messages
pub mod Session
pub mod Growth
pub mod Trust
use ex_gocd.Base.{
  ℕ, ◌*◌, ◌%◌, ◌^◌, Bool, true, false, Option, none, some, List, [], ◌∷◌, Result, ok, err,
}
use ex_gocd.Text.{Text, codes}
use ex_gocd.FilePath.{PathError}
use ex_gocd.Config.{Url, Config}
use ex_gocd.Protocol.{Message, AgentRuntimeInfo}

-- The errors of the agent. Wrapping an error keeps its kind, except that a wrapped
-- `context.Canceled` is another error than `context.Canceled`. `panic` stands for a nil pointer
-- that is followed.
pub data Fault : Type 0 where
  canceled panic : Fault
  invalid_url unsupported_scheme untrusted_host : Fault
  path_error : PathError → Fault
  path_traversal missing_artifact os_error no_http_client bad_request transport_error : Fault
  bad_status : ℕ → Fault
  illegal_zip_path boundary_escape : Text → Fault
  process_error : Fault
  reregister_requested channel_closed : Fault

-- The body of an upload is its checksum line, that of the zipped artifact aside.
pub record Request : Type 0 where
  pub method : Text
  pub url : Text
  pub body : Text

pub record Response : Type 0 where
  pub status : ℕ
  pub content_type : Text

-- `exec.Cmd`: `env` is what is added to the inherited environment.
pub record Invocation : Type 0 where
  pub path : Text
  pub args : List Text
  pub dir : Text
  pub env : List (Text × Text)

-- Calls of `os`, `io` and `archive/zip` that can fail.
pub data OsCall : Type 0 where
  stat make_dirs create open_file copy_into read_all enter_zip : Text → OsCall
  make_temp_zip fill_temp_zip open_zip remove_temp_zip : OsCall

pub data Effect : Type 0 where
  sent : Message → Effect
  requested : Request → Effect
  called : OsCall → Effect
  invoked : Invocation → Effect
  context_cancelled : Text → Effect

-- The latest effect stands first.
abbrev pub Trace : Type 0
Trace = List Effect

-- What a reader of a process's output meets until its end: a line, or a piece of one that is longer
-- than the buffer, or an error.
pub data Reading : Type 0 where
  line : (content : Text) (is_prefix : Bool) → Reading
  broken : Text → Reading

-- How `Start` of a process ends: it runs, its context is already cancelled, or it fails.
pub data Start : Type 0 where
  up cancelled_before start_failed : Start

-- A process: readings of stdout (`false`) and stderr (`true`) as the two readers, which run at
-- once, happen to post them.
pub record Run : Type 0 where
  pub start : Start
  pub output : List (Bool × Reading)
  pub succeeded : Bool

-- A file that `filepath.Walk` visits.
pub record Visit : Type 0 where
  pub path : Text
  pub is_dir : Bool
  pub failed : Bool

pub record ZipEntry : Type 0 where
  pub name : Text
  pub is_dir : Bool

pub record Host : Type 0 where
  pub parse_url : Text → Option Url
  pub url_string : Url → Text
  pub os_name : Text
  pub working_dir : Option Text
  pub disk : Trace → Option (ℕ × ℕ)
  pub clock : Trace → Text
  pub accepts_request : Request → Bool
  pub has_tls_config : Trace → Bool
  pub http : Trace → Request → Option Response
  pub os : Trace → OsCall → Bool
  pub look_path : Trace → Text → Option Text
  pub run : Trace → Invocation → Run
  pub is_dir : Trace → Text → Bool
  pub walk : Trace → Text → List Visit
  pub temp_name : Trace → Text
  pub md5 : Trace → Option Text
  pub zip_entries : Trace → List ZipEntry
  pub is_cancelled : Trace → Bool

-- `cancel_fn` names the build whose context the function cancels; `conn_cookie` is the cookie that
-- the connection stores.
pub record Agent : Type 0 where
  pub config : Config
  pub cookie : Text
  pub conn_cookie : Text
  pub state : Text
  pub current_build : Text
  pub cancel_fn : Option Text
  pub trace : Trace

abbrev pub idle : Text
idle = codes "Idle"

abbrev pub building : Text
building = codes "Building"

-- `New`, behind the loading of the UUID.
abbrev pub new_agent : Config → Agent
new_agent c = record {
  config = c;
  cookie = [];
  conn_cookie = [];
  state = idle;
  current_build = [];
  cancel_fn = none;
  trace = [];
}

-- An action: a value or an error, and the agent behind it.
abbrev pub Act : Type 0 → Type 0
Act A = Agent → Result Fault A × Agent

infixl 5 ◌>>=◌ ◌>>◌
unfoldable pub ◌>>=◌ : {A B : Type 0} → Act A → (A → Act B) → Act B
◌>>=◌ m f a = let (r, a') = m a in elim r [ ok x ↦ f x a' | err e ↦ (err e, a') ]

abbrev pub ◌>>◌ : {A B : Type 0} → Act A → Act B → Act B
m >> k = m >>= λ _. k

unfoldable pub return : {A : Type 0} → A → Act A
return x a = (ok x, a)

unfoldable pub fail : {A : Type 0} → Fault → Act A
fail e a = (err e, a)

-- A value that the host or the agent's state gives.
unfoldable pub asks : {A : Type 0} → (Agent → A) → Act A
asks f a = (ok (f a), a)

-- Runs an action whose error is only logged.
unfoldable pub ignoring : {A : Type 0} → Act A → Act (Unit {0})
ignoring m a = (ok tt, (m a).1)

abbrev pub record_effect : Effect → Agent → Agent
record_effect e a = record a { trace = e ∷ a.trace }

-- Two's complement of an int64 product.
abbrev u64 : ℕ → ℕ
u64 n = n % 2 ^ 64

abbrev space : Option (ℕ × ℕ) → ℕ
space none = 10 * 1024 * 1024 * 1024
space (some (available, block_size)) = u64 (available * block_size)

-- The parts of the agent that need nothing but the host.
module _ (h : Host) where
  -- `getUsableSpace`, as the 64 bits of an int64.
  unfoldable pub get_usable_space : Agent → ℕ
  get_usable_space a = space (h.disk a.trace)

  unfoldable pub get_runtime_info : Agent → AgentRuntimeInfo
  get_runtime_info a = record {
    identifier = some (record {
      host_name = a.config.hostname;
      ip_address = a.config.ip_address;
      uuid = a.config.uuid;
    });
    building_info = some (record { building_info = []; build_locator = [] });
    runtime_status = a.state;
    location = a.config.working_dir;
    usable_space = get_usable_space a;
    operating_system_name = h.os_name;
    cookie = a.cookie;
    agent_launcher_version = [];
    elastic_plugin_id = a.config.elastic_plugin_id;
    elastic_agent_id = a.config.elastic_agent_id;
    supports_build_command_protocol = true;
  }

  -- Performs a call that the host may refuse.
  unfoldable pub os_call : OsCall → Act (Unit {0})
  os_call c a =
      (elim (h.os a.trace c) [ true ↦ ok tt | false ↦ err os_error ], record_effect (called c) a)

  -- Sends a request; the host answers it or the transport fails.
  unfoldable pub do_request : Request → Act Response
  do_request r a = (
    elim (h.http a.trace r) [ some s ↦ ok s | none ↦ err transport_error ],
    record_effect (requested r) a,
  )
