-- ===== src/Agent/Console.antt =====
-- `httpClient`, `postConsole` and `streamReaderToConsole` of agent/internal/agent/agent.go.
use ex_gocd.Base.{
  ℕ, Bool, true, false, ◌||◌, List, [], ◌∷◌, ◌++◌, Result, ok, err, eqb, if◌then◌else◌,
}
use ex_gocd.Text.{Text, codes, ◌==◌}
use ex_gocd.Agent.{
  Fault, bad_status, bad_request, no_http_client, Request, Reading, line, broken, Host, Agent, Act,
  ◌>>=◌, ◌>>◌, return, fail, ignoring, asks, do_request,
}
use ex_gocd.Agent.Checks.{validate_url}

-- A pure result as an action.
unfoldable pub lift : {A : Type 0} → Result Fault A → Act A
lift r a = (r, a)

unfoldable pub demand : Bool → Fault → Act (Unit {0})
demand true e = return tt
demand false e = fail e

abbrev pub status_ok : ℕ
status_ok = 200

abbrev pub status_created : ℕ
status_created = 201

abbrev status_no_content : ℕ
status_no_content = 204

abbrev pub post : Text
post = codes "POST"

abbrev pub get : Text
get = codes "GET"

-- What stands behind a line, or behind a piece of a longer one.
abbrev pub line_end : Bool → Text
line_end is_prefix = if is_prefix then codes " [truncated...]\n" else codes "\n"

module _ (h : Host) where
  unfoldable pub http_client : Act (Unit {0})
  http_client = do found ← asks (λ a. h.has_tls_config a.trace); demand found no_http_client

  -- `http.NewRequest`.
  unfoldable pub new_request : Text → Text → Text → Act Request
  new_request method url body a =
      let r : Request = record { method = method; url = url; body = body } in
      (if h.accepts_request r then ok r else err bad_request, a)

  -- `validateURL` as an action.
  unfoldable pub trusted_url : Text → Act Text
  trusted_url raw a = (validate_url h a.config raw, a)

  -- A client that cannot be made is replaced by the default one, so its error is not looked at.
  unfoldable pub post_console : Text → Text → Act (Unit {0})
  post_console console_url body = if console_url == [] then return tt else (do
    validated ← trusted_url console_url
    request ← new_request post validated body
    ignoring http_client
    response ← do_request h request
    demand (eqb response.status status_no_content || eqb response.status status_ok)
        (bad_status response.status))

  unfoldable pub stamp : Agent → Text
  stamp a = h.clock a.trace ++ codes " "

  -- One round of the reader's loop; an error of the post is only logged, an empty line is skipped.
  unfoldable pub post_reading : Text → Text → Reading → Act (Unit {0})
  post_reading console_url prefix (line [] is_prefix) a = (ok tt, a)
  post_reading console_url prefix (line (c ∷ content) is_prefix) a =
      ignoring (post_console console_url (stamp a ++ prefix ++ (c ∷ content) ++ line_end is_prefix))
        a
  post_reading console_url prefix (broken message) a =
      ignoring
        (post_console console_url (stamp a ++ codes "[reader error] " ++ message ++ codes "\n")) a

  -- `streamReaderToConsole` of both outputs of a process, their rounds in the order of `output`.
  unfoldable pub stream_to_console : Text → List (Bool × Reading) → Act (Unit {0})
  stream_to_console console_url [] a = (ok tt, a)
  stream_to_console console_url ((from_stderr, reading) ∷ output) a =
      stream_to_console console_url output
        (post_reading console_url (if from_stderr then codes "stderr: " else []) reading a).1
