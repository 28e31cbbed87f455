-- ===== src/Registration/Flow.antt =====
-- The steps of `Register`, and `loadOrGenerateUUID`: agent/internal/registration/registration.go and
-- agent/internal/agent/agent.go.
use ex_gocd.Base.{
  ℕ, zero, suc, ◌*◌, ◌^◌, Bool, true, not, ◌&&◌, ◌||◌, Option, none, some, false, [], ◌∷◌, ◌++◌,
  Result, ok, err, eqb, ltb, length, if◌then◌else◌,
}
use ex_gocd.Text.{Text, codes, ◌==◌}
use ex_gocd.Config.{
  Config, uuid_file, go_server_ca_file, agent_private_key_file, agent_cert_file, agent_token_file,
  registration_url, token_url,
}
use ex_gocd.Registration.{
  Form, Reply, World, Desk, Task, ◌>>=◌, ◌>>◌, give, wrapped, read_file, exists, is_pending,
  base_delay, write_file, make_dir_of, fetch, submit, expect_ok, waited, registrar, for_ca,
}
use ex_gocd.Protocol.{Registration}
use ex_gocd.Json.{Json, null, str, obj, Fields, end, field, fold_eq, text_field}
use ex_gocd.Registration.Tls.{create_http_client}

-- A value that a text field takes.
abbrev pub is_text_or_null : Json → Bool
is_text_or_null null = true
is_text_or_null (str t) = true
is_text_or_null _ = false

module _ (w : World) (c : Config) where
  unfoldable pub write_dummy_ca : Task (Unit {0})
  write_dummy_ca = do
    make_dir_of w (go_server_ca_file c)
    write_file w (go_server_ca_file c) (codes "# Not using TLS\n")

  unfoldable pub download_ca : Task (Unit {0})
  download_ca = do
    let url = w.url_string c.server_url ++ codes "/admin/agent/root_certificate"
    reply ←
        wrapped (codes "failed to download CA cert from " ++ url ++ codes ": ")
          (fetch w (for_ca c.insecure_skip_verify) url)
    expect_ok w (codes "failed to download CA cert") reply
    ca_cert ← give reply.body
    make_dir_of w (go_server_ca_file c)
    write_file w (go_server_ca_file c) ca_cert

  -- `readServerCACert`.
  unfoldable pub read_server_ca_cert : Task (Unit {0})
  read_server_ca_cert s =
      if exists (go_server_ca_file c) s
      then (ok tt, s)
      else if not (c.server_url.scheme == codes "https")
      then write_dummy_ca s
      else download_ca s

  unfoldable pub store_token : Text → Task (Unit {0})
  store_token demo = do
    make_dir_of w (agent_token_file c)
    write_file w (agent_token_file c) (w.trim_space demo)

  unfoldable pub fetch_token : Task (Unit {0})
  fetch_token = do
    let url = token_url w.url_string c
    reply ←
        wrapped (codes "failed to request token from " ++ url ++ codes ": ") (fetch w registrar url)
    expect_ok w (codes "failed to request token") reply
    token ← give reply.body
    write_file w (agent_token_file c) token

  -- `requestToken`.
  unfoldable pub request_token : Task (Unit {0})
  request_token s =
      if not (w.getenv (codes "EX_GOCD_DEMO_COOKIE") == [])
      then store_token (w.getenv (codes "EX_GOCD_DEMO_COOKIE")) s
      else if not (w.getenv (codes "AGENT_DEMO_COOKIE") == [])
      then store_token (w.getenv (codes "AGENT_DEMO_COOKIE")) s
      else if exists (agent_token_file c) s
      then (ok tt, s)
      else fetch_token s

  -- `registrationData` with the token.
  unfoldable pub registration_data : Text → Form
  registration_data token =
      (codes "hostname", c.hostname)
      ∷ (codes "uuid", c.uuid)
      ∷ (codes "ipAddress", c.ip_address)
      ∷ (codes "location", c.working_dir)
      ∷ (codes "operatingSystem", w.os_name)
      ∷ (codes "usablespace", w.digits (10 * 1024 * 1024 * 1024))
      ∷ (codes "agentAutoRegisterKey", c.auto_register_key)
      ∷ (codes "agentAutoRegisterResources", c.resources)
      ∷ (codes "agentAutoRegisterEnvironments", c.environments)
      ∷ (codes "agentAutoRegisterHostname", c.hostname)
      ∷ (codes "elasticAgentId", c.elastic_agent_id)
      ∷ (codes "elasticPluginId", c.elastic_plugin_id)
      ∷ (codes "supportsBuildCommandProtocol", codes "true")
      ∷ (codes "token", token)
      ∷ []

  -- The error of a reply that refuses; a body that cannot be read counts as empty.
  abbrev pub body_text : Result Text Text → Text
  body_text (ok body) = body
  body_text (err e) = []

  unfoldable pub accept : Reply → Task (Unit {0})
  accept reply = give (
      if eqb reply.status 200
      then ok tt
      else err (
          codes "registration failed: status "
          ++ w.digits reply.status
          ++ codes ", body: "
          ++ body_text reply.body))

  unfoldable pub submit_token : Task Reply
  submit_token = do
    token ← wrapped (codes "failed to read token: ") (read_file (agent_token_file c))
    let url = registration_url w.url_string c
    reply ←
        wrapped (codes "failed to POST registration to " ++ url ++ codes ": ")
          (submit w url (registration_data token))
    accept reply
    give (ok reply)

  -- `registerHTTP`.
  unfoldable pub register_http : Task (Unit {0})
  register_http = do submit_token; give (ok tt)

  unfoldable pub not_empty : Text → Text → Task (Unit {0})
  not_empty message text = give (if text == [] then err message else ok tt)

  -- Does a field of the response hold a value of another type than its own?
  unfoldable pub has_misfit : Fields → Bool
  has_misfit end = false
  has_misfit (field k v fs) =
      let rest = has_misfit fs in
      (fold_eq k (codes "agentPrivateKey") || fold_eq k (codes "agentCertificate"))
        && not (is_text_or_null v)
      || rest

  abbrev pub registration_of : Fields → Registration
  registration_of fs = record {
    agent_private_key = text_field (codes "agentPrivateKey") fs;
    agent_certificate = text_field (codes "agentCertificate") fs;
  }

  -- `json.Unmarshal` of a `Registration`.
  unfoldable pub read_registration : Json → Result Text Registration
  read_registration null = ok (registration_of end)
  read_registration (obj fs) = if has_misfit fs then err w.type_error else ok (registration_of fs)
  read_registration _ = err w.type_error

  unfoldable pub decode_registration : Text → Result Text Registration
  decode_registration body = elim (w.parse_json body) [ ok v ↦ read_registration v | err e ↦ err e ]

  -- `registerAndDownloadCerts`.
  unfoldable pub register_and_download_certs : Task (Unit {0})
  register_and_download_certs = do
    reply ← submit_token
    body ← wrapped (codes "failed to read response body: ") (give reply.body)
    not_empty (codes "registration pending: agent may need approval on server (empty response)")
        body
    registration ←
        wrapped
          (codes "failed to decode registration response (got "
            ++ w.digits (length body)
            ++ codes " bytes): ")
          (give (decode_registration body))
    not_empty (codes "registration failed: empty certificate (agent may need approval on server)")
        registration.agent_certificate
    wrapped (codes "failed to write private key: ")
        (write_file w (agent_private_key_file c) registration.agent_private_key)
    wrapped (codes "failed to write certificate: ")
        (write_file w (agent_cert_file c) registration.agent_certificate)

  -- `registerAndGetCerts`.
  unfoldable pub register_and_get_certs : Task (Unit {0})
  register_and_get_certs s =
      if c.server_url.scheme == codes "http"
      then register_http s
      else if exists (agent_private_key_file c) s && exists (agent_cert_file c) s
      then (ok tt, s)
      else register_and_download_certs s

  -- What follows an attempt: `again` is the rest of the loop, if attempts are left.
  unfoldable pub behind :
      ℕ → ℕ → Result Text (Unit {0}) × Desk → Task (Unit {0}) → Result Text (Unit {0}) × Desk
  behind left attempt (ok x, s) again = (ok tt, s)
  behind left attempt (err e, s) again =
      if is_pending e && ltb 0 left
      then again (record s { deeds = waited (base_delay * 2 ^ attempt) ∷ s.deeds })
      else (err e, s)

  -- The loop of `registerWithRetry`, with the number of attempts left behind this one.
  unfoldable pub attempts : ℕ → ℕ → Task (Unit {0})
  attempts zero attempt s = behind zero attempt (register_and_get_certs s) (give (ok tt))
  attempts (suc left) attempt s =
      behind (suc left) attempt (register_and_get_certs s) (attempts left (suc attempt))

  -- `registerWithRetry`.
  unfoldable pub register_with_retry : Task (Unit {0})
  register_with_retry =
      if c.server_url.scheme == codes "http" then register_and_get_certs else attempts 4 0

  -- `Register`.
  unfoldable pub register : Task (Unit {0})
  register = do
    wrapped (codes "failed to read server CA: ") read_server_ca_cert
    wrapped (codes "failed to create HTTP client: ") (create_http_client w c false)
    wrapped (codes "failed to request token: ") request_token
    wrapped (codes "failed to register: ") register_with_retry

  -- The identifier that the file holds, or a new one, which is stored.
  unfoldable pub use_uuid : Text → Option Text → Task Config
  use_uuid new (some uuid) = give (ok (record c { uuid = uuid }))
  use_uuid new none = do
    wrapped (codes "failed to write UUID file: ") (write_file w (uuid_file c) new)
    give (ok (record c { uuid = new }))

  -- `loadOrGenerateUUID`; `new` is what the package uuid would generate.
  unfoldable pub load_or_generate_uuid : Text → Task Config
  load_or_generate_uuid new s = use_uuid new (s.files (uuid_file c)) s
