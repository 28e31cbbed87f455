-- ===== src/Agent/Trust.antt =====
-- Every request that a build sends goes to the configured server, and nothing but the trace of the
-- agent changes while its commands run.
pub mod Artifacts
pub mod Calls
pub mod Commands
use ex_gocd.Base.{
  ◌≡◌, refl, sym, ap, ◌∙◌, subst, arith, Bool, true, false, ◌||◌, Option, none, some, List, [], ◌∷◌,
  ◌++◌, Result, ok, err, eqb, if◌then◌else◌,
}
use ex_gocd.Text.{Text, codes, ◌==◌}
use ex_gocd.Config.{Config}
use ex_gocd.Protocol.{CommandFields, Build}
use ex_gocd.Agent.{
  Fault, Effect, called, requested, invoked, Request, Reading, line, broken, OsCall, Visit,
  ZipEntry, Host, Agent, Act, ◌>>=◌, ◌>>◌, return, fail, ignoring, os_call, do_request,
}
use ex_gocd.Agent.Checks.{validate_url}
use ex_gocd.Agent.Checks.Laws.{IsTrusted, validate_url-IsTrusted}
use ex_gocd.Agent.Console.{
  lift, demand, trusted_url, http_client, new_request, post_console, post_reading,
  stream_to_console, stamp, line_end, post,
}
use ex_gocd.Agent.Growth.{
  Grows, Adds, Grows-refl, Grows-trans, Grows-bind, Grows-config, Adds-bind, Adds-bind_if,
  Adds-then, Adds-lift, Adds-return, Adds-demand, Adds-ignoring, Adds-if, Adds-asks, Adds-os_call,
  Adds-do_request,
}

-- The request that is made has the URL given.
new_request-url :
    (h : Host) (method url body : Text) (a : Agent) (r : Request)
    → (new_request h method url body a).0 ≡ ok r
    → r.url ≡ url
unfolding new_request
new_request-url h method url body a r e = ground arith

trusted_url-IsTrusted :
    (h : Host) (c : Config) (raw : Text) (a : Agent)
    → a.config ≡ c
    → (url : Text) → (trusted_url h raw a).0 ≡ ok url
    → IsTrusted h c url
unfolding trusted_url
trusted_url-IsTrusted h c raw a same url e =
    validate_url-IsTrusted h c raw (subst (λ d. validate_url h d raw ≡ ok url) same e)

-- What an effect may be: a request goes to a trusted URL.
module _ (h : Host) {c : Config} {P : Effect → Type 0}
    (trusted : (r : Request) → IsTrusted h c r.url → P (requested r)) where
  pub http_client-Adds : Adds c P (http_client h)
  unfolding http_client
  http_client-Adds = Adds-bind _ _ (Adds-asks _) λ found. Adds-demand found _

  pub trusted_url-Adds : (raw : Text) → Adds c P (trusted_url h raw)
  unfolding trusted_url
  trusted_url-Adds raw a same = Grows-refl a

  pub new_request-Adds : (method url body : Text) → Adds c P (new_request h method url body)
  unfolding new_request
  new_request-Adds method url body a same = Grows-refl a

  -- A URL is checked, a request to it made, and what follows may send it.
  pub request-Adds :
      {B : Type 0} (method raw body : Text) (k : Text → Request → Act B)
      → ((url : Text) (r : Request) → IsTrusted h c url → r.url ≡ url → Adds c P (k url r))
      → Adds c P (trusted_url h raw >>= λ url. new_request h method url body >>= λ r. k url r)
  request-Adds {B} method raw body k safe =
      Adds-bind_if (λ url. IsTrusted h c url) (trusted_url h raw) _ (trusted_url-Adds raw)
        (trusted_url-IsTrusted h c raw)
        λ url t.
          Adds-bind_if (λ r. r.url ≡ url) (new_request h method url body) (k url)
            (new_request-Adds method url body)
            (λ a same r made. new_request-url h method url body a r made) λ r e. safe url r t e

  -- Such a request may be sent.
  pub sent-Adds :
      (url : Text) (r : Request) → IsTrusted h c url → r.url ≡ url → Adds c P (do_request h r)
  sent-Adds url r t e = Adds-do_request h r (trusted r (subst (λ u. IsTrusted h c u) (sym e) t))

  pub post_console-Adds : (url body : Text) → Adds c P (post_console h url body)
  unfolding post_console
  post_console-Adds url body = Adds-if (url == []) _ _ (Adds-return tt) (
      request-Adds post url body _ λ u r t e.
        Adds-then (ignoring (http_client h)) _ (Adds-ignoring (http_client h) http_client-Adds)
          (Adds-bind (do_request h r) _ (sent-Adds u r t e) λ s. Adds-demand _ _))

  post_reading-Adds : (url prefix : Text) (r : Reading) → Adds c P (post_reading h url prefix r)
  unfolding post_reading ignoring
  post_reading-Adds url prefix (line [] b) a same = Grows-refl a
  post_reading-Adds url prefix (line (d ∷ s) b) a same =
      post_console-Adds url (stamp h a ++ prefix ++ (d ∷ s) ++ line_end b) a same
  post_reading-Adds url prefix (broken m) a same =
      post_console-Adds url (stamp h a ++ codes "[reader error] " ++ m ++ codes "\n") a same

  pub stream_to_console-Adds :
      (url : Text) (output : List (Bool × Reading)) → Adds c P (stream_to_console h url output)
  unfolding stream_to_console
  stream_to_console-Adds url [] a same = Grows-refl a
  stream_to_console-Adds url ((e, r) ∷ output) a same =
      let g = post_reading-Adds url (if e then codes "stderr: " else []) r a same in
      Grows-trans g (stream_to_console-Adds url output _ (Grows-config g ∙ same))
