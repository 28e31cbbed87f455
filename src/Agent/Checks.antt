-- ===== src/Agent/Checks.antt =====
-- `validateURL` and `validatePath` of agent/internal/agent/agent.go.
pub mod Laws
use ex_gocd.Base.{
  Bool, true, false, not, ◌&&◌, ◌||◌, Option, none, some, List, [], ◌∷◌, ◌++◌, Result, ok, err,
  if◌then◌else◌,
}
use ex_gocd.Text.{Text, codes, ◌==◌, has_prefix}
use ex_gocd.FilePath.{slash, dotdot, is_abs, clean, path_join, abs, rel, PathError}
use ex_gocd.Config.{Url, Config}
use ex_gocd.Agent.{
  Fault, path_error, path_traversal, invalid_url, unsupported_scheme, untrusted_host, Host, Agent,
  Act,
}

abbrev pub http : Text
http = codes "http"

abbrev pub https : Text
https = codes "https"

unfoldable pub check_url : Host → Url → Option Url → Result Fault Text
check_url h server none = err invalid_url
check_url h server (some u) =
    if not (u.scheme == http) && not (u.scheme == https)
    then err unsupported_scheme
    else if not (u.host == server.host)
    then err untrusted_host
    else ok (
        h.url_string
          (record server { path = u.path; raw_query = u.raw_query; fragment = u.fragment }))

unfoldable pub validate_url : Host → Config → Text → Result Fault Text
validate_url h c raw = check_url h c.server_url (h.parse_url raw)

infixl 5 ◌>>=◌
abbrev pub ◌>>=◌ : {B : Type 0} → Result PathError Text → (Text → Result Fault B) → Result Fault B
ok p >>= f = f p
err e >>= f = err (path_error e)

-- The target before `Abs`.
unfoldable pub resolve_target : Text → Text → Text
resolve_target abs_base target = if is_abs target then clean target else path_join abs_base target

unfoldable pub stay_inside : Text → Text → Result Fault Text
stay_inside abs_target r =
    if (r == dotdot) || has_prefix r (dotdot ++ slash ∷ [])
    then err path_traversal
    else ok abs_target

unfoldable pub validate_path : Option Text → Text → Text → Result Fault Text
validate_path wd base target = do
  abs_base ← abs wd base
  abs_target ← abs wd (resolve_target abs_base target)
  r ← rel abs_base abs_target
  stay_inside abs_target r
