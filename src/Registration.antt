-- ===== src/Registration.antt =====
-- Registering with the server: agent/internal/registration/registration.go, and the loading of the
-- agent's identifier, `loadOrGenerateUUID` of agent/internal/agent/agent.go.
-- An error is its text, since `registerWithRetry` looks into it; the texts of the libraries' errors
-- are a parameter, as are TLS and the parsing of JSON.
pub mod Tls
pub mod Runs
pub mod Deeds
pub mod Asks
pub mod Dummy
pub mod Flow
pub mod Issued
pub mod Certificates
pub mod Retry
pub mod Identity
use ex_gocd.Base.{
  ℕ, zero, suc, ◌*◌, ◌^◌, Bool, true, false, not, ◌&&◌, ◌||◌, Option, none, some, List, [], ◌∷◌,
  ◌++◌, Result, ok, err, eqb, ltb, length, if◌then◌else◌,
}
use ex_gocd.Text.{Text, codes, ◌==◌, index}
use ex_gocd.FilePath.{dir_of}
use ex_gocd.Json.{Json}
use ex_gocd.Config.{
  Url, Config, uuid_file, go_server_ca_file, agent_private_key_file, agent_cert_file,
  agent_token_file, registration_url, token_url,
}

abbrev pub Form : Type 0
Form = List (Text × Text)

pub record Reply : Type 0 where
  pub status : ℕ
  pub body : Result Text Text

-- The registrar's own client, or one made for the CA with that `InsecureSkipVerify`.
pub data Client : Type 0 where
  registrar : Client
  for_ca : Bool → Client

pub data Deed : Type 0 where
  got : Client → Text → Deed
  posted : Text → Form → Deed
  waited : ℕ → Deed

-- What the registration asks of its surroundings; an answer may depend on the deeds so far.
pub record World : Type 0 where
  pub getenv : Text → Text
  pub get : List Deed → Client → Text → Result Text Reply
  pub post : List Deed → Text → Form → Result Text Reply
  pub make_dir : List Deed → Text → Result Text (Unit {0})
  pub may_write : List Deed → Text → Result Text (Unit {0})
  pub parse_json : Text → Result Text Json
  pub type_error : Text
  pub trim_space : Text → Text
  pub url_string : Url → Text
  pub digits : ℕ → Text
  pub os_name : Text
  pub is_pem_of_certs : Text → Bool
  pub pem_decode : Text → Option Text
  pub common_name : Text → Result Text Text
  pub key_pair : Text → Text → Result Text Text

-- The files, by their paths, and the deeds, the latest first.
pub record Desk : Type 0 where
  pub files : Text → Option Text
  pub deeds : List Deed

abbrev pub Task : Type 0 → Type 0
Task A = Desk → Result Text A × Desk

infixl 5 ◌>>=◌ ◌>>◌
unfoldable pub ◌>>=◌ : {A B : Type 0} → Task A → (A → Task B) → Task B
◌>>=◌ m f s = let (r, s') = m s in elim r [ ok x ↦ f x s' | err e ↦ (err e, s') ]

abbrev pub ◌>>◌ : {A B : Type 0} → Task A → Task B → Task B
m >> k = m >>= λ _. k

unfoldable pub give : {A : Type 0} → Result Text A → Task A
give r s = (r, s)

-- An error with what was attempted in front of it.
abbrev pub wrap : {A : Type 0} → Text → Result Text A → Result Text A
wrap what (ok x) = ok x
wrap what (err e) = err (what ++ e)

unfoldable pub wrapped : {A : Type 0} → Text → Task A → Task A
wrapped what m s = (wrap what (m s).0, (m s).1)

abbrev pub found : Text → Option Text → Result Text Text
found path none = err (path ++ codes ": no such file")
found path (some content) = ok content

unfoldable pub read_file : Text → Task Text
read_file path s = (found path (s.files path), s)

unfoldable pub exists : Text → Desk → Bool
exists path s = elim (s.files path) [ none ↦ false | some content ↦ true ]

abbrev pub put : Text → Text → Desk → Desk
put path content s = record s { files = λ p. if p == path then some content else s.files p }

abbrev pub if_ok : {A : Type 0} → Result Text A → Desk → Desk → Desk
if_ok (ok x) s t = s
if_ok (err e) s t = t

-- Does an error's text say that the approval of the agent is pending?
unfoldable pub contains : Text → Text → Bool
contains s t = elim (index s t) [ none ↦ false | some i ↦ true ]

unfoldable pub is_pending : Text → Bool
is_pending message = contains message (codes "pending") || contains message (codes "empty")

-- Two seconds in nanoseconds.
abbrev pub base_delay : ℕ
base_delay = 2000000000

module _ (w : World) where
  unfoldable pub write_file : Text → Text → Task (Unit {0})
  write_file path content s =
      let allowed = w.may_write s.deeds path in (allowed, if_ok allowed (put path content s) s)

  unfoldable pub make_dir_of : Text → Task (Unit {0})
  make_dir_of path s = (w.make_dir s.deeds (dir_of path), s)

  unfoldable pub fetch : Client → Text → Task Reply
  fetch client url s = (w.get s.deeds client url, record s { deeds = got client url ∷ s.deeds })

  unfoldable pub submit : Text → Form → Task Reply
  submit url form s = (w.post s.deeds url form, record s { deeds = posted url form ∷ s.deeds })

  unfoldable pub expect_ok : Text → Reply → Task (Unit {0})
  expect_ok what reply = give (
      if eqb reply.status 200
      then ok tt
      else err (what ++ codes ": status " ++ w.digits reply.status))
