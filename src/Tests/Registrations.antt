-- ===== src/Tests/Registrations.antt =====
-- Tests of the registration: agent/internal/registration/registration.go.
use ex_gocd.Base.{
  ◌≡◌, ◌≢◌, false, refl, arith, none, some, not, [], ◌∷◌, ok, length, ltb, if◌then◌else◌, ◌*◌,
}
use ex_gocd.Text.{codes, ◌==◌, index}
use ex_gocd.Text.Laws.{==_refl}
use ex_gocd.FilePath.{file_path}
use ex_gocd.Config.{
  Config, go_server_ca_file, agent_private_key_file, agent_cert_file, agent_token_file,
  registration_url, token_url,
}
use ex_gocd.Json.{str, obj, field, one, fold_eq, decode_field, text_field}
use ex_gocd.Registration.{
  World, Desk, ◌>>=◌, give, wrapped, read_file, exists, write_file, make_dir_of, fetch, submit,
  expect_ok, is_pending, contains, put,
}
use ex_gocd.Registration.Flow.{
  download_ca, read_server_ca_cert, fetch_token, request_token, registration_data, accept,
  submit_token, not_empty, register_and_download_certs, register_and_get_certs, behind, attempts,
  decode_registration, read_registration, has_misfit, register_with_retry, register,
  load_or_generate_uuid, use_uuid,
}
use ex_gocd.Registration.Tls.{
  uses_tls, extract_server_dn, load_key_pair, client_certs, append_certs, tls_of_files,
  create_tls_config, create_http_client,
}
use ex_gocd.Registration.Dummy.{register_of_wss}
use ex_gocd.Registration.Identity.{load_or_generate_uuid-again}
use ex_gocd.Registration.Retry.{Retries, waits, posts, register_with_retry-Retries}
use ex_gocd.Tests.Fixtures.{server, config, host}

abbrev secure : Config
secure = record config { server_url = record server { scheme = codes "https" } }

-- The server approves of the agent after its second attempt.
abbrev pub world : World
world = record {
  getenv = λ name. [];
  get = λ deeds client url. ok (record { status = 200; body = ok (codes "x") });
  post = λ deeds url form.
      ok (record { status = 200; body = if ltb (length deeds) 5 then ok [] else ok (codes "{}") });
  make_dir = λ deeds p. ok tt;
  may_write = λ deeds p. ok tt;
  parse_json = λ body. ok (
      obj (
        field (codes "agentPrivateKey") (str (codes "key"))
          (one (codes "agentCertificate") (str (codes "certificate")))));
  type_error = codes "json: cannot unmarshal";
  trim_space = λ t. t;
  url_string = host.url_string;
  digits = λ n. codes "7";
  os_name = codes "linux";
  is_pem_of_certs = λ t. not (t == codes "# Not using TLS\n");
  pem_decode = λ t. some t;
  common_name = λ block. ok (codes "ci");
  key_pair = λ cert key. ok cert;
}

abbrev pub bare_desk : Desk
bare_desk = record { files = λ p. none; deeds = [] }

unfoldable pub registering : Unit {0}
unfolding file_path go_server_ca_file agent_private_key_file agent_cert_file agent_token_file
    registration_url token_url ◌>>=◌ give wrapped read_file exists write_file make_dir_of fetch
    submit expect_ok download_ca read_server_ca_cert fetch_token request_token registration_data
    accept submit_token not_empty register_and_download_certs register_and_get_certs behind attempts
    register_with_retry create_http_client uses_tls extract_server_dn load_key_pair client_certs
    append_certs tls_of_files create_tls_config register is_pending contains index ◌==◌
    decode_registration read_registration has_misfit fold_eq decode_field text_field
registering = tt

-- It waited twice and posted three times.
waits_of_registered :
    waits (register world secure bare_desk).1.deeds ≡ 4 * 1000000000 ∷ 2 * 1000000000 ∷ []
unfolding registering
waits_of_registered = refl

posts_of_registered : posts (register world secure bare_desk).1.deeds ≡ 3
unfolding registering
posts_of_registered = refl

-- A desk with a token, and no certificates.
abbrev ready : Desk
ready = put (agent_token_file secure) (codes "t") bare_desk

register_with_retry-Retries_example : Retries 4 0 ready (register_with_retry world secure ready).1
register_with_retry-Retries_example = register_with_retry-Retries world secure ready

identified :
    (load_or_generate_uuid world secure (codes "u2") bare_desk).0
    ≡ ok (record secure { uuid = codes "u2" })
unfolding registering load_or_generate_uuid use_uuid
identified = refl

load_or_generate_uuid-again_example :
    (load_or_generate_uuid world secure
      (codes "u3")
      (load_or_generate_uuid world secure (codes "u2") bare_desk).1).0
    ≡ ok (record secure { uuid = codes "u2" })
load_or_generate_uuid-again_example =
    load_or_generate_uuid-again world secure (codes "u2") (codes "u3") bare_desk
      (record secure { uuid = codes "u2" }) identified

abbrev wss : Config
wss = record config { server_url = record server { scheme = codes "wss" } }

no_ca : exists (go_server_ca_file wss) bare_desk ≡ false
unfolding exists
no_ca = refl

register_of_wss_example : (register world wss bare_desk).0 ≢ ok tt
register_of_wss_example =
    register_of_wss world wss bare_desk refl no_ca
      (ground (arith, ==_refl (codes "# Not using TLS\n")))
