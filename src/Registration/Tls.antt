-- ===== src/Registration/Tls.antt =====
-- `createTLSConfig`, `extractServerDN` and `createHTTPClient`:
-- agent/internal/registration/registration.go. The packages crypto/x509, encoding/pem and crypto/tls
-- are parameters of the `World`.
use ex_gocd.Base.{
  Bool, not, ◌||◌, Option, none, some, List, [], ◌∷◌, Result, ok, err, if◌then◌else◌,
}
use ex_gocd.Text.{Text, codes, ◌==◌}
use ex_gocd.Config.{Config, go_server_ca_file, agent_private_key_file, agent_cert_file}
use ex_gocd.Registration.{World, Task, ◌>>=◌, ◌>>◌, give, wrapped, read_file}

-- The root certificates are those of the PEM text given.
pub record TlsConfig : Type 0 where
  pub root_cas : Text
  pub server_name : Text
  pub certificates : List Text

-- `pem.Decode` gives no block when it finds none.
abbrev pub block_or : Text → Option Text → Result Text Text
block_or message none = err message
block_or message (some block) = ok block

unfoldable pub uses_tls : Config → Bool
uses_tls c = (c.server_url.scheme == codes "https") || (c.server_url.scheme == codes "wss")

module _ (w : World) where
  -- `extractServerDN`: the common name of the certificate's subject.
  unfoldable pub extract_server_dn : Text → Task Text
  extract_server_dn cert_file = do
    pem_data ← read_file cert_file
    block ← give (block_or (codes "failed to decode PEM certificate") (w.pem_decode pem_data))
    give (w.common_name block)

  -- `tls.LoadX509KeyPair`.
  unfoldable pub load_key_pair : Text → Text → Task Text
  load_key_pair cert_file key_file = do
    cert ← read_file cert_file
    key ← read_file key_file
    give (w.key_pair cert key)

  module _ (c : Config) where
    unfoldable pub client_certs : Bool → Task (List Text)
    client_certs with_client_cert =
        if with_client_cert
        then (do
          cert ←
              wrapped (codes "failed to load client cert: ")
                (load_key_pair (agent_cert_file c) (agent_private_key_file c))
          give (ok (cert ∷ [])))
        else give (ok [])

    unfoldable pub append_certs : Text → Task (Unit {0})
    append_certs ca_cert =
        give (
          if w.is_pem_of_certs ca_cert then ok tt else err (codes "failed to parse CA certificate"))

    unfoldable pub tls_of_files : Bool → Task (Option TlsConfig)
    tls_of_files with_client_cert = do
      ca_cert ← wrapped (codes "failed to read CA cert: ") (read_file (go_server_ca_file c))
      append_certs ca_cert
      server_name ← extract_server_dn (go_server_ca_file c)
      certs ← client_certs with_client_cert
      give (
          ok
            (some (record { root_cas = ca_cert; server_name = server_name; certificates = certs })))

    -- `createTLSConfig`.
    unfoldable pub create_tls_config : Bool → Task (Option TlsConfig)
    create_tls_config with_client_cert =
        if not (uses_tls c) then give (ok none) else tls_of_files with_client_cert

    -- `createHTTPClient`: the client is its TLS configuration.
    unfoldable pub create_http_client : Bool → Task (Option TlsConfig)
    create_http_client with_client_cert = create_tls_config with_client_cert
