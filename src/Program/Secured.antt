-- ===== src/Program/Secured.antt =====
-- What stands behind the connections of a session that the program runs.
use ex_gocd.Base.{◌≡◌, ◌≢◌, true, Option, some, [], ◌∷◌, ok}
use ex_gocd.Text.{Text, codes}
use ex_gocd.Config.{
  Config, Environment, load, go_server_ca_file, agent_private_key_file, agent_cert_file,
}
use ex_gocd.Registration.{World, Desk}
use ex_gocd.Registration.Tls.{TlsConfig, uses_tls, create_tls_config}
use ex_gocd.Registration.Runs.{Runs}
use ex_gocd.Registration.Certificates.{HasCertificates}
use ex_gocd.Registration.Flow.{load_or_generate_uuid, register}
use ex_gocd.Connection.Dial.{dial}
use ex_gocd.Agent.{Host, Agent, new_agent}
use ex_gocd.Agent.Session.{Journey, start}
use ex_gocd.Program.{Attempts}

-- The server is checked against the CA of the agent's file, and the agent shows the key pair of its
-- files.
abbrev pub IsMutual : World → Config → Desk → TlsConfig → Type 0
IsMutual w c s t =
    (cert : Text) × (key : Text) × (pair : Text) × (s.files (go_server_ca_file c) ≡ some t.root_cas)
    × (w.is_pem_of_certs t.root_cas ≡ true)
    × (s.files (agent_cert_file c) ≡ some cert)
    × (s.files (agent_private_key_file c) ≡ some key)
    × (w.key_pair cert key ≡ ok pair)
    × (t.certificates ≡ pair ∷ [])

-- A session stands behind a registration that succeeded, from the first desk to the second one: the
-- connections are made with the TLS configuration of the files then, and the certificates are as the
-- registration leaves them.
abbrev pub IsSecured : World → Host → Config → Attempts → Desk → Desk → Journey → Type 0
IsSecured w h c attempts s t j =
    (tls : Option TlsConfig) × (register w c s ≡ (ok tt, t))
    × (create_tls_config w c true t ≡ (ok tls, t))
    × (j ≡ start h (attempts (dial w.url_string c tls)) (new_agent c))
    × (uses_tls c ≡ true → (config : TlsConfig) × (tls ≡ some config) × IsMutual w c t config)
    × (c.server_url.scheme ≢ codes "http" → HasCertificates w c s t)

module _ (w : World) (h : Host) where
  module _ (env : Environment) (new_id : Text) (attempts : Attempts) (s : Desk) (j : Journey) where
    -- The session with the configuration that `Load` gives and the agent's identifier.
    abbrev pub IsOfAgent : Desk → Type 0
    IsOfAgent t =
        (c : Config) × (c' : Config) × (s' : Desk) × (load env ≡ ok c)
        × (load_or_generate_uuid w c new_id s ≡ (ok c', s'))
        × IsSecured w h c' attempts s' t j
