-- ===== src/Connection/Dial.antt =====
-- The handshake of `Connect` in agent/internal/websocket/connection.go: what the package
-- gorilla/websocket is asked to dial.
use ex_gocd.Base.{ℕ, ◌*◌, Option, List, [], ◌∷◌}
use ex_gocd.Text.{Text, codes}
use ex_gocd.Config.{Url, Config, web_socket_url}
use ex_gocd.Registration.Tls.{TlsConfig}

-- The timeout is in nanoseconds.
pub record Dial : Type 0 where
  pub url : Text
  pub tls_config : Option TlsConfig
  pub handshake_timeout : ℕ
  pub header : List (Text × Text)

unfoldable pub dial : (Url → Text) → Config → Option TlsConfig → Dial
dial string c tls_config = record {
  url = web_socket_url string c;
  tls_config = tls_config;
  handshake_timeout = 45 * 1000000000;
  header = (codes "Origin", string c.server_url) ∷ (codes "User-Agent", codes "GoCD Agent") ∷ [];
}
