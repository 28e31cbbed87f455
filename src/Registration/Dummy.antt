-- ===== src/Registration/Dummy.antt =====
-- What the file leads to that `readServerCACert` writes for a server that is not HTTPS.
use ex_gocd.Base.{◌≡◌, ◌≢◌, sym, ap, ◌∙◌, true, false, Option, some, Result, ok, err, arith}
use mathlib.Core.Option.{some-injective}
use mathlib.Core.Bool.{false≢true}
use ex_gocd.Text.{Text, codes, ◌==◌}
use ex_gocd.Text.Laws.{==_refl}
use ex_gocd.Config.{Config, go_server_ca_file}
use ex_gocd.Registration.{World, Desk, exists, write_file, put, if_ok}
use ex_gocd.Registration.Runs.{
  Runs, Runs-bind, Runs-give, Runs-wrapped, Reads-wrapped, Reads-read_file,
}
use ex_gocd.Registration.Tls.{
  TlsConfig, uses_tls, append_certs, tls_of_files, create_tls_config, create_http_client,
}
use ex_gocd.Registration.Flow.{write_dummy_ca, read_server_ca_cert, register}

abbrev pub dummy_ca : Text
dummy_ca = codes "# Not using TLS\n"

module _ (w : World) (c : Config) where
  write_file_lem :
      (path content : Text) (s : Desk) {t : Desk} {x : Unit {0}}
      → Runs (write_file w path content) s x t
      → t.files path ≡ some content
  unfolding write_file
  write_file_lem path content s {t} {x} e = go (w.may_write s.deeds path) e
    where
      go :
          (r : Result Text (Unit {0}))
          → ◌≡◌ {A = Result Text (Unit {0}) × Desk} (r, if_ok r (put path content s) s) (ok x, t)
          → t.files path ≡ some content
      go (ok y) f =
          ap (λ (p : Result Text (Unit {0}) × Desk). p.1.files path) (sym f) ∙ rw (==_refl path)
      go (err y) f = cc

  write_dummy_ca_lem :
      (s : Desk) {t : Desk} {x : Unit {0}}
      → Runs (write_dummy_ca w c) s x t
      → t.files (go_server_ca_file c) ≡ some dummy_ca
  unfolding write_dummy_ca
  write_dummy_ca_lem s e =
      let (y, u, e1, f1) = Runs-bind _ _ e in write_file_lem (go_server_ca_file c) dummy_ca u f1

  -- The TLS configuration takes a CA file in which there is a certificate.
  tls_of_files_lem :
      (s : Desk) {t : Desk} {x : Option TlsConfig}
      → Runs (tls_of_files w c false) s x t
      → (ca : Text) × (s.files (go_server_ca_file c) ≡ some ca) × (w.is_pem_of_certs ca ≡ true)
  unfolding tls_of_files append_certs
  tls_of_files_lem s e =
      let (ca, s1, e1, f1) = Runs-bind _ _ e in
      let (y, s2, e2, f2) = Runs-bind _ _ f1 in
      let told = (Runs-give _ e2).0 in
      (
        ca,
        (Reads-wrapped s _ _ (Reads-read_file s (go_server_ca_file c)) s1 ca e1).1,
        ground (arith, told),
      )

  writes_dummy :
      (s : Desk)
      → c.server_url.scheme ≡ codes "wss"
      → exists (go_server_ca_file c) s ≡ false
      → read_server_ca_cert w c s ≡ write_dummy_ca w c s
  unfolding read_server_ca_cert ◌==◌
  writes_dummy s scheme absent = rw (absent, scheme)

  takes_files :
      (s : Desk)
      → c.server_url.scheme ≡ codes "wss"
      → create_http_client w c false s ≡ tls_of_files w c false s
  unfolding create_http_client create_tls_config uses_tls ◌==◌
  takes_files s scheme = rw scheme

  -- With a WSS server and no CA file the registration never succeeds: a dummy is written as the CA,
  -- which the TLS configuration then refuses, provided that no certificate is found in it.
  pub register_of_wss :
      (s : Desk)
      → c.server_url.scheme ≡ codes "wss"
      → exists (go_server_ca_file c) s ≡ false
      → w.is_pem_of_certs dummy_ca ≡ false
      → (register w c s).0 ≢ ok tt
  unfolding register
  register_of_wss s scheme absent no_pem e =
      let whole : Runs (register w c) s tt (register w c s).1 =
        ap (λ r. (r, (register w c s).1)) e in
      let (x, s1, e1, f1) = Runs-bind _ _ whole in
      let (y, s2, e2, f2) = Runs-bind _ _ f1 in
      let dummy = write_dummy_ca_lem s (sym (writes_dummy s scheme absent) ∙ Runs-wrapped _ _ e1) in
      let (ca, there, is_pem) =
        tls_of_files_lem s1 (sym (takes_files s1 scheme) ∙ Runs-wrapped _ _ e2) in
      let same : dummy_ca ≡ ca = some-injective _ _ (sym dummy ∙ there) in
      absurd (false≢true (sym no_pem ∙ ap w.is_pem_of_certs same ∙ is_pem))
