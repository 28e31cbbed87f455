-- ===== src/Registration/Deeds.antt =====
-- What the steps in front of the registration's request add to the deeds.
use ex_gocd.Base.{
  ◌≡◌, refl, sym, ap, ◌∙◌, Bool, false, not, List, [], ◌∷◌, ◌++◌, append_assoc, All, All-append,
  Result, ok, err, if◌then◌else◌, if_both,
}
use ex_gocd.Text.{Text, codes, ◌==◌}
use ex_gocd.Config.{Config, token_url, go_server_ca_file, agent_token_file}
use ex_gocd.Registration.{
  World, Desk, Deed, Client, registrar, for_ca, got, Task, ◌>>=◌, give, wrapped, read_file, exists,
  write_file, put, if_ok, make_dir_of, fetch, expect_ok,
}
use ex_gocd.Registration.Tls.{
  uses_tls, extract_server_dn, client_certs, append_certs, tls_of_files, create_tls_config,
  create_http_client,
}
use ex_gocd.Registration.Flow.{
  write_dummy_ca, download_ca, read_server_ca_cert, store_token, fetch_token, request_token,
}

-- The deeds in between all have the property.
abbrev pub DoesMore : (Deed → Type 0) → Desk → Desk → Type 0
DoesMore P s t = (new : List Deed) × (t.deeds ≡ new ++ s.deeds) × All P new

-- Where the CA is to be found.
abbrev pub ca_url : World → Config → Text
ca_url w c = w.url_string c.server_url ++ codes "/admin/agent/root_certificate"

abbrev pub Asks : (Deed → Type 0) → {A : Type 0} → Task A → Type 0
Asks P m = (s : Desk) → DoesMore P s (m s).1

module _ {P : Deed → Type 0} where
  pub asks_nothing : (s : Desk) → DoesMore P s s
  asks_nothing s = ([], refl, tt)

  pub asks_both : (s t u : Desk) → DoesMore P s t → DoesMore P t u → DoesMore P s u
  asks_both s t u (new, e, asked) (newer, f, asked') = (
    newer ++ new,
    f ∙ ap (λ l. newer ++ l) e ∙ sym (append_assoc newer new s.deeds),
    All-append (P) newer new asked' asked,
  )

  pub Asks-bind :
      {A B : Type 0} (m : Task A) (f : A → Task B)
      → Asks P m
      → ((x : A) → Asks P (f x))
      → Asks P (m >>= f)
  unfolding ◌>>=◌
  Asks-bind {A} {B} m f g k s = go (m s).0
    where
      go :
          (r : Result Text A)
          → DoesMore P s
              (elim r as (λ _. Result Text B × Desk) [
                | ok x ↦ f x (m s).1
                | err e ↦ (err e, (m s).1)
              ]).1
      go (ok x) = asks_both s (m s).1 (f x (m s).1).1 (g s) (k x (m s).1)
      go (err e) = g s

  pub Asks-wrapped : {A : Type 0} (what : Text) (m : Task A) → Asks P m → Asks P (wrapped what m)
  unfolding wrapped
  Asks-wrapped what m g s = g s

  pub Asks-give : {A : Type 0} (r : Result Text A) → Asks P (give r)
  unfolding give
  Asks-give r s = asks_nothing s

  pub Asks-read_file : (path : Text) → Asks P (read_file path)
  unfolding read_file
  Asks-read_file path s = asks_nothing s

  pub Asks-write_file : (w : World) (path content : Text) → Asks P (write_file w path content)
  unfolding write_file
  Asks-write_file w path content s = go (w.may_write s.deeds path)
    where
      go : (r : Result Text (Unit {0})) → DoesMore P s (if_ok r (put path content s) s)
      go (ok x) = ([], refl, tt)
      go (err e) = ([], refl, tt)

  pub Asks-make_dir_of : (w : World) (path : Text) → Asks P (make_dir_of w path)
  unfolding make_dir_of
  Asks-make_dir_of w path s = asks_nothing s

  pub Asks-fetch :
      (w : World) (client : Client) (url : Text) → P (got client url) → Asks P (fetch w client url)
  unfolding fetch
  Asks-fetch w client url known s = (got client url ∷ [], refl, (known, tt))

  pub Asks-if :
      {A : Type 0} (b : Bool) (m n : Task A) → Asks P m → Asks P n → Asks P (if b then m else n)
  Asks-if b m n g k = if_both (Asks P) b m n g k

  pub Asks-expect_ok : (w : World) (what : Text) (r : _) → Asks P (expect_ok w what r)
  unfolding expect_ok
  Asks-expect_ok w what r = Asks-give _

  pub Asks-either :
      {A : Type 0} (s : Desk) (b : Bool) (p q : Result Text A × Desk)
      → DoesMore P s p.1
      → DoesMore P s q.1
      → DoesMore P s (if b then p else q).1
  Asks-either {A} s b p q g k = if_both (λ (r : Result Text A × Desk). DoesMore P s r.1) b p q g k

module _ (w : World) (c : Config) {P : Deed → Type 0}
    (got_ca : P (got (for_ca c.insecure_skip_verify) (ca_url w c)))
    (got_token : P (got registrar (token_url w.url_string c))) where
  Asks-write_dummy_ca : Asks P (write_dummy_ca w c)
  unfolding write_dummy_ca
  Asks-write_dummy_ca = Asks-bind _ _ (Asks-make_dir_of w _) λ _. Asks-write_file w _ _

  Asks-download_ca : Asks P (download_ca w c)
  unfolding download_ca
  Asks-download_ca = Asks-bind _ _ (Asks-wrapped _ _ (Asks-fetch w _ _ got_ca)) λ reply.
      Asks-bind _ _ (Asks-expect_ok w _ reply) λ _.
        Asks-bind _ _ (Asks-give _)
          λ ca_cert. Asks-bind _ _ (Asks-make_dir_of w _) λ _. Asks-write_file w _ _

  pub Asks-read_server_ca_cert : Asks P (read_server_ca_cert w c)
  unfolding read_server_ca_cert
  Asks-read_server_ca_cert s = Asks-either s (exists (go_server_ca_file c) s) _ _ (asks_nothing s) (
      Asks-either s (not (c.server_url.scheme == codes "https")) _ _ (Asks-write_dummy_ca s)
        (Asks-download_ca s))

  Asks-store_token : (demo : Text) → Asks P (store_token w c demo)
  unfolding store_token
  Asks-store_token demo = Asks-bind _ _ (Asks-make_dir_of w _) λ _. Asks-write_file w _ _

  Asks-fetch_token : Asks P (fetch_token w c)
  unfolding fetch_token
  Asks-fetch_token = Asks-bind _ _ (Asks-wrapped _ _ (Asks-fetch w _ _ got_token)) λ reply.
      Asks-bind _ _ (Asks-expect_ok w _ reply)
        λ _. Asks-bind _ _ (Asks-give _) λ token. Asks-write_file w _ _

  pub Asks-request_token : Asks P (request_token w c)
  unfolding request_token
  Asks-request_token s =
      Asks-either s (not (w.getenv (codes "EX_GOCD_DEMO_COOKIE") == [])) _ _ (Asks-store_token _ s)
        (Asks-either s (not (w.getenv (codes "AGENT_DEMO_COOKIE") == [])) _ _ (Asks-store_token _ s)
          (Asks-either s (exists (agent_token_file c) s) _ _ (asks_nothing s) (Asks-fetch_token s)))

  pub Asks-create_http_client : Asks P (create_http_client w c false)
  unfolding create_http_client create_tls_config tls_of_files append_certs extract_server_dn
      client_certs
  Asks-create_http_client = Asks-if (not (uses_tls c)) _ _ (Asks-give _) (
      Asks-bind _ _ (Asks-wrapped _ _ (Asks-read_file _)) λ ca_cert.
        Asks-bind _ _ (Asks-give _) λ _.
          Asks-bind _ _
            (Asks-bind _ _ (Asks-read_file _)
              λ pem_data. Asks-bind _ _ (Asks-give _) λ block. Asks-give _)
            λ name. Asks-bind _ _ (Asks-give _) λ certs. Asks-give _)
