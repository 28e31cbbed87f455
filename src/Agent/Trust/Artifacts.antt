-- ===== src/Agent/Trust/Artifacts.antt =====
-- The effects of artifact transfers: trusted requests, harmless calls, and writes that are let
-- through.
use ex_gocd.Base.{◌≡◌, ◌∙◌, Result, ok, err}
use ex_gocd.Text.{Text}
use ex_gocd.FilePath.{abs}
use ex_gocd.Config.{Config}
use ex_gocd.Protocol.{CommandFields, Build}
use ex_gocd.Agent.{
  Fault, Effect, called, requested, Request, OsCall, stat, make_temp_zip, fill_temp_zip,
  remove_temp_zip, Host, Agent, Act, os_call,
}
use ex_gocd.Agent.Checks.Laws.{IsTrusted}
use ex_gocd.Agent.Console.{get}
use ex_gocd.Agent.Archive.{entry_target}
use ex_gocd.Agent.Artifacts.{
  or_remove, remove_on_error, zip_source, then_remove, upload_artifact, run_upload_artifact,
  instead, fetch_zip, fetch_file, is_zip, fetch_artifact, run_fetch_artifact, download_url,
}
use ex_gocd.Agent.Growth.{
  Grows, Adds, Grows-refl, Grows-trans, Grows-config, Adds-bind, Adds-then, Adds-lift, Adds-return,
  Adds-demand, Adds-if, Adds-asks, Adds-os_call,
}
use ex_gocd.Agent.Trust.{http_client-Adds, request-Adds, sent-Adds}
use ex_gocd.Agent.Trust.Calls.{
  IsHarmless, plain_of, MayWrite, unzip_securely-Adds, say-Adds, zip_files-Adds, send_zip-Adds,
  fetch_file-Adds,
}

module _ (h : Host) {c : Config} {P : Effect → Type 0}
    (trusted : (r : Request) → IsTrusted h c r.url → P (requested r))
    (calls : (o : OsCall) → IsHarmless o → P (called o)) where
  harmless : (o : OsCall) → IsHarmless o → Adds c P (os_call h o)
  harmless o q = Adds-os_call h o (calls o q)

  remove_on_error-Grows :
      (r : Result Fault (Unit {0})) (a : Agent) → a.config ≡ c → Grows P a (remove_on_error h r a)
  unfolding remove_on_error
  remove_on_error-Grows (ok x) a same = Grows-refl a
  remove_on_error-Grows (err e) a same = harmless remove_temp_zip tt a same

  or_remove-Adds : (m : Act (Unit {0})) → Adds c P m → Adds c P (or_remove h m)
  unfolding or_remove
  or_remove-Adds m g a same =
      Grows-trans (g a same)
        (remove_on_error-Grows (m a).0 (m a).1 (Grows-config (g a same) ∙ same))

  then_remove-Adds : (m : Act (Unit {0})) → Adds c P m → Adds c P (then_remove h m)
  unfolding then_remove
  then_remove-Adds m g a same =
      Grows-trans (g a same) (harmless remove_temp_zip tt _ (Grows-config (g a same) ∙ same))

  zip_source-Adds : (src : Text) → Adds c P (zip_source h src)
  unfolding zip_source
  zip_source-Adds src = Adds-then _ _ (harmless (stat src) tt) (
      Adds-then _ _ (harmless make_temp_zip tt) (
        Adds-bind _ _ (Adds-asks _) λ name.
          Adds-then _ _
            (or_remove-Adds _ (
              Adds-then _ _ (zip_files-Adds h trusted (plain_of P calls) src)
                (harmless fill_temp_zip tt)))
            (Adds-return name)))

  upload_artifact-Adds :
      (b : Build) (cmd : CommandFields) (src : Text) → Adds c P (upload_artifact h b cmd src)
  unfolding upload_artifact
  upload_artifact-Adds b cmd src = Adds-then _ _ (say-Adds h trusted (plain_of P calls) b _) (
      Adds-bind _ _ (zip_source-Adds src)
        λ zip. then_remove-Adds _ (send_zip-Adds h trusted (plain_of P calls) b cmd src zip))

  instead-Adds : (e : Fault) (m : Act (Unit {0})) → Adds c P m → Adds c P (instead e m)
  unfolding instead
  instead-Adds e m g = g

  pub run_upload_artifact-Adds :
      (b : Build) (cmd : CommandFields) → Adds c P (run_upload_artifact h b cmd)
  unfolding run_upload_artifact
  run_upload_artifact-Adds b cmd = Adds-bind _ _ (Adds-asks _) λ dir.
      Adds-bind _ _ (Adds-lift _) λ abs_dir. Adds-bind _ _ (Adds-lift _) λ src.
        Adds-then _ _ (instead-Adds _ _ (harmless (stat src) tt)) (upload_artifact-Adds b cmd src)

  -- A fetched archive writes where its entries are let through, another file at the destination.
  pub fetch_artifact-Adds :
      (b : Build) (cmd : CommandFields) (dest : Text)
      → MayWrite P dest
      → ((d name t : Text)
          → abs h.working_dir dest ≡ ok d
          → entry_target h.working_dir d name ≡ ok t
          → MayWrite P t)
      → Adds c P (fetch_artifact h b cmd dest)
  unfolding fetch_artifact
  fetch_artifact-Adds b cmd dest may w = Adds-then _ _ (say-Adds h trusted (plain_of P calls) b _) (
      request-Adds h trusted get (download_url b cmd) _ _ λ url r t e.
        Adds-then _ _ (http_client-Adds h trusted) (
          Adds-bind _ _ (sent-Adds h trusted url r t e) λ s. Adds-then _ _ (Adds-demand _ _) (
            Adds-then _ _ (Adds-if (is_zip h s url) _ _ zipped unzipped)
              (say-Adds h trusted (plain_of P calls) b _))))
    where
      zipped : Adds c P (fetch_zip h dest)
      zipped =
          unfold fetch_zip in
          Adds-then _ _ (harmless make_temp_zip tt) (
            then_remove-Adds _ (
              Adds-then _ _ (harmless fill_temp_zip tt)
                (unzip_securely-Adds h trusted (plain_of P calls) dest w)))

      unzipped : Adds c P (fetch_file h dest)
      unzipped = fetch_file-Adds h trusted (plain_of P calls) dest may

  pub run_fetch_artifact-Adds :
      (b : Build) (cmd : CommandFields)
      → ((p : Text) → MayWrite P p)
      → Adds c P (run_fetch_artifact h b cmd)
  unfolding run_fetch_artifact
  run_fetch_artifact-Adds b cmd w = Adds-bind _ _ (Adds-asks _) λ dir.
      Adds-bind _ _ (Adds-lift _) λ abs_dir.
        Adds-bind _ _ (Adds-lift _)
          λ dest. fetch_artifact-Adds b cmd dest (w dest) (λ d name t e f. w t)
