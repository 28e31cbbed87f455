-- ===== src/Agent/Artifacts/Transfers.antt =====
-- What becomes of the temporary files of an upload and of a fetch.
use ex_gocd.Base.{◌≡◌, [], Result, if_both, eqb}
use ex_gocd.Text.{Text}
use ex_gocd.Protocol.{CommandFields, Build}
use ex_gocd.Agent.{
  Fault, called, OsCall, stat, make_temp_zip, fill_temp_zip, Host, Agent, Act, ◌>>=◌, ◌>>◌, return,
  os_call, asks, do_request, bad_status,
}
use ex_gocd.Agent.Growth.{
  Adds-then, Adds-os_call, Adds-asks, Adds-lift, Adds-do_request, Adds-demand,
}
use ex_gocd.Agent.Artifacts.{
  then_remove, or_remove, zip_source, zip_files, send_zip, upload_artifact, run_upload_artifact,
  fetch_zip, fetch_file, fetch_artifact, run_fetch_artifact, say, instead, is_zip, download_url,
}
use ex_gocd.Agent.Archive.{unzip_securely}
use ex_gocd.Agent.Console.{lift, demand, trusted_url, new_request, http_client, get, status_ok}
use ex_gocd.Agent.Trust.{trusted_url-Adds, new_request-Adds, http_client-Adds}
use ex_gocd.Agent.Trust.Calls.{
  zip_files-Adds, send_zip-Adds, say-Adds, unzip_securely-Adds, fetch_file-Adds,
}
use ex_gocd.Agent.Artifacts.Temporaries.{
  left_over, IsApart, plain-IsApart, Keeps, Adds-Keeps, Keeps-bind, then_remove_lem,
  made_and_removed, IsMade, IsGuarded, or_remove-IsGuarded, named-IsGuarded, guarded-IsMade,
  behind-IsMade, made-Keeps,
}

module _ (h : Host) where
  call-Keeps : (o : OsCall) → IsApart (called o) → Keeps h (os_call h o)
  call-Keeps o q = Adds-Keeps h (os_call h o) (λ c. Adds-os_call h o q)

  say-Keeps : (b : Build) (t : Text) → Keeps h (say h b t)
  say-Keeps b t = Adds-Keeps h (say h b t) (λ c. say-Adds h (λ r u. tt) plain-IsApart b t)

  asks-Keeps : {A : Type 0} (f : Agent → A) → Keeps h (asks f)
  asks-Keeps f = Adds-Keeps h (asks f) (λ c. Adds-asks f)

  lift-Keeps : {A : Type 0} (r : Result Fault A) → Keeps h (lift r)
  lift-Keeps r = Adds-Keeps h (lift r) (λ c. Adds-lift r)

  -- The parts of `zip_source` behind the making of the temporary file.
  abbrev fill : Text → Act (Unit {0})
  fill src = zip_files h src >> os_call h fill_temp_zip

  abbrev fill_named : Text → Act Text
  fill_named src = asks (λ a. h.temp_name a.trace) >>= λ name. or_remove h (fill src) >> return name

  fill-Keeps : (src : Text) → Keeps h (fill src)
  fill-Keeps src = Adds-Keeps h (fill src) λ c.
      Adds-then (zip_files h src) (os_call h fill_temp_zip)
        (zip_files-Adds h (λ r u. tt) plain-IsApart src) (Adds-os_call h fill_temp_zip tt)

  fill_named-IsGuarded : (src : Text) → IsGuarded h (fill_named src)
  unfolding asks ◌>>=◌
  fill_named-IsGuarded src a =
      named-IsGuarded h (or_remove h (fill src)) (h.temp_name a.trace)
        (or_remove-IsGuarded h (fill src) (fill-Keeps src)) a

  zip_source-IsMade : (src : Text) → IsMade h (zip_source h src)
  unfolding zip_source
  zip_source-IsMade src =
      behind-IsMade h (os_call h (stat src)) (os_call h make_temp_zip >> fill_named src)
        (call-Keeps (stat src) tt) (guarded-IsMade h (fill_named src) (fill_named-IsGuarded src))

  upload_artifact-Keeps :
      (b : Build) (cmd : CommandFields) (src : Text) → Keeps h (upload_artifact h b cmd src)
  unfolding upload_artifact
  upload_artifact-Keeps b cmd src = Keeps-bind h _ _ (say-Keeps b _) λ _.
      made-Keeps h _ _ (zip_source-IsMade src) λ zip a.
        then_remove_lem h (send_zip h b cmd src zip) a (
          Adds-Keeps h (send_zip h b cmd src zip)
            (λ c. send_zip-Adds h (λ r u. tt) plain-IsApart b cmd src zip))

  run_upload_artifact-Keeps :
      (b : Build) (cmd : CommandFields) → Keeps h (run_upload_artifact h b cmd)
  unfolding run_upload_artifact instead
  run_upload_artifact-Keeps b cmd = Keeps-bind h _ _ (asks-Keeps _) λ dir.
      Keeps-bind h _ _ (lift-Keeps _) λ abs_dir.
        Keeps-bind h _ _ (lift-Keeps _)
          λ src. Keeps-bind h _ _ (call-Keeps (stat src) tt) λ _. upload_artifact-Keeps b cmd src

  fetch_zip-Keeps : (dest : Text) → Keeps h (fetch_zip h dest)
  unfolding fetch_zip
  fetch_zip-Keeps dest =
      made_and_removed h (then_remove h (os_call h fill_temp_zip >> unzip_securely h dest)) λ a.
        then_remove_lem h (os_call h fill_temp_zip >> unzip_securely h dest) a (
          Adds-Keeps h (os_call h fill_temp_zip >> unzip_securely h dest) (λ c.
            Adds-then (os_call h fill_temp_zip) (unzip_securely h dest)
              (Adds-os_call h fill_temp_zip tt)
              (unzip_securely-Adds h (λ r u. tt) plain-IsApart dest
                (λ d name t e f. (tt, tt, tt, tt)))))

  fetch_artifact-Keeps :
      (b : Build) (cmd : CommandFields) (dest : Text) → Keeps h (fetch_artifact h b cmd dest)
  unfolding fetch_artifact
  fetch_artifact-Keeps b cmd dest = Keeps-bind h _ _ (say-Keeps b _) λ _.
      Keeps-bind h _ _
        (Adds-Keeps h (trusted_url h (download_url b cmd))
          (λ c. trusted_url-Adds h (λ r u. tt) (download_url b cmd)))
        λ url.
          Keeps-bind h _ _
            (Adds-Keeps h (new_request h get url [])
              (λ c. new_request-Adds h (λ r u. tt) get url []))
            λ request.
              Keeps-bind h _ _ (Adds-Keeps h (http_client h) (λ c. http_client-Adds h (λ r u. tt)))
                λ _.
                  Keeps-bind h _ _
                    (Adds-Keeps h (do_request h request) (λ c. Adds-do_request h request tt))
                    λ response.
                      Keeps-bind h _ _
                        (Adds-Keeps h
                          (demand (eqb response.status status_ok) (bad_status response.status))
                          (λ c. Adds-demand _ _))
                        λ _.
                          Keeps-bind h _ _
                            (if_both (λ (m : Act (Unit {0})). Keeps h m) (is_zip h response url)
                              (fetch_zip h dest) (fetch_file h dest) (fetch_zip-Keeps dest)
                              (Adds-Keeps h (fetch_file h dest) (λ c.
                                fetch_file-Adds h (λ r u. tt) plain-IsApart dest (tt, tt, tt, tt))))
                            λ _. say-Keeps b _

  run_fetch_artifact-Keeps :
      (b : Build) (cmd : CommandFields) → Keeps h (run_fetch_artifact h b cmd)
  unfolding run_fetch_artifact
  run_fetch_artifact-Keeps b cmd = Keeps-bind h _ _ (asks-Keeps _) λ dir.
      Keeps-bind h _ _ (lift-Keeps _)
        λ abs_dir. Keeps-bind h _ _ (lift-Keeps _) λ dest. fetch_artifact-Keeps b cmd dest

  -- Whatever fails on the way, an upload and a fetch call for the removal of each temporary file that
  -- they have made: behind them as many are left as before.
  pub transfers_leave_nothing :
      (b : Build) (cmd : CommandFields) (a : Agent)
      → (left_over h (run_upload_artifact h b cmd a).1.trace ≡ left_over h a.trace)
        × (left_over h (run_fetch_artifact h b cmd a).1.trace ≡ left_over h a.trace)
  transfers_leave_nothing b cmd a =
      (run_upload_artifact-Keeps b cmd a, run_fetch_artifact-Keeps b cmd a)
