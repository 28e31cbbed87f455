-- ===== src/Agent/Artifacts.antt =====
-- Uploading and fetching artifacts: `runUploadArtifact`, `uploadArtifact`, `zipSource`, `fileMD5`,
-- `runFetchArtifact`, `fetchArtifact` and `getFilesBaseURL` of agent/internal/agent/agent.go.
pub mod Urls
pub mod Fetched
pub mod Temporaries
pub mod Transfers
use ex_gocd.Base.{
  ℕ, ◌≤◌, Bool, true, false, not, ◌&&◌, ◌||◌, Option, none, some, List, [], ◌∷◌, ◌++◌, Result, ok,
  err, eqb, leb, length, take, if◌then◌else◌,
}
use ex_gocd.Text.{Text, codes, ◌==◌, has_prefix, has_suffix, trim_prefix, index, split}
use ex_gocd.FilePath.{slash, abs, rel, base_of, dir_of}
use ex_gocd.Config.{Config}
use ex_gocd.Protocol.{CommandFields, Build}
use ex_gocd.Agent.{
  Fault, missing_artifact, os_error, bad_status, OsCall, stat, make_dirs, create, open_file,
  copy_into, read_all, enter_zip, make_temp_zip, fill_temp_zip, remove_temp_zip, Visit, Host, Agent,
  Act, ◌>>=◌, ◌>>◌, return, fail, ignoring, asks, os_call, do_request, Response,
}
use ex_gocd.Agent.Checks.{validate_url, validate_path}
use ex_gocd.Agent.Console.{
  lift, demand, status_ok, status_created, post, get, http_client, new_request, trusted_url,
  post_console, stamp,
}
use ex_gocd.Agent.Archive.{from_path, unzip_securely}

abbrev pub files_patterns : List Text
files_patterns = codes "/files" ∷ codes "/go/files" ∷ codes "/remoting/files" ∷ []

unfoldable pub cut_behind : Text → List Text → Text
cut_behind url [] = url
cut_behind url (pattern ∷ patterns) =
    let rest = cut_behind url patterns in
    elim (index url pattern) [ some i ↦ take i url ++ pattern | none ↦ rest ]

unfoldable pub get_files_base_url : Text → Text
get_files_base_url url = cut_behind url files_patterns

-- A URL with a slash at its end.
unfoldable pub with_slash : Text → Text
with_slash url = if has_suffix url (slash ∷ []) then url else url ++ slash ∷ []

unfoldable pub upload_url : Build → CommandFields → Text
upload_url build cmd = with_slash build.artifact_upload_base_url ++ cmd.dest

-- Where `fetchArtifact` downloads from.
unfoldable pub download_url : Build → CommandFields → Text
download_url build cmd =
    let cleaned = trim_prefix cmd.src (slash ∷ []) in
    if has_prefix cmd.src (codes "http://") || has_prefix cmd.src (codes "https://")
    then cmd.src
    else if leb 5 (length (split slash cleaned))
    then get_files_base_url build.artifact_upload_base_url ++ slash ∷ cleaned
    else with_slash build.artifact_upload_base_url ++ cleaned

abbrev pub command_dir : Config → CommandFields → Text
command_dir c cmd = if cmd.working_dir == [] then c.working_dir else cmd.working_dir

abbrev pub or_error : Option Text → Result Fault Text
or_error none = err os_error
or_error (some s) = ok s

abbrev replace_error : Fault → Result Fault (Unit {0}) → Result Fault (Unit {0})
replace_error e (ok x) = ok x
replace_error e (err _) = err e

-- An error becomes another one.
unfoldable pub instead : Fault → Act (Unit {0}) → Act (Unit {0})
instead e m a = (replace_error e (m a).0, (m a).1)

module _ (h : Host) where
  unfoldable pub say : Build → Text → Act (Unit {0})
  say build text = do
    now ← asks (λ a. stamp h a)
    ignoring (post_console h build.console_url (now ++ text))

  unfoldable pub zip_one : Text → Text → Act (Unit {0})
  zip_one name path = do
    os_call h (open_file path)
    os_call h (enter_zip name)
    os_call h (read_all path)

  -- The function that `filepath.Walk` calls on each file that it visits.
  unfoldable pub zip_visit : Text → Visit → Act (Unit {0})
  zip_visit src v =
      if v.failed
      then fail os_error
      else if v.is_dir
      then return tt
      else do name ← lift (from_path (rel src v.path)); zip_one name v.path

  unfoldable pub zip_tree : Text → List Visit → Act (Unit {0})
  zip_tree src [] = return tt
  zip_tree src (v ∷ vs) = do zip_visit src v; zip_tree src vs

  unfoldable pub zip_files : Text → Act (Unit {0})
  zip_files src = do
    visits ← asks (λ a. h.walk a.trace src)
    is_dir ← asks (λ a. h.is_dir a.trace src)
    if is_dir then zip_tree src visits else zip_one (base_of src) src

  unfoldable pub remove_on_error : Result Fault (Unit {0}) → Agent → Agent
  remove_on_error (ok x) a = a
  remove_on_error (err e) a = (os_call h remove_temp_zip a).1

  -- Removes the temporary file if the action fails.
  unfoldable pub or_remove : Act (Unit {0}) → Act (Unit {0})
  or_remove m a = ((m a).0, remove_on_error (m a).0 (m a).1)

  -- `zipSource`: the temporary file's name.
  unfoldable pub zip_source : Text → Act Text
  zip_source src = do
    os_call h (stat src)
    os_call h make_temp_zip
    name ← asks (λ a. h.temp_name a.trace)
    or_remove (do zip_files src; os_call h fill_temp_zip)
    return name

  unfoldable pub file_md5 : Text → Act Text
  file_md5 path = do
    os_call h (open_file path)
    sum ← asks (λ a. h.md5 a.trace)
    lift (or_error sum)

  -- The body of `uploadArtifact` from the zip file on; its removal is deferred.
  unfoldable pub send_zip : Build → CommandFields → Text → Text → Act (Unit {0})
  send_zip build cmd src_path zip_path = do
    checksum ← file_md5 zip_path
    os_call h (open_file zip_path)
    os_call h (read_all zip_path)
    validated ← trusted_url h (upload_url build cmd)
    let key = if cmd.dest == [] then base_of src_path else cmd.dest
    request ← new_request h post validated (key ++ codes ":" ++ checksum ++ codes "\n")
    http_client h
    response ← do_request h request
    demand (eqb response.status status_ok || eqb response.status status_created)
        (bad_status response.status)
    say build (
        codes "Successfully uploaded artifact "
        ++ cmd.src
        ++ codes " to "
        ++ cmd.dest
        ++ codes ".\n")

  -- Runs an action and then removes the temporary file, whatever the result.
  unfoldable pub then_remove : Act (Unit {0}) → Act (Unit {0})
  then_remove m a = ((m a).0, (os_call h remove_temp_zip (m a).1).1)

  unfoldable pub upload_artifact : Build → CommandFields → Text → Act (Unit {0})
  upload_artifact build cmd src_path = do
    say build (
        codes "Uploading artifact "
        ++ cmd.src
        ++ codes " to "
        ++ cmd.dest
        ++ codes " on server...\n")
    zip_path ← zip_source src_path
    then_remove (send_zip build cmd src_path zip_path)

  unfoldable pub run_upload_artifact : Build → CommandFields → Act (Unit {0})
  run_upload_artifact build cmd = do
    dir ← asks (λ a. command_dir a.config cmd)
    abs_dir ← lift (from_path (abs h.working_dir dir))
    src_path ← lift (validate_path h.working_dir abs_dir cmd.src)
    instead missing_artifact (os_call h (stat src_path))
    upload_artifact build cmd src_path

  -- A zip archive is unpacked below the destination.
  unfoldable pub fetch_zip : Text → Act (Unit {0})
  fetch_zip dest_path = do
    os_call h make_temp_zip
    then_remove (do os_call h fill_temp_zip; unzip_securely h dest_path)

  -- Any other content is the destination file's.
  unfoldable pub fetch_file : Text → Act (Unit {0})
  fetch_file dest_path = do
    os_call h (make_dirs (dir_of dest_path))
    os_call h (create dest_path)
    os_call h (copy_into dest_path)

  unfoldable pub is_zip : Response → Text → Bool
  is_zip response url =
      (response.content_type == codes "application/zip") || has_suffix url (codes ".zip")

  unfoldable pub fetch_artifact : Build → CommandFields → Text → Act (Unit {0})
  fetch_artifact build cmd dest_path = do
    say build (codes "Fetching artifact " ++ cmd.src ++ codes " to " ++ cmd.dest ++ codes "...\n")
    validated ← trusted_url h (download_url build cmd)
    request ← new_request h get validated []
    http_client h
    response ← do_request h request
    demand (eqb response.status status_ok) (bad_status response.status)
    if is_zip response validated then fetch_zip dest_path else fetch_file dest_path
    say build (codes "Successfully fetched artifact to " ++ cmd.dest ++ codes ".\n")

  unfoldable pub run_fetch_artifact : Build → CommandFields → Act (Unit {0})
  run_fetch_artifact build cmd = do
    dir ← asks (λ a. command_dir a.config cmd)
    abs_dir ← lift (from_path (abs h.working_dir dir))
    dest_path ← lift (validate_path h.working_dir abs_dir cmd.dest)
    fetch_artifact build cmd dest_path
