-- ===== src/Agent/Trust/Calls.antt =====
-- The effects of the parts of artifact transfers that neither make nor remove a temporary file.
use ex_gocd.Base.{◌≡◌, Bool, true, false, List, [], ◌∷◌, ◌++◌, Result, ok, err}
use ex_gocd.Text.{Text}
use ex_gocd.FilePath.{abs, base_of, dir_of, PathError}
use ex_gocd.Config.{Config}
use ex_gocd.Protocol.{CommandFields, Build}
use ex_gocd.Agent.{
  Fault, Effect, called, requested, Request, OsCall, make_dirs, create, open_file, copy_into,
  read_all, enter_zip, make_temp_zip, open_zip, remove_temp_zip, Visit, ZipEntry, Host, Agent,
  os_call,
}
use ex_gocd.Agent.Checks.Laws.{IsTrusted}
use ex_gocd.Agent.Console.{lift, post}
use ex_gocd.Agent.Archive.{from_path, entry_target, write_entry, extract, unzip_securely}
use ex_gocd.Agent.Artifacts.{
  say, zip_one, zip_visit, zip_tree, zip_files, or_error, file_md5, send_zip, fetch_file,
  upload_url,
}
use ex_gocd.Agent.Growth.{
  Adds, Adds-bind, Adds-bind_if, Adds-then, Adds-lift, Adds-return, Adds-fail, Adds-demand,
  Adds-ignoring, Adds-if, Adds-asks, Adds-os_call,
}
use ex_gocd.Agent.Trust.{http_client-Adds, request-Adds, sent-Adds, post_console-Adds}

-- The calls that write no file and make no directory.
abbrev pub IsHarmless : OsCall → Type 0
IsHarmless (create p) = ⊥
IsHarmless (copy_into p) = ⊥
IsHarmless (make_dirs p) = ⊥
IsHarmless _ = Unit

-- Those of them that neither make nor remove a temporary file.
abbrev pub IsPlain : OsCall → Type 0
IsPlain make_temp_zip = ⊥
IsPlain remove_temp_zip = ⊥
IsPlain o = IsHarmless o

pub IsPlain-IsHarmless : (o : OsCall) → IsPlain o → IsHarmless o
IsPlain-IsHarmless make_temp_zip q = absurd q
IsPlain-IsHarmless remove_temp_zip q = absurd q
IsPlain-IsHarmless (create p) q = q
IsPlain-IsHarmless (copy_into p) q = q
IsPlain-IsHarmless (make_dirs p) q = q
IsPlain-IsHarmless _ q = tt

pub plain_of :
    (P : Effect → Type 0)
    → ((o : OsCall) → IsHarmless o → P (called o))
    → (o : OsCall) → IsPlain o
    → P (called o)
plain_of P calls o q = calls o (IsPlain-IsHarmless o q)

pub lift-value :
    {A : Type 0} (r : Result Fault A) (a : Agent) {x : A} → (lift r a).0 ≡ ok x → r ≡ ok x
unfolding lift
lift-value r a e = e

pub from_path-value : (r : Result PathError Text) {p : Text} → from_path r ≡ ok p → r ≡ ok p
from_path-value (ok q) e = cc
from_path-value (err x) e = cc

-- What making a file or a directory of the path calls.
abbrev pub MayWrite : (Effect → Type 0) → Text → Type 0
MayWrite P p =
    P (called (create p))
    × P (called (copy_into p))
    × P (called (make_dirs p))
    × P (called (make_dirs (dir_of p)))

module _ (h : Host) {c : Config} {P : Effect → Type 0}
    (trusted : (r : Request) → IsTrusted h c r.url → P (requested r))
    (calls : (o : OsCall) → IsPlain o → P (called o)) where
  plain_call : (o : OsCall) → IsPlain o → Adds c P (os_call h o)
  plain_call o q = Adds-os_call h o (calls o q)

  write_entry-Adds :
      (name : Text) (d : Bool) (t : Text) → MayWrite P t → Adds c P (write_entry h name d t)
  unfolding write_entry
  write_entry-Adds name true t (made, filled, dir, above) = Adds-os_call h (make_dirs t) dir
  write_entry-Adds name false t (made, filled, dir, above) =
      Adds-then _ _ (Adds-os_call h (make_dirs (dir_of t)) above) (
        Adds-then _ _ (Adds-os_call h (create t) made)
          (Adds-then _ _ (plain_call (open_file name) tt) (Adds-os_call h (copy_into t) filled)))

  extract-Adds :
      (dest : Text) (entries : List ZipEntry)
      → ((name t : Text) → entry_target h.working_dir dest name ≡ ok t → MayWrite P t)
      → Adds c P (extract h dest entries)
  unfolding extract
  extract-Adds dest [] w = Adds-return tt
  extract-Adds dest (e ∷ es) w =
      Adds-bind_if (MayWrite P) (lift (entry_target h.working_dir dest e.name)) _ (Adds-lift _)
        (λ a same t found. w e.name t (lift-value _ a found))
        λ t may. Adds-then _ _ (write_entry-Adds e.name e.is_dir t may) (extract-Adds dest es w)

  pub unzip_securely-Adds :
      (dest_dir : Text)
      → ((dest name t : Text)
          → abs h.working_dir dest_dir ≡ ok dest
          → entry_target h.working_dir dest name ≡ ok t
          → MayWrite P t)
      → Adds c P (unzip_securely h dest_dir)
  unfolding unzip_securely
  unzip_securely-Adds dest_dir w =
      Adds-bind_if (λ dest. abs h.working_dir dest_dir ≡ ok dest)
        (lift (from_path (abs h.working_dir dest_dir))) _ (Adds-lift _)
        (λ a same dest found. from_path-value _ (lift-value _ a found))
        λ dest found. Adds-then _ _ (plain_call open_zip tt) (
          Adds-bind _ _ (Adds-asks _)
            λ entries. extract-Adds dest entries (λ name t e. w dest name t found e))

  pub say-Adds : (b : Build) (t : Text) → Adds c P (say h b t)
  unfolding say
  say-Adds b t =
      Adds-bind _ _ (Adds-asks _)
        λ now. Adds-ignoring _ (post_console-Adds h trusted b.console_url (now ++ t))

  zip_one-Adds : (name path : Text) → Adds c P (zip_one h name path)
  unfolding zip_one
  zip_one-Adds name path =
      Adds-then _ _ (plain_call (open_file path) tt)
        (Adds-then _ _ (plain_call (enter_zip name) tt) (plain_call (read_all path) tt))

  zip_visit-Adds : (src : Text) (v : Visit) → Adds c P (zip_visit h src v)
  unfolding zip_visit
  zip_visit-Adds src v = Adds-if v.failed _ _ (Adds-fail _ _) (
      Adds-if v.is_dir _ _ (Adds-return tt)
        (Adds-bind _ _ (Adds-lift _) λ name. zip_one-Adds name v.path))

  zip_tree-Adds : (src : Text) (vs : List Visit) → Adds c P (zip_tree h src vs)
  unfolding zip_tree
  zip_tree-Adds src [] = Adds-return tt
  zip_tree-Adds src (v ∷ vs) = Adds-then _ _ (zip_visit-Adds src v) (zip_tree-Adds src vs)

  pub zip_files-Adds : (src : Text) → Adds c P (zip_files h src)
  unfolding zip_files
  zip_files-Adds src = Adds-bind _ _ (Adds-asks _) λ vs.
      Adds-bind _ _ (Adds-asks _)
        λ d. Adds-if d _ _ (zip_tree-Adds src vs) (zip_one-Adds (base_of src) src)

  file_md5-Adds : (path : Text) → Adds c P (file_md5 h path)
  unfolding file_md5
  file_md5-Adds path =
      Adds-then _ _ (plain_call (open_file path) tt)
        (Adds-bind _ _ (Adds-asks _) λ sum. Adds-lift (or_error sum))

  pub send_zip-Adds :
      (b : Build) (cmd : CommandFields) (src zip : Text) → Adds c P (send_zip h b cmd src zip)
  unfolding send_zip
  send_zip-Adds b cmd src zip = Adds-bind _ _ (file_md5-Adds zip) λ checksum.
      Adds-then _ _ (plain_call (open_file zip) tt) (
        Adds-then _ _ (plain_call (read_all zip) tt) (
          request-Adds h trusted post (upload_url b cmd) _ _ λ url r t e.
            Adds-then _ _ (http_client-Adds h trusted) (
              Adds-bind _ _ (sent-Adds h trusted url r t e)
                λ s. Adds-then _ _ (Adds-demand _ _) (say-Adds b _))))

  pub fetch_file-Adds : (dest : Text) → MayWrite P dest → Adds c P (fetch_file h dest)
  unfolding fetch_file
  fetch_file-Adds dest (made, filled, dir, above) =
      Adds-then _ _ (Adds-os_call h (make_dirs (dir_of dest)) above)
        (Adds-then _ _ (Adds-os_call h (create dest) made) (Adds-os_call h (copy_into dest) filled))
