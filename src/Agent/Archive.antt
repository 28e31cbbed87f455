-- ===== src/Agent/Archive.antt =====
-- `unzipSecurely` of agent/internal/agent/agent.go.
pub mod Laws
use mathlib.Core.List.{◌++◌}
use ex_gocd.Base.{
  Bool, true, false, not, ◌&&◌, ◌||◌, Option, none, some, List, [], ◌∷◌, Result, ok, err, reverse,
  if◌then◌else◌,
}
use ex_gocd.Text.{Text, codes, ◌==◌, has_prefix}
use ex_gocd.FilePath.{slash, dotdot, is_abs, clean, path_join, abs, rel, dir_of, PathError}
use ex_gocd.Agent.{
  Fault, path_error, illegal_zip_path, boundary_escape, OsCall, make_dirs, create, copy_into,
  open_file, open_zip, ZipEntry, Host, Agent, Act, ◌>>=◌, ◌>>◌, return, fail, asks, os_call,
}
use ex_gocd.Agent.Console.{lift}

-- An error of the path functions as an error of the agent.
abbrev pub from_path : Result PathError Text → Result Fault Text
from_path (ok p) = ok p
from_path (err e) = err (path_error e)

-- The first check, on the cleaned name.
unfoldable pub leads_out : Text → Bool
leads_out p = has_prefix p (dotdot ++ slash ∷ []) || (p == dotdot) || is_abs p

-- The second check, on the relative path; a failing `Rel` counts as an escape.
unfoldable pub escapes : Result PathError Text → Bool
escapes (ok r) = has_prefix r dotdot
escapes (err e) = true

-- The second check of an entry's absolute target.
unfoldable pub refuse_escape : Text → Text → Result PathError Text → Result Fault Text
refuse_escape dest name (ok target) =
    if escapes (rel dest target) then err (boundary_escape name) else ok target
refuse_escape dest name (err e) = err (path_error e)

-- Where an entry is written, or why it is refused.
unfoldable pub entry_target : Option Text → Text → Text → Result Fault Text
entry_target wd dest name =
    if leads_out (clean name)
    then err (illegal_zip_path name)
    else refuse_escape dest name (abs wd (path_join dest (clean name)))

module _ (h : Host) where
  unfoldable pub write_entry : Text → Bool → Text → Act (Unit {0})
  write_entry name true target = os_call h (make_dirs target)
  write_entry name false target = do
    os_call h (make_dirs (dir_of target))
    os_call h (create target)
    os_call h (open_file name)
    os_call h (copy_into target)

  unfoldable pub extract : Text → List ZipEntry → Act (Unit {0})
  extract dest [] = return tt
  extract dest (entry ∷ entries) = do
    target ← lift (entry_target h.working_dir dest entry.name)
    write_entry entry.name entry.is_dir target
    extract dest entries

  -- `unzipSecurely`: the archive is the one just downloaded.
  unfoldable pub unzip_securely : Text → Act (Unit {0})
  unzip_securely dest_dir = do
    dest ← lift (from_path (abs h.working_dir dest_dir))
    os_call h open_zip
    entries ← asks (λ a. h.zip_entries a.trace)
    extract dest entries
