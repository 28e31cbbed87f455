-- ===== src/Tests/Paths.antt =====
-- Tests of the checks of URLs and paths: agent/internal/agent/agent.go.
use ex_gocd.Base.{◌≡◌, ◌↔◌, ◌⊎◌, refl, arith, none, some, List, [], ◌∷◌, ◌++◌, All, ok, err, take}
use ex_gocd.Text.{Text, codes, index}
use ex_gocd.FilePath.{file_path}
use ex_gocd.FilePath.Laws.{IsName, rooted}
use ex_gocd.Config.{Url}
use ex_gocd.Agent.{path_traversal, illegal_zip_path, boundary_escape, untrusted_host}
use ex_gocd.Agent.Checks.{
  http, https, check_url, validate_url, validate_path, resolve_target, stay_inside,
}
use ex_gocd.Agent.Checks.Laws.{IsInside, validate_url-ok_iff, validate_path-ok_iff}
use ex_gocd.Agent.Archive.{leads_out, escapes, refuse_escape, entry_target}
use ex_gocd.Agent.Archive.Laws.{entry_target-inside}
use ex_gocd.Agent.Artifacts.{get_files_base_url}
use ex_gocd.Agent.Artifacts.Urls.{files, get_files_base_url_lem}
use ex_gocd.Tests.Fixtures.{config, host, host-is_abs}

running : Unit {0}
unfolding file_path validate_path resolve_target stay_inside validate_url check_url leads_out
    escapes refuse_escape entry_target index
running = tt

validate_url-ok_iff_example :
    (validate_url host config (codes "http://ci/console") ≡ ok (codes "http://ci/console")) ↔ (
      (u : Url) × (host.parse_url (codes "http://ci/console") ≡ some u)
      × ((u.scheme ≡ http) ⊎ (u.scheme ≡ https))
      × (u.host ≡ config.server_url.host)
      × (codes "http://ci/console"
          ≡ host.url_string (record config.server_url {
            path = u.path;
            raw_query = u.raw_query;
            fragment = u.fragment;
          })))
validate_url-ok_iff_example =
    validate_url-ok_iff host config (codes "http://ci/console") (codes "http://ci/console")

-- Another host is refused.
validate_url_of_evil : validate_url host config (codes "http://evil/console") ≡ err untrusted_host
unfolding running
validate_url_of_evil = refl

validate_path-ok_iff_example :
    (validate_path host.working_dir (codes "work") (codes "a/../b") ≡ ok (codes "/w/work/b"))
    ↔ IsInside host.working_dir host-is_abs (codes "work") (codes "a/../b") (codes "/w/work/b")
validate_path-ok_iff_example =
    validate_path-ok_iff host.working_dir host-is_abs (codes "work") (codes "a/../b")
      (codes "/w/work/b")

validate_path_inside :
    validate_path host.working_dir (codes "work") (codes "a/../b") ≡ ok (codes "/w/work/b")
unfolding running
validate_path_inside = refl

validate_path_outside :
    validate_path host.working_dir (codes "work") (codes "../b") ≡ err path_traversal
unfolding running
validate_path_outside = refl

names_of_dest : All IsName (codes "w" ∷ codes "work" ∷ [])
names_of_dest = ground arith

entry_let_through :
    entry_target host.working_dir (rooted (codes "w" ∷ codes "work" ∷ [])) (codes "lib/a.txt")
    ≡ ok (codes "/w/work/lib/a.txt")
unfolding running
entry_let_through = refl

entry_target-inside_example :
    (rest : List Text) × (codes "/w/work/lib/a.txt"
      ≡ rooted ((codes "w" ∷ codes "work" ∷ []) ++ rest))
    × All IsName ((codes "w" ∷ codes "work" ∷ []) ++ rest)
entry_target-inside_example =
    entry_target-inside host.working_dir (codes "w" ∷ codes "work" ∷ []) (codes "lib/a.txt")
      names_of_dest entry_let_through

-- A name that climbs out is refused, and so is one that only begins with two dots.
entry_target_outside :
    entry_target host.working_dir (codes "/w") (codes "../../etc/passwd")
    ≡ err (illegal_zip_path (codes "../../etc/passwd"))
unfolding running
entry_target_outside = refl

entry_target_of_dots :
    entry_target host.working_dir (codes "/w") (codes "..foo")
    ≡ err (boundary_escape (codes "..foo"))
unfolding running
entry_target_of_dots = refl

get_files_base_url_lem_example :
    get_files_base_url (codes "http://ci/go/files/p/1")
    ≡ elim (index (codes "http://ci/go/files/p/1") files) [
      | some i ↦ take i (codes "http://ci/go/files/p/1") ++ files
      | none ↦ codes "http://ci/go/files/p/1"
    ]
get_files_base_url_lem_example = get_files_base_url_lem (codes "http://ci/go/files/p/1")
