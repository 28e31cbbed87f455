-- ===== src/Agent/Checks/Laws.antt =====
-- What a URL and a path that were let through are.
use ex_gocd.Base.{
  ◌≡◌, ◌↔◌, refl, sym, ap, ◌∙◌, subst, ◌⊎◌, true, false, Option, none, some, List, ◌++◌, arith, All,
  Result, ok, err,
}
use mathlib.Core.Path.{subst₂}
use ex_gocd.Text.{Text}
use ex_gocd.Text.Laws.{==_iff}
use ex_gocd.FilePath.{is_abs, abs, rel, PathError}
use ex_gocd.FilePath.Laws.{IsName, rooted, abs-rooted}
use ex_gocd.FilePath.Relative.{climbs_out, rel-inside, rel-append}
use ex_gocd.Config.{Url, Config}
use ex_gocd.Agent.{Fault, Host}
use ex_gocd.Agent.Checks
use ex_gocd.Agent.Checks.{
  check_url, validate_url, validate_path, resolve_target, stay_inside, http, https,
}

-- A URL printed from one that differs from the server's at most in path, query and fragment.
pub record IsTrusted (h : Host) (c : Config) (t : Text) : Type 0 where
  pub target : Url
  pub printed : t ≡ h.url_string target
  pub rest_of_server : target ≡ record c.server_url {
    path = target.path;
    raw_query = target.raw_query;
    fragment = target.fragment;
  }

check_url-IsTrusted :
    (h : Host) (c : Config) (o : Option Url) {t : Text}
    → check_url h c.server_url o ≡ ok t
    → IsTrusted h c t
unfolding check_url
check_url-IsTrusted h c none e = cc
check_url-IsTrusted h c (some u) e = record {
  target = record c.server_url { path = u.path; raw_query = u.raw_query; fragment = u.fragment };
  printed = ground arith;
  rest_of_server = refl;
}

pub validate_url-IsTrusted :
    (h : Host) (c : Config) (raw : Text) {t : Text} → validate_url h c raw ≡ ok t → IsTrusted h c t
unfolding validate_url
validate_url-IsTrusted h c raw e = check_url-IsTrusted h c (h.parse_url raw) e

check_url-parts :
    (h : Host) (c : Config) (o : Option Url) (t : Text)
    → check_url h c.server_url o ≡ ok t
    → (u : Url) × (o ≡ some u)
      × ((u.scheme ≡ http) ⊎ (u.scheme ≡ https))
      × (u.host ≡ c.server_url.host)
      × (t
          ≡ h.url_string (record c.server_url {
            path = u.path;
            raw_query = u.raw_query;
            fragment = u.fragment;
          }))
unfolding check_url
check_url-parts h c none t e = cc
check_url-parts h c (some u) t e = (
  u,
  refl,
  ground (arith, ==_iff u.scheme http, ==_iff u.scheme https),
  ground (arith, ==_iff u.host c.server_url.host),
  ground arith,
)

check_url_of_parts :
    (h : Host) (c : Config) (u : Url)
    → (u.scheme ≡ http) ⊎ (u.scheme ≡ https)
    → u.host ≡ c.server_url.host
    → check_url h c.server_url (some u)
      ≡ ok (
          h.url_string
            (record c.server_url { path = u.path; raw_query = u.raw_query; fragment = u.fragment }))
unfolding check_url
check_url_of_parts h c u s e =
    ground (arith, ==_iff u.scheme http, ==_iff u.scheme https, ==_iff u.host c.server_url.host)

-- A URL is let through exactly if it parses, its scheme is HTTP or HTTPS and its host is the
-- server's; the result is the server's URL with the path, query and fragment of the one given.
pub validate_url-ok_iff :
    (h : Host) (c : Config) (raw t : Text)
    → (validate_url h c raw ≡ ok t) ↔ (
        (u : Url) × (h.parse_url raw ≡ some u)
        × ((u.scheme ≡ http) ⊎ (u.scheme ≡ https))
        × (u.host ≡ c.server_url.host)
        × (t
            ≡ h.url_string (record c.server_url {
              path = u.path;
              raw_query = u.raw_query;
              fragment = u.fragment;
            })))
validate_url-ok_iff h c raw t = (
  λ e. check_url-parts h c (h.parse_url raw) t (unfold validate_url in e),
  λ (u, p, s, same, printed).
      unfold validate_url in rw p (rw printed (check_url_of_parts h c u s same)),
)

-- The parts of a path that was let through, in the order of the checks.
bind-eq-ok :
    {B : Type 0} (m : Result PathError Text) (f : Text → Result Fault B) {b : B}
    → Checks.◌>>=◌ m f ≡ ok b
    → (p : Text) × (m ≡ ok p) × (f p ≡ ok b)
bind-eq-ok (ok p) f h = (p, refl, h)
bind-eq-ok (err e) f h = cc

stay_inside-eq-ok :
    (q r : Text) {p : Text} → stay_inside q r ≡ ok p → (climbs_out r ≡ false) × (p ≡ q)
unfolding stay_inside climbs_out
stay_inside-eq-ok q r e = ground arith

stay_inside_of_climbs_out : (q r : Text) → climbs_out r ≡ false → stay_inside q r ≡ ok q
unfolding stay_inside climbs_out
stay_inside_of_climbs_out q r h = rw h

module _ (wd : Option Text) (wd_is_abs : (w : Text) → wd ≡ some w → is_abs w ≡ true) where
  -- The base is the path of some names, and the resolved target that of these and further names.
  abbrev pub IsInside : Text → Text → Text → Type 0
  IsInside base target p =
      (bs rest : List Text) × (abs wd base ≡ ok (rooted bs))
      × (abs wd (resolve_target (rooted bs) target) ≡ ok p)
      × (p ≡ rooted (bs ++ rest))
      × All IsName (bs ++ rest)

  validate_path-IsInside :
      (base target : Text) {p : Text} → validate_path wd base target ≡ ok p → IsInside base target p
  unfolding validate_path
  validate_path-IsInside base target {p} e =
      let (ab, based, e') = bind-eq-ok (abs wd base) _ e in
      let (at, resolved, e'') = bind-eq-ok (abs wd (resolve_target ab target)) _ e' in
      let (r, related, stays) = bind-eq-ok (rel ab at) _ e'' in
      let (bs, same_base, base_names) = abs-rooted wd base wd_is_abs based in
      let (ts, same_target, names) = abs-rooted wd (resolve_target ab target) wd_is_abs resolved in
      let (inside, same) = stay_inside-eq-ok at r stays in
      let (rest, split_names) =
        rel-inside bs ts base_names names
          (subst₂ (λ x y. rel x y ≡ ok r) same_base same_target related) inside in
      (
        bs,
        rest,
        based ∙ ap ok same_base,
        subst (λ x. abs wd (resolve_target x target) ≡ ok p) same_base
            (resolved ∙ ap ok (sym same)),
        same ∙ same_target ∙ ap rooted split_names,
        subst (λ l. All IsName l) split_names names,
      )

  validate_path_of_inside :
      (base target p : Text) → IsInside base target p → validate_path wd base target ≡ ok p
  unfolding validate_path
  validate_path_of_inside base target p (bs, rest, based, resolved, same, names) =
      let (r, related, inside) = rel-append bs rest names in
      rw (based, resolved, same, related, stay_inside_of_climbs_out (rooted (bs ++ rest)) r inside)

  -- A path is let through exactly if the target, resolved against the base, is the base or below
  -- it; the result is the resolved target, a slash and names.
  pub validate_path-ok_iff :
      (base target p : Text) → (validate_path wd base target ≡ ok p) ↔ IsInside base target p
  validate_path-ok_iff base target p =
      (validate_path-IsInside base target, validate_path_of_inside base target p)
