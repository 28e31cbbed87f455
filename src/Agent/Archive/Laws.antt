-- ===== src/Agent/Archive/Laws.antt =====
-- Where the entries of an archive are written.
use ex_gocd.Base.{
  ◌≡◌, refl, ap, ◌∙◌, subst, Bool, true, false, Option, List, [], ◌∷◌, ◌++◌, All, arith, Result,
  Result-cases, ok, err, inl, inr, if◌then◌else◌,
}
use ex_gocd.Text.{Text, ◌==◌, has_prefix}
use ex_gocd.FilePath.{clean, path_join, abs, rel, PathError}
use ex_gocd.FilePath.Laws.{IsName, rooted, abs_of_rooted, is_abs-rooted, path_join-rooted}
use ex_gocd.FilePath.Relative.{climbs_out, rel-inside}
use ex_gocd.Agent.{illegal_zip_path}
use ex_gocd.Agent.Archive.{leads_out, escapes, refuse_escape, entry_target}

-- A path that does not begin with ".." does not lead out.
escapes-climbs_out : (r : Text) → escapes (ok r) ≡ false → climbs_out r ≡ false
unfolding escapes climbs_out has_prefix ◌==◌
escapes-climbs_out [] e = refl
escapes-climbs_out (c ∷ []) e = ground arith
escapes-climbs_out (c ∷ d ∷ []) e = ground arith
escapes-climbs_out (c ∷ d ∷ r) e = ground arith

escapes_err : (x : PathError) → ¬ (escapes (err x) ≡ false)
unfolding escapes
escapes_err x e = cc

-- What the checks of an entry say of its target.
accepted :
    (dest name target : Text) {t : Text} (out : Bool) (r : Result PathError Text)
    → r ≡ ok target
    → (if out then err (illegal_zip_path name) else refuse_escape dest name r) ≡ ok t
    → (escapes (rel dest target) ≡ false) × (t ≡ target)
unfolding refuse_escape
accepted dest name target true r resolved e = cc
accepted dest name target false (err x) resolved e = cc
accepted dest name target false (ok q) resolved e = ground arith

-- Every entry that is let through is written at or below the destination, a slash and names; the
-- working directory does not matter.
pub entry_target-inside :
    (wd : Option Text) (bs : List Text) (name : Text) {t : Text}
    → All IsName bs
    → entry_target wd (rooted bs) name ≡ ok t
    → (rest : List Text) × (t ≡ rooted (bs ++ rest)) × All IsName (bs ++ rest)
unfolding entry_target
entry_target-inside wd bs name {t} names e =
    let (ts, joined, all_names) = path_join-rooted (rooted bs) (clean name) (is_abs-rooted bs) in
    let resolved = ap (abs wd) joined ∙ abs_of_rooted wd ts all_names in
    let (stays, same) =
      accepted (rooted bs) name (rooted ts) (leads_out (clean name))
        (abs wd (path_join (rooted bs) (clean name))) resolved e in
    elim (Result-cases (rel (rooted bs) (rooted ts))) [
      | inl (r, related) ↦
          let (rest, split_names) =
            rel-inside bs ts names all_names related
              (escapes-climbs_out r (subst (λ x. escapes x ≡ false) related stays)) in
          (rest, same ∙ ap rooted split_names, subst (λ l. All IsName l) split_names all_names)
      | inr (x, failed) ↦ absurd (escapes_err x (subst (λ y. escapes y ≡ false) failed stays))
    ]
