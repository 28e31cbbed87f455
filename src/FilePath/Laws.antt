-- ===== src/FilePath/Laws.antt =====
-- Cleaned absolute paths are a slash and names: what `clean` and `abs` give.
use ex_gocd.Base.{
  ◌≡◌, refl, sym, ap, ◌≢◌, ◌∙◌, inl, inr, Bool-cases, Bool, true, Option, none, some, List, [], ◌∷◌,
  ◌++◌, reverse, arith, All, All-reverse, append_assoc, append-nil, ok,
}
use mathlib.Core.List.{reverse-cons}
use ex_gocd.Text.{Text, ◌==◌, has_prefix, split, join}
use ex_gocd.Text.Laws.{==_iff, Lacks, split-Lacks, split-append, split-join}
use ex_gocd.FilePath.{
  slash, dot, dotdot, is_abs, go_up, resolve, resolve_all, render, clean, path_join, abs, parts,
}

-- A part that names an entry of a directory: not empty, not "." or "..", and free of slashes.
abbrev pub IsName : Text → Type 0
IsName p = (p ≢ []) × (p ≢ dot) × (p ≢ dotdot) × Lacks slash p

-- The absolute path of a list of names.
abbrev pub rooted : List Text → Text
rooted ps = render true ps

go_up-IsName : (stack : List Text) → All IsName stack → All IsName (go_up true stack)
unfolding go_up
go_up-IsName [] h = tt
go_up-IsName (top ∷ stack) (h, hs) = ground (arith, ==_iff top dotdot)

resolve-IsName :
    (stack : List Text) (p : Text)
    → All IsName stack
    → Lacks slash p
    → All IsName (resolve true stack p)
unfolding resolve
resolve-IsName stack p h k =
    ground (arith, ==_iff p [], ==_iff p dot, ==_iff p dotdot, go_up-IsName stack h)

resolve_all-IsName :
    (stack ps : List Text)
    → All IsName stack
    → All (Lacks slash) ps
    → All IsName (resolve_all true stack ps)
unfolding resolve_all
resolve_all-IsName stack [] h _ = All-reverse IsName stack h
resolve_all-IsName stack (p ∷ ps) h (k, ks) =
    resolve_all-IsName (resolve true stack p) ps (resolve-IsName stack p h k) ks

pub resolve_of_IsName :
    (b : Bool) (stack : List Text) (p : Text) → IsName p → resolve b stack p ≡ p ∷ stack
unfolding resolve
resolve_of_IsName b stack p h = ground (arith, ==_iff p [], ==_iff p dot, ==_iff p dotdot)

resolve_all_of_IsName :
    (b : Bool) (stack ps : List Text) → All IsName ps → resolve_all b stack ps ≡ reverse stack ++ ps
unfolding resolve_all
resolve_all_of_IsName b stack [] _ = sym (append-nil _)
resolve_all_of_IsName b stack (p ∷ ps) (h, hs) = rw (
  resolve_of_IsName b stack p h,
  resolve_all_of_IsName b (p ∷ stack) ps hs,
  reverse-cons,
  append_assoc,
)

All-IsName-Lacks : (ps : List Text) → All IsName ps → All (Lacks slash) ps
All-IsName-Lacks [] h = tt
All-IsName-Lacks (p ∷ ps) (h, hs) = (h.3, All-IsName-Lacks ps hs)

-- A cleaned absolute path is a slash and names.
clean-rooted :
    (p : Text) → is_abs p ≡ true → (ps : List Text) × (clean p ≡ rooted ps) × All IsName ps
unfolding clean
clean-rooted p h = (
  resolve_all true [] (split slash p),
  rw h,
  resolve_all-IsName [] (split slash p) tt (split-Lacks slash p),
)

split-slash : (ps : List Text) → split slash (rooted ps) ≡ [] ∷ split slash (join slash ps)
unfolding render
split-slash ps = split-append slash [] (join slash ps) tt

resolve_all_empty : (ps : List Text) → resolve_all true [] ([] ∷ ps) ≡ resolve_all true [] ps
unfolding resolve_all resolve ◌==◌
resolve_all_empty ps = refl

split-rooted : (ps : List Text) → All IsName ps → resolve_all true [] (split slash (rooted ps)) ≡ ps
split-rooted [] h = unfold resolve_all resolve split render join ◌==◌ in refl
split-rooted (p ∷ ps) h =
    rw (split-slash (p ∷ ps), split-join slash p ps (All-IsName-Lacks (p ∷ ps) h))
      (rw resolve_all_empty (resolve_all_of_IsName true [] (p ∷ ps) h))

pub is_abs-rooted : (ps : List Text) → is_abs (rooted ps) ≡ true
unfolding is_abs render has_prefix
is_abs-rooted ps = refl

-- Cleaning such a path again changes nothing.
pub clean_of_rooted : (ps : List Text) → All IsName ps → clean (rooted ps) ≡ rooted ps
unfolding clean
clean_of_rooted ps h = rw (is_abs-rooted ps, split-rooted ps h)

join-ne-nil : (p : Text) (ps : List Text) → p ≢ [] → join slash (p ∷ ps) ≢ []
unfolding join
join-ne-nil p [] h = h
join-ne-nil [] (q ∷ ps) h = absurd (h refl)
join-ne-nil (c ∷ p) (q ∷ ps) h = cc

parts_of_slash : (s : Text) → s ≢ [] → parts (slash ∷ s) ≡ split slash s
unfolding parts
parts_of_slash [] h = absurd (h refl)
parts_of_slash (c ∷ s) h = refl

-- The parts of such a path are its names.
pub parts-rooted : (ps : List Text) → All IsName ps → parts (rooted ps) ≡ ps
unfolding render
parts-rooted [] h = unfold parts join in refl
parts-rooted (p ∷ ps) (h, hs) =
    rw (parts_of_slash _ (join-ne-nil p ps h.0))
      (split-join slash p ps (All-IsName-Lacks (p ∷ ps) (h, hs)))

is_abs-append : (a b : Text) → is_abs a ≡ true → is_abs (a ++ b) ≡ true
unfolding is_abs has_prefix
is_abs-append [] b h = cc
is_abs-append (c ∷ a) b h = ground arith

not_abs_empty : ¬ (is_abs [] ≡ true)
unfolding is_abs has_prefix
not_abs_empty h = cc

-- Joining to an absolute path gives a slash and names.
pub path_join-rooted :
    (a b : Text) → is_abs a ≡ true → (ps : List Text) × (path_join a b ≡ rooted ps) × All IsName ps
unfolding path_join
path_join-rooted [] b h = absurd (not_abs_empty h)
path_join-rooted (c ∷ a) b h =
    clean-rooted ((c ∷ a) ++ slash ∷ b) (is_abs-append (c ∷ a) (slash ∷ b) h)

-- With an absolute working directory, `abs` gives a slash and names.
pub abs-rooted :
    (wd : Option Text) (p : Text) {q : Text}
    → ((w : Text) → wd ≡ some w → is_abs w ≡ true)
    → abs wd p ≡ ok q
    → (ps : List Text) × (q ≡ rooted ps) × All IsName ps
unfolding abs
abs-rooted none p {q} h e = elim (Bool-cases (is_abs p)) [
  | inl yes_abs ↦ let (ps, same, names) = clean-rooted p yes_abs in (ps, ground arith, names)
  | inr not_abs ↦ absurd (ground arith)
]
abs-rooted (some wd) p {q} h e = elim (Bool-cases (is_abs p)) [
  | inl yes_abs ↦ let (ps, same, names) = clean-rooted p yes_abs in (ps, ground arith, names)
  | inr not_abs ↦
      let (ps, same, names) = path_join-rooted wd p (h wd refl) in (ps, ground arith, names)
]

-- `abs` leaves such a path as it is.
pub abs_of_rooted :
    (wd : Option Text) (ps : List Text) → All IsName ps → abs wd (rooted ps) ≡ ok (rooted ps)
unfolding abs
abs_of_rooted none ps h = rw (is_abs-rooted ps, clean_of_rooted ps h)
abs_of_rooted (some wd) ps h = rw (is_abs-rooted ps, clean_of_rooted ps h)

pub rooted-injective :
    (ps qs : List Text) → All IsName ps → All IsName qs → rooted ps ≡ rooted qs → ps ≡ qs
rooted-injective ps qs hp hq e = sym (parts-rooted ps hp) ∙ ap parts e ∙ parts-rooted qs hq
