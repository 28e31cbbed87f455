-- ===== src/Agent/Artifacts/Urls.antt =====
-- The URLs that artifacts are uploaded to and downloaded from.
use ex_gocd.Base.{
  ℕ, suc, ◌≡◌, ◌≢◌, refl, Bool, true, false, Option, none, some, [], ◌∷◌, ◌++◌, arith, take,
  Bool-cases, Option-cases, inl, inr, if◌then◌else◌,
}
use mathlib.Core.Option
use ex_gocd.Text.{Text, codes, has_prefix, index}
use ex_gocd.Agent.Artifacts.{get_files_base_url, cut_behind}

abbrev pub files : Text
files = codes "/files"

index_of_front :
    (s front pattern : Text) → has_prefix s (front ++ pattern) ≡ true → index s pattern ≢ none
unfolding index has_prefix
index_of_front [] [] pattern h = ground arith
index_of_front [] (c ∷ front) pattern h = cc
index_of_front (d ∷ s) [] pattern h = ground arith
index_of_front (d ∷ s) (c ∷ front) pattern h =
    later_found (has_prefix (d ∷ s) pattern) (index s pattern)
      (index_of_front s front pattern (ground arith))
  where
    later_found :
        (b : Bool) (o : Option ℕ) → o ≢ none → (if b then some 0 else Option.map suc o) ≢ none
    later_found true o g = cc
    later_found false none g = absurd (g refl)
    later_found false (some i) g = cc

-- A text that lacks a pattern lacks what ends in it.
index_behind : (s front pattern : Text) → index s pattern ≡ none → index s (front ++ pattern) ≡ none
unfolding index
index_behind [] front pattern h = elim (Bool-cases (has_prefix [] (front ++ pattern))) [
  | inl there ↦ absurd (index_of_front [] front pattern there h)
  | inr absent ↦ rw absent
]
index_behind (c ∷ s) front pattern h = elim (Bool-cases (has_prefix (c ∷ s) (front ++ pattern))) [
  | inl there ↦ absurd (index_of_front (c ∷ s) front pattern there h)
  | inr absent ↦ rw (absent, index_behind s front pattern (ground arith))
]

-- Only the first pattern counts, since it is contained in the others: the base is cut behind the
-- first "/files", and a URL without it is left as it is.
pub get_files_base_url_lem :
    (url : Text)
    → get_files_base_url url ≡ elim (index url files) [ some i ↦ take i url ++ files | none ↦ url ]
unfolding get_files_base_url cut_behind
get_files_base_url_lem url = elim (Option-cases (index url files)) [
  | inl absent ↦
      let go : index url (codes "/go/files") ≡ none = index_behind url (codes "/go") files absent in
      let remoting : index url (codes "/remoting/files") ≡ none =
        index_behind url (codes "/remoting") files absent in
      ground arith
  | inr (i, found) ↦ ground arith
]
