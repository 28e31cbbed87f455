-- ===== src/Text/Laws.antt =====
-- Laws of the string functions: equality, prefixes, and `split` against `join`.
use ex_gocd.Base.{ℕ, ◌≡◌, refl, ap, subst, ◌≢◌, ◌↔◌, true, false, List, [], ◌∷◌, ◌++◌, arith, All}
use ex_gocd.Text.{Text, ◌==◌, has_prefix, split, join, grow}

==→eq : (s t : Text) → (s == t) ≡ true → s ≡ t
unfolding ◌==◌
==→eq [] [] h = refl
==→eq [] (d ∷ t) h = cc
==→eq (c ∷ s) [] h = cc
==→eq (c ∷ s) (d ∷ t) h = ground (arith, ==→eq s t)

pub ==_refl : (s : Text) → (s == s) ≡ true
unfolding ◌==◌
==_refl [] = refl
==_refl (c ∷ s) = ground (arith, ==_refl s)

pub ==_iff : (s t : Text) → ((s == t) ≡ true) ↔ (s ≡ t)
==_iff s t = (==→eq s t, λ e. subst (λ u. (s == u) ≡ true) e (==_refl s))

pub ne→== : (s t : Text) → s ≢ t → (s == t) ≡ false
ne→== s t h = ground (arith, ==→eq s t)

pub has_prefix-append : (t u : Text) → has_prefix (t ++ u) t ≡ true
unfolding has_prefix
has_prefix-append [] [] = refl
has_prefix-append [] (d ∷ u) = refl
has_prefix-append (c ∷ t) u = ground (arith, has_prefix-append t u)

pub has_prefix→append : (s t : Text) → has_prefix s t ≡ true → (u : Text) × (s ≡ t ++ u)
unfolding has_prefix
has_prefix→append s [] h = (s, refl)
has_prefix→append [] (d ∷ t) h = cc
has_prefix→append (c ∷ s) (d ∷ t) h =
    let (u, e) = has_prefix→append s t (ground arith) in (u, ground arith)

abbrev pub Lacks : ℕ → Text → Type 0
Lacks sep s = All (λ c. c ≢ sep) s

grow-Lacks :
    (sep c : ℕ) (ps : List Text) → c ≢ sep → All (Lacks sep) ps → All (Lacks sep) (grow c ps)
grow-Lacks sep c [] hc h = ((hc, tt), tt)
grow-Lacks sep c (p ∷ ps) hc (hp, h) = ((hc, hp), h)

pub split-Lacks : (sep : ℕ) (s : Text) → All (Lacks sep) (split sep s)
unfolding split
split-Lacks sep [] = (tt, tt)
split-Lacks sep (c ∷ s) = ground (arith, split-Lacks sep s, grow-Lacks sep c (split sep s))

pub split_of_Lacks : (sep : ℕ) (p : Text) → Lacks sep p → split sep p ≡ p ∷ []
unfolding split
split_of_Lacks sep [] h = refl
split_of_Lacks sep (c ∷ p) (hc, h) = ground (arith, split_of_Lacks sep p h)

pub split-append : (sep : ℕ) (p s : Text) → Lacks sep p → split sep (p ++ sep ∷ s) ≡ p ∷ split sep s
unfolding split
split-append sep [] s h = ground arith
split-append sep (c ∷ p) s (hc, h) = ground (arith, split-append sep p s h)

-- Splitting a join gives the parts back, if there is a part and none holds the separator.
pub split-join :
    (sep : ℕ) (p : Text) (ps : List Text)
    → All (Lacks sep) (p ∷ ps)
    → split sep (join sep (p ∷ ps)) ≡ p ∷ ps
unfolding join
split-join sep p [] (h, _) = split_of_Lacks sep p h
split-join sep p (q ∷ ps) (h, hs) =
    rw (split-append sep p (join sep (q ∷ ps)) h) (ap (λ r. p ∷ r) (split-join sep q ps hs))
