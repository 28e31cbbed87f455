-- ===== src/FilePath/Relative.antt =====
-- What `rel` says of two cleaned absolute paths, and when its answer climbs out of the base.
use ex_gocd.Base.{
  ◌≡◌, refl, sym, subst, replicate, length, inl, inr, Bool, true, false, ◌||◌, List, [], ◌∷◌, ◌++◌,
  arith, All, All-append_left, All-append_right, ◌∙◌, append-nil, ok, if◌then◌else◌, Bool-cases,
}
use ex_gocd.Text.{Text, ◌==◌, has_prefix, join}
use ex_gocd.Text.Laws.{==_iff, ==_refl}
use ex_gocd.FilePath.{slash, dot, dotdot, strip, climb, base_parts, rel_clean, rel, render}
use ex_gocd.FilePath.Laws.{
  IsName, rooted, is_abs-rooted, clean_of_rooted, parts-rooted, rooted-injective,
}

-- The answers that lead out of the base: ".." and what begins with "../".
unfoldable pub climbs_out : Text → Bool
unfolding ◌==◌ has_prefix
climbs_out r = (r == dotdot) || has_prefix r (dotdot ++ slash ∷ [])

base_parts-rooted : (bs : List Text) → All IsName bs → base_parts (rooted bs) ≡ bs
unfolding base_parts
base_parts-rooted bs h = rw (rooted-ne-dot bs, parts-rooted bs h)
  where
    rooted-ne-dot : (qs : List Text) → (rooted qs == dot) ≡ false
    rooted-ne-dot qs = unfold ◌==◌ render in refl

rel-rooted :
    (bs ts : List Text)
    → All IsName bs
    → All IsName ts
    → rel (rooted bs) (rooted ts) ≡ (if rooted bs == rooted ts then ok dot else climb (strip bs ts))
unfolding rel rel_clean
rel-rooted bs ts hb ht = rw (
  clean_of_rooted bs hb,
  clean_of_rooted ts ht,
  is_abs-rooted bs,
  is_abs-rooted ts,
  base_parts-rooted bs hb,
  parts-rooted ts ht,
)

strip-append : (bs ts rs : List Text) → strip bs ts ≡ ([], rs) → ts ≡ bs ++ rs
unfolding strip
strip-append [] ts rs h = ground arith
strip-append (b ∷ bs) [] rs h = ground arith
strip-append (b ∷ bs) (t ∷ ts) rs h = ground (arith, ==_iff b t, strip-append bs ts rs)

strip_of_append : (bs rs : List Text) → strip bs (bs ++ rs) ≡ ([], rs)
unfolding strip
strip_of_append [] rs = refl
strip_of_append (b ∷ bs) rs = rw (==_refl b) (strip_of_append bs rs)

strip_left-IsName : (bs ts : List Text) → All IsName bs → All IsName (strip bs ts).0
unfolding strip
strip_left-IsName [] ts h = tt
strip_left-IsName (b ∷ bs) [] h = h
strip_left-IsName (b ∷ bs) (t ∷ ts) (h, hs) = ground (arith, strip_left-IsName bs ts hs)

climbs_out-dotdot : (qs : List Text) → climbs_out (join slash (dotdot ∷ qs)) ≡ true
unfolding climbs_out join
climbs_out-dotdot [] = refl
climbs_out-dotdot (q ∷ qs) = refl

climbs_out_name : (t : Text) → IsName t → climbs_out t ≡ false
unfolding climbs_out
climbs_out_name [] h = absurd (h.0 refl)
climbs_out_name (c ∷ []) h = ground arith
climbs_out_name (c ∷ d ∷ []) h = ground arith
climbs_out_name (c ∷ d ∷ e ∷ t) h = ground arith

climbs_out_names : (t x : Text) → IsName t → climbs_out (t ++ slash ∷ x) ≡ false
unfolding climbs_out
climbs_out_names [] x h = absurd (h.0 refl)
climbs_out_names (c ∷ []) x h = ground arith
climbs_out_names (c ∷ d ∷ []) x h = ground arith
climbs_out_names (c ∷ d ∷ e ∷ t) x h = ground arith

-- Names joined never lead out.
climbs_out-join : (ts : List Text) → All IsName ts → climbs_out (join slash ts) ≡ false
unfolding join
climbs_out-join [] h = unfold climbs_out in refl
climbs_out-join (t ∷ []) (h, _) = climbs_out_name t h
climbs_out-join (t ∷ u ∷ ts) (h, _) = climbs_out_names t (join slash (u ∷ ts)) h

-- If the relative path does not lead out, nothing of the base was left.
climb-stays :
    (st : List Text × List Text) {r : Text} → climb st ≡ ok r → climbs_out r ≡ false → st.0 ≡ []
unfolding climb
climb-stays ([], ts) e h = refl
climb-stays (b ∷ bs, []) e h =
    absurd (ground (arith, climbs_out-dotdot (replicate (length bs) dotdot)))
climb-stays (b ∷ bs, t ∷ ts) e h =
    absurd (ground (arith, climbs_out-dotdot (replicate (length bs) dotdot ++ t ∷ ts)))

-- The relative path stays inside exactly if the names of the base come first in the target.
pub rel-inside :
    (bs ts : List Text) {r : Text}
    → All IsName bs
    → All IsName ts
    → rel (rooted bs) (rooted ts) ≡ ok r
    → climbs_out r ≡ false
    → (rest : List Text) × (ts ≡ bs ++ rest)
rel-inside bs ts {r} hb ht e h = elim (Bool-cases (rooted bs == rooted ts)) [
  | inl same ↦ ([], sym (rooted-injective bs ts hb ht ((==_iff _ _).0 same)) ∙ sym (append-nil bs))
  | inr other ↦
      let climbed : climb (strip bs ts) ≡ ok r =
        subst (λ b. (if b then ok dot else climb (strip bs ts)) ≡ ok r) other
          (sym (rel-rooted bs ts hb ht) ∙ e) in
      let nothing_left : (strip bs ts).0 ≡ [] = climb-stays (strip bs ts) climbed h in
      ((strip bs ts).1, strip-append bs ts (strip bs ts).1 (λ i. (nothing_left i, (strip bs ts).1)))
]

pub rel-append :
    (bs rest : List Text)
    → All IsName (bs ++ rest)
    → (r : Text) × (rel (rooted bs) (rooted (bs ++ rest)) ≡ ok r) × (climbs_out r ≡ false)
rel-append bs rest h = elim (Bool-cases (rooted bs == rooted (bs ++ rest))) [
  | inl same ↦ (
    dot,
    rw (rel-rooted bs (bs ++ rest) (All-append_left IsName bs rest h) h, same),
    unfold climbs_out in refl,
  )
  | inr other ↦ (
    join slash rest,
    rw
        (
          rel-rooted bs (bs ++ rest) (All-append_left IsName bs rest h) h,
          other,
          strip_of_append bs rest,
        )
        (unfold climb in refl),
    climbs_out-join rest (All-append_right IsName bs rest h),
  )
]
