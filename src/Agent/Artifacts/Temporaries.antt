-- ===== src/Agent/Artifacts/Temporaries.antt =====
-- The temporary files of artifact transfers.
use ex_gocd.Base.{
  ℕ, suc, ◌-◌, ◌≡◌, refl, ap, ◌∙◌, Bool, true, false, [], ◌∷◌, ◌++◌, All, arith, Result, ok, err,
  if◌then◌else◌,
}
use ex_gocd.Text.{Text}
use ex_gocd.Config.{Config}
use ex_gocd.Agent.{
  Fault, os_error, Effect, called, Trace, OsCall, make_temp_zip, remove_temp_zip, Host, Agent, Act,
  ◌>>=◌, ◌>>◌, return, os_call,
}
use ex_gocd.Agent.Growth.{Adds}
use ex_gocd.Agent.Artifacts.{then_remove, or_remove, remove_on_error}
use ex_gocd.Agent.Trust.Calls.{IsPlain}

-- How many temporary files were made, by the host's answers, and then not removed; `os.Remove` may
-- fail, which counts as a removal.
abbrev pub left_over : Host → Trace → ℕ
left_over h [] = 0
left_over h (called make_temp_zip ∷ t) =
    let before = left_over h t in if h.os t make_temp_zip then suc before else before
left_over h (called remove_temp_zip ∷ t) = left_over h t - 1
left_over h (_ ∷ t) = left_over h t

abbrev pub IsApart : Effect → Type 0
IsApart (called make_temp_zip) = ⊥
IsApart (called remove_temp_zip) = ⊥
IsApart _ = Unit

pub plain-IsApart : (o : OsCall) → IsPlain o → IsApart (called o)
plain-IsApart make_temp_zip q = absurd q
plain-IsApart remove_temp_zip q = absurd q
plain-IsApart _ q = tt

apart_lem :
    (h : Host) (new old : Trace) → All IsApart new → left_over h (new ++ old) ≡ left_over h old
apart_lem h [] old q = refl
apart_lem h (called make_temp_zip ∷ new) old (q, qs) = absurd q
apart_lem h (called remove_temp_zip ∷ new) old (q, qs) = absurd q
apart_lem h (_ ∷ new) old (q, qs) = apart_lem h new old qs

abbrev pub left_by : Host → Agent → ℕ
left_by h a = left_over h a.trace

-- The action leaves as many temporary files as there were.
abbrev pub Keeps : Host → {A : Type 0} → Act A → Type 0
Keeps h m = (a : Agent) → left_by h (m a).1 ≡ left_by h a

abbrev pub IsMadeBy : {A : Type 0} → Result Fault A → ℕ → ℕ → Type 0
IsMadeBy (ok x) before after = after ≡ suc before
IsMadeBy (err e) before after = after ≡ before

abbrev pub IsGuardedBy : {A : Type 0} → Result Fault A → ℕ → ℕ → Type 0
IsGuardedBy (ok x) before after = after ≡ before
IsGuardedBy (err e) before after = after ≡ before - 1

module _ (h : Host) where
  pub Adds-Keeps : {A : Type 0} (m : Act A) → ((c : Config) → Adds c IsApart m) → Keeps h m
  Adds-Keeps m g a =
      let grows = g a.config a refl in
      ap (λ (x : Agent). left_by h x) grows.grown ∙ apart_lem h grows.added a.trace grows.hold

  pub Keeps-bind :
      {A B : Type 0} (m : Act A) (f : A → Act B)
      → Keeps h m
      → ((x : A) → Keeps h (f x))
      → Keeps h (m >>= f)
  unfolding ◌>>=◌
  Keeps-bind {A} {B} m f g k a = go (m a).0
    where
      go :
          (r : Result Fault A)
          → left_by h
              (elim r as (λ _. Result Fault B × Agent) [
                | ok x ↦ f x (m a).1
                | err e ↦ (err e, (m a).1)
              ]).1
            ≡ left_by h a
      go (ok x) = k x (m a).1 ∙ g a
      go (err e) = g a

  pub then_remove_lem :
      (m : Act (Unit {0})) (a : Agent)
      → Keeps h m
      → left_by h (then_remove h m a).1 ≡ left_by h a - 1
  unfolding then_remove os_call
  then_remove_lem m a k = ap (λ n. n - 1) (k a)

  -- What making one comes to, by the host's answer.
  made_lem :
      (a : Agent) (b : Bool)
      → h.os a.trace make_temp_zip ≡ b
      → left_by h (os_call h make_temp_zip a).1 ≡ (if b then suc (left_by h a) else left_by h a)
  unfolding os_call
  made_lem a b e = ap (λ c. if c then suc (left_by h a) else left_by h a) e

  -- A temporary file made is removed by what follows, if that removes one.
  pub made_and_removed :
      {A : Type 0} (k : Act A)
      → ((a : Agent) → left_by h (k a).1 ≡ left_by h a - 1)
      → Keeps h (os_call h make_temp_zip >> k)
  unfolding ◌>>=◌ os_call
  made_and_removed {A} k g a = go (h.os a.trace make_temp_zip) refl
    where
      made : Agent
      made = (os_call h make_temp_zip a).1

      go :
          (b : Bool)
          → h.os a.trace make_temp_zip ≡ b
          → left_by h
              (elim (elim b as (λ _. Result Fault (Unit {0})) [
                | true ↦ ok tt
                | false ↦ err os_error
              ])
                as (λ _. Result Fault A × Agent) [ ok x ↦ k made | err e ↦ (err e, made) ]).1
            ≡ left_by h a
      go true e = g made ∙ ap (λ n. n - 1) (made_lem a true e) ∙ omega arith
      go false e = made_lem a false e

  -- On success one more is left, and else none.
  abbrev pub IsMade : {A : Type 0} → Act A → Type 0
  IsMade m = (a : Agent) → IsMadeBy (m a).0 (left_by h a) (left_by h (m a).1)

  -- On success none is removed, and else one.
  abbrev pub IsGuarded : {A : Type 0} → Act A → Type 0
  IsGuarded m = (a : Agent) → IsGuardedBy (m a).0 (left_by h a) (left_by h (m a).1)

  pub or_remove-IsGuarded : (m : Act (Unit {0})) → Keeps h m → IsGuarded (or_remove h m)
  unfolding or_remove remove_on_error os_call
  or_remove-IsGuarded m k a = go (m a).0
    where
      go :
          (r : Result Fault (Unit {0}))
          → IsGuardedBy r (left_by h a) (left_by h (remove_on_error h r (m a).1))
      go (ok x) = k a
      go (err e) = ap (λ n. n - 1) (k a)

  pub named-IsGuarded :
      (m : Act (Unit {0})) (name : Text) → IsGuarded m → IsGuarded (m >> return name)
  unfolding ◌>>=◌ return
  named-IsGuarded m name g a = go (m a).0 (g a)
    where
      go :
          (r : Result Fault (Unit {0}))
          → IsGuardedBy r (left_by h a) (left_by h (m a).1)
          → let p = elim r as (λ _. Result Fault Text × Agent) [
            | ok x ↦ (ok name, (m a).1)
            | err e ↦ (err e, (m a).1)
          ] in
            IsGuardedBy p.0 (left_by h a) (left_by h p.1)
      go (ok x) f = f
      go (err e) f = f

  pub guarded-IsMade : (k : Act Text) → IsGuarded k → IsMade (os_call h make_temp_zip >> k)
  unfolding ◌>>=◌ os_call
  guarded-IsMade k g a = go (h.os a.trace make_temp_zip) refl
    where
      made : Agent
      made = (os_call h make_temp_zip a).1

      behind :
          (r : Result Fault Text) (n : ℕ)
          → left_by h made ≡ suc (left_by h a)
          → IsGuardedBy r (left_by h made) n
          → IsMadeBy r (left_by h a) n
      behind (ok x) n e f = f ∙ e
      behind (err x) n e f = f ∙ ap (λ n. n - 1) e ∙ omega arith

      go :
          (b : Bool)
          → h.os a.trace make_temp_zip ≡ b
          → let p =
              elim (elim b as (λ _. Result Fault (Unit {0})) [
                | true ↦ ok tt
                | false ↦ err os_error
              ])
                as (λ _. Result Fault Text × Agent) [ ok x ↦ k made | err e ↦ (err e, made) ] in
            IsMadeBy p.0 (left_by h a) (left_by h p.1)
      go true e = behind (k made).0 _ (made_lem a true e) (g made)
      go false e = made_lem a false e

  pub behind-IsMade : (m : Act (Unit {0})) (k : Act Text) → Keeps h m → IsMade k → IsMade (m >> k)
  unfolding ◌>>=◌
  behind-IsMade m k keeps g a = go (m a).0
    where
      onward :
          (r : Result Fault Text) (n : ℕ)
          → IsMadeBy r (left_by h (m a).1) n
          → IsMadeBy r (left_by h a) n
      onward (ok x) n f = f ∙ ap suc (keeps a)
      onward (err x) n f = f ∙ keeps a

      go :
          (r : Result Fault (Unit {0}))
          → let p = elim r as (λ _. Result Fault Text × Agent) [
            | ok x ↦ k (m a).1
            | err e ↦ (err e, (m a).1)
          ] in
            IsMadeBy p.0 (left_by h a) (left_by h p.1)
      go (ok x) = onward (k (m a).1).0 _ (g (m a).1)
      go (err e) = keeps a

  pub made-Keeps :
      (m : Act Text) (f : Text → Act (Unit {0}))
      → IsMade m
      → ((x : Text) (a : Agent) → left_by h (f x a).1 ≡ left_by h a - 1)
      → Keeps h (m >>= f)
  unfolding ◌>>=◌
  made-Keeps m f g k a = go (m a).0 (g a)
    where
      go :
          (r : Result Fault Text)
          → IsMadeBy r (left_by h a) (left_by h (m a).1)
          → left_by h
              (elim r as (λ _. Result Fault (Unit {0}) × Agent) [
                | ok x ↦ f x (m a).1
                | err e ↦ (err e, (m a).1)
              ]).1
            ≡ left_by h a
      go (ok x) e = k x (m a).1 ∙ ap (λ n. n - 1) e ∙ omega arith
      go (err x) e = e
