-- ===== src/Agent/Growth.antt =====
-- Actions that change nothing of the agent but its trace, and what holds of the effects they add.
use ex_gocd.Base.{
  ◌≡◌, refl, sym, ap, ◌∙◌, Bool, true, false, List, [], ◌∷◌, ◌++◌, append_assoc, All, All-append,
  Result, ok, err, if◌then◌else◌,
}
use ex_gocd.Config.{Config}
use ex_gocd.Agent.{
  Fault, Effect, called, requested, Request, OsCall, Host, Agent, Act, ◌>>=◌, ◌>>◌, return, fail,
  ignoring, asks, os_call, do_request, record_effect,
}
use ex_gocd.Agent.Console.{lift, demand}

-- The second agent is the first one with further effects, which all have the property.
pub record Grows (P : Effect → Type 0) (a a' : Agent) : Type 0 where
  pub added : List Effect
  pub grown : a' ≡ record a { trace = added ++ a.trace }
  pub hold : All P added

-- An action that only adds effects with the property to an agent of the given configuration.
abbrev pub Adds : Config → (Effect → Type 0) → {A : Type 0} → Act A → Type 0
Adds c P m = (a : Agent) → a.config ≡ c → Grows P a (m a).1

module _ {P : Effect → Type 0} where
  pub Grows-refl : (a : Agent) → Grows P a a
  Grows-refl a = record { added = []; grown = refl; hold = tt }

  pub Grows-trans : {a b c : Agent} → Grows P a b → Grows P b c → Grows P a c
  Grows-trans {a} {b} {c} g k = record {
    added = k.added ++ g.added;
    grown =
        k.grown
        ∙ ap (λ (x : Agent). record x { trace = k.added ++ x.trace }) g.grown
        ∙ ap (λ t. record a { trace = t }) (sym (append_assoc k.added g.added a.trace));
    hold = All-append P k.added g.added k.hold g.hold;
  }

  pub Grows-effect : (e : Effect) (a : Agent) → P e → Grows P a (record_effect e a)
  Grows-effect e a p = record { added = e ∷ []; grown = refl; hold = (p, tt) }

  pub Grows-config : {a b : Agent} → Grows P a b → b.config ≡ a.config
  Grows-config g = ap (λ (x : Agent). x.config) g.grown

  -- A chain of two actions, the second at the values that the first can give.
  pub Grows-bind :
      {A B : Type 0} (m : Act A) (f : A → Act B) (a : Agent)
      → Grows P a (m a).1
      → ((x : A) → (m a).0 ≡ ok x → Grows P (m a).1 (f x (m a).1).1)
      → Grows P a ((m >>= f) a).1
  unfolding ◌>>=◌
  Grows-bind {A} {B} m f a g k = go (m a).0 k
    where
      go :
          (r : Result Fault A)
          → ((x : A) → r ≡ ok x → Grows P (m a).1 (f x (m a).1).1)
          → Grows P a
              (elim r as (λ _. Result Fault B × Agent) [
                | ok x ↦ f x (m a).1
                | err e ↦ (err e, (m a).1)
              ]).1
      go (ok x) k = Grows-trans g (k x refl)
      go (err e) k = g

module _ {P : Effect → Type 0} {c : Config} where
  pub Adds-bind :
      {A B : Type 0} (m : Act A) (f : A → Act B)
      → Adds c P m
      → ((x : A) → Adds c P (f x))
      → Adds c P (m >>= f)
  Adds-bind m f g k a same =
      Grows-bind m f a (g a same) (λ x e. k x (m a).1 (Grows-config (g a same) ∙ same))

  -- A chain whose second action may use what is known of the first one's value.
  pub Adds-bind_if :
      {A B : Type 0} (Q : A → Type 0) (m : Act A) (f : A → Act B)
      → Adds c P m
      → ((a : Agent) → a.config ≡ c → (x : A) → (m a).0 ≡ ok x → Q x)
      → ((x : A) → Q x → Adds c P (f x))
      → Adds c P (m >>= f)
  Adds-bind_if Q m f g q k a same =
      Grows-bind m f a (g a same)
        (λ x e. k x (q a same x e) (m a).1 (Grows-config (g a same) ∙ same))

  pub Adds-then :
      {A B : Type 0} (m : Act A) (k : Act B) → Adds c P m → Adds c P k → Adds c P (m >> k)
  Adds-then m k g l = Adds-bind m (λ _. k) g (λ _. l)

  pub Adds-lift : {A : Type 0} (r : Result Fault A) → Adds c P (lift r)
  unfolding lift
  Adds-lift r a same = Grows-refl a

  pub Adds-return : {A : Type 0} (x : A) → Adds c P (return x)
  unfolding return
  Adds-return x a same = Grows-refl a

  pub Adds-asks : {A : Type 0} (f : Agent → A) → Adds c P (asks f)
  unfolding asks
  Adds-asks f a same = Grows-refl a

  pub Adds-fail : (A : Type 0) (e : Fault) → Adds c P (fail {A = A} e)
  unfolding fail
  Adds-fail A e a same = Grows-refl a

  pub Adds-demand : (b : Bool) (e : Fault) → Adds c P (demand b e)
  unfolding demand return fail
  Adds-demand true e a same = Grows-refl a
  Adds-demand false e a same = Grows-refl a

  pub Adds-ignoring : {A : Type 0} (m : Act A) → Adds c P m → Adds c P (ignoring m)
  unfolding ignoring
  Adds-ignoring m g = g

  pub Adds-if :
      {A : Type 0} (b : Bool) (m k : Act A)
      → Adds c P m
      → Adds c P k
      → Adds c P (if b then m else k)
  Adds-if true m k g l = g
  Adds-if false m k g l = l

  pub Adds-os_call : (h : Host) (o : OsCall) → P (called o) → Adds c P (os_call h o)
  unfolding os_call
  Adds-os_call h o p a same = Grows-effect (called o) a p

  pub Adds-do_request : (h : Host) (r : Request) → P (requested r) → Adds c P (do_request h r)
  unfolding do_request
  Adds-do_request h r p a same = Grows-effect (requested r) a p
