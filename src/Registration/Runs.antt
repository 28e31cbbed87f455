-- ===== src/Registration/Runs.antt =====
-- What the success of a task says of the tasks that it consists of.
use ex_gocd.Base.{◌≡◌, refl, ap, Option, none, some, Result, ok, err, ok-injective, sym, subst}
use ex_gocd.Text.{Text}
use ex_gocd.Registration.{Desk, Task, ◌>>=◌, give, wrapped, wrap, read_file, found}

-- The task succeeds.
abbrev pub Runs : {A : Type 0} → Task A → Desk → A → Desk → Type 0
Runs m s x t = m s ≡ (ok x, t)

pub Runs-bind :
    {A B : Type 0} (m : Task A) (f : A → Task B) {s u : Desk} {y : B}
    → Runs (m >>= f) s y u
    → (x : A) × (t : Desk) × Runs m s x t × Runs (f x) t y u
unfolding ◌>>=◌
Runs-bind {A} {B} m f {s} {u} {y} e = go (m s).0 refl e
  where
    go :
        (r : Result Text A)
        → (m s).0 ≡ r
        → elim r as (λ _. Result Text B × Desk) [ ok x ↦ f x (m s).1 | err e ↦ (err e, (m s).1) ]
          ≡ (ok y, u)
        → (x : A) × (t : Desk) × Runs m s x t × Runs (f x) t y u
    go (ok x) at e = (x, (m s).1, ap (λ r. (r, (m s).1)) at, e)
    go (err x) at e = cc

pub Runs-give :
    {A : Type 0} (r : Result Text A) {s t : Desk} {x : A}
    → Runs (give r) s x t
    → (r ≡ ok x) × (s ≡ t)
unfolding give
Runs-give r e = (ap (λ p. p.0) e, ap (λ p. p.1) e)

pub Runs-wrapped :
    {A : Type 0} (what : Text) (m : Task A) {s t : Desk} {x : A}
    → Runs (wrapped what m) s x t
    → Runs m s x t
unfolding wrapped
Runs-wrapped {A} what m {s} {t} {x} e = go (m s).0 refl (ap (λ p. p.0) e)
  where
    go : (r : Result Text A) → (m s).0 ≡ r → wrap what r ≡ ok x → Runs m s x t
    go (ok y) at f = cc
    go (err y) at f = cc

-- If the task succeeds on the desk, it changes nothing and the result is as told.
abbrev pub Reads : {A : Type 0} → Desk → Task A → (A → Type 0) → Type 0
Reads {A} d m F = (t : Desk) (x : A) → Runs m d x t → (d ≡ t) × F x

module _ (d : Desk) where
  pub Reads-bind :
      {A B : Type 0} {F : A → Type 0} {G : B → Type 0} (m : Task A) (f : A → Task B)
      → Reads d m F
      → ((x : A) → F x → Reads d (f x) G)
      → Reads d (m >>= f) G
  Reads-bind {A} {B} {F} {G} m f g k u y e = go (Runs-bind m f e)
    where
      go : (x : A) × (t : Desk) × Runs m d x t × Runs (f x) t y u → (d ≡ u) × G y
      go (x, t, first, rest) = after x t (g t x first) rest
        where
          after : (x : A) (t : Desk) → (d ≡ t) × F x → Runs (f x) t y u → (d ≡ u) × G y
          after x t (same, fact) rest = k x fact u y (subst (λ s. Runs (f x) s y u) (sym same) rest)

  pub Reads-wrapped :
      {A : Type 0} {F : A → Type 0} (what : Text) (m : Task A)
      → Reads d m F
      → Reads d (wrapped what m) F
  Reads-wrapped what m g t x e = g t x (Runs-wrapped what m e)

  pub Reads-give : {A : Type 0} (r : Result Text A) → Reads d (give r) (λ x. r ≡ ok x)
  Reads-give r t x e = ((Runs-give r e).1, (Runs-give r e).0)

  pub Reads-return : {A : Type 0} (G : A → Type 0) (x : A) → G x → Reads d (give (ok x)) G
  Reads-return G x g t y e =
      ((Runs-give (ok x) e).1, subst G (ok-injective (Runs-give (ok x) e).0) g)

  pub Reads-read_file : (path : Text) → Reads d (read_file path) (λ x. d.files path ≡ some x)
  unfolding read_file
  Reads-read_file path t x e = (ap (λ p. p.1) e, go (d.files path) (ap (λ p. p.0) e))
    where
      go : (o : Option Text) → found path o ≡ ok x → o ≡ some x
      go none e = cc
      go (some y) e = cc
