-- ===== src/Agent/Commands/Leaves.antt =====
-- A command tree runs as the plain list of its leaves.
use mathlib.Core.Path.{fun_ext, ap₂}
use ex_gocd.Base.{◌≡◌, refl, sym, ap, ◌∙◌, Option, none, some, List, [], ◌∷◌, ◌++◌, Result, ok, err}
use ex_gocd.Protocol.{
  CommandFields, BuildCommand, none_set, command, BuildCommands, nil, cons, Build,
}
use ex_gocd.Agent.{Fault, panic, Host, Agent, Act, ◌>>=◌, return, fail}
use ex_gocd.Agent.Commands.{Env, run_one_command, execute_command_tree, execute_all}

-- A chain of chains is a chain.
>>=_assoc :
    {A B C : Type 0} (m : Act A) (f : A → Act B) (g : B → Act C)
    → ((m >>= f) >>= g) ≡ (m >>= λ x. f x >>= g)
unfolding ◌>>=◌
>>=_assoc {A} {B} {C} m f g = fun_ext λ a. go (m a).0 (m a).1
  where
    bind_result : {D E : Type 0} → (D → Act E) → Result Fault D → Agent → Result Fault E × Agent
    bind_result k r a = elim r [ ok x ↦ k x a | err e ↦ (err e, a) ]

    go :
        (r : Result Fault A) (a : Agent)
        → bind_result g (bind_result f r a).0 (bind_result f r a).1
          ≡ bind_result (λ x. f x >>= g) r a
    go (ok x) a = refl
    go (err e) a = refl

>>=-return : {A : Type 0} (m : Act A) → (m >>= λ x. return x) ≡ m
unfolding ◌>>=◌ return
>>=-return {A} m = fun_ext λ a. go (m a).0 (m a).1
  where
    go :
        (r : Result Fault A) (a : Agent)
        → ◌≡◌ {A = Result Fault A × Agent} (elim r [ ok x ↦ (ok x, a) | err e ↦ (err e, a) ]) (r, a)
    go (ok x) a = refl
    go (err e) a = refl

return->>= : {A B : Type 0} (x : A) (f : A → Act B) → (return x >>= f) ≡ f x
unfolding ◌>>=◌ return
return->>= x f = refl

fail->>= : {A B : Type 0} (e : Fault) (f : A → Act B) → (fail e >>= f) ≡ fail e
unfolding ◌>>=◌ fail
fail->>= e f = refl

-- The leaves from left to right; `none` is a nil command. What a command with subcommands holds
-- itself is no leaf.
unfoldable mutual
  pub leaves : BuildCommand → List (Option CommandFields)
  leaves none_set = none ∷ []
  leaves (command fields nil on_cancel) = some fields ∷ []
  leaves (command fields (cons sub subs) on_cancel) = leaves sub ++ all_leaves subs

  pub all_leaves : BuildCommands → List (Option CommandFields)
  all_leaves nil = []
  all_leaves (cons sub subs) = leaves sub ++ all_leaves subs

module _ (h : Host) (b : Build) where
  -- Runs one command behind the other, up to the first error.
  pub run_in_order : List (Option CommandFields) → Env → Act Env
  run_in_order [] env = return env
  run_in_order (none ∷ cmds) env = fail panic
  run_in_order (some fields ∷ cmds) env =
      run_one_command h b fields env >>= λ env'. run_in_order cmds env'

  run_in_order-append :
      (xs ys : List (Option CommandFields)) (env : Env)
      → run_in_order (xs ++ ys) env ≡ (run_in_order xs env >>= λ env'. run_in_order ys env')
  unfolding run_in_order
  run_in_order-append [] ys env = sym (return->>= env (run_in_order ys))
  run_in_order-append (none ∷ xs) ys env = sym (fail->>= panic (run_in_order ys))
  run_in_order-append (some f ∷ xs) ys env =
      ap (λ k. run_one_command h b f env >>= k) (fun_ext λ env'. run_in_order-append xs ys env')
      ∙ sym (>>=_assoc (run_one_command h b f env) (run_in_order xs) (run_in_order ys))

  mutual
    unfolding execute_command_tree leaves run_in_order

    tree-eq :
        (cmd : BuildCommand) (env : Env)
        → execute_command_tree h b cmd env ≡ run_in_order (leaves cmd) env
    tree-eq none_set env = refl
    tree-eq (command f nil o) env = sym (>>=-return (run_one_command h b f env))
    tree-eq (command f (cons sub subs) o) env =
        ap₂ (λ m k. m >>= k) (tree-eq sub env) (fun_ext λ env'. all-eq subs env')
        ∙ sym (run_in_order-append (leaves sub) (all_leaves subs) env)

    all-eq :
        (cmds : BuildCommands) (env : Env)
        → execute_all h b cmds env ≡ run_in_order (all_leaves cmds) env
    all-eq nil env = refl
    all-eq (cons sub subs) env =
        ap₂ (λ m k. m >>= k) (tree-eq sub env) (fun_ext λ env'. all-eq subs env')
        ∙ sym (run_in_order-append (leaves sub) (all_leaves subs) env)

-- Executing a command tree is running its leaves from left to right up to the first error, each
-- with the variables exported before it.
pub execute_command_tree-leaves :
    (h : Host) (b : Build) (cmd : BuildCommand) (env : Env)
    → execute_command_tree h b cmd env ≡ run_in_order h b (leaves cmd) env
execute_command_tree-leaves h b cmd env = tree-eq h b cmd env
