-- ===== src/Agent/Commands/Export.antt =====
-- The command "export" and the variables that it sets.
use ex_gocd.Base.{◌≡◌, ◌≢◌, refl, ap, ◌∙◌, some, List, [], ◌∷◌, ◌⊎◌, arith, if◌then◌else◌}
use ex_gocd.Text.{Text, ◌==◌}
use ex_gocd.Text.Laws.{==_iff}
use ex_gocd.Protocol.{CommandFields}
use ex_gocd.Agent.Commands.{
  Env, assign, lookup, from_attributes, or_args, or_command, export_command, set_if_named,
}

lookup-assign :
    (k name value : Text) (env : Env)
    → lookup k (assign name value env) ≡ (if name == k then some value else lookup k env)
unfolding lookup assign
lookup-assign k name value [] = refl
lookup-assign k name value ((n, v) ∷ env) =
    ground (arith, ==_iff n name, ==_iff n k, ==_iff name k, lookup-assign k name value env)

-- Which name and value a command exports: those of its attributes; without a name there its first
-- two arguments; without a name there its command, with its first argument.
pub data Exports (cmd : CommandFields) : Text → Text → Type 0 where
  by_attributes :
      (name value : Text) → from_attributes cmd ≡ (name, value) → name ≢ [] → Exports cmd name value
  by_args :
      (name value other : Text) (rest : List Text)
      → from_attributes cmd ≡ ([], other)
      → cmd.args ≡ name ∷ value ∷ rest
      → name ≢ []
      → Exports cmd name value
  by_command :
      (name value other : Text)
      → from_attributes cmd ≡ ([], other)
      → cmd.command ≡ name
      → name ≢ []
      → ((cmd.args ≡ []) × (value ≡ other))
        ⊎ ((cmd.args ≡ value ∷ []))
        ⊎ ((v : Text) × (rest : List Text) × (cmd.args ≡ [] ∷ v ∷ rest) × (value ≡ []))
      → Exports cmd name value

set_if_named_lem :
    (name value : Text) (env : Env)
    → name ≢ []
    → set_if_named (name, value) env ≡ assign name value env
set_if_named_lem [] value env h = absurd (h refl)
set_if_named_lem (c ∷ name) value env h = refl

or_args_found :
    (args : List Text) (name value : Text) → name ≢ [] → or_args args (name, value) ≡ (name, value)
or_args_found args [] value h = absurd (h refl)
or_args_found [] (c ∷ name) value h = refl
or_args_found (a ∷ []) (c ∷ name) value h = refl
or_args_found (a ∷ b ∷ args) (c ∷ name) value h = refl

or_command_found :
    (cmd : Text) (args : List Text) (name value : Text)
    → name ≢ []
    → or_command cmd args (name, value) ≡ (name, value)
or_command_found cmd args [] value h = absurd (h refl)
or_command_found [] args (c ∷ name) value h = refl
or_command_found (d ∷ cmd) [] (c ∷ name) value h = refl
or_command_found (d ∷ cmd) (a ∷ args) (c ∷ name) value h = refl

chosen_of_command :
    (args : List Text) (name value other : Text)
    → name ≢ []
    → ((args ≡ []) × (value ≡ other))
      ⊎ ((args ≡ value ∷ []))
      ⊎ ((v : Text) × (rest : List Text) × (args ≡ [] ∷ v ∷ rest) × (value ≡ []))
    → or_command name args (or_args args ([], other)) ≡ (name, value)
chosen_of_command args [] value other h w = absurd (h refl)
chosen_of_command [] (c ∷ name) value other h w = ground arith
chosen_of_command (a ∷ []) (c ∷ name) value other h w = ground arith
chosen_of_command (a ∷ b ∷ args) (c ∷ name) value other h w = ground arith

chosen-Exports :
    (cmd : CommandFields) {name value : Text}
    → Exports cmd name value
    → (name ≢ [])
      × (or_command cmd.command cmd.args (or_args cmd.args (from_attributes cmd)) ≡ (name, value))
chosen-Exports cmd (by_attributes name value e h) = (
  h,
  cc (e, or_args_found cmd.args name value h, or_command_found cmd.command cmd.args name value h),
)
chosen-Exports cmd (by_args name value other rest e args h) =
    (h, rw (e, args) (or_command_found cmd.command _ name value h))
chosen-Exports cmd (by_command name value other e named h w) =
    (h, cc (e, named, chosen_of_command cmd.args name value other h w))

-- Behind an export the variable has the value given, and every other variable is as before.
pub lookup-export_command :
    (cmd : CommandFields) (env : Env) (k : Text) {name value : Text}
    → Exports cmd name value
    → lookup k (export_command cmd env) ≡ (if name == k then some value else lookup k env)
unfolding export_command
lookup-export_command cmd env k {name} {value} x =
    let (named, chosen) = chosen-Exports cmd x in
    ap (λ p. lookup k (set_if_named p env)) chosen
    ∙ ap (λ e. lookup k e) (set_if_named_lem name value env named)
    ∙ lookup-assign k name value env
