-- ===== src/Config/Viper.antt =====
-- `setupViper` of agent/internal/config/config.go: the names of the environment's variables and the
-- defaults that viper is told, and what comes of them in `getEnvWithLegacyFallback`.
use ex_gocd.Base.{
  ℤ, pos, ◌*◌, ◌-◌, ◌≡◌, ◌≢◌, refl, sym, ◌∙◌, subst, ◌⊎◌, inl, inr, Bool, true, false, ◌||◌, ◌&&◌,
  some, List, [], ◌∷◌, ◌++◌, map, arith, eqb, leb, if◌then◌else◌, ok,
}
use ex_gocd.Text.{Text, codes, ◌==◌}
use ex_gocd.Text.Laws.{==_iff}
use ex_gocd.FilePath.{path_join}
use ex_gocd.Config.{Config, Environment, load, default_of, get_env_with_legacy_fallback}
use ex_gocd.Config.Load.{setting, load-IsLoaded}

abbrev pub env_prefix : Text
env_prefix = codes "AGENT"

-- The key replacer: a dot and a dash become an underscore.
unfoldable pub env_key_replacer : Text → Text
env_key_replacer key = map (λ b. if eqb b b'.' || eqb b b'-' then b'_' else b) key

pub data Value : Type 0 where
  text : Text → Value
  flag : Bool → Value
  nanoseconds : ℤ → Value

-- `SetDefault`.
abbrev pub viper_defaults : List (Text × Value)
viper_defaults =
    (codes "server.url", text (codes "http://localhost:8153/go"))
    ∷ (codes "insecure.skip.verify", flag false)
    ∷ (codes "work.dir", text (codes "./work"))
    ∷ (codes "heartbeat.interval", nanoseconds (pos (10 * 1000000000)))
    ∷ (codes "work.poll.interval", nanoseconds (pos (5 * 1000000000)))
    ∷ (codes "auto.register.key", text [])
    ∷ (codes "auto.register.resources", text [])
    ∷ (codes "auto.register.environments", text [])
    ∷ (codes "auto.register.elastic.agent.id", text [])
    ∷ (codes "auto.register.elastic.plugin.id", text [])
    ∷ []

-- The texts among the defaults.
abbrev pub Defaulted : (Text → Text → Type 0) → List (Text × Value) → Type 0
Defaulted P [] = Unit
Defaulted P ((key, text t) ∷ rest) = P key t × Defaulted P rest
Defaulted P (_ ∷ rest) = Defaulted P rest

-- The variable of a key; `variable` is viper's name for a prefix and a replaced key.
abbrev pub env_name : (Text → Text → Text) → Text → Text
env_name variable key = variable env_prefix (env_key_replacer key)

-- `strings.ToUpper` of ASCII text.
unfoldable pub upper : Text → Text
upper t = map (λ b. if leb b'a' b && leb b b'z' then b - 32 else b) t

-- What viper is documented to do: the variable of a key has the prefix, an underscore and the
-- replaced key, in capitals; a key has the value of its variable unless that is empty, else its
-- default.
pub record IsViper (variable : Text → Text → Text) (env : Environment) : Type 0 where
  pub named : (prefix key : Text) → variable prefix key ≡ upper (prefix ++ b'_' ∷ key)
  pub from_env :
      (key : Text)
      → env.getenv (env_name variable key) ≢ []
      → env.viper_string key ≡ env.getenv (env_name variable key)
  pub from_defaults :
      Defaulted
        (λ key t. env.getenv (env_name variable key) ≡ [] → env.viper_string key ≡ t)
        viper_defaults

-- The own variable counts if it says more than the default; else the legacy one counts unless it is
-- empty; else the default does.
abbrev pub IsResolved : (Text → Text) → Text → Text → Text → Text → Type 0
IsResolved getenv own legacy default result =
    ((getenv own ≢ []) × (getenv own ≢ default) × (result ≡ getenv own))
    ⊎ (((getenv own ≡ []) ⊎ (getenv own ≡ default))
        × (((getenv legacy ≢ []) × (result ≡ getenv legacy))
            ⊎ ((getenv legacy ≡ []) × (result ≡ default))))

-- The own variable counts unless it is empty.
abbrev pub IsOwn : (Text → Text) → Text → Text → Type 0
IsOwn getenv own result =
    ((getenv own ≢ []) × (result ≡ getenv own)) ⊎ ((getenv own ≡ []) × (result ≡ []))

-- Where each text of a configuration comes from.
pub record IsConfigured (env : Environment) (c : Config) : Type 0 where
  pub server :
      (t : Text) × IsResolved env.getenv
        (codes "AGENT_SERVER_URL")
        (codes "GOCD_SERVER_URL")
        (codes "http://localhost:8153/go")
        t
      × (env.parse_url t ≡ some c.server_url)
  pub work :
      IsResolved env.getenv
        (codes "AGENT_WORK_DIR")
        (codes "GOCD_AGENT_WORK_DIR")
        (codes "./work")
        c.work_dir
  pub working : c.working_dir ≡ c.work_dir
  pub config_below : c.config_dir ≡ path_join c.work_dir (codes "config")
  pub auto_key :
      IsResolved env.getenv
        (codes "AGENT_AUTO_REGISTER_KEY")
        (codes "GOCD_AUTO_REGISTER_KEY")
        []
        c.auto_register_key
  pub all_resources :
      IsResolved env.getenv
        (codes "AGENT_AUTO_REGISTER_RESOURCES")
        (codes "GOCD_AUTO_REGISTER_RESOURCES")
        []
        c.resources
  pub all_environments :
      IsResolved env.getenv
        (codes "AGENT_AUTO_REGISTER_ENVIRONMENTS")
        (codes "GOCD_AUTO_REGISTER_ENVIRONMENTS")
        []
        c.environments
  pub elastic_agent :
      IsOwn env.getenv (codes "AGENT_AUTO_REGISTER_ELASTIC_AGENT_ID") c.elastic_agent_id
  pub elastic_plugin :
      IsOwn env.getenv (codes "AGENT_AUTO_REGISTER_ELASTIC_PLUGIN_ID") c.elastic_plugin_id

-- The choice, with the own, the legacy and the default text, and what viper gives.
choose :
    (o l d v : Text)
    → (o ≢ [] → v ≡ o)
    → (o ≡ [] → v ≡ d)
    → let result = if (v == []) || (v == d) then if l == [] then v else l else v in
      ((o ≢ []) × (o ≢ d) × (result ≡ o))
      ⊎ (((o ≡ []) ⊎ (o ≡ d)) × (((l ≢ []) × (result ≡ l)) ⊎ ((l ≡ []) × (result ≡ d))))
choose o l d v own default = go (o == []) (o == d) refl refl
  where
    result : Text
    result = if (v == []) || (v == d) then if l == [] then v else l else v

    go :
        (a b : Bool)
        → (o == []) ≡ a
        → (o == d) ≡ b
        → ((o ≢ []) × (o ≢ d) × (result ≡ o))
          ⊎ (((o ≡ []) ⊎ (o ≡ d)) × (((l ≢ []) × (result ≡ l)) ⊎ ((l ≡ []) × (result ≡ d))))
    go true b e f = ground (arith, ==_iff o [], ==_iff v [], ==_iff v d, ==_iff l [], own, default)
    go false true e f = ground (arith, ==_iff o [], ==_iff o d, ==_iff v d, ==_iff l [])
    go false false e f = ground (arith, ==_iff o [], ==_iff o d, ==_iff v [], ==_iff v d)

module _ (variable : Text → Text → Text) (env : Environment) (v : IsViper variable env) where
  setting-IsResolved :
      (key legacy own default : Text)
      → env_name variable key ≡ own
      → default_of key ≡ default
      → (env.getenv (env_name variable key) ≡ [] → env.viper_string key ≡ default)
      → IsResolved env.getenv own legacy default (setting env key legacy)
  unfolding get_env_with_legacy_fallback
  setting-IsResolved key legacy own default name same given =
      subst (λ n. IsResolved env.getenv n legacy default (setting env key legacy)) name
        (subst
          (λ d. IsResolved env.getenv (env_name variable key) legacy d (setting env key legacy))
          same
          (choose (env.getenv (env_name variable key)) (env.getenv legacy) (default_of key)
            (env.viper_string key) (v.from_env key) (λ e. given e ∙ sym same)))

  viper_string-IsOwn :
      (key own : Text)
      → env_name variable key ≡ own
      → (env.getenv (env_name variable key) ≡ [] → env.viper_string key ≡ [])
      → IsOwn env.getenv own (env.viper_string key)
  viper_string-IsOwn key own name given =
      subst (λ n. IsOwn env.getenv n (env.viper_string key)) name
        (elim (decided (env.getenv (env_name variable key))) [
          | inl e ↦ inr (e, given e)
          | inr n ↦ inl (n, v.from_env key n)
        ])
    where
      decided : (t : Text) → (t ≡ []) ⊎ (t ≢ [])
      decided [] = inl refl
      decided (b ∷ t) = inr (λ e. cc)

  -- With viper as documented, each text of a loaded configuration comes from the variable that its
  -- name says. The server's URL, the work directory, the registration key, the resources and the
  -- environments come from the variable AGENT_… if that is neither empty nor the default, else from
  -- the variable GOCD_… if that is not empty, else they are the default; the elastic ids come from
  -- their variable AGENT_….
  pub load-IsConfigured : (c : Config) → load env ≡ ok c → IsConfigured env c
  unfolding default_of env_key_replacer upper ◌==◌
  load-IsConfigured c h =
      let (server, (work, (key, (resources, (environments, (agent_id, (plugin_id, _))))))) =
        v.from_defaults in
      let l = load-IsLoaded env c h in
      record {
        server = (
          setting env (codes "server.url") (codes "GOCD_SERVER_URL"),
          (setting-IsResolved (codes "server.url") (codes "GOCD_SERVER_URL")
              (codes "AGENT_SERVER_URL") (codes "http://localhost:8153/go")
              (v.named (codes "AGENT") (env_key_replacer (codes "server.url"))) refl server),
          l.parsed,
        );
        work =
            subst
              (λ t.
                IsResolved env.getenv (codes "AGENT_WORK_DIR") (codes "GOCD_AGENT_WORK_DIR")
                  (codes "./work") t)
              (sym l.chosen)
              (setting-IsResolved (codes "work.dir") (codes "GOCD_AGENT_WORK_DIR")
                (codes "AGENT_WORK_DIR") (codes "./work")
                (v.named (codes "AGENT") (env_key_replacer (codes "work.dir"))) refl work);
        working = l.same_dir;
        config_below = l.config_below;
        auto_key =
            subst
              (λ t.
                IsResolved env.getenv (codes "AGENT_AUTO_REGISTER_KEY")
                  (codes "GOCD_AUTO_REGISTER_KEY") [] t)
              (sym l.auto_key)
              (setting-IsResolved (codes "auto.register.key") (codes "GOCD_AUTO_REGISTER_KEY")
                (codes "AGENT_AUTO_REGISTER_KEY") []
                (v.named (codes "AGENT") (env_key_replacer (codes "auto.register.key"))) refl key);
        all_resources =
            subst
              (λ t.
                IsResolved env.getenv (codes "AGENT_AUTO_REGISTER_RESOURCES")
                  (codes "GOCD_AUTO_REGISTER_RESOURCES") [] t)
              (sym l.all_resources)
              (setting-IsResolved (codes "auto.register.resources")
                (codes "GOCD_AUTO_REGISTER_RESOURCES") (codes "AGENT_AUTO_REGISTER_RESOURCES") []
                (v.named (codes "AGENT") (env_key_replacer (codes "auto.register.resources"))) refl
                resources);
        all_environments =
            subst
              (λ t.
                IsResolved env.getenv (codes "AGENT_AUTO_REGISTER_ENVIRONMENTS")
                  (codes "GOCD_AUTO_REGISTER_ENVIRONMENTS") [] t)
              (sym l.all_environments)
              (setting-IsResolved (codes "auto.register.environments")
                (codes "GOCD_AUTO_REGISTER_ENVIRONMENTS") (codes "AGENT_AUTO_REGISTER_ENVIRONMENTS")
                [] (v.named (codes "AGENT") (env_key_replacer (codes "auto.register.environments")))
                refl environments);
        elastic_agent =
            subst (λ t. IsOwn env.getenv (codes "AGENT_AUTO_REGISTER_ELASTIC_AGENT_ID") t)
              (sym l.elastic_agent)
              (viper_string-IsOwn (codes "auto.register.elastic.agent.id")
                (codes "AGENT_AUTO_REGISTER_ELASTIC_AGENT_ID")
                (v.named (codes "AGENT")
                  (env_key_replacer (codes "auto.register.elastic.agent.id")))
                agent_id);
        elastic_plugin =
            subst (λ t. IsOwn env.getenv (codes "AGENT_AUTO_REGISTER_ELASTIC_PLUGIN_ID") t)
              (sym l.elastic_plugin)
              (viper_string-IsOwn (codes "auto.register.elastic.plugin.id")
                (codes "AGENT_AUTO_REGISTER_ELASTIC_PLUGIN_ID")
                (v.named (codes "AGENT")
                  (env_key_replacer (codes "auto.register.elastic.plugin.id")))
                plugin_id);
      }
