-- ===== src/Config/Load.antt =====
-- What a loaded configuration holds.
use ex_gocd.Base.{
  ◌≡◌, ◌≢◌, refl, ◌⊎◌, inl, inr, true, false, Option, none, some, List, [], ◌∷◌, ◌++◌, arith,
  Result-cases, ok, err, All,
}
use ex_gocd.Text.{Text, codes}
use ex_gocd.Text.Laws.{==_iff}
use ex_gocd.FilePath.{path_join}
use ex_gocd.Config.{
  Url, LoadError, Config, Environment, Address, first_usable, detect_ip_address, default_of,
  loopback, get_env_with_legacy_fallback, load, ip_or_loopback,
}

-- The value of a setting: what viper gives, if that is neither empty nor the default; else the legacy
-- variable if that is not empty; else what viper gives.
pub get_env_with_legacy_fallback_cases :
    (viper getenv : Text → Text) (key legacy : Text)
    → let result = get_env_with_legacy_fallback viper getenv key legacy in
      ((viper key ≢ []) × (viper key ≢ default_of key) × (result ≡ viper key))
      ⊎ (((viper key ≡ []) ⊎ (viper key ≡ default_of key))
          × (((getenv legacy ≢ []) × (result ≡ getenv legacy))
              ⊎ ((getenv legacy ≡ []) × (result ≡ viper key))))
unfolding get_env_with_legacy_fallback
get_env_with_legacy_fallback_cases viper getenv key legacy =
    ground
      (arith, ==_iff (viper key) [], ==_iff (viper key) (default_of key), ==_iff (getenv legacy) [])

-- What makes the address of an interface unfit: its kind, a loopback address, or no IPv4 address.
abbrev pub IsUnfit : Address → Type 0
IsUnfit a = (a.is_ip_net ≡ false) ⊎ (a.is_loopback ≡ true) ⊎ (a.is_v4 ≡ false)

-- The address chosen is the first IPv4 address of an IP network that is no loopback, whatever stands
-- behind it, and the loopback address if there is none.
pub first_usable_lem :
    (before after : List Address) (a : Address)
    → All IsUnfit before
    → (a.is_ip_net ≡ true
        → a.is_loopback ≡ false
        → a.is_v4 ≡ true
        → first_usable (before ++ a ∷ after) ≡ a.shown)
      × (first_usable before ≡ loopback)
unfolding first_usable
first_usable_lem [] after a h = ground arith
first_usable_lem (b ∷ before) after a (h, hs) = ground (arith, first_usable_lem before after a hs)

abbrev pub setting : Environment → Text → Text → Text
setting env key legacy = get_env_with_legacy_fallback env.viper_string env.getenv key legacy

abbrev pub chosen_work_dir : Environment → Text
chosen_work_dir env = setting env (codes "work.dir") (codes "GOCD_AGENT_WORK_DIR")

-- What a loaded configuration says of the surroundings.
pub record IsLoaded (env : Environment) (c : Config) : Type 0 where
  pub parsed :
      env.parse_url (setting env (codes "server.url") (codes "GOCD_SERVER_URL")) ≡ some c.server_url
  pub same_dir : c.working_dir ≡ c.work_dir
  pub chosen : c.work_dir ≡ chosen_work_dir env
  pub config_below : c.config_dir ≡ path_join c.work_dir (codes "config")
  pub work_dir_made : env.can_make_dir c.work_dir ≡ true
  pub config_dir_made : env.can_make_dir c.config_dir ≡ true
  pub auto_key :
      c.auto_register_key ≡ setting env (codes "auto.register.key") (codes "GOCD_AUTO_REGISTER_KEY")
  pub all_resources :
      c.resources
      ≡ setting env (codes "auto.register.resources") (codes "GOCD_AUTO_REGISTER_RESOURCES")
  pub all_environments :
      c.environments
      ≡ setting env (codes "auto.register.environments") (codes "GOCD_AUTO_REGISTER_ENVIRONMENTS")
  pub elastic_agent : c.elastic_agent_id ≡ env.viper_string (codes "auto.register.elastic.agent.id")
  pub elastic_plugin :
      c.elastic_plugin_id ≡ env.viper_string (codes "auto.register.elastic.plugin.id")
  pub insecure : c.insecure_skip_verify ≡ env.viper_bool (codes "insecure.skip.verify")
  pub heartbeat : c.heartbeat_interval ≡ env.viper_duration (codes "heartbeat.interval")
  pub work_poll : c.work_poll_interval ≡ env.viper_duration (codes "work.poll.interval")
  pub named : env.hostname ≡ some c.hostname
  pub addressed :
      (env.addresses ≡ none → c.ip_address ≡ loopback)
      × ((l : List Address) → env.addresses ≡ some l → c.ip_address ≡ first_usable l)

address_of :
    (env : Environment) (c : Config)
    → load env ≡ ok c
    → c.ip_address ≡ ip_or_loopback (detect_ip_address env.addresses)
unfolding load
address_of env c h = ground arith

address_lem :
    (o : Option (List Address))
    → (o ≡ none → ip_or_loopback (detect_ip_address o) ≡ loopback)
      × ((l : List Address) → o ≡ some l → ip_or_loopback (detect_ip_address o) ≡ first_usable l)
unfolding detect_ip_address
address_lem none = (λ e. refl, λ l e. cc)
address_lem (some k) = (λ e. cc, λ l e. cc)

-- A loaded configuration holds the parsed server URL, the chosen work directory with the directory
-- "config" below it, both made, the host's name, and the first usable address or else loopback.
pub load-IsLoaded : (env : Environment) (c : Config) → load env ≡ ok c → IsLoaded env c
unfolding load
load-IsLoaded env c h = record {
  parsed = ground arith;
  same_dir = ground arith;
  chosen = ground arith;
  config_below = ground arith;
  work_dir_made = ground arith;
  config_dir_made = ground arith;
  auto_key = ground arith;
  all_resources = ground arith;
  all_environments = ground arith;
  elastic_agent = ground arith;
  elastic_plugin = ground arith;
  insecure = ground arith;
  heartbeat = ground arith;
  work_poll = ground arith;
  named = ground arith;
  addressed = rw (address_of env c h) (address_lem env.addresses);
}

load-not_err :
    (env : Environment) (e : LoadError) {u : Url} {n : Text}
    → env.parse_url (setting env (codes "server.url") (codes "GOCD_SERVER_URL")) ≡ some u
    → env.can_make_dir (chosen_work_dir env) ≡ true
    → env.can_make_dir (path_join (chosen_work_dir env) (codes "config")) ≡ true
    → env.hostname ≡ some n
    → ¬ (load env ≡ err e)
unfolding load
load-not_err env e p w d n failed = ground arith

-- The configuration is loaded whenever the URL parses, the directories can be made and the host
-- has a name: a failure to list the network addresses is no error.
pub load_total :
    (env : Environment) {u : Url} {n : Text}
    → env.parse_url (setting env (codes "server.url") (codes "GOCD_SERVER_URL")) ≡ some u
    → env.can_make_dir (chosen_work_dir env) ≡ true
    → env.can_make_dir (path_join (chosen_work_dir env) (codes "config")) ≡ true
    → env.hostname ≡ some n
    → (c : Config) × (load env ≡ ok c)
load_total env p w d n = elim (Result-cases (load env)) [
  | inl found ↦ found
  | inr (e, failed) ↦ absurd (load-not_err env e p w d n failed)
]
