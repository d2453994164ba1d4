-- ===== src/Config/Manager.antt =====
-- The class `ConfigManager` of src/hqt/foundation/config/manager.py. Configurations are objects that
-- the manager and its callers share, so they stand in a heap. The files, the environment, the
-- secrets and the validation by Pydantic are parameters.
use haru_quant_cbot.Config.Placeholders.{resolve_fields}
use haru_quant_cbot.Prelude.Text.{split_on, text_beq, text_eq, str, Text}
use haru_quant_cbot.Prelude.{
  ◌&&◌, true, value_error, zero, map, not, ◌||◌, nat_beq, suc, length, if◌then◌else◌, false, coded,
  raise, ◌∷◌, some, any_of, ok, ◌>>=◌, [], ◌++◌, ℕ, Bool, none, Result, Error, List, Option,
}
use haru_quant_cbot.Prelude.Dict.{insert, lookup, Dict}
use haru_quant_cbot.Config.{
  Items, text, scalar, array, table, item, field, deep_merge, Fields, Value, no_items, no_fields,
}

-- Equality of values, `==` in the source.
unfoldable mutual
  pub value_beq : Value → Value → Bool
  value_beq (text a) (text b) = text_beq a b
  value_beq (scalar m) (scalar n) = nat_beq m n
  value_beq (array a) (array b) = items_beq a b
  value_beq (table a) (table b) = fields_beq a b
  value_beq a b = false

  pub items_beq : Items → Items → Bool
  items_beq no_items no_items = true
  items_beq (item v vs) (item w ws) = value_beq v w && items_beq vs ws
  items_beq vs ws = false

  pub fields_beq : Fields → Fields → Bool
  fields_beq no_fields no_fields = true
  fields_beq (field j v fs) (field k w gs) = text_beq j k && value_beq v w && fields_beq fs gs
  fields_beq fs gs = false

-- An `AppConfig`: its sections with their fields.
pub record AppConfig : Type 0 where
  pub sections : Dict Text (Dict Text Value)
  pub is_frozen : Bool

-- What opening and parsing a TOML file comes to.
pub data TomlFile : Type 0 where
  missing : TomlFile
  broken : Error → TomlFile
  parsed : Fields → TomlFile

pub record World : Type 0 where
  pub toml : Text → TomlFile
  pub environ : Text → Option Text
  pub secret : Text → Result (Option Text)
  pub validated : Fields → Result AppConfig

-- The manager, with the heap; `config` is the place of its object. Callbacks have numbers.
pub record ConfigManager : Type 0 where
  pub config : Option ℕ
  pub objects : List AppConfig
  pub frozen : Bool
  pub reload_callbacks : List ℕ

unfoldable pub init_manager : ConfigManager
init_manager = record { config = none; objects = []; frozen = false; reload_callbacks = [] }

-- The object at a place of the heap.
unfoldable pub object_at : ℕ → List AppConfig → Option AppConfig
object_at n [] = none
object_at zero (c ∷ cs) = some c
object_at (suc n) (c ∷ cs) = object_at n cs

unfoldable pub change_at : (AppConfig → AppConfig) → ℕ → List AppConfig → List AppConfig
change_at f n [] = []
change_at f zero (c ∷ cs) = f c ∷ cs
change_at f (suc n) (c ∷ cs) = c ∷ change_at f n cs

module _ (w : World) where
  -- The two files, merged.
  abbrev pub overlaid : Fields → TomlFile → Result Fields
  overlaid base missing = ok base
  overlaid base (broken e) = raise (coded 3)
  overlaid base (parsed overlay) = ok (deep_merge base overlay)

  abbrev pub read_files : TomlFile → TomlFile → Result Fields
  read_files missing overlay = raise (coded 1)
  read_files (broken e) overlay = raise (coded 2)
  read_files (parsed base) overlay = overlaid base overlay

  abbrev pub validation_error : Result AppConfig → Result AppConfig
  validation_error (ok c) = ok c
  validation_error (raise e) = raise (coded 4)

  -- The new object of `load`, before it is frozen.
  unfoldable pub read_config : Text → Result AppConfig
  read_config env = do
    merged ← read_files (w.toml (str "base.toml")) (w.toml (env ++ str ".toml"))
    resolved ← resolve_fields w.environ w.secret merged
    validation_error (w.validated resolved)

  -- `self.config = ...`, and `freeze`.
  abbrev pub stored : Bool → ConfigManager → AppConfig → ConfigManager
  stored freeze s c = record s {
    config = some (length s.objects);
    objects = s.objects ++ (record c { is_frozen = freeze || c.is_frozen }) ∷ [];
    frozen = freeze || s.frozen;
  }

  -- The manager, and the place of the object that is returned.
  unfoldable pub load : Text → Bool → ConfigManager → ConfigManager × Result ℕ
  unfolding read_config
  load env freeze s = elim (read_config env) [
    | raise e ↦ (s, raise e)
    | ok c ↦ (stored freeze s c, ok (length s.objects))
  ]

-- `HOT_RELOAD_WHITELIST`
abbrev pub hot_reload_whitelist : List Text
hot_reload_whitelist =
    str "logging.level"
    ∷ str "logging.console_level"
    ∷ str "logging.file_level"
    ∷ str "ui.theme"
    ∷ str "ui.chart_update_interval_ms"
    ∷ str "notifications.enabled"
    ∷ str "risk.max_positions"
    ∷ str "risk.max_daily_trades"
    ∷ []

unfoldable pub is_whitelisted : Text → Bool
is_whitelisted key = any_of (text_beq key) hot_reload_whitelist

-- `getattr(getattr(config, section), field)`, where it is there.
unfoldable pub read_key : Text → Text → Option AppConfig → Option Value
read_key section name none = none
read_key section name (some c) = elim (lookup section c.sections) [
  | none ↦ none
  | some fields ↦ lookup name fields
]

-- `setattr(getattr(config, section), field, value)`
unfoldable pub write_key : Text → Text → Value → AppConfig → AppConfig
write_key section name value c = elim (lookup section c.sections) [
  | none ↦ c
  | some fields ↦ record c { sections = insert section (insert name value fields) c.sections }
]

-- The object of `self.config`.
abbrev pub own_object : ConfigManager → Option AppConfig
own_object s = elim s.config [ none ↦ none | some place ↦ object_at place s.objects ]

abbrev pub on_own : (AppConfig → AppConfig) → ConfigManager → ConfigManager
on_own f s = elim s.config [
  | none ↦ s
  | some place ↦ record s { objects = change_at f place s.objects }
]

-- `if old_value != new_value: setattr(...)`. Pydantic gives all configurations the same fields, so a
-- field of the new one is there in the old one.
abbrev pub assigned : Text → Text → Option Value → Option Value → ConfigManager → ConfigManager
assigned section name old none s = s
assigned section name none (some new) s = s
assigned section name (some old) (some new) s =
    if not (value_beq old new) then on_own (write_key section name new) s else s

-- A round of the loop over the keys, with the place of `new_config`.
abbrev pub update_parts : ℕ → List Text → ConfigManager → ConfigManager
update_parts new_config (section ∷ name ∷ []) s =
    assigned section name (read_key section name (own_object s))
      (read_key section name (object_at new_config s.objects)) s
update_parts new_config parts s = s

unfoldable pub update_keys : ℕ → List Text → ConfigManager → ConfigManager
update_keys new_config [] s = s
update_keys new_config (key ∷ keys) s =
    update_keys new_config keys (update_parts new_config (split_on b'.' key) s)

-- A call of a callback, with the object it is given.
abbrev pub Notice : Type 0
Notice = ℕ × Option AppConfig

-- The variable HQT_ENV, or else the development environment.
abbrev pub env_name : Option Text → Text
env_name none = str "development"
env_name (some env) = env

-- The loop and the callbacks, after `load` in `reload_hot`.
unfoldable pub after_load :
    List Text → ConfigManager × Result ℕ → ConfigManager × Result (List Notice)
unfolding update_keys
after_load keys (s, raise e) = (s, raise e)
after_load keys (s, ok new_config) =
    let s' = update_keys new_config keys s in
    (s', ok (map (λ callback. (callback, own_object s')) s'.reload_callbacks))

-- The check of the keys.
abbrev pub allowed_keys : Option (List Text) → Result (List Text)
allowed_keys none = ok hot_reload_whitelist
allowed_keys (some keys) =
    if any_of (λ key. not (is_whitelisted key)) keys then raise value_error else ok keys

module _ (w : World) where
  unfoldable pub reload_now : List Text → ConfigManager → ConfigManager × Result (List Notice)
  unfolding load
  reload_now keys s = after_load keys (load w (env_name (w.environ (str "HQT_ENV"))) false s)

  unfoldable pub reload_hot :
      Option (List Text) → ConfigManager → ConfigManager × Result (List Notice)
  unfolding reload_now
  reload_hot keys s = elim s.config [
    | none ↦ (s, raise (coded 6))
    | some place ↦
        if s.frozen
        then (s, raise (coded 7))
        else elim (allowed_keys keys) [ raise e ↦ (s, raise e) | ok allowed ↦ reload_now allowed s ]
  ]

unfoldable pub register_reload_callback : ℕ → ConfigManager → ConfigManager
register_reload_callback callback s = record s {
  reload_callbacks = s.reload_callbacks ++ callback ∷ [];
}

-- `list.remove`
unfoldable pub remove_first : ℕ → List ℕ → List ℕ
remove_first callback [] = []
remove_first callback (c ∷ cs) = if nat_beq c callback then cs else c ∷ remove_first callback cs

unfoldable pub unregister_reload_callback : ℕ → ConfigManager → ConfigManager
unfolding remove_first
unregister_reload_callback callback s = record s {
  reload_callbacks = remove_first callback s.reload_callbacks;
}

unfoldable pub get_config : ConfigManager → Result AppConfig
get_config s = elim (own_object s) [ none ↦ raise (coded 8) | some c ↦ ok c ]
