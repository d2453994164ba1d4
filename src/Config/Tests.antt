-- ===== src/Config/Tests.antt =====
-- Concrete configuration files.
use haru_quant_cbot.Config.Reload.{reload_hot-replaces_all}
use haru_quant_cbot.Prelude.Dict.{lookup, Dict}
use haru_quant_cbot.Config.Sequences.{reload_hot-refused_forever, loading, run}
use haru_quant_cbot.Prelude.Text.{split_on, text_beq, str, Text}
use haru_quant_cbot.Config.Merge.{deep_merge-overlay_wins, leaves_alone, find, IsDict}
use haru_quant_cbot.Prelude.{
  List, coded, map, ◌++◌, raise, refl, [], if◌then◌else◌, ◌∷◌, true, ◌≡◌, false, Result, none, some,
  Option, ok,
}
use haru_quant_cbot.Config.Plain.{is_plain}
use haru_quant_cbot.Config.{
  no_fields, scalar, deep_merge, text, table, get_field, field, Value, Fields,
}
use haru_quant_cbot.Config.Manager.{
  Notice, object_at, value_beq, read_key, missing, is_whitelisted, parsed, get_config, update_keys,
  env_name, after_load, load, read_config, reload_now, TomlFile, reload_hot, World, ConfigManager,
  AppConfig,
}
use haru_quant_cbot.Config.Placeholders.{
  secret_char, env_rest, env_first, span, closed_name, strip_prefix, match_at, replace_from,
  put_secrets, find_secrets, sub_env, resolve_text, resolve_value,
}

abbrev base : Fields
base =
    field (str "ui")
      (table (field (str "theme") (text (str "dark")) (field (str "size") (scalar 3) no_fields)))
      (field (str "name") (text (str "hqt")) no_fields)

abbrev overlay : Fields
overlay = field (str "ui") (table (field (str "theme") (text (str "light")) no_fields)) no_fields

overlay-IsDict : IsDict overlay
unfolding IsDict get_field
overlay-IsDict = (refl, (refl, tt, tt), tt)

theme_in_overlay : find (str "ui" ∷ str "theme" ∷ []) (table overlay) ≡ some (text (str "light"))
unfolding find get_field text_beq
theme_in_overlay = refl

size_in_base : find (str "ui" ∷ str "size" ∷ []) (table base) ≡ some (scalar 3)
unfolding find get_field text_beq
size_in_base = refl

size_left_alone : leaves_alone (str "ui" ∷ str "size" ∷ []) (some (table overlay)) ≡ true
unfolding leaves_alone get_field text_beq
size_left_alone = refl

deep_merge-overlay_wins_example :
    find (str "ui" ∷ str "theme" ∷ []) (table (deep_merge base overlay)) ≡ some (text (str "light"))
deep_merge-overlay_wins_example =
    deep_merge-overlay_wins (str "ui" ∷ str "theme" ∷ []) base overlay (text (str "light"))
      overlay-IsDict refl theme_in_overlay

abbrev environ : Text → Option Text
environ name = if text_beq name (str "USER") then some (str "ann") else none

abbrev secret : Text → Result (Option Text)
secret key = ok (if text_beq key (str "db.pw") then some (str "x1") else none)

-- The environment, and a secret that stands twice.
resolved :
    resolve_text environ secret (str "${env:USER}:${secret:db.pw}/${secret:db.pw}${env:none}")
    ≡ ok (str "ann:x1/x1${env:none}")
unfolding resolve_text sub_env find_secrets put_secrets replace_from match_at strip_prefix
    closed_name span env_first env_rest secret_char text_beq
resolved = refl

-- A secret that is not there.
unresolved : resolve_text environ secret (str "${secret:k}") ≡ raise (coded 5)
unfolding resolve_text sub_env find_secrets put_secrets replace_from match_at strip_prefix
    closed_name span env_first env_rest secret_char text_beq
unresolved = refl

base-is_plain : is_plain (table base) ≡ true
unfolding is_plain
base-is_plain = refl

-- A validation that keeps the tables of the first level as sections.
abbrev section_fields : Fields → Dict Text Value
section_fields no_fields = []
section_fields (field k v fs) = (k, v) ∷ section_fields fs

abbrev section_of : Text → Value → Dict Text (Dict Text Value)
section_of k (table fs) = (k, section_fields fs) ∷ []
section_of k v = []

abbrev sections_of : Fields → Dict Text (Dict Text Value)
sections_of no_fields = []
sections_of (field k v fs) = section_of k v ++ sections_of fs

abbrev toml_files : Text → TomlFile
toml_files path = if text_beq path (str "base.toml") then parsed base else missing

abbrev world : World
world = record {
  toml = toml_files;
  environ = environ;
  secret = secret;
  validated = λ fs. ok (record { sections = sections_of fs; is_frozen = false });
}

-- A manager with the configuration of an earlier file, and one callback.
abbrev old_config : AppConfig
old_config = record {
  sections = (str "ui", (str "theme", text (str "blue")) ∷ (str "size", scalar 9) ∷ []) ∷ [];
  is_frozen = false;
}

abbrev loaded : ConfigManager
loaded = record {
  config = some 0;
  objects = old_config ∷ [];
  frozen = false;
  reload_callbacks = 5 ∷ [];
}

abbrev new_config : AppConfig
new_config = record { sections = sections_of base; is_frozen = false }

abbrev notices : List Notice
notices = (5, some new_config) ∷ []

-- Asked for the theme only, `reload_hot` changes the size too.
reloads : (reload_hot world (some (str "ui.theme" ∷ [])) loaded).1 ≡ ok notices
unfolding reload_hot reload_now after_load update_keys load read_config deep_merge resolve_value
    resolve_text is_whitelisted split_on read_key value_beq object_at text_beq lookup sub_env
    find_secrets put_secrets match_at strip_prefix
reloads = refl

reload_hot-replaces_all_example :
    (c : AppConfig) × (read_config world (env_name (world.environ (str "HQT_ENV"))) ≡ ok c)
    × ((reload_hot world (some (str "ui.theme" ∷ [])) loaded).0
        ≡ (load world (env_name (world.environ (str "HQT_ENV"))) false loaded).0)
    × (get_config (reload_hot world (some (str "ui.theme" ∷ [])) loaded).0 ≡ ok c)
    × (notices ≡ map (λ callback. (callback, some c)) (5 ∷ []))
reload_hot-replaces_all_example =
    reload_hot-replaces_all world (some (str "ui.theme" ∷ [])) loaded notices reloads

reload_hot-refused_forever_example :
    reload_hot world none
      (run world (loading (str "development") false ∷ []) (record loaded { frozen = true }))
    ≡ (
      run world (loading (str "development") false ∷ []) (record loaded { frozen = true }),
      raise (coded 7),
    )
reload_hot-refused_forever_example =
    reload_hot-refused_forever world (loading (str "development") false ∷ []) none
      (record loaded { frozen = true }) (refl, (0, refl))
