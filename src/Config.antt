-- ===== src/Config.antt =====
-- The values that configuration files hold, as nested dicts, with `_deep_merge` of
-- src/hqt/foundation/config/manager.py, which `deep_merge` of src/hqt/foundation/utils/helpers.py
-- repeats. Copies that `copy.deepcopy` makes are the values themselves.
pub mod Placeholders
pub mod Manager
pub mod Merge
mod Plain
mod Reload
mod Sequences
mod Tests
use haru_quant_cbot.Prelude.Text.{text_beq, Text}
use haru_quant_cbot.Prelude.{some, if◌then◌else◌, none, Option, ℕ}

-- What TOML gives: a text, another value without structure, an array, or a table.
mutual
  pub data Value : Type 0 where
    text : Text → Value
    scalar : ℕ → Value
    array : Items → Value
    table : Fields → Value

  pub data Items : Type 0 where
    no_items : Items
    item : Value → Items → Items

  -- A dict in insertion order.
  pub data Fields : Type 0 where
    no_fields : Fields
    field : Text → Value → Fields → Fields

unfoldable pub get_field : Text → Fields → Option Value
get_field k no_fields = none
get_field k (field j v fs) = if text_beq j k then some v else get_field k fs

-- `result[key] = value`
unfoldable pub set_field : Text → Value → Fields → Fields
set_field k v no_fields = field k v no_fields
set_field k v (field j w fs) = if text_beq j k then field j v fs else field j w (set_field k v fs)

-- `_deep_merge`: the loop goes through the overlay, and `base` is `result` so far.
unfoldable mutual
  pub deep_merge : Fields → Fields → Fields
  deep_merge base no_fields = base
  deep_merge base (field k v overlay) =
      deep_merge (set_field k (merged_value (get_field k base) v) base) overlay

  -- What a key of the overlay gets: two tables are merged, else the overlay's value is taken.
  pub merged_value : Option Value → Value → Value
  merged_value (some (table base)) (table overlay) = table (deep_merge base overlay)
  merged_value old v = v
