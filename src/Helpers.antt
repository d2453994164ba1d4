-- ===== src/Helpers.antt =====
-- The functions of src/hqt/foundation/utils/helpers.py, over the nested dicts of Config and with bytes
-- and files as in Hasher. Hash functions, UUIDs, encodings and the arithmetic of floats are parameters. `deep_merge`
-- is in Config, since the configuration manager has the same function.
mod Tests
pub mod Parts
pub mod Keys
pub mod Flattened
pub mod Walks
pub mod Nested
use haru_quant_cbot.Prelude.Int.{pos}
use haru_quant_cbot.Prelude.{
  true, false, none, some, ◌-◌, file_not_found, type_error, zero, index_error, length, ◌>>=◌,
  value_error, suc, ok, raise, [], nat_beq, ◌++◌, map, Result, if◌then◌else◌, List, Bool, ◌∷◌,
  Option, ℕ,
}
use haru_quant_cbot.Checks.{Numbers}
use haru_quant_cbot.Config.{
  table, text, scalar, array, field, no_fields, set_field, Value, Fields, get_field,
}
use haru_quant_cbot.Prelude.Text.{text_eq, starts_with, str, Text}
use haru_quant_cbot.Hasher.{Disk, Bytes, feed}
use haru_quant_cbot.Prelude.Dict.{Dict, insert}

-- `dict(items)`
unfoldable pub dict_of : Dict Text Value → Dict Text Value → Dict Text Value
unfolding insert
dict_of d [] = d
dict_of d ((k, v) ∷ items) = dict_of (insert k v d) items

-- `f"{parent_key}{sep}{key}" if parent_key else key`
abbrev pub new_key : Text → Text → Text → Text
new_key sep [] key = key
new_key sep (c ∷ parent_key) key = (c ∷ parent_key) ++ (sep ++ key)

-- The list `items` of `flatten_dict`.
unfoldable pub flatten_items : Text → Text → Fields → Dict Text Value
unfolding dict_of
flatten_items sep parent_key no_fields = []
flatten_items sep parent_key (field key (table d) fs) =
    dict_of [] (flatten_items sep (new_key sep parent_key key) d) ++ flatten_items sep parent_key fs
flatten_items sep parent_key (field key value fs) =
    (new_key sep parent_key key, value) ∷ flatten_items sep parent_key fs

unfoldable pub flatten_dict : Fields → Text → Text → Dict Text Value
unfolding dict_of flatten_items
flatten_dict d parent_key sep = dict_of [] (flatten_items sep parent_key d)

abbrev pub in_front : ℕ → List Text → List Text
in_front c [] = (c ∷ []) ∷ []
in_front c (part ∷ parts) = (c ∷ part) ∷ parts

-- `key.split(sep)`, where so many characters still belong to a separator.
unfoldable pub split_from : Text → ℕ → Text → List Text
split_from sep skip [] = [] ∷ []
split_from sep (suc skip) (c ∷ t) = split_from sep skip t
split_from sep zero (c ∷ t) = elim (starts_with (c ∷ t) sep) [
  | true ↦ [] ∷ split_from sep (length sep - 1) t
  | false ↦ in_front c (split_from sep zero t)
]

-- An empty separator is refused.
unfoldable pub split_key : Text → Text → Result (List Text)
unfolding split_from
split_key sep key =
    if nat_beq (length sep) 0 then raise value_error else ok (split_from sep zero key)

-- The walk along the parts and the assignment at their end; a part that is not a dict refuses both.
unfoldable pub set_path : List Text → Value → Fields → Result Fields
unfolding get_field set_field
set_path [] value current = raise index_error
set_path (part ∷ []) value current = ok (set_field part value current)
set_path (part ∷ next ∷ parts) value current = elim (get_field part current) [
  | none ↦ set_path (next ∷ parts) value no_fields >>= (λ d. ok (set_field part (table d) current))
  | some old ↦ elim old [
    | table t ↦ set_path (next ∷ parts) value t >>= (λ d. ok (set_field part (table d) current))
    | text t ↦ raise type_error
    | scalar n ↦ raise type_error
    | array items ↦ raise type_error
  ]
]

-- The loop of `unflatten_dict`, from the result so far.
unfoldable pub unflatten_from : Text → Fields → Dict Text Value → Result Fields
unfolding split_key set_path
unflatten_from sep result [] = ok result
unflatten_from sep result ((key, value) ∷ d) = do
  parts ← split_key sep key
  next ← set_path parts value result
  unflatten_from sep next d

unfoldable pub unflatten_dict : Dict Text Value → Text → Result Fields
unfolding unflatten_from
unflatten_dict d sep = unflatten_from sep no_fields d

-- `generate_uuid`, from the two texts of the new UUID.
unfoldable pub generate_uuid : Text → Text → Text → Bool → Text
generate_uuid hex dashed prefix use_hex = prefix ++ (if use_hex then hex else dashed)

-- The hash functions that `hashlib.new` knows.
unfoldable pub hash_file : (Text → Option (Bytes → Text)) → Disk → Text → Text → ℕ → Result Text
unfolding feed
hash_file new disk file_path algorithm chunk_size =
    if disk.exists file_path
    then (elim (new algorithm) [
      | none ↦ raise value_error
      | some hexdigest ↦
          disk.content file_path
          >>= (λ bytes. ok (hexdigest (feed (suc (length bytes)) chunk_size bytes [])))
    ])
    else raise file_not_found

unfoldable pub hash_string :
    (Text → Option (Bytes → Text)) → (Text → Text → Result Bytes) → Text → Text → Text → Result Text
hash_string new encode t algorithm encoding = elim (new algorithm) [
  | none ↦ raise value_error
  | some hexdigest ↦ encode encoding t >>= (λ bytes. ok (hexdigest bytes))
]

module _ {N : Type 0} (num : Numbers N) (add : N → N → N) where
  -- `max(a, b)` and `min(a, b)`
  abbrev pub max_of : N → N → N
  max_of a b = if num.lt a b then b else a

  abbrev pub min_of : N → N → N
  min_of a b = if num.lt b a then b else a

  unfoldable pub clamp : N → N → N → Result N
  clamp value min_value max_value =
      if num.lt max_value min_value
      then raise value_error
      else ok (max_of min_value (min_of value max_value))

  unfoldable pub safe_divide : N → N → N → N
  safe_divide numerator denominator default =
      if num.is_zero denominator then default else num.div numerator denominator

  unfoldable pub lerp : N → N → N → N
  lerp a b t = add a (num.mul (num.sub b a) t)

  unfoldable pub normalize : N → N → N → Result N
  normalize value min_value max_value =
      if num.le max_value min_value
      then raise value_error
      else ok (num.div (num.sub value min_value) (num.sub max_value min_value))

  unfoldable pub denormalize : N → N → N → N
  denormalize normalized min_value max_value =
      add min_value (num.mul normalized (num.sub max_value min_value))

  -- The loop over the units: the number that is shown, and its unit.
  unfoldable pub unit_for : N → List Text → N → N × Text
  unit_for divisor [] x = (x, str "Yi")
  unit_for divisor (unit ∷ units) x =
      let later = unit_for divisor units (num.div x divisor) in
      if num.lt (num.absolute x) divisor then (x, unit) else later

  -- `sizeof_fmt`; `shown` is the format with one decimal.
  unfoldable pub sizeof_fmt : (N → Text) → N → Text → Bool → Text
  unfolding unit_for
  sizeof_fmt shown x suffix binary =
      let units =
        if binary
        then map str ("" ∷ "Ki" ∷ "Mi" ∷ "Gi" ∷ "Ti" ∷ "Pi" ∷ "Ei" ∷ "Zi" ∷ [])
        else map str ("" ∷ "K" ∷ "M" ∷ "G" ∷ "T" ∷ "P" ∷ "E" ∷ "Z" ∷ []) in
      let divisor = num.of_int (pos (if binary then 1024 else 1000)) in
      let found = unit_for divisor units x in shown found.0 ++ b' ' ∷ (found.1 ++ suffix)
