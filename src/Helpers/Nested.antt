-- ===== src/Helpers/Nested.antt =====
-- `unflatten_dict` after `flatten_dict`, of src/hqt/foundation/utils/helpers.py.
use mathlib.Core.Path.{subst}
use haru_quant_cbot.Helpers.Keys.{under, dict_of-distinct}
use haru_quant_cbot.Config.Merge.{get-set_field}
use haru_quant_cbot.Helpers.Walks.{
  append_fields-nil, first_round, append-set_field, unflatten_new, next_round, append_fields,
}
use haru_quant_cbot.Helpers.Parts.{split_from-key, IsFree}
use haru_quant_cbot.Prelude.Dict.{Dict}
use haru_quant_cbot.Prelude.{
  sym, refl, ◌∙◌, inl, ap, ◌++◌, ◌⊎◌, arith, ok, none, ◌≢◌, [], ◌≡◌, ◌∷◌, ℕ,
}
use haru_quant_cbot.Prelude.Text.{text_beq_iff, Text}
use haru_quant_cbot.Helpers.{
  dict_of, flatten_items, flatten_dict, set_path, unflatten_from, unflatten_dict,
}
use haru_quant_cbot.Config.{
  array, scalar, text, table, set_field, no_fields, field, Value, Fields, get_field,
}
use haru_quant_cbot.Helpers.Flattened.{items-IsDistinct, inside_items, IsFlattenable}

-- Two tables without a common key.
abbrev pub IsApart : Fields → Fields → Type 0
IsApart current d = (j : Text) → (get_field j current ≡ none) ⊎ (get_field j d ≡ none)

IsApart-nothing : (d : Fields) → IsApart no_fields d
unfolding get_field
IsApart-nothing d j = inl refl

absent_first :
    (k : Text) (v : Value) (fs current : Fields)
    → IsApart current (field k v fs)
    → get_field k current ≡ none
unfolding get_field
absent_first k v fs current h = ground (arith, h k, text_beq_iff k k)

IsApart-after :
    (k : Text) (v : Value) (fs current : Fields)
    → get_field k fs ≡ none
    → IsApart current (field k v fs)
    → IsApart (set_field k v current) fs
unfolding get_field
IsApart-after k v fs current n h j =
    ground (arith, get-set_field k j v current, text_beq_iff k j, n, h j)

unflatten-append :
    (s : ℕ) (current new : Fields) (d e : Dict Text Value)
    → unflatten_from (s ∷ []) current d ≡ ok new
    → unflatten_from (s ∷ []) current (d ++ e) ≡ unflatten_from (s ∷ []) new e
unfolding unflatten_from
unflatten-append s current new [] e h =
    let same : current ≡ new = cc in ap (λ x. unflatten_from (s ∷ []) x e) same
unflatten-append s current new ((q, v) ∷ d) e h =
    let (next, walked, later) = first_round s q v d current new h in
    next_round s q v (d ++ e) current next walked ∙ unflatten-append s next new d e later

under_some : (s : ℕ) (k : Text) (d e : Dict Text Value) → d ≢ [] → under s k d ++ e ≢ []
under_some s k [] e h = absurd (h refl)
under_some s k ((q, v) ∷ d) e h = λ q. cc

-- A table that is not empty has items.
items_some :
    (s : ℕ) (d : Fields) → IsFlattenable s d → d ≢ no_fields → flatten_items (s ∷ []) [] d ≢ []
unfolding IsFlattenable flatten_items
items_some s no_fields w h = absurd (h refl)
items_some s (field k (table t) fs) (named, _, _, n, w, v) h =
    let items = flatten_items (s ∷ []) [] t in
    subst (λ x. x ++ flatten_items (s ∷ []) [] fs ≢ []) (sym (inside_items s k t w named))
      (under_some s k items (flatten_items (s ∷ []) [] fs) (items_some s t w n))
items_some s (field k (text x) fs) w h = λ e. cc
items_some s (field k (scalar x) fs) w h = λ e. cc
items_some s (field k (array x) fs) w h = λ e. cc

leaf_round :
    (s : ℕ) (k : Text) (v : Value) (fs current : Fields)
    → IsFree s k
    → get_field k fs ≡ none
    → IsApart current (field k v fs)
    → (IsApart (set_field k v current) fs
        → unflatten_from (s ∷ []) (set_field k v current) (flatten_items (s ∷ []) [] fs)
          ≡ ok (append_fields (set_field k v current) fs))
    → unflatten_from (s ∷ []) current ((k, v) ∷ flatten_items (s ∷ []) [] fs)
      ≡ ok (append_fields current (field k v fs))
unfolding set_path
leaf_round s k v fs current f n h later =
    next_round s k v (flatten_items (s ∷ []) [] fs) current (set_field k v current)
      (ap (λ x. set_path x v current) (split_from-key s k f))
    ∙ (later (IsApart-after k v fs current n h)
        ∙ ap ok (append-set_field k v current fs (absent_first k v fs current h)))

nested_from :
    (s : ℕ) (d current : Fields)
    → IsFlattenable s d
    → IsApart current d
    → unflatten_from (s ∷ []) current (flatten_items (s ∷ []) [] d) ≡ ok (append_fields current d)
unfolding IsFlattenable flatten_items unflatten_from
nested_from s no_fields current w h = ap ok (sym (append_fields-nil current))
nested_from s (field k (table t) fs) current (named, f, n, some_fields, w, v) h =
    let items = flatten_items (s ∷ []) [] t in
    let made : unflatten_from (s ∷ []) no_fields items ≡ ok t =
      nested_from s t no_fields w (IsApart-nothing t) in
    let first =
      ap (unflatten_from (s ∷ []) current) (inside_items s k t w named)
      ∙ unflatten_new s k items t current f (items_some s t w some_fields)
          (absent_first k (table t) fs current h) made in
    unflatten-append s current (set_field k (table t) current)
      (dict_of [] (flatten_items (s ∷ []) k t)) (flatten_items (s ∷ []) [] fs) first
    ∙ (nested_from s fs (set_field k (table t) current) v (IsApart-after k (table t) fs current n h)
        ∙ ap ok (append-set_field k (table t) current fs (absent_first k (table t) fs current h)))
nested_from s (field k (text x) fs) current (f, n, w) h =
    leaf_round s k (text x) fs current f n h (nested_from s fs (set_field k (text x) current) w)
nested_from s (field k (scalar x) fs) current (f, n, w) h =
    leaf_round s k (scalar x) fs current f n h (nested_from s fs (set_field k (scalar x) current) w)
nested_from s (field k (array x) fs) current (f, n, w) h =
    leaf_round s k (array x) fs current f n h (nested_from s fs (set_field k (array x) current) w)

-- For a separator of one character and a nested dict whose keys do not hold it, no key of which stands
-- twice, and whose tables inside have names and are not empty, `unflatten_dict` gives the dict back from
-- what `flatten_dict` makes of it, its order included.
pub unflatten_dict-flatten_dict :
    (s : ℕ) (d : Fields)
    → IsFlattenable s d
    → unflatten_dict (flatten_dict d [] (s ∷ [])) (s ∷ []) ≡ ok d
unfolding unflatten_dict flatten_dict
unflatten_dict-flatten_dict s d w =
    ap (unflatten_from (s ∷ []) no_fields)
      (dict_of-distinct [] (flatten_items (s ∷ []) [] d) (items-IsDistinct s d w))
    ∙ nested_from s d no_fields w (IsApart-nothing d)
