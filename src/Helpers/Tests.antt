-- ===== src/Helpers/Tests.antt =====
-- Nested dicts that are flattened and nested again.
use haru_quant_cbot.Helpers.Nested.{unflatten_dict-flatten_dict}
use haru_quant_cbot.Helpers.Flattened.{IsFlattenable}
use haru_quant_cbot.Prelude.Dict.{insert}
use haru_quant_cbot.Prelude.{type_error, ok, raise, refl, ◌∷◌, ◌≡◌, []}
use haru_quant_cbot.Helpers.{
  set_path, split_from, split_key, dict_of, unflatten_from, flatten_items, unflatten_dict,
  flatten_dict,
}
use haru_quant_cbot.Config.{set_field, get_field, no_fields, scalar, table, field, Fields}
use haru_quant_cbot.Prelude.Text.{starts_with, str, text_beq}

-- {"a": {"b": 1, "c": {"d": 2}}, "e": 3}
abbrev nested : Fields
nested =
    field (str "a")
      (table (
        field (str "b") (scalar 1)
          (field (str "c") (table (field (str "d") (scalar 2) no_fields)) no_fields)))
      (field (str "e") (scalar 3) no_fields)

flattened :
    flatten_dict nested [] (str ".")
    ≡ (str "a.b", scalar 1) ∷ (str "a.c.d", scalar 2) ∷ (str "e", scalar 3) ∷ []
unfolding flatten_dict flatten_items dict_of insert text_beq
flattened = refl

nested_again : unflatten_dict (flatten_dict nested [] (str ".")) (str ".") ≡ ok nested
unfolding flatten_dict flatten_items dict_of insert text_beq unflatten_dict unflatten_from split_key
    split_from set_path get_field set_field starts_with
nested_again = refl

-- A key that goes into a value that is not a dict.
into_number :
    unflatten_dict ((str "a", scalar 1) ∷ (str "a.b", scalar 2) ∷ []) (str ".") ≡ raise type_error
unfolding text_beq unflatten_dict unflatten_from split_key split_from set_path get_field set_field
    starts_with
into_number = refl

nested-IsFlattenable : IsFlattenable b'.' nested
unfolding IsFlattenable get_field text_beq
nested-IsFlattenable = (
  λ e. cc,
  refl,
  refl,
  λ e. cc,
  (refl, refl, (λ e. cc, refl, refl, λ e. cc, (refl, refl, tt), tt)),
  (refl, refl, tt),
)

unflatten_dict-flatten_dict_example :
    unflatten_dict (flatten_dict nested [] (str ".")) (str ".") ≡ ok nested
unflatten_dict-flatten_dict_example = unflatten_dict-flatten_dict b'.' nested nested-IsFlattenable
