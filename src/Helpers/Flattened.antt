-- ===== src/Helpers/Flattened.antt =====
-- The items that `flatten_dict` of src/hqt/foundation/utils/helpers.py makes: their keys are distinct, and those
-- of a table inside lie under the table's key.
use mathlib.Core.Path.{subst}
use haru_quant_cbot.Prelude.Dict.{IsDistinct, Dict, lookup}
use haru_quant_cbot.Helpers.Keys.{
  under-IsDistinct, append-IsDistinct, dict_of-distinct, lookup-under_other, lookup-append,
  under-append, under-dict_of, under-under, under,
}
use haru_quant_cbot.Helpers.Parts.{first_part-key, first_part, IsFree}
use haru_quant_cbot.Config.{Value, array, scalar, text, no_fields, get_field, table, field, Fields}
use haru_quant_cbot.Prelude.Text.{text_beq, text_eq, text_beq_iff, Text}
use haru_quant_cbot.Prelude.{
  ◌⊎◌, inr, inl, Bool-cases, false, sym, arith, ◌∙◌, refl, ◌++◌, ap, none, ◌≡◌, ◌∷◌, [], ◌≢◌, ℕ,
}
use haru_quant_cbot.Helpers.{dict_of, flatten_items}

-- No key holds the separator, none stands twice, and the tables inside have names and are not empty.
unfoldable pub IsFlattenable : ℕ → Fields → Type 0
IsFlattenable s no_fields = Unit
IsFlattenable s (field k (table t) fs) =
    (k ≢ [])
    × IsFree s k
    × (get_field k fs ≡ none)
    × (t ≢ no_fields)
    × IsFlattenable s t
    × IsFlattenable s fs
IsFlattenable s (field k v fs) = IsFree s k × (get_field k fs ≡ none) × IsFlattenable s fs

dict_of-under :
    (s : ℕ) (k : Text) (items new_items : Dict Text Value)
    → items ≡ under s k new_items
    → dict_of [] items ≡ under s k (dict_of [] new_items)
dict_of-under s k items new_items e = ap (dict_of []) e ∙ under-dict_of s k [] new_items

pub items_under :
    (s : ℕ) (p : Text) (d : Fields)
    → IsFlattenable s d
    → p ≢ []
    → flatten_items (s ∷ []) p d ≡ under s p (flatten_items (s ∷ []) [] d)
unfolding IsFlattenable flatten_items
items_under s [] d w h = absurd (h refl)
items_under s (c ∷ p) no_fields w h = refl
items_under s (c ∷ p) (field [] (table t) fs) w h = absurd (w.0 refl)
items_under s (c ∷ p) (field (a ∷ k) (table t) fs) w h =
    let (_, _, _, _, inside, later) = w in
    let items = flatten_items (s ∷ []) [] t in
    let there =
      dict_of-under s ((c ∷ p) ++ s ∷ (a ∷ k)) (flatten_items (s ∷ []) ((c ∷ p) ++ s ∷ (a ∷ k)) t)
        items (items_under s ((c ∷ p) ++ s ∷ (a ∷ k)) t inside (λ e. cc)) in
    let here =
      dict_of-under s (a ∷ k) (flatten_items (s ∷ []) (a ∷ k) t) items
        (items_under s (a ∷ k) t inside (λ e. cc)) in
    ap (λ x. x ++ flatten_items (s ∷ []) (c ∷ p) fs)
      (there ∙ (under-under s (c ∷ p) (a ∷ k) (dict_of [] items) ∙ ap (under s (c ∷ p)) (sym here)))
    ∙ (ap (◌++◌ (under s (c ∷ p) (dict_of [] (flatten_items (s ∷ []) (a ∷ k) t))))
          (items_under s (c ∷ p) fs later h)
        ∙ sym (
            under-append s (c ∷ p) (dict_of [] (flatten_items (s ∷ []) (a ∷ k) t))
              (flatten_items (s ∷ []) [] fs)))
items_under s (c ∷ p) (field k (text x) fs) w h =
    ap (◌∷◌ ((c ∷ p) ++ s ∷ k, text x)) (items_under s (c ∷ p) fs w.2 h)
items_under s (c ∷ p) (field k (scalar x) fs) w h =
    ap (◌∷◌ ((c ∷ p) ++ s ∷ k, scalar x)) (items_under s (c ∷ p) fs w.2 h)
items_under s (c ∷ p) (field k (array x) fs) w h =
    ap (◌∷◌ ((c ∷ p) ++ s ∷ k, array x)) (items_under s (c ∷ p) fs w.2 h)

not_first :
    (j k : Text) (v : Value) (fs : Fields)
    → get_field j (field k v fs) ≡ none
    → (text_beq k j ≡ false) × (get_field j fs ≡ none)
unfolding get_field
not_first j k v fs h = elim (Bool-cases (text_beq k j)) [
  | inl e ↦ ground arith
  | inr e ↦ (e, ground arith)
]

other_key :
    (s : ℕ) (j k : Text) → IsFree s k → text_beq k (first_part s j) ≡ false → text_beq k j ≡ false
other_key s j k f h = elim (Bool-cases (text_beq k j)) [
  | inr e ↦ e
  | inl e ↦
      let same = (text_beq_iff k j).0 e in
      let first : first_part s j ≡ k =
        subst (λ x. first_part s x ≡ k) same (first_part-key s k f) in
      let equal = (text_beq_iff k (first_part s j)).1 (sym first) in cc
]

absent_leaf :
    (s : ℕ) (j k : Text) (v : Value) (fs : Fields) (items : Dict Text Value)
    → IsFree s k
    → get_field (first_part s j) (field k v fs) ≡ none
    → (get_field (first_part s j) fs ≡ none → lookup j items ≡ none)
    → lookup j ((k, v) ∷ items) ≡ none
unfolding lookup
absent_leaf s j k v fs items f h later =
    let (other, rest) = not_first (first_part s j) k v fs h in
    let key : text_beq k j ≡ false = other_key s j k f other in rw key (later rest)

-- The items of a table inside, under its key.
pub inside :
    (s : ℕ) (k : Text) (t : Fields)
    → IsFlattenable s t
    → k ≢ []
    → dict_of [] (flatten_items (s ∷ []) k t) ≡ under s k (dict_of [] (flatten_items (s ∷ []) [] t))
inside s k t w h =
    dict_of-under s k (flatten_items (s ∷ []) k t) (flatten_items (s ∷ []) [] t)
      (items_under s k t w h)

absent_under :
    (s : ℕ) (j k : Text) (t fs : Fields) (items : Dict Text Value)
    → IsFree s k
    → get_field (first_part s j) (field k (table t) fs) ≡ none
    → lookup j (under s k items) ≡ none
absent_under s j k t fs items f h =
    let other = (not_first (first_part s j) k (table t) fs h).0 in
    lookup-under_other s k j items f
      (λ e. let same = (text_beq_iff k (first_part s j)).1 (sym e) in cc)

absent_append :
    (j : Text) (d e : Dict Text Value)
    → lookup j d ≡ none
    → lookup j e ≡ none
    → lookup j (d ++ e) ≡ none
absent_append j d e h k = ground (arith, lookup-append j d e)

-- A key whose first part is not a key of the table is not among the items.
absent_item :
    (s : ℕ) (j : Text) (d : Fields)
    → IsFlattenable s d
    → get_field (first_part s j) d ≡ none
    → lookup j (flatten_items (s ∷ []) [] d) ≡ none
unfolding IsFlattenable flatten_items get_field lookup
absent_item s j no_fields w h = refl
absent_item s j (field k (table t) fs) (named, f, _, _, w, v) h =
    absent_append j (dict_of [] (flatten_items (s ∷ []) k t)) (flatten_items (s ∷ []) [] fs)
      (ap (lookup j) (inside s k t w named)
        ∙ absent_under s j k t fs (dict_of [] (flatten_items (s ∷ []) [] t)) f h)
      (absent_item s j fs v (not_first (first_part s j) k (table t) fs h).1)
absent_item s j (field k (text x) fs) (f, _, w) h =
    absent_leaf s j k (text x) fs (flatten_items (s ∷ []) [] fs) f h (absent_item s j fs w)
absent_item s j (field k (scalar x) fs) (f, _, w) h =
    absent_leaf s j k (scalar x) fs (flatten_items (s ∷ []) [] fs) f h (absent_item s j fs w)
absent_item s j (field k (array x) fs) (f, _, w) h =
    absent_leaf s j k (array x) fs (flatten_items (s ∷ []) [] fs) f h (absent_item s j fs w)

leaf-IsDistinct :
    (s : ℕ) (k : Text) (v : Value) (fs : Fields)
    → IsFree s k
    → (get_field k fs ≡ none)
    → IsFlattenable s fs
    → IsDistinct (flatten_items (s ∷ []) [] fs)
    → IsDistinct ((k, v) ∷ flatten_items (s ∷ []) [] fs)
leaf-IsDistinct s k v fs f h w later =
    (absent_item s k fs w (ap (λ x. get_field x fs) (first_part-key s k f) ∙ h), later)

-- The keys under a table's name are not keys of the items after it.
apart :
    (s : ℕ) (k : Text) (items : Dict Text Value) (fs : Fields)
    → IsFree s k
    → (get_field k fs ≡ none)
    → IsFlattenable s fs
    → (j : Text)
    → (lookup j (under s k items) ≡ none) ⊎ (lookup j (flatten_items (s ∷ []) [] fs) ≡ none)
apart s k items fs f h w j = elim (Bool-cases (text_beq k (first_part s j))) [
  | inl e ↦
      let same = (text_beq_iff k (first_part s j)).0 e in
      inr (absent_item s j fs w (subst (λ x. get_field x fs ≡ none) same h))
  | inr e ↦ inl (
      lookup-under_other s k j items f
        (λ q. let same = (text_beq_iff k (first_part s j)).1 (sym q) in cc))
]

pub items-IsDistinct :
    (s : ℕ) (d : Fields) → IsFlattenable s d → IsDistinct (flatten_items (s ∷ []) [] d)
unfolding IsFlattenable flatten_items
items-IsDistinct s no_fields w = tt
items-IsDistinct s (field k (table t) fs) (named, f, h, _, w, v) =
    let items = dict_of [] (flatten_items (s ∷ []) [] t) in
    let here = items-IsDistinct s t w in
    let same = dict_of-distinct [] (flatten_items (s ∷ []) [] t) here in
    subst (λ x. IsDistinct (x ++ flatten_items (s ∷ []) [] fs)) (sym (inside s k t w named))
      (append-IsDistinct (under s k items) (flatten_items (s ∷ []) [] fs)
        (under-IsDistinct s k items (subst IsDistinct (sym same) here)) (items-IsDistinct s fs v)
        (apart s k items fs f h v))
items-IsDistinct s (field k (text x) fs) (f, h, w) =
    leaf-IsDistinct s k (text x) fs f h w (items-IsDistinct s fs w)
items-IsDistinct s (field k (scalar x) fs) (f, h, w) =
    leaf-IsDistinct s k (scalar x) fs f h w (items-IsDistinct s fs w)
items-IsDistinct s (field k (array x) fs) (f, h, w) =
    leaf-IsDistinct s k (array x) fs f h w (items-IsDistinct s fs w)

-- The items of a table inside are its own items, under its key.
pub inside_items :
    (s : ℕ) (k : Text) (t : Fields)
    → IsFlattenable s t
    → k ≢ []
    → dict_of [] (flatten_items (s ∷ []) k t) ≡ under s k (flatten_items (s ∷ []) [] t)
inside_items s k t w h =
    inside s k t w h
    ∙ ap (under s k) (dict_of-distinct [] (flatten_items (s ∷ []) [] t) (items-IsDistinct s t w))
