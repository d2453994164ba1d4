-- ===== src/Config/Merge.antt =====
-- `_deep_merge`: what a key and what a path of keys hold in the merged table.
use mathlib.Core.Option.{some-injective}
use mathlib.Core.Path.{subst}
use haru_quant_cbot.Prelude.Text.{text_beq_iff, text_beq, Text}
use haru_quant_cbot.Prelude.{
  Option-cases, ◌∙◌, ap, refl, inr, [], inl, false, arith, true, if◌then◌else◌, Bool-cases, ◌≡◌,
  none, ◌∷◌, Bool, List, Option,
}
use haru_quant_cbot.Config.{
  no_fields, array, scalar, text, table, merged_value, some, field, set_field, get_field, Value,
  deep_merge, Fields,
}

-- No key stands twice in a table, nor in the tables inside; Python's dicts are of this kind.
unfoldable mutual
  pub IsDict : Fields → Type 0
  IsDict no_fields = Unit
  IsDict (field k v fs) = (get_field k fs ≡ none) × IsDictValue v × IsDict fs

  pub IsDictValue : Value → Type 0
  IsDictValue (table fs) = IsDict fs
  IsDictValue (text t) = Unit
  IsDictValue (scalar n) = Unit
  IsDictValue (array vs) = Unit

abbrev pub is_table : Value → Bool
is_table (table fs) = true
is_table v = false

pub get-set_field :
    (k j : Text) (v : Value) (fs : Fields)
    → get_field j (set_field k v fs) ≡ (if text_beq k j then some v else get_field j fs)
unfolding get_field set_field
get-set_field k j v no_fields = refl
get-set_field k j v (field i u fs) =
    ground (arith, text_beq_iff k j, text_beq_iff i k, text_beq_iff i j, get-set_field k j v fs)

-- What a key holds after the merge, from what it holds in both tables.
abbrev pub combined : Option Value → Option Value → Option Value
combined old none = old
combined old (some v) = some (merged_value old v)

deep_merge-field :
    (k : Text) (base overlay : Fields)
    → IsDict overlay
    → get_field k (deep_merge base overlay) ≡ combined (get_field k base) (get_field k overlay)
unfolding deep_merge get_field IsDict
deep_merge-field k base no_fields h = refl
deep_merge-field k base (field j v overlay) h = ground (
  arith,
  deep_merge-field k (set_field j (merged_value (get_field j base) v) base) overlay h.2,
  get-set_field j k (merged_value (get_field j base) v) base,
  text_beq_iff j k,
  h.0,
)

get_field-IsDictValue :
    (k : Text) (v : Value) (fs : Fields) → IsDict fs → get_field k fs ≡ some v → IsDictValue v
unfolding IsDict get_field
get_field-IsDictValue k v no_fields h e = cc
get_field-IsDictValue k v (field j w fs) h e = elim (Bool-cases (text_beq j k)) [
  | inl same ↦ subst IsDictValue (some-injective _ _ (ground (arith, same, e))) h.1
  | inr other ↦ get_field-IsDictValue k v fs h.2 (ground (arith, other, e))
]

-- What a path of keys leads to.
abbrev pub find_in : (Value → Option Value) → Option Value → Option Value
find_in next none = none
find_in next (some v) = next v

unfoldable pub find : List Text → Value → Option Value
find [] v = some v
find (k ∷ path) (table fs) = find_in (find path) (get_field k fs)
find (k ∷ path) (text t) = none
find (k ∷ path) (scalar n) = none
find (k ∷ path) (array vs) = none

merged_value-leaf : (old : Option Value) (w : Value) → is_table w ≡ false → merged_value old w ≡ w
unfolding deep_merge
merged_value-leaf none w h = refl
merged_value-leaf (some (table b)) (text t) h = refl
merged_value-leaf (some (table b)) (scalar n) h = refl
merged_value-leaf (some (table b)) (array vs) h = refl
merged_value-leaf (some (table b)) (table fs) h = cc
merged_value-leaf (some (text t)) w h = refl
merged_value-leaf (some (scalar n)) w h = refl
merged_value-leaf (some (array vs)) w h = refl

overlay_wins :
    (path : List Text) (old : Option Value) (w v : Value)
    → IsDictValue w
    → is_table v ≡ false
    → find path w ≡ some v
    → find path (merged_value old w) ≡ some v
unfolding find deep_merge IsDict
overlay_wins [] old w v d leaf e =
    let same = some-injective _ _ e in
    ap some (merged_value-leaf old w (ap is_table same ∙ leaf) ∙ same)
overlay_wins (k ∷ path) old (text t) v d leaf e = cc
overlay_wins (k ∷ path) old (scalar n) v d leaf e = cc
overlay_wins (k ∷ path) old (array vs) v d leaf e = cc
overlay_wins (k ∷ path) none (table sub) v d leaf e = e
overlay_wins (k ∷ path) (some (text t)) (table sub) v d leaf e = e
overlay_wins (k ∷ path) (some (scalar n)) (table sub) v d leaf e = e
overlay_wins (k ∷ path) (some (array vs)) (table sub) v d leaf e = e
overlay_wins (k ∷ path) (some (table b)) (table sub) v d leaf e =
    elim (Option-cases (get_field k sub)) [
      | inl absent ↦ ground (arith, absent, e)
      | inr (w, there) ↦ ground (
        arith,
        there,
        deep_merge-field k b sub d,
        overlay_wins path (get_field k b) w v (get_field-IsDictValue k w sub d there) leaf
            (ground (arith, there, e)),
      )
    ]

-- The overlay has nothing on the path: neither at its end nor, instead of a table, on the way.
unfoldable pub leaves_alone : List Text → Option Value → Bool
leaves_alone path none = true
leaves_alone [] (some w) = false
leaves_alone (k ∷ path) (some (table fs)) = leaves_alone path (get_field k fs)
leaves_alone (k ∷ path) (some (text t)) = false
leaves_alone (k ∷ path) (some (scalar n)) = false
leaves_alone (k ∷ path) (some (array vs)) = false

base_stays :
    (path : List Text) (old : Option Value) (o : Option Value) (v : Value)
    → ((w : Value) → o ≡ some w → IsDictValue w)
    → leaves_alone path o ≡ true
    → find_in (find path) old ≡ some v
    → find_in (find path) (combined old o) ≡ some v
unfolding find deep_merge IsDict leaves_alone
base_stays path old none v d free e = e
base_stays [] old (some w) v d free e = cc
base_stays (k ∷ path) old (some (text t)) v d free e = cc
base_stays (k ∷ path) old (some (scalar n)) v d free e = cc
base_stays (k ∷ path) old (some (array vs)) v d free e = cc
base_stays (k ∷ path) none (some (table sub)) v d free e = cc
base_stays (k ∷ path) (some (text t)) (some (table sub)) v d free e = cc
base_stays (k ∷ path) (some (scalar n)) (some (table sub)) v d free e = cc
base_stays (k ∷ path) (some (array vs)) (some (table sub)) v d free e = cc
base_stays (k ∷ path) (some (table b)) (some (table sub)) v d free e =
    let sub_dict = d (table sub) refl in
    ground (
      arith,
      deep_merge-field k b sub sub_dict,
      base_stays path (get_field k b) (get_field k sub) v
          (λ w there. get_field-IsDictValue k w sub sub_dict there) free e,
    )

-- A path of keys that leads to a leaf in the overlay leads to the same leaf in the merged table.
pub deep_merge-overlay_wins :
    (path : List Text) (base overlay : Fields) (v : Value)
    → IsDict overlay
    → is_table v ≡ false
    → find path (table overlay) ≡ some v
    → find path (table (deep_merge base overlay)) ≡ some v
unfolding deep_merge IsDict
deep_merge-overlay_wins path base overlay v d leaf e =
    overlay_wins path (some (table base)) (table overlay) v d leaf e

-- A path of keys that leads to a value in the base table, and that the overlay leaves alone, leads to
-- the same value in the merged table.
pub deep_merge-base_stays :
    (path : List Text) (base overlay : Fields) (v : Value)
    → IsDict overlay
    → leaves_alone path (some (table overlay)) ≡ true
    → find path (table base) ≡ some v
    → find path (table (deep_merge base overlay)) ≡ some v
unfolding deep_merge IsDict
deep_merge-base_stays path base overlay v d free e =
    base_stays path (some (table base)) (some (table overlay)) v
      (λ w same. subst IsDictValue (some-injective _ _ same) d) free e
