-- ===== src/Helpers/Walks.antt =====
-- The walk of `unflatten_dict` of src/hqt/foundation/utils/helpers.py into a table inside.
use haru_quant_cbot.Config.Merge.{get-set_field}
use haru_quant_cbot.Helpers.Keys.{under}
use haru_quant_cbot.Prelude.Dict.{Dict}
use haru_quant_cbot.Helpers.Parts.{split_from-joined, IsFree}
use haru_quant_cbot.Prelude.{
  ◌∙◌, ◌-◌, Result-cases, length, sym, ◌++◌, ◌≢◌, Bool-cases, inr, zero, inl, [], ◌⊎◌, ok, refl,
  some, none, ◌∷◌, ap, arith, ◌≡◌, List, ℕ,
}
use haru_quant_cbot.Prelude.Text.{starts_with, text_beq_iff, Text}
use haru_quant_cbot.Config.{table, field, Value, no_fields, set_field, get_field, Fields}
use haru_quant_cbot.Helpers.{split_key, unflatten_from, suc, split_from, set_path}

abbrev pub append_fields : Fields → Fields → Fields
append_fields no_fields d = d
append_fields (field k v fs) d = field k v (append_fields fs d)

pub append_fields-nil : (d : Fields) → append_fields d no_fields ≡ d
append_fields-nil no_fields = refl
append_fields-nil (field k v fs) = ap (field k v) (append_fields-nil fs)

pub append-set_field :
    (k : Text) (v : Value) (current fs : Fields)
    → get_field k current ≡ none
    → append_fields (set_field k v current) fs ≡ append_fields current (field k v fs)
unfolding get_field set_field
append-set_field k v no_fields fs h = refl
append-set_field k v (field j u current) fs h =
    ground (arith, append-set_field k v current fs (ground arith))

set-set_field :
    (k : Text) (u v : Value) (fs : Fields) → set_field k u (set_field k v fs) ≡ set_field k u fs
unfolding set_field
set-set_field k u v no_fields = ground (arith, text_beq_iff k k)
set-set_field k u v (field j w fs) = ground (arith, set-set_field k u v fs)

set_field_same :
    (k : Text) (v : Value) (fs : Fields) → get_field k fs ≡ some v → set_field k v fs ≡ fs
unfolding get_field set_field
set_field_same k v no_fields h = cc
set_field_same k v (field j w fs) h = ground (arith, set_field_same k v fs)

-- The key holds this table, or nothing, which counts as an empty table.
abbrev pub Holds : Text → Fields → Fields → Type 0
Holds k t current =
    (get_field k current ≡ some (table t)) ⊎ ((get_field k current ≡ none) × (t ≡ no_fields))

set_path_step :
    (k part : Text) (parts : List Text) (v : Value) (t new current : Fields)
    → Holds k t current
    → set_path (part ∷ parts) v t ≡ ok new
    → set_path (k ∷ part ∷ parts) v current ≡ ok (set_field k (table new) current)
unfolding set_path
set_path_step k part parts v t new current (inl e) h = ground (arith, e, h)
set_path_step k part parts v t new current (inr (e, n)) h = ground (arith, e, h, n)

split_from_some :
    (sep : Text) (skip : ℕ) (q : Text)
    → (part : Text) × (parts : List Text) × (split_from sep skip q ≡ part ∷ parts)
unfolding split_from
split_from_some sep skip [] = ([], [], refl)
split_from_some sep (suc skip) (c ∷ q) = split_from_some sep skip q
split_from_some sep zero (c ∷ q) = elim (Bool-cases (starts_with (c ∷ q) sep)) [
  | inl e ↦ ([], split_from sep (length sep - 1) q, ground (arith, e))
  | inr e ↦
      let (part, parts, h) = split_from_some sep zero q in (c ∷ part, parts, ground (arith, e, h))
]

-- The walk of one key under the name of a table.
walk_under :
    (s : ℕ) (k q : Text) (v : Value) (t new current : Fields)
    → IsFree s k
    → Holds k t current
    → set_path (split_from (s ∷ []) 0 q) v t ≡ ok new
    → set_path (split_from (s ∷ []) 0 (k ++ s ∷ q)) v current ≡ ok (set_field k (table new) current)
walk_under s k q v t new current f here h =
    let (part, parts, e) = split_from_some (s ∷ []) 0 q in
    ap (λ x. set_path x v current) (split_from-joined s k q f ∙ ap (◌∷◌ k) e)
    ∙ set_path_step k part parts v t new current here (ap (λ x. set_path x v t) (sym e) ∙ h)

-- One round of the loop.
pub next_round :
    (s : ℕ) (q : Text) (v : Value) (d : Dict Text Value) (t new : Fields)
    → set_path (split_from (s ∷ []) 0 q) v t ≡ ok new
    → unflatten_from (s ∷ []) t ((q, v) ∷ d) ≡ unflatten_from (s ∷ []) new d
unfolding unflatten_from split_key
next_round s q v d t new h = rw h refl

pub first_round :
    (s : ℕ) (q : Text) (v : Value) (d : Dict Text Value) (t last : Fields)
    → unflatten_from (s ∷ []) t ((q, v) ∷ d) ≡ ok last
    → (new : Fields) × (set_path (split_from (s ∷ []) 0 q) v t ≡ ok new)
      × (unflatten_from (s ∷ []) new d ≡ ok last)
unfolding unflatten_from split_key
first_round s q v d t last h = elim (Result-cases (set_path (split_from (s ∷ []) 0 q) v t)) [
  | inl (new, e) ↦ (new, e, sym (next_round s q v d t new e) ∙ h)
  | inr (x, e) ↦ ground (arith, e, h)
]

-- The loop over keys under the name of a table changes that table alone.
unflatten_inside :
    (s : ℕ) (k : Text) (d : Dict Text Value) (t last current : Fields)
    → IsFree s k
    → get_field k current ≡ some (table t)
    → unflatten_from (s ∷ []) t d ≡ ok last
    → unflatten_from (s ∷ []) current (under s k d) ≡ ok (set_field k (table last) current)
unfolding unflatten_from
unflatten_inside s k [] t last current f here h =
    let same : t ≡ last = cc in
    sym (ap ok (set_field_same k (table last) current (here ∙ ap (λ x. some (table x)) same)))
unflatten_inside s k ((q, v) ∷ d) t last current f here h =
    let (new, e, later) = first_round s q v d t last h in
    let walked = walk_under s k q v t new current f (inl here) e in
    let held : get_field k (set_field k (table new) current) ≡ some (table new) =
      ground (arith, get-set_field k k (table new) current, text_beq_iff k k) in
    next_round s (k ++ s ∷ q) v (under s k d) current (set_field k (table new) current) walked
    ∙ (unflatten_inside s k d new last (set_field k (table new) current) f held later
        ∙ ap ok (set-set_field k (table last) (table new) current))

-- Where there is no table yet, and some key, the loop makes it.
pub unflatten_new :
    (s : ℕ) (k : Text) (d : Dict Text Value) (last current : Fields)
    → IsFree s k
    → d ≢ []
    → get_field k current ≡ none
    → unflatten_from (s ∷ []) no_fields d ≡ ok last
    → unflatten_from (s ∷ []) current (under s k d) ≡ ok (set_field k (table last) current)
unflatten_new s k [] last current f n e h = absurd (n refl)
unflatten_new s k ((q, v) ∷ d) last current f n e h =
    let (new, made, later) = first_round s q v d no_fields last h in
    let walked = walk_under s k q v no_fields new current f (inr (e, refl)) made in
    let held : get_field k (set_field k (table new) current) ≡ some (table new) =
      ground (arith, get-set_field k k (table new) current, text_beq_iff k k) in
    next_round s (k ++ s ∷ q) v (under s k d) current (set_field k (table new) current) walked
    ∙ (unflatten_inside s k d new last (set_field k (table new) current) f held later
        ∙ ap ok (set-set_field k (table last) (table new) current))
