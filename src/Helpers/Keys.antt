-- ===== src/Helpers/Keys.antt =====
-- Dicts whose keys all lie under one key, and `dict(items)` for items whose keys are distinct, as
-- src/hqt/foundation/utils/helpers.py makes them.
use mathlib.Core.List.{append-nil, append_assoc}
use mathlib.Core.Path.{subst}
use haru_quant_cbot.Helpers.Parts.{
  first_part-joined, text_beq-joined, joined_assoc, first_part, IsFree,
}
use haru_quant_cbot.Config.{Value}
use haru_quant_cbot.Prelude.Text.{text_beq_iff, text_eq, Text}
use haru_quant_cbot.Prelude.{refl, ap, ◌∙◌, ◌⊎◌, ◌≢◌, [], arith, sym, ◌∷◌, none, ◌++◌, ◌≡◌, ℕ}
use haru_quant_cbot.Helpers.{some, dict_of}
use haru_quant_cbot.Prelude.Dict.{IsDistinct, Dict, insert, lookup}

abbrev pub under : ℕ → Text → Dict Text Value → Dict Text Value
under s k [] = []
under s k ((q, v) ∷ d) = (k ++ s ∷ q, v) ∷ under s k d

under-insert :
    (s : ℕ) (k q : Text) (v : Value) (d : Dict Text Value)
    → insert (k ++ s ∷ q) v (under s k d) ≡ under s k (insert q v d)
unfolding insert
under-insert s k q v [] = refl
under-insert s k q v ((j, w) ∷ d) = ground (arith, text_beq-joined s k j q, under-insert s k q v d)

pub under-dict_of :
    (s : ℕ) (k : Text) (d items : Dict Text Value)
    → dict_of (under s k d) (under s k items) ≡ under s k (dict_of d items)
unfolding dict_of
under-dict_of s k d [] = refl
under-dict_of s k d ((q, v) ∷ items) =
    ap (λ x. dict_of x (under s k items)) (under-insert s k q v d)
    ∙ under-dict_of s k (insert q v d) items

pub under-append :
    (s : ℕ) (k : Text) (d e : Dict Text Value) → under s k (d ++ e) ≡ under s k d ++ under s k e
under-append s k [] e = refl
under-append s k ((q, v) ∷ d) e = ap (◌∷◌ (k ++ s ∷ q, v)) (under-append s k d e)

pub under-under :
    (s : ℕ) (p k : Text) (d : Dict Text Value) → under s (p ++ s ∷ k) d ≡ under s p (under s k d)
under-under s p k [] = refl
under-under s p k ((q, v) ∷ d) = rw (joined_assoc s p k q, under-under s p k d) refl

pub lookup-under :
    (s : ℕ) (k q : Text) (d : Dict Text Value) → lookup (k ++ s ∷ q) (under s k d) ≡ lookup q d
unfolding lookup
lookup-under s k q [] = refl
lookup-under s k q ((j, w) ∷ d) = ground (arith, text_beq-joined s k j q, lookup-under s k q d)

pub lookup-under_other :
    (s : ℕ) (k j : Text) (d : Dict Text Value)
    → IsFree s k
    → first_part s j ≢ k
    → lookup j (under s k d) ≡ none
unfolding lookup
lookup-under_other s k j [] f h = refl
lookup-under_other s k j ((q, w) ∷ d) f h =
    ground (
      arith,
      text_beq_iff (k ++ s ∷ q) j,
      first_part-joined s k q f,
      lookup-under_other s k j d f h,
    )

pub under-IsDistinct :
    (s : ℕ) (k : Text) (d : Dict Text Value) → IsDistinct d → IsDistinct (under s k d)
under-IsDistinct s k [] h = tt
under-IsDistinct s k ((q, v) ∷ d) h = (lookup-under s k q d ∙ h.0, under-IsDistinct s k d h.1)

pub lookup-append :
    (j : Text) (d e : Dict Text Value)
    → lookup j (d ++ e) ≡ (elim (lookup j d) [ none ↦ lookup j e | some v ↦ some v ])
unfolding lookup
lookup-append j [] e = refl
lookup-append j ((k, v) ∷ d) e = ground (arith, lookup-append j d e)

pub append-IsDistinct :
    (d e : Dict Text Value)
    → IsDistinct d
    → IsDistinct e
    → ((j : Text) → (lookup j d ≡ none) ⊎ (lookup j e ≡ none))
    → IsDistinct (d ++ e)
unfolding lookup
append-IsDistinct [] e h k apart = k
append-IsDistinct ((q, v) ∷ d) e h k apart = (
  ground (arith, apart q, lookup-append q d e, h.0, text_beq_iff q q),
  append-IsDistinct d e h.1 k (λ j. ground (arith, apart j)),
)

insert-new :
    (k : Text) (v : Value) (d : Dict Text Value)
    → lookup k d ≡ none
    → insert k v d ≡ d ++ (k, v) ∷ []
unfolding lookup insert
insert-new k v [] h = refl
insert-new k v ((j, w) ∷ d) h = ground (arith, insert-new k v d (ground arith))

absent_before :
    (k : Text) (v : Value) (d e : Dict Text Value)
    → IsDistinct (d ++ (k, v) ∷ e)
    → lookup k d ≡ none
unfolding lookup
absent_before k v [] e h = refl
absent_before k v ((j, w) ∷ d) e h = ground (
  arith,
  text_beq_iff j k,
  text_beq_iff k k,
  lookup-append j d ((k, v) ∷ e),
  absent_before k v d e h.1,
  h.0,
)

-- `dict(items)` has the items as they are, when no key stands twice.
pub dict_of-distinct :
    (d items : Dict Text Value) → IsDistinct (d ++ items) → dict_of d items ≡ d ++ items
unfolding dict_of
dict_of-distinct d [] h = sym (append-nil d)
dict_of-distinct d ((k, v) ∷ items) h =
    let new = insert-new k v d (absent_before k v d items h) in
    let same = append_assoc d ((k, v) ∷ []) items in
    ap (λ x. dict_of x items) new
    ∙ (dict_of-distinct (d ++ (k, v) ∷ []) items (subst IsDistinct (sym same) h) ∙ same)
