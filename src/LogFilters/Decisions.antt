-- ===== src/LogFilters/Decisions.antt =====
-- Which records the keyword filter lets through.
use haru_quant_cbot.Prelude.{
  ◌≡◌, ◌≢◌, ◌↔◌, refl, Bool, true, false, not, List, In, any_of, map, any_of_iff, any_of-map, arith,
  ok, raise, value_error, if◌then◌else◌,
}
use haru_quant_cbot.Prelude.Text.{Text, str, text_beq, text_beq_iff, contains_text}
use haru_quant_cbot.LogFilters.{LogRecord, KeywordFilter, init_keyword_filter, keyword_filter}

module _ (lower : Text → Text) where
  -- What the filter compares, for a keyword and for a message.
  abbrev pub folded : Bool → Text → Text
  folded case_sensitive t = if case_sensitive then t else lower t

  abbrev hits : Bool → LogRecord → Text → Bool
  hits case_sensitive r keyword =
      contains_text (folded case_sensitive keyword) (folded case_sensitive r.message)

  any_of-hits :
      (keywords : List Text) (case_sensitive : Bool) (r : LogRecord)
      → any_of
          (λ k. contains_text k (folded case_sensitive r.message))
          (if case_sensitive then keywords else map lower keywords)
        ≡ any_of (hits case_sensitive r) keywords
  any_of-hits keywords true r = refl
  any_of-hits keywords false r = any_of-map _ lower keywords

  -- In either case mode: an allowing filter passes a record exactly if one of its keywords stands
  -- in the message, both folded to lower case unless the filter is case sensitive; a blocking
  -- filter with the same keywords passes exactly the others.
  pub keyword_filter-modes :
      (keywords : List Text) (case_sensitive : Bool) (r : LogRecord)
      → (f g : KeywordFilter)
      → init_keyword_filter lower keywords (str "allow") case_sensitive ≡ ok f
      → init_keyword_filter lower keywords (str "block") case_sensitive ≡ ok g
      → ((keyword_filter lower f r ≡ true) ↔ (
          (k : Text) × In k keywords
          × (contains_text (folded case_sensitive k) (folded case_sensitive r.message) ≡ true)))
        × (keyword_filter lower g r ≡ not (keyword_filter lower f r))
  unfolding init_keyword_filter keyword_filter text_beq
  keyword_filter-modes keywords case_sensitive r f g ef eg =
      let hit = any_of-hits keywords case_sensitive r in
      let allows : keyword_filter lower f r ≡ any_of (hits case_sensitive r) keywords =
        ground (arith, hit) in
      let blocks : keyword_filter lower g r ≡ not (any_of (hits case_sensitive r) keywords) =
        ground (arith, hit) in
      (rw allows (any_of_iff (hits case_sensitive r) keywords), rw (allows, blocks))

  -- The constructor refuses every mode but "allow" and "block", and no other.
  pub init_keyword_filter-raises :
      (keywords : List Text) (mode : Text) (case_sensitive : Bool)
      → (init_keyword_filter lower keywords mode case_sensitive ≡ raise value_error)
        ↔ ((mode ≢ str "allow") × (mode ≢ str "block"))
  unfolding init_keyword_filter
  init_keyword_filter-raises keywords mode case_sensitive =
      ground (arith, text_beq_iff mode (str "allow"), text_beq_iff mode (str "block"))
