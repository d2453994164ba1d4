-- ===== src/Catalog/Query.antt =====
-- What `query_available` returns.
use haru_quant_cbot.Prelude.{
  ℕ, ◌≤◌, ◌<◌, ◌≡◌, ◌≢◌, ◌↔◌, ◌⊎◌, inl, inr, refl, Bool, true, ◌&&◌, sym, ap, ◌∙◌, Option, none,
  some, [], ◌∷◌, In, In-keep_iff, keep, length, count_if, length-keep, arith, option_beq_iff,
}
use mathlib.Core.Option.{some-injective}
use haru_quant_cbot.Prelude.Text.{Text, text_beq_iff, text_leb_total, text_eq}
use haru_quant_cbot.Prelude.Sort.{IsSorted, In-sort_iff, sort-IsSorted, length-sort}
use haru_quant_cbot.Timeframe.{Timeframe, name}
use haru_quant_cbot.Catalog.{
  Entry, Table, Filter, text_condition, timeframe_condition, start_condition, stop_condition,
  selects, null_leb, entry_leb, query_available,
}

-- What the docstring promises of a row: each given argument is met. An argument that is an empty
-- text counts as not given.
pub record Matches (f : Filter) (r : Entry) : Type 0 where
  pub symbol : (s : Text) → f.symbol ≡ some s → s ≢ [] → r.symbol ≡ s
  pub timeframe : (t : Timeframe) → f.timeframe ≡ some t → r.timeframe ≡ some (name t)
  pub start : (us : ℕ) → f.start ≡ some us → us ≤ r.max_timestamp
  pub stop : (us : ℕ) → f.stop ≡ some us → r.min_timestamp < us
  pub storage_format : (s : Text) → f.storage_format ≡ some s → s ≢ [] → r.storage_format ≡ s

text_condition_iff :
    (o : Option Text) (column : Text)
    → (text_condition o column ≡ true) ↔ ((s : Text) → o ≡ some s → s ≢ [] → column ≡ s)
text_condition_iff none column = (λ _ s e. cc, λ _. refl)
text_condition_iff (some []) column =
    (λ _ s e given. absurd (given (sym (some-injective _ _ e))), λ _. refl)
text_condition_iff (some (c ∷ text)) column = (
  λ h s e given. (text_beq_iff column (c ∷ text)).0 h ∙ some-injective _ _ e,
  λ k. (text_beq_iff column (c ∷ text)).1 (k (c ∷ text) refl (λ e. cc)),
)

timeframe_condition_iff :
    (o : Option Timeframe) (column : Option Text)
    → (timeframe_condition o column ≡ true)
      ↔ ((t : Timeframe) → o ≡ some t → column ≡ some (name t))
timeframe_condition_iff none column = (λ _ t e. cc, λ _. refl)
timeframe_condition_iff (some t) column = (
  λ h u e.
      (option_beq_iff column (some (name t))).0 h ∙ ap (λ x. some (name x)) (some-injective _ _ e),
  λ k. (option_beq_iff column (some (name t))).1 (k t refl),
)

start_condition_iff :
    (o : Option ℕ) (top : ℕ) → (start_condition o top ≡ true) ↔ ((us : ℕ) → o ≡ some us → us ≤ top)
start_condition_iff none top = (λ _ us e. cc, λ _. refl)
start_condition_iff (some start) top = (λ h us e. ground arith, λ k. ground (arith, k start refl))

stop_condition_iff :
    (o : Option ℕ) (bottom : ℕ)
    → (stop_condition o bottom ≡ true) ↔ ((us : ℕ) → o ≡ some us → bottom < us)
stop_condition_iff none bottom = (λ _ us e. cc, λ _. refl)
stop_condition_iff (some stop) bottom = (λ h us e. ground arith, λ k. ground (arith, k stop refl))

all_five :
    (a b c d e : Bool)
    → ((a && b && c && d && e) ≡ true)
      ↔ ((a ≡ true) × (b ≡ true) × (c ≡ true) × (d ≡ true) × (e ≡ true))
all_five a b c d e = ground arith

-- The SQL condition selects exactly the rows that match.
selects-Matches : (f : Filter) (r : Entry) → (selects f r ≡ true) ↔ Matches f r
unfolding selects
selects-Matches f r = (there, back)
  where
    five : (selects f r ≡ true) ↔ (
        (text_condition f.symbol r.symbol ≡ true)
        × (timeframe_condition f.timeframe r.timeframe ≡ true)
        × (start_condition f.start r.max_timestamp ≡ true)
        × (stop_condition f.stop r.min_timestamp ≡ true)
        × (text_condition f.storage_format r.storage_format ≡ true))
    five = all_five _ _ _ _ _

    there : selects f r ≡ true → Matches f r
    there h =
        let (a, b, c, d, e) = five.0 h in
        record {
          symbol = (text_condition_iff f.symbol r.symbol).0 a;
          timeframe = (timeframe_condition_iff f.timeframe r.timeframe).0 b;
          start = (start_condition_iff f.start r.max_timestamp).0 c;
          stop = (stop_condition_iff f.stop r.min_timestamp).0 d;
          storage_format = (text_condition_iff f.storage_format r.storage_format).0 e;
        }

    back : Matches f r → selects f r ≡ true
    back m = five.1 (
      (text_condition_iff f.symbol r.symbol).1 m.symbol,
      (timeframe_condition_iff f.timeframe r.timeframe).1 m.timeframe,
      (start_condition_iff f.start r.max_timestamp).1 m.start,
      (stop_condition_iff f.stop r.min_timestamp).1 m.stop,
      (text_condition_iff f.storage_format r.storage_format).1 m.storage_format,
    )

null_leb_total : (a b : Option Text) → (null_leb a b ≡ true) ⊎ (null_leb b a ≡ true)
unfolding null_leb
null_leb_total none b = inl refl
null_leb_total (some a) none = inr refl
null_leb_total (some a) (some b) = text_leb_total a b

entry_leb_total : (a b : Entry) → (entry_leb a b ≡ true) ⊎ (entry_leb b a ≡ true)
unfolding entry_leb
entry_leb_total a b = ground (
  arith,
  text_beq_iff a.symbol b.symbol,
  text_beq_iff b.symbol a.symbol,
  option_beq_iff a.timeframe b.timeframe,
  option_beq_iff b.timeframe a.timeframe,
  text_leb_total a.symbol b.symbol,
  text_leb_total a.partition b.partition,
  null_leb_total a.timeframe b.timeframe,
)

-- The query returns exactly the rows of the table that match, each as often as the table has it
-- (the number of rows is that of the filtered table), ordered by symbol, then timeframe with NULL
-- first, then partition.
pub query_available-exact :
    (f : Filter) (t : Table)
    → ((r : Entry) → In r (query_available f t) ↔ (In r t.rows × Matches f r))
      × IsSorted entry_leb (query_available f t)
      × (length (query_available f t) ≡ count_if (selects f) t.rows)
unfolding query_available
query_available-exact f t = (
  λ r.
      let sorted = In-sort_iff entry_leb r (keep (selects f) t.rows) in
      let kept = In-keep_iff (selects f) r t.rows in
      let matches = selects-Matches f r in
      (
        λ i. let (j, q) = kept.0 (sorted.0 i) in (j, matches.0 q),
        λ h. sorted.1 (kept.1 (h.0, matches.1 h.1)),
      ),
  sort-IsSorted entry_leb entry_leb_total (keep (selects f) t.rows),
  length-sort entry_leb (keep (selects f) t.rows) ∙ length-keep (selects f) t.rows,
)
