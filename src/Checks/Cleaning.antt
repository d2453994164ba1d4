-- ===== src/Checks/Cleaning.antt =====
-- The class `DataCleaner` of src/hqt/data/validation/cleaning.py. Sorting, filling and interpolation of
-- columns by pandas are parameters.
use haru_quant_cbot.Checks.Moves.{is_spike, average_true_range}
use haru_quant_cbot.Validation.{is_empty, has_column}
use haru_quant_cbot.Prelude.{
  count_if, value_error, ltb, raise, ◌||◌, not, distinct, none, ◌&&◌, any_of, keep, [], ok, ◌++◌,
  ◌>>=◌, if◌then◌else◌, length, Result, map, nat_beq, ◌∷◌, List, ℕ, Bool,
}
use haru_quant_cbot.Prelude.Text.{text_beq, str, Text}
use haru_quant_cbot.Checks.{Numbers, Bar, BarFrame, need, with_previous}
use haru_quant_cbot.Checks.Volumes.{invalid_volume}

-- What is used of pandas: the sort by time, which is not stable, and columns that are filled. The
-- interpolation by time is given the index too.
pub record Pandas (N : Type 0) : Type 0 where
  pub nan : N
  pub sort_values : List (Bar N) → List (Bar N)
  pub forward_fill : List N → List N
  pub backward_fill : List N → List N
  pub interpolate_linear : List N → List N
  pub interpolate_time : List ℕ → List N → Result (List N)

pub data FillMethod : Type 0 where
  forward_fill_method backward_fill_method interpolate_linear_method : FillMethod
  interpolate_time_method : FillMethod

-- A column of a row, and the row with another value in it.
pub record Column (N : Type 0) : Type 0 where
  pub name : Text
  pub value : Bar N → N
  pub put : N → Bar N → Bar N

-- The argument `keep`: "first", "last", False, or something else.
pub data Keep : Type 0 where
  keep_first keep_last keep_none keep_other : Keep

module _ {N : Type 0} where
  abbrev pub open_column : Column N
  open_column = record {
    name = str "open";
    value = λ r. r.«open»;
    put = λ x r. record r { «open» = x };
  }

  abbrev pub high_column : Column N
  high_column = record {
    name = str "high";
    value = λ r. r.high;
    put = λ x r. record r { high = x };
  }

  abbrev pub low_column : Column N
  low_column = record { name = str "low"; value = λ r. r.low; put = λ x r. record r { low = x } }

  abbrev pub close_column : Column N
  close_column = record {
    name = str "close";
    value = λ r. r.close;
    put = λ x r. record r { close = x };
  }

  abbrev pub volume_of : Column N
  volume_of = record {
    name = str "volume";
    value = λ r. r.volume;
    put = λ x r. record r { volume = x };
  }

  abbrev pub tick_volume_of : Column N
  tick_volume_of = record {
    name = str "tick_volume";
    value = λ r. r.tick_volume;
    put = λ x r. record r { tick_volume = x };
  }

  abbrev pub real_volume_of : Column N
  real_volume_of = record {
    name = str "real_volume";
    value = λ r. r.real_volume;
    put = λ x r. record r { real_volume = x };
  }

  abbrev pub price_cols : List (Column N)
  price_cols = open_column ∷ high_column ∷ low_column ∷ close_column ∷ []

  -- `df[col] = values`
  unfoldable pub set_column : Column N → List N → List (Bar N) → List (Bar N)
  set_column col (x ∷ values) (row ∷ rows) = col.put x row ∷ set_column col values rows
  set_column col values rows = rows

  -- `df[col] = f(df[col])`
  unfoldable pub on_column : Column N → (List N → List N) → List (Bar N) → List (Bar N)
  unfolding set_column
  on_column col f rows = set_column col (f (map col.value rows)) rows

  unfoldable pub on_columns : List (Column N) → (List N → List N) → List (Bar N) → List (Bar N)
  unfolding on_column
  on_columns [] f rows = rows
  on_columns (col ∷ cols) f rows = on_columns cols f (on_column col f rows)

  abbrev pub same_time : Bar N → Bar N → Bool
  same_time a b = nat_beq a.timestamp b.timestamp

  -- `drop_duplicates(keep="first")`, after the rows that were kept.
  unfoldable pub drop_later : List (Bar N) → List (Bar N) → List (Bar N)
  drop_later kept [] = []
  drop_later kept (row ∷ rows) =
      if any_of (same_time row) kept
      then drop_later kept rows
      else row ∷ drop_later (row ∷ kept) rows

  -- `drop_duplicates(subset=["timestamp"], keep=keep)`
  unfoldable pub drop_duplicates : Keep → List (Bar N) → Result (List (Bar N))
  unfolding drop_later
  drop_duplicates keep_last rows = ok (distinct same_time rows)
  drop_duplicates keep_first rows = ok (drop_later [] rows)
  drop_duplicates keep_none rows =
      ok (keep (λ row. not (ltb 1 (count_if (same_time row) rows))) rows)
  drop_duplicates keep_other rows = raise value_error

  -- A frame with other rows.
  abbrev pub with_rows : BarFrame N → List (Bar N) → BarFrame N
  with_rows df rows = record df { rows = length rows; content = rows }

module _ {N : Type 0} (pd : Pandas N) where
  unfoldable pub remove_duplicates : Keep → BarFrame N → Result (BarFrame N)
  unfolding need drop_duplicates
  remove_duplicates which df =
      if is_empty df
      then ok df
      else (need (str "timestamp" ∷ []) df >>= (λ _.
          drop_duplicates which (pd.sort_values df.content) >>= (λ rows. ok (with_rows df rows))))

module _ {N : Type 0} (fl : Numbers N) (pd : Pandas N) where
  -- One column by time, where the frame's times are the index.
  unfoldable pub interpolate_columns :
      List (Column N) → BarFrame N → List (Bar N) → Result (List (Bar N))
  unfolding set_column has_column
  interpolate_columns [] df rows = ok rows
  interpolate_columns (col ∷ cols) df rows =
      let skipped = interpolate_columns cols df rows in
      let times = map (λ (r : Bar N). r.timestamp) rows in
      if has_column df col.name
      then (need (str "timestamp" ∷ []) df >>= (λ _.
          pd.interpolate_time times (map col.value rows)
          >>= (λ values. interpolate_columns cols df (set_column col values rows))))
      else skipped

  -- `numeric_cols`
  unfoldable pub numeric_cols : BarFrame N → List (Column N)
  unfolding has_column
  numeric_cols df =
      if has_column df (str "volume") then price_cols ++ volume_of ∷ [] else price_cols

  unfoldable pub fill_gaps : FillMethod → BarFrame N → Result (BarFrame N)
  unfolding on_columns interpolate_columns numeric_cols has_column
  fill_gaps method df =
      let every = price_cols ++ volume_of ∷ tick_volume_of ∷ real_volume_of ∷ [] in
      let there : List (Column N) = keep (λ c. has_column df c.name) (numeric_cols df) in
      if is_empty df || ltb df.rows 2 then ok df else elim method [
        | forward_fill_method ↦ ok (with_rows df (on_columns every pd.forward_fill df.content))
        | backward_fill_method ↦ ok (with_rows df (on_columns every pd.backward_fill df.content))
        | interpolate_linear_method ↦
            ok (with_rows df (on_columns there pd.interpolate_linear df.content))
        | interpolate_time_method ↦
            interpolate_columns (numeric_cols df) df df.content >>= (λ rows. ok (with_rows df rows))
      ]

  -- The rows with the test of `spike_mask`.
  unfoldable pub spike_mask : N → ℕ → List (Bar N) → List (Bool × Bar N)
  unfolding average_true_range with_previous is_spike
  spike_mask multiplier atr_period rows =
      map (λ r. (is_spike fl multiplier r, r.1))
        (average_true_range fl atr_period [] (with_previous none rows))

  -- `df.loc[spike_mask, col] = pd.NA` for one column after the other, each interpolated then.
  unfoldable pub blank_marked : Column N → List (Bool × Bar N) → List N
  blank_marked col [] = []
  blank_marked col ((marked, row) ∷ rows) =
      (if marked then pd.nan else col.value row) ∷ blank_marked col rows

  unfoldable pub interpolate_marked : List (Column N) → List (Bool × Bar N) → List (Bar N)
  unfolding blank_marked set_column
  interpolate_marked [] rows = map (λ r. r.1) rows
  interpolate_marked (col ∷ cols) rows =
      let values = pd.interpolate_linear (blank_marked col rows) in
      interpolate_marked cols (marks rows (set_column col values (map (λ r. r.1) rows)))
    where
      marks : List (Bool × Bar N) → List (Bar N) → List (Bool × Bar N)
      marks ((m, old) ∷ olds) (row ∷ rows) = (m, row) ∷ marks olds rows
      marks olds rows = []

  unfoldable pub filter_spikes : N → ℕ → Text → BarFrame N → Result (BarFrame N)
  unfolding need spike_mask interpolate_marked
  filter_spikes multiplier atr_period replace_method df =
      let marked = spike_mask multiplier atr_period df.content in
      if is_empty df || ltb df.rows atr_period
      then ok df
      else (need (str "close" ∷ str "high" ∷ str "low" ∷ []) df >>= (λ _.
          if not (any_of (λ r. r.0) marked)
          then ok df
          else if text_beq replace_method (str "interpolate")
          then need (str "open" ∷ []) df
            >>= (λ _. ok (with_rows df (interpolate_marked price_cols marked)))
          else ok (with_rows df (map (λ r. r.1) (keep (λ r. not r.0) marked)))))

  -- The volumes with the invalid ones replaced, before the last `fillna(1.0)`.
  unfoldable pub replaced_volumes : Text → List N → Result (List N)
  unfolding invalid_volume
  replaced_volumes method volumes =
      let valid = keep (λ v. not (invalid_volume fl v)) volumes in
      let blanked = map (λ v. if invalid_volume fl v then pd.nan else v) volumes in
      let filler = if ltb 0 (length valid) then fl.median valid else fl.one_number in
      if text_beq method (str "ffill")
      then ok (pd.forward_fill blanked)
      else if text_beq method (str "bfill")
      then ok (pd.backward_fill blanked)
      else if text_beq method (str "median")
      then ok (map (λ v. if invalid_volume fl v then filler else v) volumes)
      else raise value_error

  unfoldable pub fill_zero_volumes : Text → BarFrame N → Result (BarFrame N)
  unfolding has_column invalid_volume replaced_volumes set_column
  fill_zero_volumes method df =
      let volumes = map (λ (r : Bar N). r.volume) df.content in
      if is_empty df || not (has_column df (str "volume"))
      then ok df
      else if not (any_of (invalid_volume fl) volumes)
      then ok df
      else (replaced_volumes method volumes >>= (λ values. ok (
          with_rows df (
            set_column volume_of (map (λ v. if fl.is_nan v then fl.one_number else v) values)
              df.content))))

  -- The arguments of `clean_all`, with the defaults of its keywords put in.
  pub record CleanOptions : Type 0 where
    pub removes_duplicates : Bool
    pub fills_gaps : Bool
    pub filters_spikes : Bool
    pub fills_zero_volumes : Bool
    pub fill_method : FillMethod
    pub spike_threshold_multiplier : N
    pub atr_period : ℕ
    pub volume_fill_method : Text

  abbrev pub step_if : Bool → (BarFrame N → Result (BarFrame N)) → BarFrame N → Result (BarFrame N)
  step_if wanted step df = if wanted then step df else ok df

  unfoldable pub clean_all : CleanOptions → BarFrame N → Result (BarFrame N)
  unfolding remove_duplicates fill_gaps filter_spikes fill_zero_volumes has_column
  clean_all o df = do
    deduplicated ← step_if o.removes_duplicates (remove_duplicates pd keep_last) df
    filled ← step_if o.fills_gaps (fill_gaps o.fill_method) deduplicated
    filtered ←
        step_if o.filters_spikes
          (filter_spikes o.spike_threshold_multiplier o.atr_period (str "interpolate")) filled
    step_if (o.fills_zero_volumes && has_column filtered (str "volume"))
        (fill_zero_volumes o.volume_fill_method) filtered
