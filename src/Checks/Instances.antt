-- ===== src/Checks/Instances.antt =====
-- Whole numbers, frames over them, and a sort and fills that meet the laws asked of pandas.
use haru_quant_cbot.Prelude.Int.{pos, pos_part}
use haru_quant_cbot.Checks.Standard.{ValidationConfig}
use haru_quant_cbot.Prelude.Text.{decimal, Text, str}
use haru_quant_cbot.Checks.Refilled.{Filled, FillLaws}
use haru_quant_cbot.Checks.Cleaned.{SortLaws, IsOrdered}
use haru_quant_cbot.Prelude.Sort.{In-sort_iff, sort, place}
use haru_quant_cbot.Prelude.{
  ok, min, max, ◌/◌, ◌*◌, false, ◌-◌, none, Bool, ltb, All, refl, ◌≤◌, ◌+◌, arith, Bool-cases, ◌⊎◌,
  true, inr, [], leb, if◌then◌else◌, ◌≡◌, inl, value_error, ◌∷◌, In, nat_beq, raise, ℕ, List,
}
use haru_quant_cbot.Checks.Cleaning.{Pandas}
use haru_quant_cbot.Checks.Volumes.{invalid_volume}
use haru_quant_cbot.Checks.{Numbers, Bar, BarFrame}

-- Whole numbers with a tolerance in halves, as the numbers of the checks.
abbrev pub wholes : Numbers ℕ
wholes = record {
  lt = ltb;
  le = leb;
  is_zero = λ x. nat_beq x 0;
  is_nan = λ x. false;
  zero_number = 0;
  one_number = 1;
  sub = λ a b. a - b;
  mul = λ a b. a * b / 2;
  div = λ a b. a / b;
  absolute = λ a. a;
  maximum = max;
  minimum = min;
  mean = λ xs. 5;
  median = λ xs. 6;
  window_mean = λ xs. 5;
  of_int = pos_part;
  truncate = λ x. ok (pos x);
  most_common = λ ds. pos 60;
  show = decimal;
  show_fixed = λ n x. decimal x;
  show_int = λ n. decimal (pos_part n);
}

abbrev pub bar_at : ℕ → ℕ → Bar ℕ
bar_at t price = record {
  timestamp = t;
  «open» = price;
  high = price + 2;
  low = price - 1;
  close = price;
  volume = 1;
  tick_volume = 1;
  real_volume = 1;
}

abbrev pub provider_columns : List Text
provider_columns =
    str "timestamp" ∷ str "open" ∷ str "high" ∷ str "low" ∷ str "close" ∷ str "tick_volume" ∷ []

-- Two of three bars at one time.
abbrev pub twice_frame : BarFrame ℕ
twice_frame = record {
  columns = provider_columns;
  rows = 3;
  content = bar_at 0 5 ∷ bar_at 0 6 ∷ bar_at 60000000 7 ∷ [];
}

abbrev pub settings : ValidationConfig ℕ
settings = record {
  price_bound_multiplier = 4;
  gap_threshold_multiplier = 20;
  spike_threshold_multiplier = 10;
  spike_atr_period = 14;
  spread_threshold_multiplier = 6;
  expected_interval_seconds = none;
  enabled_checks = none;
  tolerance = 3;
}

abbrev pub as_is : Text → Text
as_is t = t

-- Bars whose columns are those of the details too.
abbrev pub volume_frame : BarFrame ℕ
volume_frame = record twice_frame { columns = str "volume" ∷ provider_columns }

-- 99 stands for a missing number.
abbrev pub gappy : Numbers ℕ
gappy = record wholes { is_nan = λ x. nat_beq x 99 }

-- The last number that was there fills the missing ones.
abbrev pub fill_from : ℕ → List ℕ → List ℕ
fill_from last [] = []
fill_from last (x ∷ xs) = if nat_beq x 99 then last ∷ fill_from last xs else x ∷ fill_from x xs

abbrev pub at_times : List (Bar ℕ) → List (Bar ℕ)
at_times rows = sort (λ (a b : Bar ℕ). leb a.timestamp b.timestamp) rows

abbrev pub filler : Pandas ℕ
filler = record {
  nan = 99;
  sort_values = at_times;
  forward_fill = fill_from 99;
  backward_fill = λ xs. xs;
  interpolate_linear = λ xs. xs;
  interpolate_time = λ times xs. raise value_error;
}

fill_from-Filled :
    (last : ℕ) (whole xs : List ℕ)
    → (nat_beq last 99 ≡ true) ⊎ In last whole
    → ((x : ℕ) → In x xs → In x whole)
    → Filled gappy whole xs (fill_from last xs)
fill_from-Filled last whole [] l h = tt
fill_from-Filled last whole (x ∷ xs) l h = elim (Bool-cases (nat_beq x 99)) [
  | inl missing ↦ rw missing (
    (λ there. absurd (ground (arith, missing, there)), l),
    fill_from-Filled last whole xs l (λ y i. h y (inr i)),
  )
  | inr there ↦ rw there (
    (λ _. refl, inr (h x (inl refl))),
    fill_from-Filled x whole xs (inr (h x (inl refl))) (λ y i. h y (inr i)),
  )
]

stays-Filled : (whole xs : List ℕ) → ((x : ℕ) → In x xs → In x whole) → Filled gappy whole xs xs
stays-Filled whole [] h = tt
stays-Filled whole (x ∷ xs) h =
    ((λ _. refl, inr (h x (inl refl))), stays-Filled whole xs (λ y i. h y (inr i)))

pub gappy-FillLaws : FillLaws gappy filler
unfolding invalid_volume
gappy-FillLaws = record {
  nan_is_nan = refl;
  one_valid = refl;
  forward = λ xs. fill_from-Filled 99 xs xs (inl refl) (λ x i. i);
  backward = λ xs. stays-Filled xs xs (λ x i. i);
  median_valid = λ x xs h. refl;
}

All-place :
    (P : Bar ℕ → Type 0) (le : Bar ℕ → Bar ℕ → Bool) (row : Bar ℕ) (rows : List (Bar ℕ))
    → P row
    → All P rows
    → All P (place le row rows)
unfolding place
All-place P le row [] p h = (p, tt)
All-place P le row (r ∷ rows) p h = elim (Bool-cases (le row r)) [
  | inl e ↦ rw e (p, h)
  | inr e ↦ rw e (h.0, All-place P le row rows p h.1)
]

All-mono :
    (P Q : Bar ℕ → Type 0) (rows : List (Bar ℕ))
    → ((r : Bar ℕ) → P r → Q r)
    → All P rows
    → All Q rows
All-mono P Q [] f h = tt
All-mono P Q (r ∷ rows) f h = (f r h.0, All-mono P Q rows f h.1)

place-IsOrdered :
    (row : Bar ℕ) (rows : List (Bar ℕ))
    → IsOrdered rows
    → IsOrdered (place (λ (a b : Bar ℕ). leb a.timestamp b.timestamp) row rows)
unfolding place
place-IsOrdered row [] o = (tt, tt)
place-IsOrdered row (r ∷ rows) o = elim (Bool-cases (leb row.timestamp r.timestamp)) [
  | inl e ↦
      let first : row.timestamp ≤ r.timestamp = ground arith in
      rw e (
        (
          first,
          All-mono (λ (x : Bar ℕ). r.timestamp ≤ x.timestamp)
              (λ (x : Bar ℕ). row.timestamp ≤ x.timestamp) rows (λ x k. omega arith) o.0,
        ),
        o,
      )
  | inr e ↦
      let later : r.timestamp ≤ row.timestamp = ground arith in
      rw e (
        All-place (λ (x : Bar ℕ). r.timestamp ≤ x.timestamp)
            (λ (a b : Bar ℕ). leb a.timestamp b.timestamp) row rows later o.0,
        place-IsOrdered row rows o.1,
      )
]

at_times-IsOrdered : (rows : List (Bar ℕ)) → IsOrdered (at_times rows)
unfolding sort
at_times-IsOrdered [] = tt
at_times-IsOrdered (row ∷ rows) = place-IsOrdered row (at_times rows) (at_times-IsOrdered rows)

pub filler-SortLaws : SortLaws filler
filler-SortLaws = record {
  ordered = at_times-IsOrdered;
  same_rows = λ row rows. In-sort_iff (λ (a b : Bar ℕ). leb a.timestamp b.timestamp) row rows;
}
