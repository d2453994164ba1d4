-- ===== src/Checks/Sanity.antt =====
-- What `PriceSanityCheck` accepts.
use mathlib.Core.Path.{subst}
use haru_quant_cbot.Validation.{
  warning, ohlc_inconsistency, price_sanity, is_empty, IssueSeverity, has_column, ValidationIssue,
  Frame,
}
use haru_quant_cbot.Prelude.Text.{str, Text}
use haru_quant_cbot.Prelude.{
  ◌++◌, sym, In-keep_iff, Bool-cases, In, ◌∷◌, [], refl, inr, inl, List-cases, ◌↔◌, keep, true, map,
  arith, ok, any_of, not, ◌||◌, false, Bool, List, ◌≡◌,
}
use haru_quant_cbot.Checks.{BarFrame, report_flagged, Numbers, Bar, need, report_rows}
use haru_quant_cbot.Checks.Prices.{
  bounds_message, hl_message, low_message, high_message, non_positive_message, sanity_issue,
  price_sanity_check, out_of_bounds, hl_violation, low_violation, high_violation, median_close,
  non_positive,
}

-- The frame has each of the columns.
abbrev pub Has : {F : Type 0} → List Text → Frame F → Type 0
Has columns df = any_of (λ c. not (has_column df c)) columns ≡ false

pub need-Has :
    {F : Type 0} (columns : List Text) (df : Frame F) → Has columns df → need columns df ≡ ok tt
unfolding need
need-Has columns df h = ground (arith, h)

report_flagged-Has :
    {A F : Type 0} (columns : List Text) (df : Frame F) (issue : A → ValidationIssue)
    (rows : List A)
    → Has columns df
    → report_flagged columns df issue rows ≡ ok (map issue rows)
unfolding report_flagged
report_flagged-Has columns df issue [] h = refl
report_flagged-Has columns df issue (row ∷ flagged) h = rw (need-Has columns df h) refl

pub report_rows-Has :
    {A F : Type 0} (columns : List Text) (df : Frame F) (mask : A → Bool)
    (issue : A → ValidationIssue) (rows : List A)
    → Has columns df
    → report_rows columns df mask issue rows ≡ ok (map issue (keep mask rows))
unfolding report_rows
report_rows-Has columns df mask issue rows h =
    report_flagged-Has columns df issue (keep mask rows) h

-- The laws of `max` and `min` of two columns, where a missing number compares as false.
pub record OrderLaws {N : Type 0} (fl : Numbers N) : Type 0 where
  pub lt_maximum : (a b c : N) → fl.lt a (fl.maximum b c) ≡ (fl.lt a b || fl.lt a c)
  pub minimum_lt : (a b c : N) → fl.lt (fl.minimum b c) a ≡ (fl.lt b a || fl.lt c a)

pub keep-empty_iff :
    {A : Type 0} (p : A → Bool) (xs : List A) → (keep p xs ≡ []) ↔ ((x : A) → In x xs → p x ≡ false)
keep-empty_iff p xs = (
  λ e x i. elim (Bool-cases (p x)) [
    | inl q ↦ absurd (subst (In x) e ((In-keep_iff p x xs).1 (i, q)))
    | inr no_pass ↦ no_pass
  ],
  λ h. elim (List-cases (keep p xs)) [
    | inl e ↦ e
    | inr (x, rest, e) ↦
        let (i, q) = (In-keep_iff p x xs).0 (subst (In x) (sym e) (inl refl)) in
        absurd (ground (arith, q, h x i))
  ],
)

map-empty_iff : {A B : Type 0} (f : A → B) (xs : List A) → (map f xs ≡ []) ↔ (xs ≡ [])
map-empty_iff f [] = (λ _. refl, λ _. refl)
map-empty_iff f (x ∷ xs) = (λ h. cc, λ h. cc)

append-empty_iff : {A : Type 0} (xs ys : List A) → (xs ++ ys ≡ []) ↔ ((xs ≡ []) × (ys ≡ []))
append-empty_iff [] ys = (λ h. (refl, h), λ h. h.1)
append-empty_iff (x ∷ xs) ys = (λ h. cc, λ h. cc (h.0))

-- No issue of a mask exactly if no row is in it.
issues-empty_iff :
    {A : Type 0} (p : A → Bool) (issue : A → ValidationIssue) (rows : List A)
    → (map issue (keep p rows) ≡ []) ↔ ((x : A) → In x rows → p x ≡ false)
issues-empty_iff p issue rows = (
  λ h. (keep-empty_iff p rows).0 ((map-empty_iff issue (keep p rows)).0 h),
  λ h. (map-empty_iff issue (keep p rows)).1 ((keep-empty_iff p rows).1 h),
)

module _ {A : Type 0} (p q r s t : A → Bool) (f g h k l : A → ValidationIssue) (rows : List A) where
  all_five : List ValidationIssue
  all_five =
      map f (keep p rows)
      ++ map g (keep q rows)
      ++ map h (keep r rows)
      ++ map k (keep s rows)
      ++ map l (keep t rows)

  five-apart :
      all_five ≡ []
      → (map f (keep p rows) ≡ [])
        × (map g (keep q rows) ≡ [])
        × (map h (keep r rows) ≡ [])
        × (map k (keep s rows) ≡ [])
        × (map l (keep t rows) ≡ [])
  unfolding all_five
  five-apart e =
      let abcd =
        map f (keep p rows) ++ map g (keep q rows) ++ map h (keep r rows) ++ map k (keep s rows) in
      let (d1, e5) = (append-empty_iff abcd (map l (keep t rows))).0 e in
      let (d2, e4) =
        (append-empty_iff (map f (keep p rows) ++ map g (keep q rows) ++ map h (keep r rows))
            (map k (keep s rows))).0
          d1 in
      let (d3, e3) =
        (append-empty_iff (map f (keep p rows) ++ map g (keep q rows)) (map h (keep r rows))).0
          d2 in
      let (e1, e2) = (append-empty_iff (map f (keep p rows)) (map g (keep q rows))).0 d3 in
      (e1, e2, e3, e4, e5)

  -- No issue of five loops exactly if each row passes all of them.
  five-empty_iff :
      (map f (keep p rows)
          ++ map g (keep q rows)
          ++ map h (keep r rows)
          ++ map k (keep s rows)
          ++ map l (keep t rows)
        ≡ [])
      ↔ ((x : A) → In x rows → not (p x || q x || r x || s x || t x) ≡ true)
  unfolding all_five
  five-empty_iff = (
    λ e x i.
        let (e1, e2, e3, e4, e5) = five-apart e in
        ground (
          arith,
          (issues-empty_iff p f rows).0 e1 x i,
          (issues-empty_iff q g rows).0 e2 x i,
          (issues-empty_iff r h rows).0 e3 x i,
          (issues-empty_iff s k rows).0 e4 x i,
          (issues-empty_iff t l rows).0 e5 x i,
        ),
    λ all.
        rw
          (
            (issues-empty_iff p f rows).1 (λ x i. ground (arith, all x i)),
            (issues-empty_iff q g rows).1 (λ x i. ground (arith, all x i)),
            (issues-empty_iff r h rows).1 (λ x i. ground (arith, all x i)),
            (issues-empty_iff s k rows).1 (λ x i. ground (arith, all x i)),
            (issues-empty_iff t l rows).1 (λ x i. ground (arith, all x i)),
          )
          refl,
  )

module _ {N : Type 0} (fl : Numbers N) where
  -- The prices of a bar are above zero, its high is below none of the others and its low above none.
  abbrev pub IsSane : Bar N → Type 0
  IsSane row =
      ((fl.le row.«open» fl.zero_number ≡ false)
        × (fl.le row.high fl.zero_number ≡ false)
        × (fl.le row.low fl.zero_number ≡ false)
        × (fl.le row.close fl.zero_number ≡ false))
      × ((fl.lt row.high row.«open» ≡ false)
          × (fl.lt row.high row.close ≡ false)
          × (fl.lt row.high row.low ≡ false))
      × ((fl.lt row.«open» row.low ≡ false) × (fl.lt row.close row.low ≡ false))

  abbrev pub IsInBounds : N → List (Bar N) → Bar N → Type 0
  IsInBounds multiplier rows row =
      (fl.lt (fl.mul (median_close fl rows) multiplier) row.close ≡ false)
      × (fl.lt row.close (fl.div (median_close fl rows) multiplier) ≡ false)

  -- What the five masks let through.
  passes : N → List (Bar N) → Bar N → Bool
  passes multiplier rows row = not (
      non_positive fl row
      || high_violation fl row
      || low_violation fl row
      || hl_violation fl row
      || out_of_bounds fl multiplier rows row)

  passes_iff :
      (laws : OrderLaws fl) (multiplier : N) (rows : List (Bar N)) (row : Bar N)
      → (passes multiplier rows row ≡ true) ↔ (IsSane row × IsInBounds multiplier rows row)
  unfolding passes non_positive high_violation low_violation hl_violation out_of_bounds
  passes_iff laws multiplier rows row = ground (
    arith,
    laws.lt_maximum row.high row.«open» row.close,
    laws.minimum_lt row.low row.«open» row.close,
  )

  -- The issues of the five loops.
  abbrev pub sanity_issues : N → IssueSeverity → Text → List (Bar N) → List ValidationIssue
  sanity_issues multiplier severity symbol rows =
      map (sanity_issue fl price_sanity severity symbol (non_positive_message fl))
        (keep (non_positive fl) rows)
      ++ map (sanity_issue fl ohlc_inconsistency severity symbol (high_message fl))
          (keep (high_violation fl) rows)
      ++ map (sanity_issue fl ohlc_inconsistency severity symbol (low_message fl))
          (keep (low_violation fl) rows)
      ++ map (sanity_issue fl ohlc_inconsistency severity symbol (hl_message fl))
          (keep (hl_violation fl) rows)
      ++ map (sanity_issue fl price_sanity warning symbol (bounds_message fl multiplier rows))
          (keep (out_of_bounds fl multiplier rows) rows)

  pub price_sanity_check-issues :
      (multiplier : N) (severity : IssueSeverity) (df : BarFrame N) (symbol : Text)
      → is_empty df ≡ false
      → Has (str "open" ∷ str "high" ∷ str "low" ∷ str "close" ∷ []) df
      → Has (str "timestamp" ∷ []) df
      → price_sanity_check fl multiplier severity df symbol
        ≡ ok (sanity_issues multiplier severity symbol df.content)
  unfolding price_sanity_check
  price_sanity_check-issues multiplier severity df symbol full prices times =
      let rows : (p : Bar N → Bool) (issue : Bar N → ValidationIssue)
          → report_rows (str "timestamp" ∷ []) df p issue df.content
            ≡ ok (map issue (keep p df.content)) =
        λ p issue. report_rows-Has (str "timestamp" ∷ []) df p issue df.content times in
      rw
        (
          full,
          need-Has (str "open" ∷ str "high" ∷ str "low" ∷ str "close" ∷ []) df prices,
          rows (non_positive fl) _,
          rows (high_violation fl) _,
          rows (low_violation fl) _,
          rows (hl_violation fl) _,
          rows (out_of_bounds fl multiplier df.content) _,
        )
        refl

  all_pass :
      (multiplier : N) (severity : IssueSeverity) (symbol : Text) (rows : List (Bar N))
      → (sanity_issues multiplier severity symbol rows ≡ [])
        ↔ ((row : Bar N) → In row rows → passes multiplier rows row ≡ true)
  unfolding passes
  all_pass multiplier severity symbol rows =
      five-empty_iff (non_positive fl) (high_violation fl) (low_violation fl) (hl_violation fl)
        (out_of_bounds fl multiplier rows) _ _ _ _ _ rows

  -- On a frame with rows, times and the four prices the check always ends with a list of issues, and
  -- the list is empty exactly if no bar breaks a rule: no price is zero or below, the high is not below
  -- open, close or low, the low is not above open or close, and the close is not outside the bounds about
  -- the median, each as the numbers compare.
  pub price_sanity_check-clean :
      (laws : OrderLaws fl) (multiplier : N) (severity : IssueSeverity) (df : BarFrame N)
      (symbol : Text)
      → is_empty df ≡ false
      → Has (str "open" ∷ str "high" ∷ str "low" ∷ str "close" ∷ []) df
      → Has (str "timestamp" ∷ []) df
      → (issues : List ValidationIssue) × (price_sanity_check fl multiplier severity df symbol
          ≡ ok issues)
        × ((issues ≡ []) ↔ (
            (row : Bar N) → In row df.content → IsSane row × IsInBounds multiplier df.content row))
  price_sanity_check-clean laws multiplier severity df symbol full prices times =
      let (there, back) = all_pass multiplier severity symbol df.content in
      (
        sanity_issues multiplier severity symbol df.content,
        price_sanity_check-issues multiplier severity df symbol full prices times,
        (
          λ e row i. (passes_iff laws multiplier df.content row).0 (there e row i),
          λ h. back (λ row i. (passes_iff laws multiplier df.content row).1 (h row i)),
        ),
      )
