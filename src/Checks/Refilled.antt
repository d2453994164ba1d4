-- ===== src/Checks/Refilled.antt =====
-- What `fill_zero_volumes` of src/hqt/data/validation/cleaning.py leaves of a frame.
use mathlib.Core.Path.{subst}
use haru_quant_cbot.Validation.{has_column, is_empty}
use haru_quant_cbot.Prelude.Text.{str, text_beq, Text}
use haru_quant_cbot.Prelude.{
  ok, sym, In-keep_iff, ap, keep, List-cases, not, length, any_of, Bool, ltb, refl, [], inl, inr,
  Bool-cases, ◌∷◌, arith, ◌⊎◌, In, false, true, map, List, if◌then◌else◌, ◌≡◌,
}
use haru_quant_cbot.Checks.{BarFrame, Numbers, Bar}
use haru_quant_cbot.Checks.Volumes.{invalid_volume}
use haru_quant_cbot.Checks.Cleaning.{
  with_rows, fill_zero_volumes, replaced_volumes, volume_of, set_column, Pandas,
}

module _ {N : Type 0} (fl : Numbers N) where
  -- A column that was filled from the column `whole`: what was there stays, and a new value is one of
  -- the column or still missing.
  abbrev pub Filled : List N → List N → List N → Type 0
  Filled whole [] [] = Unit
  Filled whole [] (y ∷ ys) = ⊥
  Filled whole (x ∷ xs) [] = ⊥
  Filled whole (x ∷ xs) (y ∷ ys) =
      ((fl.is_nan x ≡ false → y ≡ x) × ((fl.is_nan y ≡ true) ⊎ In y whole)) × Filled whole xs ys

  pub record FillLaws (pd : Pandas N) : Type 0 where
    pub nan_is_nan : fl.is_nan pd.nan ≡ true
    pub one_valid : invalid_volume fl fl.one_number ≡ false
    pub forward : (xs : List N) → Filled xs xs (pd.forward_fill xs)
    pub backward : (xs : List N) → Filled xs xs (pd.backward_fill xs)
    pub median_valid :
        (x : N) (xs : List N)
        → ((y : N) → In y (x ∷ xs) → invalid_volume fl y ≡ false)
        → invalid_volume fl (fl.median (x ∷ xs)) ≡ false

  -- The rows but for their volumes, which are valid now; a valid volume stays.
  abbrev pub Refilled : List (Bar N) → List (Bar N) → Type 0
  Refilled [] [] = Unit
  Refilled [] (b ∷ new) = ⊥
  Refilled (a ∷ old) [] = ⊥
  Refilled (a ∷ old) (b ∷ new) =
      ((b ≡ record a { volume = b.volume })
        × (invalid_volume fl b.volume ≡ false)
        × (invalid_volume fl a.volume ≡ false → b.volume ≡ a.volume))
      × Refilled old new

  abbrev fixed : N → N
  fixed v = if fl.is_nan v then fl.one_number else v

  abbrev valued : List (Bar N) → List N
  valued rows = map (λ (r : Bar N). r.volume) rows

  abbrev blanked : Pandas N → List N → List N
  blanked pd volumes = map (λ v. if invalid_volume fl v then pd.nan else v) volumes

  module _ (pd : Pandas N) (laws : FillLaws pd) where
    -- A value of a blanked column that is not missing is valid.
    blanked-valid :
        (y : N) (volumes : List N)
        → In y (blanked pd volumes)
        → fl.is_nan y ≡ false
        → invalid_volume fl y ≡ false
    blanked-valid y [] i h = absurd i
    blanked-valid y (v ∷ volumes) (inr i) h = blanked-valid y volumes i h
    blanked-valid y (v ∷ volumes) (inl e) h = ground (arith, laws.nan_is_nan)

    now_valid :
        (volumes : List N) (y : N)
        → (fl.is_nan y ≡ true) ⊎ In y (blanked pd volumes)
        → invalid_volume fl (fixed y) ≡ false
    now_valid volumes y origin = elim (Bool-cases (fl.is_nan y)) [
      | inl missing ↦ rw missing laws.one_valid
      | inr there ↦ rw there (elim origin [
        | inl missing ↦ absurd (ground (arith, missing, there))
        | inr i ↦ blanked-valid y volumes i there
      ])
    ]

    stays :
        (v y : N)
        → (fl.is_nan (if invalid_volume fl v then pd.nan else v) ≡ false
            → y ≡ (if invalid_volume fl v then pd.nan else v))
        → invalid_volume fl v ≡ false
        → fixed y ≡ v
    unfolding invalid_volume
    stays v y same h = ground (arith, same)

    column-Refilled :
        (volumes : List N) (rows : List (Bar N)) (ys : List N)
        → Filled (blanked pd volumes) (blanked pd (valued rows)) ys
        → Refilled rows (set_column volume_of (map fixed ys) rows)
    unfolding set_column
    column-Refilled volumes [] [] f = tt
    column-Refilled volumes [] (y ∷ ys) f = absurd f
    column-Refilled volumes (row ∷ rows) [] f = absurd f
    column-Refilled volumes (row ∷ rows) (y ∷ ys) f = (
      (refl, now_valid volumes y f.0.1, stays row.volume y f.0.0),
      column-Refilled volumes rows ys f.1,
    )

    abbrev filler : List N → N
    filler volumes =
        if ltb 0 (length (keep (λ v. not (invalid_volume fl v)) volumes))
        then fl.median (keep (λ v. not (invalid_volume fl v)) volumes)
        else fl.one_number

    median_valid_value :
        (x : N)
        → invalid_volume fl x ≡ false
        → (v : N) → invalid_volume fl (fixed (if invalid_volume fl v then x else v)) ≡ false
    unfolding invalid_volume
    median_valid_value x h v = ground (arith, h)

    median_same_value :
        (x v : N) → invalid_volume fl v ≡ false → fixed (if invalid_volume fl v then x else v) ≡ v
    unfolding invalid_volume
    median_same_value x v h = ground (arith, h)

    median-Refilled :
        (x : N) (rows : List (Bar N))
        → invalid_volume fl x ≡ false
        → Refilled rows (
            set_column volume_of
              (map fixed (map (λ v. if invalid_volume fl v then x else v) (valued rows)))
              rows)
    unfolding set_column
    median-Refilled x [] h = tt
    median-Refilled x (row ∷ rows) h = (
      (refl, median_valid_value x h row.volume, median_same_value x row.volume),
      median-Refilled x rows h,
    )

    filler-valid : (volumes : List N) → invalid_volume fl (filler volumes) ≡ false
    filler-valid volumes =
        let valid : N → Bool = λ v. not (invalid_volume fl v) in
        elim (List-cases (keep valid volumes)) [
          | inl e ↦ rw e laws.one_valid
          | inr (x, rest, e) ↦
              let some_valid : ltb 0 (length (keep valid volumes)) ≡ true =
                ground (arith, ap length e) in
              rw (some_valid, e)
                (laws.median_valid x rest (λ y i.
                  let (_, q) = (In-keep_iff valid y volumes).0 (subst (In y) (sym e) i) in
                  ground (arith, q)))
        ]

    already-Refilled :
        (rows : List (Bar N))
        → any_of (invalid_volume fl) (valued rows) ≡ false
        → Refilled rows rows
    already-Refilled [] h = tt
    already-Refilled (row ∷ rows) h =
        ((refl, ground arith, λ _. refl), already-Refilled rows (ground arith))

    unchanged :
        (method : Text) (df : BarFrame N)
        → is_empty df ≡ false
        → has_column df (str "volume") ≡ true
        → any_of (invalid_volume fl) (valued df.content) ≡ false
        → fill_zero_volumes fl pd method df ≡ ok df
    unfolding fill_zero_volumes
    unchanged method df full there valid = rw (full, there, valid) refl

    by_method :
        (method : Text) (df : BarFrame N) (values : List N)
        → is_empty df ≡ false
        → has_column df (str "volume") ≡ true
        → any_of (invalid_volume fl) (valued df.content) ≡ true
        → replaced_volumes fl pd method (valued df.content) ≡ ok values
        → fill_zero_volumes fl pd method df
          ≡ ok (with_rows df (set_column volume_of (map fixed values) df.content))
    unfolding fill_zero_volumes
    by_method method df values full there invalid e = rw (full, there, invalid, e) refl

    -- On a frame with rows and volumes, each of the three methods gives a frame of the same rows whose
    -- volumes are all above zero and not missing; a row changes at most in its volume, and a volume
    -- that was valid stays.
    pub fill_zero_volumes-Refilled :
        (method : Text) (df : BarFrame N)
        → is_empty df ≡ false
        → has_column df (str "volume") ≡ true
        → (method ≡ str "ffill") ⊎ (method ≡ str "bfill") ⊎ (method ≡ str "median")
        → (clean : BarFrame N) × (fill_zero_volumes fl pd method df ≡ ok clean)
          × Refilled df.content clean.content
    unfolding replaced_volumes text_beq
    fill_zero_volumes-Refilled method df full there m =
        elim (Bool-cases (any_of (invalid_volume fl) (valued df.content))) [
          | inr none_invalid ↦ (
            df,
            unchanged method df full there none_invalid,
            already-Refilled df.content none_invalid,
          )
          | inl some_invalid ↦ elim m [
            | inl e ↦ (
              with_rows df (
                  set_column volume_of
                    (map fixed (pd.forward_fill (blanked pd (valued df.content)))) df.content),
              rw e (by_method (str "ffill") df _ full there some_invalid refl),
              column-Refilled (valued df.content) df.content _
                  (laws.forward (blanked pd (valued df.content))),
            )
            | inr (inl e) ↦ (
              with_rows df (
                  set_column volume_of
                    (map fixed (pd.backward_fill (blanked pd (valued df.content)))) df.content),
              rw e (by_method (str "bfill") df _ full there some_invalid refl),
              column-Refilled (valued df.content) df.content _
                  (laws.backward (blanked pd (valued df.content))),
            )
            | inr (inr e) ↦ (
              with_rows df (
                  set_column volume_of
                    (map fixed (
                      map (λ v. if invalid_volume fl v then filler (valued df.content) else v)
                        (valued df.content)))
                    df.content),
              rw e (by_method (str "median") df _ full there some_invalid refl),
              median-Refilled (filler (valued df.content)) df.content
                  (filler-valid (valued df.content)),
            )
          ]
        ]
