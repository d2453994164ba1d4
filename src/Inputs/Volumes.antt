-- ===== src/Inputs/Volumes.antt =====
-- The volumes that `validate_volume` of src/hqt/foundation/utils/validation_utils.py gives.
use haru_quant_cbot.Prelude.Int.{◌-ℤ◌, pos}
use haru_quant_cbot.Prelude.{
  zero, suc, ltb, Bool-cases, refl, inl, inr, min, max, ok, ◌⊎◌, value_error, raise, ◌-◌, arith,
  ◌≡◌, ◌<◌, ◌/◌, ◌+◌, ◌*◌, ◌≤◌, ℕ,
}
use native.Mathlib.Nat.{div-add-mod', mod-lt, mul_assoc, mul_comm}
use haru_quant_cbot.Inputs.{
  clamped_volume, rounded_volume, validate_volume, RoundMode, down, up, nearest, other_mode,
}

-- A multiple of the step next to the volume, on the side of the mode; up, it may be less than `eight`
-- below the volume.
abbrev pub IsRounded : ℕ → RoundMode → ℕ → ℕ → ℕ → Type 0
IsRounded eight down v step r = (r ≤ v) × (v < r + step)
IsRounded eight up v step r = (v < r + eight) × (r + eight ≤ v + step)
IsRounded eight nearest v step r = (2 * r ≤ 2 * v + step) × (2 * v < 2 * r + step)
IsRounded eight other_mode v step r = ⊥

down-bounds : (eight v step : ℕ) → 1 ≤ step → IsRounded eight down v step (v / step * step)
down-bounds eight v step h =
    (omega (arith, div-add-mod' v step), omega (arith, div-add-mod' v step, mod-lt v h))

up-bounds :
    (eight v step : ℕ)
    → 1 ≤ step
    → eight ≤ v + step
    → IsRounded eight up v step ((v + step - eight) / step * step)
up-bounds eight v step h k = (
  omega (arith, div-add-mod' (v + step - eight) step, mod-lt (v + step - eight) h),
  omega (arith, div-add-mod' (v + step - eight) step),
)

twice_product : (q step : ℕ) → q * (2 * step) ≡ 2 * (q * step)
twice_product q step = omega (arith, mul_assoc q 2 step, mul_assoc 2 q step, mul_comm q 2)

nearest-bounds :
    (eight v step : ℕ)
    → 1 ≤ step
    → IsRounded eight nearest v step ((2 * v + step) / (2 * step) * step)
nearest-bounds eight v step h =
    let q = (2 * v + step) / (2 * step) in
    let twice : q * (2 * step) ≡ 2 * (q * step) = twice_product q step in
    let double : 1 ≤ 2 * step = omega arith in
    (
      omega (arith, div-add-mod' (2 * v + step) (2 * step), twice),
      omega (arith, div-add-mod' (2 * v + step) (2 * step), mod-lt (2 * v + step) double, twice),
    )

-- Where volume and step are together below 0.00000001, the number of steps is zero or negative, and
-- the lower limit stands for it.
clamped_negative :
    (least most n : ℕ)
    → 1 ≤ least
    → clamped_volume least most (pos 0 -ℤ pos n) ≡ max least (min 0 most)
unfolding ◌-ℤ◌
clamped_negative least most zero h = refl
clamped_negative least most (suc n) h = ground arith

-- Of decimal numbers, a volume that is not negative, over a positive step and positive limits in order,
-- gives a multiple of the step, put between the limits: down, the last that is not above the volume;
-- nearest, the one closest to it, the higher of two; up, the one in the step's length above the
-- volume less 0.00000001, so that it may be below a volume by less than this. Up, with a step so small
-- that volume and step are together below 0.00000001, gives the lower limit, and a mode that is not
-- one of the three raises a ValueError.
pub validate_volume-exact :
    (eight v least most step : ℕ) (mode : RoundMode)
    → 1 ≤ least
    → least ≤ most
    → 1 ≤ step
    → let answer = validate_volume eight (pos v) (pos least) (pos most) (pos step) mode in
      ((mode ≡ other_mode) × (answer ≡ raise value_error))
      ⊎ ((mode ≡ up) × (v + step < eight) × (answer ≡ ok least))
      ⊎ ((q : ℕ) × IsRounded eight mode v step (q * step)
          × (answer ≡ ok (max least (min (q * step) most))))
unfolding validate_volume rounded_volume
validate_volume-exact eight v least most step down h k l =
    inr (inr (v / step, down-bounds eight v step l, ground arith))
validate_volume-exact eight v least most step up h k l = elim (Bool-cases (ltb (v + step) eight)) [
  | inl small ↦ inr (
      inl (
        refl,
        ground (arith, small),
        ground (arith, small, clamped_negative least most ((eight - (v + step)) / step * step) h),
      ))
  | inr fine ↦
      let enough : eight ≤ v + step = ground (arith, fine) in
      inr (inr ((v + step - eight) / step, up-bounds eight v step l enough, ground (arith, fine)))
]
validate_volume-exact eight v least most step nearest h k l =
    inr (inr ((2 * v + step) / (2 * step), nearest-bounds eight v step l, ground arith))
validate_volume-exact eight v least most step other_mode h k l = inl (refl, ground arith)
