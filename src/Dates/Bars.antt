-- ===== src/Dates/Bars.antt =====
-- Where `align_to_bar` of src/hqt/foundation/utils/datetime_utils.py puts a datetime.
use haru_quant_cbot.Prelude.{
  refl, false, nat_beq, ◌-◌, ◌/◌, ◌+◌, ok, ◌<◌, arith, true, ◌≡◌, ◌*◌, ◌≤◌, ℕ,
}
use native.Mathlib.Nat.{mul_assoc, div-add-mod', mod-lt}
use haru_quant_cbot.Dates.{Datetime, align_to_bar, aligned_minutes, floor, ceil, minute}
use haru_quant_cbot.Prelude.Int.{pos}

-- A multiple of the number of minutes.
abbrev pub IsMultiple : ℕ → ℕ → Type 0
IsMultiple minutes n = (k : ℕ) × (n ≡ k * minutes)

floor-bounds :
    (total minutes : ℕ)
    → 1 ≤ minutes
    → (total / minutes * minutes ≤ total) × (total < total / minutes * minutes + minutes)
floor-bounds total minutes h = omega (arith, div-add-mod' total minutes, mod-lt total h)

ceil-bounds :
    (total minutes : ℕ)
    → 1 ≤ minutes
    → let aligned = (total + (minutes - 1)) / minutes * minutes in
      (total ≤ aligned) × (aligned < total + minutes)
ceil-bounds total minutes h =
    omega (arith, div-add-mod' (total + (minutes - 1)) minutes, mod-lt (total + (minutes - 1)) h)

regroup : (k minutes : ℕ) → k * minutes * minute ≡ k * (minutes * minute)
regroup k minutes = omega (arith, mul_assoc k minutes minute)

-- For an aware datetime from 1970 on and a timeframe of at least a minute, floor gives the last multiple
-- of the timeframe that is not after the datetime, and ceil the first multiple that is not before the
-- minute of the datetime; so what ceil gives may lie less than a minute before the datetime itself.
pub align_to_bar-exact :
    (dt : Datetime) (time minutes : ℕ)
    → dt.micros ≡ pos time
    → dt.is_aware ≡ true
    → 1 ≤ minutes
    → ((down : ℕ) × (align_to_bar dt (pos minutes) floor ≡ ok (record dt { micros = pos down }))
        × IsMultiple (minutes * minute) down
        × (down ≤ time)
        × (time < down + minutes * minute))
      × ((up : ℕ) × (align_to_bar dt (pos minutes) ceil ≡ ok (record dt { micros = pos up }))
          × IsMultiple (minutes * minute) up
          × (time < up + minute)
          × (up < time / minute * minute + minutes * minute))
unfolding align_to_bar aligned_minutes
align_to_bar-exact dt time minutes from aware h =
    let total = time / minute in
    let (f, f') = floor-bounds total minutes h in
    let (c, c') = ceil-bounds total minutes h in
    let not_zero : nat_beq minutes 0 ≡ false = ground arith in
    (
      (
        total / minutes * minutes * minute,
        rw (aware, not_zero, from) refl,
        (total / minutes, regroup (total / minutes) minutes),
        omega arith,
        omega arith,
      ),
      (
        (total + (minutes - 1)) / minutes * minutes * minute,
        rw (aware, not_zero, from) refl,
        ((total + (minutes - 1)) / minutes, regroup ((total + (minutes - 1)) / minutes) minutes),
        omega arith,
        omega arith,
      ),
    )
