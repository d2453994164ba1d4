-- ===== src/Providers/Hours.antt =====
-- The hours that `DukascopyProvider` of src/hqt/data/providers/dukascopy_provider.py downloads.
use haru_quant_cbot.Prelude.Sort.{IsSorted}
use haru_quant_cbot.Prelude.{
  ◌∷◌, List, zero, ltb, Bool-cases, inr, refl, inl, ◌⊎◌, ◌-◌, suc, ◌≤◌, arith, ◌/◌, ◌≡◌, ◌*◌, ◌↔◌,
  ◌+◌, ◌<◌, In, ℕ,
}
use haru_quant_cbot.Providers.Dukascopy.{generate_hour_list, hours_from, end_hour, hour_us}

-- With fuel for all hours up to the end, the loop gives each of them.
hours_from-exact :
    (fuel current stop h : ℕ)
    → stop < current + fuel * hour_us
    → In h (hours_from fuel current stop) ↔ ((k : ℕ) × (h ≡ current + k * hour_us) × (h < stop))
unfolding hours_from
hours_from-exact zero current stop h enough = (λ i. absurd i, λ f. absurd (omega (arith, f.1, f.2)))
hours_from-exact (suc fuel) current stop h enough =
    let (there, back) = hours_from-exact fuel (current + hour_us) stop h (omega arith) in
    elim (Bool-cases (ltb current stop)) [
      | inl more ↦ rw more (
        λ i. elim i [
          | inl e ↦ (0, omega arith, ground arith)
          | inr j ↦ let (k, e, l) = there j in (suc k, omega arith, l)
        ],
        λ f. from_k f.0 f.1 f.2 back,
      )
      | inr over ↦ rw over (λ i. absurd i, λ f. absurd (ground (arith, f.1, f.2)))
    ]
  where
    from_k :
        (k : ℕ)
        → h ≡ current + k * hour_us
        → h < stop
        → (((k : ℕ) × (h ≡ current + hour_us + k * hour_us) × (h < stop))
            → In h (hours_from fuel (current + hour_us) stop))
        → (h ≡ current) ⊎ In h (hours_from fuel (current + hour_us) stop)
    from_k zero e l back = inl (omega arith)
    from_k (suc k) e l back = inr (back (k, omega arith, l))

hours_from-later :
    (fuel current stop : ℕ)
    → IsSorted ltb (hours_from fuel (current + hour_us) stop)
    → IsSorted ltb (current ∷ hours_from fuel (current + hour_us) stop)
unfolding hours_from
hours_from-later zero current stop h = tt
hours_from-later (suc fuel) current stop h = elim (Bool-cases (ltb (current + hour_us) stop)) [
  | inl more ↦ ground (arith, more, h)
  | inr over ↦ rw over tt
]

hours_from-IsSorted : (fuel current stop : ℕ) → IsSorted ltb (hours_from fuel current stop)
unfolding hours_from
hours_from-IsSorted zero current stop = tt
hours_from-IsSorted (suc fuel) current stop = elim (Bool-cases (ltb current stop)) [
  | inl more ↦
      rw more
        (hours_from-later fuel current stop (hours_from-IsSorted fuel (current + hour_us) stop))
  | inr over ↦ rw over tt
]

-- The full hours from that of the start on that begin before the end, each once and in order.
abbrev pub AreHours : ℕ → ℕ → List ℕ → Type 0
AreHours start stop hours =
    IsSorted ltb hours
    × ((h : ℕ)
        → In h hours ↔ ((k : ℕ) × (h ≡ k * hour_us) × (start / hour_us * hour_us ≤ h) × (h < stop)))

-- The loop ends with the full hours from that of the start on that begin before the end, each once and
-- in order, and so with the hour of every moment from the start on and before the end.
pub generate_hour_list-exact :
    (start stop : ℕ)
    → AreHours start stop (generate_hour_list start stop)
      × ((t : ℕ)
          → start ≤ t
          → t < stop
          → In (t / hour_us * hour_us) (generate_hour_list start stop))
unfolding generate_hour_list end_hour
generate_hour_list-exact start stop = (
  (
    hours_from-IsSorted (suc (end_hour stop / hour_us)) (start / hour_us * hour_us) (end_hour stop),
    exact,
  ),
  λ t from before. (exact (t / hour_us * hour_us)).1 (t / hour_us, refl, omega arith, omega arith),
)
  where
    below : (k : ℕ) → k * hour_us < end_hour stop → k * hour_us < stop
    below k h = ground arith

    above : (k : ℕ) → k * hour_us < stop → k * hour_us < end_hour stop
    above k h = ground arith

    exact :
        (h : ℕ)
        → In h (generate_hour_list start stop)
          ↔ ((k : ℕ) × (h ≡ k * hour_us) × (start / hour_us * hour_us ≤ h) × (h < stop))
    exact h =
        let (there, back) =
          hours_from-exact (suc (end_hour stop / hour_us)) (start / hour_us * hour_us)
            (end_hour stop) h (omega arith) in
        (
          λ i.
              let (k, e, l) = there i in
              let is : h ≡ (start / hour_us + k) * hour_us = omega arith in
              let early = below (start / hour_us + k) (omega arith) in
              (start / hour_us + k, is, omega arith, omega arith),
          λ f.
              let late = above f.0 (omega (arith, f.1, f.3)) in
              back (f.0 - start / hour_us, omega (arith, f.1, f.2), omega (arith, f.1, late)),
        )
