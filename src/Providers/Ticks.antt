-- ===== src/Providers/Ticks.antt =====
-- What `fetch_ticks` of src/hqt/data/providers/dukascopy_provider.py returns.
use haru_quant_cbot.Providers.Hours.{generate_hour_list-exact, AreHours}
use haru_quant_cbot.Prelude.Counts.{count_if-keep, SameElements}
use haru_quant_cbot.Store.{tick_columns}
use haru_quant_cbot.Validation.{Frame}
use haru_quant_cbot.Prelude.Text.{text_beq, Text}
use haru_quant_cbot.Hasher.{Bytes}
use haru_quant_cbot.Prelude.{
  ltb, count_if, ◌&&◌, ◌∙◌, ◌≤◌, leb, All, Result, ◌++◌, ap, Bool, keep, Bool-cases, value_error,
  refl, raise, inr, sym, false, inl, any_of, [], ◌⊎◌, arith, true, ok, ◌∷◌, ◌≡◌, ℕ, length, nat_beq,
  Option, List,
}
use haru_quant_cbot.Providers.Dukascopy.{
  Floats, Tick, fetch_ticks, fetch_hours, fetch_hour, generate_hour_list, supported_symbols,
  ticks_or_none,
}

-- A keep of elements that all have a property.
All-keep : {A : Type 0} (P : A → Type 0) (p : A → Bool) (xs : List A) → All P xs → All P (keep p xs)
All-keep P p [] h = tt
All-keep P p (x ∷ xs) h = elim (Bool-cases (p x)) [
  | inl e ↦ rw e (h.0, All-keep P p xs h.1)
  | inr e ↦ rw e (All-keep P p xs h.1)
]

module _ {N : Type 0} where
  -- No tick is later than one after it.
  abbrev pub ByTime : List (Tick N) → Type 0
  ByTime [] = Unit
  ByTime (tick ∷ ticks) =
      All (λ (later : Tick N). tick.timestamp ≤ later.timestamp) ticks × ByTime ticks

  keep-ByTime : (p : Tick N → Bool) (ticks : List (Tick N)) → ByTime ticks → ByTime (keep p ticks)
  keep-ByTime p [] h = tt
  keep-ByTime p (tick ∷ ticks) h = elim (Bool-cases (p tick)) [
    | inl e ↦ rw e (
      All-keep (λ (later : Tick N). tick.timestamp ≤ later.timestamp) p ticks h.0,
      keep-ByTime p ticks h.1,
    )
    | inr e ↦ rw e (keep-ByTime p ticks h.1)
  ]

  -- What `sort_values` of pandas does, with ticks of one time in any order.
  pub record SortLaws (sort_values : List (Tick N) → List (Tick N)) : Type 0 where
    pub same_ticks : (ticks : List (Tick N)) → SameElements (sort_values ticks) ticks
    pub by_time : (ticks : List (Tick N)) → ByTime (sort_values ticks)

  -- The ticks of an hour, if it could be fetched.
  abbrev pub got : Result (List (Tick N)) → List (Tick N)
  got (ok ticks) = ticks
  got (raise e) = []

  -- The tick is from the start on and before the end.
  abbrev pub is_within : ℕ → ℕ → Tick N → Bool
  is_within start stop tick = leb start tick.timestamp && ltb tick.timestamp stop

module _ {N : Type 0} (floats : Floats N) (decompress : Bytes → Option Bytes) (max_retries : ℕ)
    (server : ℕ → ℕ → Option Bytes) where
  -- The ticks of hours, one after the other; an hour that fails has none.
  abbrev pub fetched : List ℕ → List (Tick N)
  fetched [] = []
  fetched (hour ∷ hours) =
      got (fetch_hour floats decompress max_retries (server hour) hour) ++ fetched hours

  got_same : (r : Result (List (Tick N))) → ticks_or_none floats r ≡ got r
  got_same (ok ticks) = refl
  got_same (raise e) = refl

  fetch_hours-fetched :
      (hours : List ℕ) → fetch_hours floats decompress max_retries server hours ≡ fetched hours
  unfolding fetch_hours
  fetch_hours-fetched [] = refl
  fetch_hours-fetched (hour ∷ hours) =
      let one = fetch_hour floats decompress max_retries (server hour) hour in
      ap (λ ts. ts ++ fetch_hours floats decompress max_retries server hours) (got_same one)
      ∙ ap (λ ts. got one ++ ts) (fetch_hours-fetched hours)

  no_ticks : (ticks : List (Tick N)) → nat_beq (length ticks) 0 ≡ true → ticks ≡ []
  no_ticks [] h = refl
  no_ticks (tick ∷ ticks) h = absurd (ground (arith, h))

  -- For a supported symbol the download ends with a frame, whatever the server answers, and the frame
  -- has, in the order of their times, exactly the ticks from the start on and before the end of the
  -- full hours of the range that could be fetched, each as often as it was fetched; hours that fail
  -- are passed over. For another symbol it raises a ValueError.
  pub fetch_ticks-exact :
      (sort_values : List (Tick N) → List (Tick N)) (laws : SortLaws sort_values) (symbol : Text)
      (start stop : ℕ)
      → ((any_of (text_beq symbol) supported_symbols ≡ false)
          × (fetch_ticks floats decompress max_retries server sort_values symbol start stop
              ≡ raise value_error))
        ⊎ ((any_of (text_beq symbol) supported_symbols ≡ true)
            × ((frame : Frame (List (Tick N))) × (hours : List ℕ) × (fetch_ticks floats decompress
                    max_retries server sort_values symbol start stop
                  ≡ ok frame)
                × AreHours start stop hours
                × SameElements frame.content (keep (is_within start stop) (fetched hours))
                × ByTime frame.content
                × (frame.rows ≡ length frame.content)))
  unfolding fetch_ticks
  fetch_ticks-exact sort_values laws symbol start stop =
      let hours = generate_hour_list start stop in
      let are = (generate_hour_list-exact start stop).0 in
      let ticks = fetch_hours floats decompress max_retries server hours in
      let same = fetch_hours-fetched hours in
      let test : Tick N → Bool = is_within start stop in
      elim (Bool-cases (any_of (text_beq symbol) supported_symbols)) [
        | inr unknown ↦ inl (unknown, rw unknown refl)
        | inl known ↦ inr (
          known,
          elim (Bool-cases (nat_beq (length ticks) 0)) [
            | inl empty ↦ (
              record { columns = tick_columns; rows = 0; content = [] },
              hours,
              rw (known, empty) refl,
              are,
              λ p. ap (λ ts. count_if p (keep test ts)) (sym (no_ticks ticks empty) ∙ same),
              tt,
              refl,
            )
            | inr some_ticks ↦ (
              record {
                columns = tick_columns;
                rows = length (keep test (sort_values ticks));
                content = keep test (sort_values ticks);
              },
              hours,
              rw (known, some_ticks) refl,
              are,
              λ p.
                  count_if-keep p test (sort_values ticks)
                  ∙ (laws.same_ticks ticks (λ tick. test tick && p tick)
                      ∙ (sym (count_if-keep p test ticks)
                          ∙ ap (λ ts. count_if p (keep test ts)) same)),
              keep-ByTime test (sort_values ticks) (laws.by_time ticks),
              refl,
            )
          ],
        )
      ]
