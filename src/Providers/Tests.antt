-- ===== src/Providers/Tests.antt =====
-- A terminal that refuses a login, an hour of two ticks, and requests that fail twice.
use haru_quant_cbot.Prelude.Counts.{sort-SameElements, SameElements}
use haru_quant_cbot.Prelude.Sort.{sort-IsSorted, sort, IsSorted}
use haru_quant_cbot.Providers.Ticks.{fetch_ticks-exact, ByTime, SortLaws, is_within, fetched}
use haru_quant_cbot.Providers.Hours.{AreHours, generate_hour_list-exact}
use haru_quant_cbot.Validation.{Frame}
use haru_quant_cbot.Providers.Requests.{request-decided, backoffs}
use haru_quant_cbot.Prelude.Int.{negsuc}
use haru_quant_cbot.Prelude.Text.{str, text_beq}
use haru_quant_cbot.Hasher.{Bytes}
use haru_quant_cbot.Providers.Decoding.{parse_bi5-packed, ticks_of, IsPacked, Packed, packed}
use haru_quant_cbot.Prelude.{
  keep, leb, Bool, ◌/◌, coded, refl, value_error, ◌⊎◌, ◌≤◌, ltb, ◌*◌, raise, [], ◌<◌, none, ◌∷◌,
  arith, length, if◌then◌else◌, In, some, Option, false, ◌≡◌, ok, ℕ, any_of, List, true, All,
}
use haru_quant_cbot.Providers.Mt5.{
  close, initialize_call, login_call, shutdown_call, log_in, ensure_connected, Answers, init_mt5,
}
use haru_quant_cbot.Providers.Dukascopy.{
  supported_symbols, end_hour, hours_from, request_from, Floats, Tick, parse_bi5, request,
  generate_hour_list, fetch_ticks, hour_us,
}
use haru_quant_cbot.Providers.Connection.{steps, steps-connection, bars, closing, is_up}

abbrev terminal : Answers ℕ
terminal = record {
  initialize = true;
  login = true;
  symbol_info = λ s. some true;
  symbol_select = true;
  copy_rates_range = none;
  copy_ticks_range = none;
  symbols_get = none;
  last_error = some (negsuc 0);
}

abbrev refusing : Answers ℕ
refusing = record terminal { login = false }

-- A refused login shuts the terminal down.
refused : init_mt5 refusing true ≡ (
  record {
    has_credentials = true;
    connected = false;
    calls = shutdown_call ∷ login_call ∷ initialize_call true ∷ [];
  },
  raise (coded 2),
)
unfolding init_mt5 ensure_connected log_in
refused = refl

steps-connection_example :
    let (made, answer) = init_mt5 terminal true in
    let s =
      steps (bars terminal (str "EURUSD") ∷ closing ∷ bars refusing (str "EURUSD") ∷ []) made in
    (((answer ≡ ok tt) × (is_up made.calls ≡ true))
      ⊎ (((answer ≡ raise (coded 1)) ⊎ (answer ≡ raise (coded 2))) × (is_up made.calls ≡ false)))
    × (s.connected ≡ is_up s.calls)
    × (is_up (close s).calls ≡ false)
steps-connection_example =
    steps-connection terminal true
      (bars terminal (str "EURUSD") ∷ closing ∷ bars refusing (str "EURUSD") ∷ [])

abbrev floats : Floats ℕ
floats = record { price = λ n. n; volume = λ bytes. ok (length bytes) }

abbrev two_ticks : List Packed
two_ticks =
    record {
      milliseconds = 300;
      ask_scaled = 109001;
      bid_scaled = 108999;
      ask_bytes = (0, 0, 0, 1);
      bid_bytes = (0, 0, 0, 2);
    }
    ∷ record {
      milliseconds = 70000;
      ask_scaled = 109002;
      bid_scaled = 109000;
      ask_bytes = (0, 0, 0, 1);
      bid_bytes = (0, 0, 0, 2);
    }
    ∷ []

abbrev two_fit : All (IsPacked floats) two_ticks
two_fit = (
  record {
    milliseconds_fit = omega arith;
    ask_fit = omega arith;
    bid_fit = omega arith;
    ask_units = (4, refl);
    bid_units = (4, refl);
  },
  (
    record {
      milliseconds_fit = omega arith;
      ask_fit = omega arith;
      bid_fit = omega arith;
      ask_units = (4, refl);
      bid_units = (4, refl);
    },
    tt,
  ),
)

parse_bi5-packed_example :
    parse_bi5 floats (packed two_ticks) 7200000000
    ≡ ok (ticks_of floats 7200000000 two_ticks two_fit)
parse_bi5-packed_example = parse_bi5-packed floats 7200000000 two_ticks two_fit

abbrev third_time : ℕ → Option Bytes
third_time attempt = if ltb attempt 2 then none else some (packed two_ticks)

-- Two sleeps, of half a second and of a second.
requested : (request third_time 3).sleeps ≡ 1 ∷ 2 ∷ []
unfolding request request_from
requested = refl

request-decided_example :
    ((k : ℕ) × (content : Bytes) × (k < 3)
      × ((j : ℕ) → j < k → third_time j ≡ none)
      × (third_time k ≡ some content)
      × (request third_time 3 ≡ record { answer = ok content; sleeps = backoffs 0 k }))
    ⊎ (((j : ℕ) → j < 3 → third_time j ≡ none)
        × (request third_time 3 ≡ record { answer = raise (coded 20); sleeps = 1 ∷ 2 ∷ [] }))
request-decided_example = request-decided third_time 3

-- From half past one to three there are two hours to download.
two_hours : generate_hour_list 5400000000 10800000000 ≡ 3600000000 ∷ 7200000000 ∷ []
unfolding generate_hour_list hours_from end_hour
two_hours = refl

generate_hour_list-exact_example :
    AreHours 5400000000 10800000000 (generate_hour_list 5400000000 10800000000)
    × ((t : ℕ)
        → 5400000000 ≤ t
        → t < 10800000000
        → In (t / hour_us * hour_us) (generate_hour_list 5400000000 10800000000))
generate_hour_list-exact_example = generate_hour_list-exact 5400000000 10800000000

abbrev no_later : Tick ℕ → Tick ℕ → Bool
no_later a b = leb a.timestamp b.timestamp

all_later :
    (t u : Tick ℕ) (ticks : List (Tick ℕ))
    → t.timestamp ≤ u.timestamp
    → All (λ (later : Tick ℕ). u.timestamp ≤ later.timestamp) ticks
    → All (λ (later : Tick ℕ). t.timestamp ≤ later.timestamp) ticks
all_later t u [] h k = tt
all_later t u (v ∷ ticks) h k = (omega (arith, k.0), all_later t u ticks h k.1)

sorted_ByTime : (ticks : List (Tick ℕ)) → IsSorted no_later ticks → ByTime ticks
sorted_ByTime [] h = tt
sorted_ByTime (t ∷ []) h = (tt, tt)
sorted_ByTime (t ∷ u ∷ ticks) h =
    let later = sorted_ByTime (u ∷ ticks) h.1 in
    let first : t.timestamp ≤ u.timestamp = ground (arith, h.0) in
    ((first, all_later t u ticks first later.0), later)

sort-SortLaws : SortLaws (sort no_later)
sort-SortLaws = record {
  same_ticks = λ ticks. sort-SameElements no_later ticks;
  by_time = λ ticks. sorted_ByTime (sort no_later ticks) (sort-IsSorted no_later total ticks);
}
  where
    total : (a b : Tick ℕ) → (no_later a b ≡ true) ⊎ (no_later b a ≡ true)
    total a b = ground arith

fetch_ticks-exact_example :
    ((any_of (text_beq (str "EURUSD")) supported_symbols ≡ false)
      × (fetch_ticks floats
            (λ b. some b)
            3
            (λ h. third_time)
            (sort no_later)
            (str "EURUSD")
            5400000000
            10800000000
          ≡ raise value_error))
    ⊎ ((any_of (text_beq (str "EURUSD")) supported_symbols ≡ true)
        × ((frame : Frame (List (Tick ℕ))) × (hours : List ℕ) × (fetch_ticks floats
                (λ b. some b)
                3
                (λ h. third_time)
                (sort no_later)
                (str "EURUSD")
                5400000000
                10800000000
              ≡ ok frame)
            × AreHours 5400000000 10800000000 hours
            × SameElements frame.content (
                keep
                  (is_within 5400000000 10800000000)
                  (fetched floats (λ b. some b) 3 (λ h. third_time) hours))
            × ByTime frame.content
            × (frame.rows ≡ length frame.content)))
fetch_ticks-exact_example =
    fetch_ticks-exact floats (λ b. some b) 3 (λ h. third_time) (sort no_later) sort-SortLaws
      (str "EURUSD") 5400000000 10800000000
