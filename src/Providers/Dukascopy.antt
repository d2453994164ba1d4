-- ===== src/Providers/Dukascopy.antt =====
-- `DukascopyProvider` of src/hqt/data/providers/dukascopy_provider.py. Times are microseconds of UTC; what the
-- server answers, LZMA, and the floats of a tick are parameters, and so are URLs.
use haru_quant_cbot.Providers.{DataProvider}
use haru_quant_cbot.Prelude.Text.{text_beq, str, Text}
use haru_quant_cbot.Prelude.{
  true, not_implemented, value_error, none, ◌^◌, any_of, some, ◌%◌, zero, ◌&&◌, other_error, length,
  not, take, keep, coded, drop, map, ◌/◌, nat_beq, ◌+◌, leb, ltb, ◌++◌, Bool, if◌then◌else◌, ◌∷◌,
  ok, raise, [], ◌>>=◌, suc, ◌*◌, Option, ℕ, List, Result,
}
use haru_quant_cbot.Store.{tick_columns}
use haru_quant_cbot.Validation.{Frame}
use haru_quant_cbot.Hasher.{Bytes}

abbrev pub hour_us : ℕ
hour_us = 3600000000

-- `SUPPORTED_SYMBOLS`
unfoldable pub supported_symbols : List Text
supported_symbols = map str (
    "EURUSD" ∷ "GBPUSD" ∷ "USDJPY" ∷ "USDCHF" ∷ "AUDUSD" ∷ "NZDUSD" ∷ "USDCAD" ∷ "EURGBP" ∷ "EURJPY"
    ∷ "EURCHF" ∷ "GBPJPY" ∷ "GBPCHF" ∷ "AUDJPY" ∷ "AUDNZD" ∷ "EURAUD" ∷ "EURNZD" ∷ "GBPAUD"
    ∷ "GBPNZD" ∷ "NZDJPY" ∷ "CHFJPY" ∷ "CADCHF" ∷ "CADJPY" ∷ "AUDCAD" ∷ "NZDCAD" ∷ "AUDCHF"
    ∷ "NZDCHF" ∷ "EURCAD" ∷ "GBPCAD" ∷ "XAUUSD" ∷ "XAGUSD" ∷ [])

unfoldable pub end_hour : ℕ → ℕ
end_hour stop = if ltb 0 (stop % hour_us) then stop / hour_us * hour_us + hour_us else stop

-- `while current < end_hour`, with fuel.
unfoldable pub hours_from : ℕ → ℕ → ℕ → List ℕ
hours_from zero current stop = []
hours_from (suc fuel) current stop =
    let later = hours_from fuel (current + hour_us) stop in
    if ltb current stop then current ∷ later else []

-- `_generate_hour_list`: each round adds an hour, so the end's hours and one are fuel enough.
unfoldable pub generate_hour_list : ℕ → ℕ → List ℕ
unfolding end_hour hours_from
generate_hour_list start stop =
    hours_from (suc (end_hour stop / hour_us)) (start / hour_us * hour_us) (end_hour stop)

-- What the attempts come to: the content or the last exception, and the sleeps in half seconds.
pub record Fetched : Type 0 where
  pub answer : Result Bytes
  pub sleeps : List ℕ

-- One attempt, with how many are left after it and what they come to.
abbrev pub attempted : ℕ → ℕ → Fetched → Option Bytes → Fetched
attempted attempt left later (some content) = record { answer = ok content; sleeps = [] }
attempted attempt zero later none = record { answer = raise (coded 20); sleeps = [] }
attempted attempt (suc left) later none = record {
  answer = later.answer;
  sleeps = 2 ^ attempt ∷ later.sleeps;
}

-- The loop from an attempt on, for the number of attempts that are left; `response` tells what each
-- request is answered, if it is.
unfoldable pub request_from : (ℕ → Option Bytes) → ℕ → ℕ → Fetched
request_from response attempt zero = record { answer = raise (coded 20); sleeps = [] }
request_from response attempt (suc left) =
    attempted attempt left (request_from response (suc attempt) left) (response attempt)

-- `for attempt in range(self._max_retries)`, with its else for no attempt at all.
unfoldable pub request : (ℕ → Option Bytes) → ℕ → Fetched
unfolding request_from
request response max_retries = request_from response 0 max_retries

-- A tick, with floats V and prices N; the prices are integers over 100000.
pub record Tick (N : Type 0) : Type 0 where
  pub timestamp : ℕ
  pub bid : N
  pub ask : N
  pub bid_volume : ℕ
  pub ask_volume : ℕ

-- Numbers that the decoding takes from the bytes: `scaled / 100000.0`, and `int(volume * 1_000_000)` of
-- four bytes, which may raise.
pub record Floats (N : Type 0) : Type 0 where
  pub price : ℕ → N
  pub volume : Bytes → Result ℕ

-- `>I`: four bytes, the highest first.
unfoldable pub unpack_u32 : ℕ → ℕ → ℕ → ℕ → ℕ
unpack_u32 a b c d = ((a * 256 + b) * 256 + c) * 256 + d

module _ {N : Type 0} (floats : Floats N) where
  -- The body of the loop over the ticks, for twenty bytes.
  unfoldable pub parse_tick : ℕ → Bytes → Result (Tick N)
  unfolding unpack_u32
  parse_tick hour (t0 ∷ t1 ∷ t2 ∷ t3 ∷ a0 ∷ a1 ∷ a2 ∷ a3 ∷ b0 ∷ b1 ∷ b2 ∷ b3 ∷ volumes) = do
    ask_volume ← floats.volume (take 4 volumes)
    bid_volume ← floats.volume (drop 4 volumes)
    ok (record {
      timestamp = hour + unpack_u32 t0 t1 t2 t3 * 1000;
      bid = floats.price (unpack_u32 b0 b1 b2 b3);
      ask = floats.price (unpack_u32 a0 a1 a2 a3);
      bid_volume = bid_volume;
      ask_volume = ask_volume;
    })
  parse_tick hour other = raise other_error

  -- `for i in range(num_ticks)`
  unfoldable pub parse_ticks : ℕ → ℕ → Bytes → Result (List (Tick N))
  unfolding parse_tick
  parse_ticks zero hour content = ok []
  parse_ticks (suc n) hour content =
      let later = parse_ticks n hour (drop 20 content) in
      (parse_tick hour (take 20 content) >>= (λ tick. later >>= (λ ticks. ok (tick ∷ ticks))))

  unfoldable pub parse_bi5 : Bytes → ℕ → Result (List (Tick N))
  unfolding parse_ticks
  parse_bi5 content hour =
      if nat_beq (length content % 20) 0
      then parse_ticks (length content / 20) hour content
      else raise (coded 22)

  -- An exception of the parsing becomes a DataError.
  abbrev pub recoded : {A : Type 0} → ℕ → Result A → Result A
  recoded code (ok a) = ok a
  recoded code (raise e) = raise (coded code)

  -- `_fetch_hour`; `decompress` answers none where LZMA refuses the content.
  unfoldable pub fetch_hour :
      (Bytes → Option Bytes) → ℕ → (ℕ → Option Bytes) → ℕ → Result (List (Tick N))
  unfolding request parse_bi5
  fetch_hour decompress max_retries response hour =
      (request response max_retries).answer >>= (λ content. elim (decompress content) [
        | none ↦ raise (coded 20)
        | some decompressed ↦ recoded 21 (parse_bi5 decompressed hour)
      ])

  -- `except Exception: pass`
  abbrev pub ticks_or_none : Result (List (Tick N)) → List (Tick N)
  ticks_or_none (ok ticks) = ticks
  ticks_or_none (raise e) = []

  -- The loop over the hours, which passes over those that raise.
  unfoldable pub fetch_hours :
      (Bytes → Option Bytes) → ℕ → (ℕ → ℕ → Option Bytes) → List ℕ → List (Tick N)
  unfolding fetch_hour
  fetch_hours decompress max_retries server [] = []
  fetch_hours decompress max_retries server (hour ∷ hours) =
      ticks_or_none (fetch_hour decompress max_retries (server hour) hour)
      ++ fetch_hours decompress max_retries server hours

  abbrev pub is_between : ℕ → ℕ → Tick N → Bool
  is_between start stop tick = leb start tick.timestamp && ltb tick.timestamp stop

  -- `server` answers the attempts for an hour, and `sort_values` orders ticks by time.
  unfoldable pub fetch_ticks :
      (Bytes → Option Bytes)
      → ℕ
      → (ℕ → ℕ → Option Bytes)
      → (List (Tick N) → List (Tick N))
      → Text
      → ℕ
      → ℕ
      → Result (Frame (List (Tick N)))
  unfolding generate_hour_list fetch_hours supported_symbols
  fetch_ticks decompress max_retries server sort_values symbol start stop =
      let hours = generate_hour_list start stop in
      let ticks = fetch_hours decompress max_retries server hours in
      let kept = keep (is_between start stop) (sort_values ticks) in
      if not (any_of (text_beq symbol) supported_symbols)
      then raise value_error
      else if nat_beq (length ticks) 0
      then ok (record { columns = tick_columns; rows = 0; content = [] })
      else ok (record { columns = tick_columns; rows = length kept; content = kept })

  -- The provider, over the flag that its HTTP session is closed; a session that is closed opens again at
  -- the next request. There are no bars.
  unfoldable pub dukascopy_provider :
      (Bytes → Option Bytes)
      → ℕ
      → (Text → ℕ → ℕ → Option Bytes)
      → (List (Tick N) → List (Tick N))
      → DataProvider Bool Unit (Frame (List (Tick N)))
  unfolding fetch_ticks supported_symbols
  dukascopy_provider decompress max_retries server sort_values = record {
    fetch_bars = λ symbol timeframe start stop s. (s, raise not_implemented);
    fetch_ticks = λ symbol start stop s.
        (s, fetch_ticks decompress max_retries (server symbol) sort_values symbol start stop);
    get_available_symbols = λ s. (s, ok supported_symbols);
    get_available_timeframes = λ symbol s. (s, ok []);
    get_provider_name = str "Dukascopy";
    close = λ s. true;
  }
