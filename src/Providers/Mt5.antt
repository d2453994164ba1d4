-- ===== src/Providers/Mt5.antt =====
-- `MT5DataProvider` of src/hqt/data/providers/mt5_provider.py, with the package MetaTrader5 at hand. What the
-- package answers to the calls of one method is an argument of the method; numbers of its tables are
-- taken as they are.
use haru_quant_cbot.Timeframe.{mn1, w1, d1, h4, h1, m30, m15, m5, m1, Timeframe}
use haru_quant_cbot.Prelude.{
  ◌||◌, map, value_error, length, coded, raise, none, ◌∷◌, true, ◌>>=◌, [], some, not, List, false,
  ok, Bool, ◌*◌, Option, if◌then◌else◌, Result, ℕ,
}
use haru_quant_cbot.Prelude.Text.{Text}
use haru_quant_cbot.Prelude.Int.{pos, beq_ℤ, ℤ}
use haru_quant_cbot.Store.{bar_columns, tick_columns}
use haru_quant_cbot.Validation.{Frame}

-- A row of `copy_rates_range`, with the price type N.
pub record Rate (N : Type 0) : Type 0 where
  pub time : ℕ
  pub rate_open : N
  pub rate_high : N
  pub rate_low : N
  pub rate_close : N
  pub rate_tick_volume : ℕ
  pub rate_spread : ℕ
  pub rate_real_volume : ℕ

-- A row of `copy_ticks_range`; `volume_real` may be missing from the table.
pub record RawTick (N : Type 0) : Type 0 where
  pub time_msc : ℕ
  pub raw_bid : N
  pub raw_ask : N
  pub volume_real : Option ℕ

-- The rows that are returned.
pub record BarRow (N : Type 0) : Type 0 where
  pub timestamp : ℕ
  pub bar_open : N
  pub bar_high : N
  pub bar_low : N
  pub bar_close : N
  pub tick_volume : ℕ
  pub real_volume : ℕ
  pub spread : ℕ

pub record TickRow (N : Type 0) : Type 0 where
  pub timestamp : ℕ
  pub bid : N
  pub ask : N
  pub bid_volume : ℕ
  pub ask_volume : ℕ

-- The answers of the package; `symbol_info` tells whether a symbol is visible, and `last_error` is the
-- code, if there is an error.
pub record Answers (N : Type 0) : Type 0 where
  pub initialize : Bool
  pub login : Bool
  pub symbol_info : Text → Option Bool
  pub symbol_select : Bool
  pub copy_rates_range : Option (List (Rate N))
  pub copy_ticks_range : Option (List (RawTick N))
  pub symbols_get : Option (List Text)
  pub last_error : Option ℤ

-- The calls that change the connection of the package, the first with its answer.
pub data Call : Type 0 where
  initialize_call : Bool → Call
  login_call shutdown_call : Call

-- The provider: whether each of login, password and server is given, whether it is connected, and the
-- calls it has made, the last one first.
pub record Mt5 : Type 0 where
  pub has_credentials : Bool
  pub connected : Bool
  pub calls : List Call

-- What follows the connection in a method.
abbrev pub and_then : {A : Type 0} → Mt5 × Result {0} Unit → Result A → Mt5 × Result A
and_then (s, ok _) next = (s, next)
and_then (s, raise e) next = (s, raise e)

-- `if error and error[0] != 1`
unfoldable pub is_failure : Option ℤ → Bool
is_failure none = false
is_failure (some code) = not (beq_ℤ code (pos 1))

abbrev pub or_zero : Option ℕ → ℕ
or_zero none = 0
or_zero (some n) = n

-- The frame of a table, or of none: an error code other than 1 counts then.
unfoldable pub frame_or_error :
    {A B : Type 0} → ℕ → List Text → (A → B) → Option ℤ → Option (List A) → Result (Frame (List B))
unfolding is_failure
frame_or_error code columns convert error (some (row ∷ rows)) =
    ok
      (record { columns = columns; rows = length (row ∷ rows); content = map convert (row ∷ rows) })
frame_or_error code columns convert error (some []) =
    if is_failure error
    then raise (coded code)
    else ok (record { columns = columns; rows = 0; content = [] })
frame_or_error code columns convert error none =
    if is_failure error
    then raise (coded code)
    else ok (record { columns = columns; rows = 0; content = [] })

module _ {N : Type 0} where
  -- The login, after a successful `initialize`.
  unfoldable pub log_in : Answers N → Mt5 → Mt5 × Result {0} Unit
  log_in mt5 s =
      if not s.has_credentials
      then (record s { connected = true }, ok tt)
      else if mt5.login
      then (record s { connected = true; calls = login_call ∷ s.calls }, ok tt)
      else (record s { calls = shutdown_call ∷ login_call ∷ s.calls }, raise (coded 2))

  -- `_ensure_connected`; the two branches on the path make the same call.
  unfoldable pub ensure_connected : Answers N → Mt5 → Mt5 × Result {0} Unit
  unfolding log_in
  ensure_connected mt5 s =
      if s.connected
      then (s, ok tt)
      else if mt5.initialize
      then log_in mt5 (record s { calls = initialize_call true ∷ s.calls })
      else (record s { calls = initialize_call false ∷ s.calls }, raise (coded 1))

  -- `__init__`: a provider that cannot connect is not made.
  unfoldable pub init_mt5 : Answers N → Bool → Mt5 × Result {0} Unit
  unfolding ensure_connected
  init_mt5 mt5 has_credentials =
      ensure_connected mt5
        (record { has_credentials = has_credentials; connected = false; calls = [] })

  -- The symbol is known, and visible or made so.
  unfoldable pub enable_symbol : Answers N → Text → Result {0} Unit
  enable_symbol mt5 symbol = elim (mt5.symbol_info symbol) [
    | none ↦ raise value_error
    | some visible ↦ if visible || mt5.symbol_select then ok tt else raise (coded 10)
  ]

  unfoldable pub bar_of : Rate N → BarRow N
  bar_of r = record {
    timestamp = r.time * 1000000;
    bar_open = r.rate_open;
    bar_high = r.rate_high;
    bar_low = r.rate_low;
    bar_close = r.rate_close;
    tick_volume = r.rate_tick_volume;
    real_volume = r.rate_real_volume;
    spread = r.rate_spread;
  }

  unfoldable pub tick_of : RawTick N → TickRow N
  tick_of t = record {
    timestamp = t.time_msc * 1000;
    bid = t.raw_bid;
    ask = t.raw_ask;
    bid_volume = or_zero t.volume_real;
    ask_volume = 0;
  }

  unfoldable pub fetch_bars : Answers N → Text → Mt5 → Mt5 × Result (Frame (List (BarRow N)))
  unfolding ensure_connected enable_symbol bar_of frame_or_error
  fetch_bars mt5 symbol s = and_then (ensure_connected mt5 s) (
      enable_symbol mt5 symbol
      >>= (λ _. frame_or_error 11 bar_columns bar_of mt5.last_error mt5.copy_rates_range))

  unfoldable pub fetch_ticks : Answers N → Text → Mt5 → Mt5 × Result (Frame (List (TickRow N)))
  unfolding ensure_connected enable_symbol tick_of frame_or_error
  fetch_ticks mt5 symbol s = and_then (ensure_connected mt5 s) (
      enable_symbol mt5 symbol
      >>= (λ _. frame_or_error 12 tick_columns tick_of mt5.last_error mt5.copy_ticks_range))

  unfoldable pub get_available_symbols : Answers N → Mt5 → Mt5 × Result (List Text)
  unfolding ensure_connected
  get_available_symbols mt5 s =
      and_then (ensure_connected mt5 s)
        (elim mt5.symbols_get [ none ↦ raise (coded 13) | some symbols ↦ ok symbols ])

  -- The timeframes of `_TIMEFRAME_MAP`, in its order.
  unfoldable pub get_available_timeframes : Answers N → Text → Mt5 → Mt5 × Result (List Timeframe)
  unfolding ensure_connected
  get_available_timeframes mt5 symbol s =
      and_then (ensure_connected mt5 s) (elim (mt5.symbol_info symbol) [
        | none ↦ raise value_error
        | some visible ↦ ok (m1 ∷ m5 ∷ m15 ∷ m30 ∷ h1 ∷ h4 ∷ d1 ∷ w1 ∷ mn1 ∷ [])
      ])

unfoldable pub close : Mt5 → Mt5
close s = if s.connected then record s { connected = false; calls = shutdown_call ∷ s.calls } else s
