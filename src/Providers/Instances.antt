-- ===== src/Providers/Instances.antt =====
-- `MT5DataProvider` of src/hqt/data/providers/mt5_provider.py as a data provider: its terminal answers by
-- the arguments of the method.
use haru_quant_cbot.Validation.{Frame}
use haru_quant_cbot.Providers.{DataProvider}
use haru_quant_cbot.Prelude.{[], List, ℕ}
use haru_quant_cbot.Timeframe.{Timeframe}
use haru_quant_cbot.Prelude.Text.{str, Text}
use haru_quant_cbot.Providers.Mt5.{
  Answers, BarRow, TickRow, Mt5, fetch_bars, fetch_ticks, get_available_symbols,
  get_available_timeframes, close,
}

unfoldable pub mt5_provider :
    {N : Type 0}
    → (Text → Timeframe → ℕ → ℕ → Answers N)
    → (Text → ℕ → ℕ → Answers N)
    → (Text → Answers N)
    → DataProvider Mt5 (Frame (List (BarRow N))) (Frame (List (TickRow N)))
unfolding fetch_bars fetch_ticks get_available_symbols get_available_timeframes close
mt5_provider bars ticks symbols = record {
  fetch_bars = λ symbol timeframe start stop. fetch_bars (bars symbol timeframe start stop) symbol;
  fetch_ticks = λ symbol start stop. fetch_ticks (ticks symbol start stop) symbol;
  get_available_symbols = get_available_symbols (symbols []);
  get_available_timeframes = λ symbol. get_available_timeframes (symbols symbol) symbol;
  get_provider_name = str "MetaTrader 5";
  close = close;
}
