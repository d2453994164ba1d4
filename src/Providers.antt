-- ===== src/Providers.antt =====
-- The interface of the data providers of src/hqt/data/providers (base.py), and the functions of factory.py that
-- make one and start a download. `str.lower` is a parameter.
pub mod Mt5
pub mod Dukascopy
pub mod Connection
pub mod Hours
pub mod Requests
pub mod Decoding
pub mod Ticks
mod Tests
pub mod Instances
use haru_quant_cbot.Prelude.{
  zero, ◌-◌, some, false, ◌/◌, value_error, ◌*◌, raise, [], suc, ◌∷◌, if◌then◌else◌, true, List,
  none, Bool, Result, Option, ℕ,
}
use haru_quant_cbot.Prelude.Text.{text_beq, str, Text}
use haru_quant_cbot.Prelude.Dict.{Dict}
use haru_quant_cbot.Timeframe.{Timeframe}

-- The operations of a `DataProvider` over its state S, for frames of bars B and of ticks T. The calls
-- of a progress callback are left out.
pub record DataProvider (S B T : Type 0) : Type 0 where
  pub fetch_bars : Text → Timeframe → ℕ → ℕ → S → S × Result B
  pub fetch_ticks : Text → ℕ → ℕ → S → S × Result T
  pub get_available_symbols : S → S × Result (List Text)
  pub get_available_timeframes : Text → S → S × Result (List Timeframe)
  pub get_provider_name : Text
  pub close : S → S

-- `get_provider`, for what the two constructors come to.
unfoldable pub get_provider : {P : Type 0} → (Text → Text) → Result P → Result P → Text → Result P
get_provider lower mt5 dukascopy provider_type =
    if text_beq (lower provider_type) (str "mt5")
    then mt5
    else if text_beq (lower provider_type) (str "dukascopy")
    then dukascopy
    else raise value_error

-- An entry of `get_available_providers`.
pub record ProviderInfo : Type 0 where
  pub name : Text
  pub description : Text
  pub supports_bars : Bool
  pub supports_ticks : Bool
  pub supports_incremental : Bool
  pub requires : List Text
  pub config_params : List Text

unfoldable pub get_available_providers : Dict Text ProviderInfo
get_available_providers =
    (
      str "mt5",
      record {
        name = str "MetaTrader 5";
        description = str "Official MT5 terminal data provider";
        supports_bars = true;
        supports_ticks = true;
        supports_incremental = true;
        requires = str "MetaTrader5" ∷ [];
        config_params = str "path" ∷ str "login" ∷ str "password" ∷ str "server" ∷ [];
      },
    )
    ∷ (
      str "dukascopy",
      record {
        name = str "Dukascopy";
        description = str "Free historical tick data from Dukascopy";
        supports_bars = false;
        supports_ticks = true;
        supports_incremental = true;
        requires = str "requests" ∷ [];
        config_params = str "timeout" ∷ str "max_retries" ∷ [];
      },
    )
    ∷ []

-- The progress bar: its parts that are filled and empty, where the total is not zero.
unfoldable pub progress_bar : ℕ → ℕ → Option (ℕ × ℕ)
progress_bar current zero = none
progress_bar current (suc total) =
    let filled = 40 * current / suc total in some (filled, 40 - filled)

-- `download_with_progress`; the answer is a frame of bars or of ticks.
unfoldable pub download_with_progress :
    {S F : Type 0} → DataProvider S F F → Text → ℕ → ℕ → Text → Option Timeframe → S → S × Result F
download_with_progress provider symbol start stop fetch_type timeframe s =
    if text_beq fetch_type (str "bars")
    then elim timeframe [
      | none ↦ (s, raise value_error)
      | some tf ↦ provider.fetch_bars symbol tf start stop s
    ]
    else if text_beq fetch_type (str "ticks")
    then provider.fetch_ticks symbol start stop s
    else (s, raise value_error)
