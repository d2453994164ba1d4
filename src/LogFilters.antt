-- ===== src/LogFilters.antt =====
-- The logging filters of src/hqt/foundation/logging/filters.py: level range, keywords, throttling.
pub mod Refinement
pub mod Decisions
mod Tests
use haru_quant_cbot.Prelude.{
  ℕ, ◌+◌, Bool, true, false, not, ◌&&◌, Option, none, some, List, ◌++◌, map, length, keep, any_of,
  ltb, leb, Result, ok, raise, value_error, if◌then◌else◌,
}
use haru_quant_cbot.Prelude.Text.{Text, str, text_beq, text_eq, decimal, contains_text}
use haru_quant_cbot.Prelude.Dict.{Dict, lookup, insert}

-- What the filters read of a `logging.LogRecord`; `message` is `getMessage()`.
pub record LogRecord : Type 0 where
  pub name : Text
  pub levelno : ℕ
  pub message : Text

-- `LevelRangeFilter.filter`
unfoldable pub level_range_filter : ℕ → ℕ → LogRecord → Bool
level_range_filter min_level max_level r = leb min_level r.levelno && leb r.levelno max_level

pub data Mode : Type 0 where
  allow block : Mode

pub record KeywordFilter : Type 0 where
  pub keywords : List Text
  pub mode : Mode
  pub case_sensitive : Bool

abbrev parse_mode : Text → Result Mode
parse_mode mode =
    if text_beq mode (str "allow")
    then ok allow
    else if text_beq mode (str "block")
    then ok block
    else raise value_error

-- `str.lower` is Python's.
module _ (lower : Text → Text) where
  -- `KeywordFilter.__init__`
  unfoldable pub init_keyword_filter : List Text → Text → Bool → Result KeywordFilter
  init_keyword_filter keywords mode case_sensitive = elim (parse_mode mode) [
    | ok m ↦ ok (record {
      keywords = if case_sensitive then keywords else map lower keywords;
      mode = m;
      case_sensitive = case_sensitive;
    })
    | raise e ↦ raise e
  ]

  -- `KeywordFilter.filter`
  unfoldable pub keyword_filter : KeywordFilter → LogRecord → Bool
  keyword_filter f r =
      let message = if f.case_sensitive then r.message else lower r.message in
      let contains_keyword = any_of (λ keyword. contains_text keyword message) f.keywords in
      elim f.mode [ allow ↦ contains_keyword | block ↦ not contains_keyword ]

-- The state of a `ThrottleFilter`. Times are clock readings in one unit.
pub record Throttle : Type 0 where
  pub window_seconds : ℕ
  pub message_times : Dict Text ℕ

unfoldable pub init_throttle : ℕ → Throttle
init_throttle window = record { window_seconds = window; message_times = List.[] }

unfoldable pub message_key : LogRecord → Text
message_key r = r.name ++ (str ":" ++ (decimal r.levelno ++ (str ":" ++ r.message)))

-- "Clean up old entries periodically": `timestamp >= current_time - window`.
unfoldable pub clean_up : ℕ → ℕ → Dict Text ℕ → Dict Text ℕ
clean_up now window times =
    if ltb 1000 (length times) then keep (λ e. leb now (e.1 + window)) times else times

-- `ThrottleFilter.filter`, at a reading of the clock.
unfoldable pub throttle_filter : Throttle → ℕ → LogRecord → Throttle × Bool
unfolding clean_up
throttle_filter s now r =
    let key = message_key r in
    let window = s.window_seconds in
    let passed : Throttle × Bool =
      (record s { message_times = clean_up now window (insert key now s.message_times) }, true) in
    elim (lookup key s.message_times) [
      | none ↦ passed
      | some last ↦ if ltb now (last + window) then (s, false) else passed
    ]
