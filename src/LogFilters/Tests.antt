-- ===== src/LogFilters/Tests.antt =====
-- Concrete runs of the logging filters.
use haru_quant_cbot.Prelude.{◌≡◌, refl, true, false, List, [], ◌∷◌, arith}
use haru_quant_cbot.Prelude.Text.{Text, str, text_beq, decimal, contains_text}
use haru_quant_cbot.Prelude.Dict.{lookup, insert}
use haru_quant_cbot.LogFilters.{
  LogRecord, allow, block, KeywordFilter, keyword_filter, init_throttle, message_key,
  throttle_filter,
}
use haru_quant_cbot.LogFilters.Refinement.{
  Event, allowed, decisions, IsMonotone, throttle-refines-history,
}

abbrev lost : LogRecord
lost = record { name = str "hqt"; levelno = 30; message = str "lost" }

abbrev found : LogRecord
found = record { name = str "hqt"; levelno = 20; message = str "found" }

abbrev events : List Event
events = (100, lost) ∷ (130, lost) ∷ (131, found) ∷ (160, lost) ∷ (161, lost) ∷ []

key-lost : message_key lost ≡ str "hqt:30:lost"
unfolding message_key decimal
key-lost = refl

decisions-events : decisions (init_throttle 60) events ≡ true ∷ false ∷ true ∷ true ∷ false ∷ []
unfolding throttle_filter init_throttle message_key decimal lookup insert text_beq
decisions-events = refl

events-IsMonotone : IsMonotone 100 events
events-IsMonotone = omega arith

throttle-refines-history_example : decisions (init_throttle 60) events ≡ allowed 60 events []
throttle-refines-history_example = throttle-refines-history 60 100 events events-IsMonotone

abbrev same : Text → Text
same t = t

abbrev losses : KeywordFilter
losses = record { keywords = str "os" ∷ []; mode = allow; case_sensitive = true }

abbrev no_losses : KeywordFilter
no_losses = record { keywords = str "os" ∷ []; mode = block; case_sensitive = true }

keyword_filter-lost : keyword_filter same losses lost ≡ true
unfolding keyword_filter contains_text
keyword_filter-lost = refl
