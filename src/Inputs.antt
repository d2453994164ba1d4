-- ===== src/Inputs.antt =====
-- The functions of src/hqt/foundation/utils/validation_utils.py. `str.upper` and regular expressions that are
-- arguments are parameters, and so is the order of floats.
pub mod Symbols
pub mod Volumes
mod Tests
use haru_quant_cbot.Prelude.Text.{Text}
use haru_quant_cbot.Prelude.{
  ◌-◌, ◌+◌, min, take, max, true, ◌*◌, type_error, not, none, any_of, value_error, ◌&&◌, [], length,
  ◌++◌, ◌/◌, some, raise, leb, false, if◌then◌else◌, ◌∷◌, ltb, ◌||◌, nat_beq, keep, ◌>>=◌, ok, ℕ,
  Option, List, Result, Bool,
}
use haru_quant_cbot.Prelude.Int.{◌-ℤ◌, ltb_ℤ, pos_part, ℤ, pos, negsuc}
use haru_quant_cbot.Partition.{int_of, int_digits, is_blank}

abbrev pub is_upper : ℕ → Bool
is_upper c = leb b'A' c && leb c b'Z'

abbrev pub is_symbol_char : ℕ → Bool
is_symbol_char c = is_upper c || (leb b'0' c && leb c b'9')

-- `.replace("/", "").replace("-", "").replace(" ", "").replace("_", "")`
abbrev pub is_separator : ℕ → Bool
is_separator c = nat_beq c b'/' || nat_beq c b'-' || nat_beq c b' ' || nat_beq c b'_'

-- `re.match(r"^[A-Z0-9]+$", text)`: one character at least, and `$` also stands before a last newline.
unfoldable pub matches_symbol : Text → Bool
matches_symbol [] = false
matches_symbol (c ∷ []) = is_symbol_char c
matches_symbol (c ∷ d ∷ []) = is_symbol_char c && (is_symbol_char d || nat_beq d 10)
matches_symbol (c ∷ d ∷ e ∷ cs) = is_symbol_char c && matches_symbol (d ∷ e ∷ cs)

-- `validate_symbol`; where `isalpha` is asked, the text has only capitals, digits and a newline.
unfoldable pub validate_symbol : (Text → Text) → Text → Bool → Result Text
unfolding matches_symbol
validate_symbol upper symbol strict =
    let normalized = keep (λ c. not (is_separator c)) (upper symbol) in
    if nat_beq (length symbol) 0
    then raise value_error
    else if ltb (length normalized) 2
    then raise value_error
    else if ltb 12 (length normalized)
    then raise value_error
    else if not (matches_symbol normalized)
    then raise value_error
    else if strict
        && (not (nat_beq (length normalized) 6) || any_of (λ c. not (is_upper c)) normalized)
    then raise value_error
    else ok normalized

-- `round_mode`
pub data RoundMode : Type 0 where
  down up nearest other_mode : RoundMode

-- The multiple of the step. Decimals are numbers of units of a power of ten that holds them all, and
-- `eight` is the number of units in `Decimal("0.00000001")`; quotients of 28 digits are taken as exact.
unfoldable pub rounded_volume : ℕ → RoundMode → ℕ → ℕ → Result ℤ
rounded_volume eight down volume step = ok (pos (volume / step * step))
rounded_volume eight up volume step =
    if ltb (volume + step) eight
    then ok (pos 0 -ℤ pos ((eight - (volume + step)) / step * step))
    else ok (pos ((volume + step - eight) / step * step))
rounded_volume eight nearest volume step = ok (pos ((2 * volume + step) / (2 * step) * step))
rounded_volume eight other_mode volume step = raise value_error

abbrev pub is_positive : ℤ → Bool
is_positive (pos n) = ltb 0 n
is_positive (negsuc n) = false

-- `max(min_volume, min(rounded, max_volume))`, for a minimum above zero.
abbrev pub clamped_volume : ℕ → ℕ → ℤ → ℕ
clamped_volume least most (pos rounded) = max least (min rounded most)
clamped_volume least most (negsuc n) = least

-- Volumes as numbers of units, and the floats that `float` gives as the decimals themselves.
unfoldable pub validate_volume : ℕ → ℤ → ℤ → ℤ → ℤ → RoundMode → Result ℕ
unfolding rounded_volume
validate_volume eight volume min_volume max_volume volume_step round_mode =
    let v = pos_part volume in
    let least = pos_part min_volume in
    let most = pos_part max_volume in
    if ltb_ℤ volume (pos 0)
    then raise value_error
    else if not (is_positive min_volume)
    then raise value_error
    else if not (is_positive max_volume)
    then raise value_error
    else if not (is_positive volume_step)
    then raise value_error
    else if ltb_ℤ max_volume min_volume
    then raise value_error
    else rounded_volume eight round_mode v (pos_part volume_step) >>= (λ rounded.
      let clamped = clamped_volume least most rounded in
      ok (if nat_beq clamped 0 && ltb 0 v then least else clamped))

module _ {N : Type 0} (lt le : N → N → Bool) (zero_number : N) where
  -- `round(price * 10 ** decimals) / 10 ** decimals` is `round_to decimals price`.
  unfoldable pub validate_price : (ℕ → N → N) → N → N → Option N → ℤ → Result N
  validate_price round_to price min_price max_price (negsuc n) = raise value_error
  validate_price round_to price min_price none (pos decimals) =
      let rounded = round_to decimals price in
      if lt price zero_number
      then raise value_error
      else if lt rounded min_price
      then raise value_error
      else ok rounded
  validate_price round_to price min_price (some most) (pos decimals) =
      let rounded = round_to decimals price in
      if lt price zero_number
      then raise value_error
      else if lt rounded min_price
      then raise value_error
      else if lt most rounded
      then raise value_error
      else ok rounded

  unfoldable pub validate_positive : N → Bool → Result N
  validate_positive value true = if lt value zero_number then raise value_error else ok value
  validate_positive value false = if le value zero_number then raise value_error else ok value

  unfoldable pub validate_range : N → N → N → Bool → Result N
  validate_range value min_value max_value inclusive =
      if lt max_value min_value
      then raise value_error
      else if inclusive && (lt value min_value || lt max_value value)
      then raise value_error
      else if not inclusive && (le value min_value || le max_value value)
      then raise value_error
      else ok value

-- What `validate_integer` is given: floats that are whole numbers, other floats, texts, integers, the
-- rest.
pub data Given : Type 0 where
  whole_float : ℤ → Given
  other_float : Given
  text : Text → Given
  integer : ℤ → Given
  something_else : Given

-- `int(text)` with a sign.
unfoldable pub signed_of : Text → Result ℤ
unfolding int_of int_digits
signed_of [] = raise value_error
signed_of (c ∷ cs) =
    let stripped = signed_of cs in
    if is_blank c
    then stripped
    else if nat_beq c b'-'
    then int_digits false 0 cs >>= (λ n. ok (pos 0 -ℤ pos n))
    else int_of (c ∷ cs) >>= (λ n. ok (pos n))

unfoldable pub integer_of : Given → Result ℤ
unfolding signed_of
integer_of (whole_float n) = ok n
integer_of other_float = raise value_error
integer_of (text t) = signed_of t
integer_of (integer n) = ok n
integer_of something_else = raise type_error

abbrev pub is_below : Option ℤ → ℤ → Bool
is_below none n = false
is_below (some least) n = ltb_ℤ n least

abbrev pub is_above : Option ℤ → ℤ → Bool
is_above none n = false
is_above (some most) n = ltb_ℤ most n

unfoldable pub validate_integer : Given → Option ℤ → Option ℤ → Result ℤ
unfolding integer_of
validate_integer value min_value max_value = integer_of value >>= (λ n.
    if is_below min_value n
    then raise value_error
    else if is_above max_value n
    then raise value_error
    else ok n)

-- `text.strip()`, on ASCII texts.
unfoldable pub strip_left : Text → Text
strip_left [] = []
strip_left (c ∷ cs) = let later = strip_left cs in if is_blank c then later else c ∷ cs

unfoldable pub strip_right : Text → Text
strip_right [] = []
strip_right (c ∷ cs) = if any_of (λ d. not (is_blank d)) (c ∷ cs) then c ∷ strip_right cs else []

unfoldable pub strip_text : Text → Text
unfolding strip_left strip_right
strip_text t = strip_right (strip_left t)

-- `"".join(parts)`
abbrev pub join : List Text → Text
join [] = []
join (t ∷ ts) = t ++ join ts

abbrev pub kept_chars : (Text → Text → List Text) → Option Text → Text → Text
kept_chars findall none t = t
kept_chars findall (some pattern_text) t = join (findall pattern_text t)

abbrev pub shortened : Option ℕ → Text → Text
shortened none t = t
shortened (some n) t = if ltb n (length t) then take n t else t

-- `sanitize_string` of a text; `findall` stands for `re.findall`.
unfoldable pub sanitize_string :
    (Text → Text → List Text) → Text → Option ℕ → Option Text → Bool → Text
unfolding strip_text
sanitize_string findall value max_length allowed_chars strip =
    shortened max_length
      (kept_chars findall allowed_chars (if strip then strip_text value else value))
