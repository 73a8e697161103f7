-- ===== src/Scheduler/Cron.antt =====
-- apps/web/src/lib/scheduler/cron.ts: a pattern compiled to a cron expression, and read back from it.
use skytest_agent.Prelude.{
  ℕ, ◌+◌, ◌-◌, ◌*◌, Bool, false, not, ◌&&◌, ◌||◌, Option, none, some, List, [], ◌∷◌, ◌++◌, map,
  String, Text, is_empty, text_eq, if◌then◌else◌, ◌==◌, leb, ltb, any, length, sort_by, split_by,
  split_words, trim, join, comma, is_comma, is_digit, SignedNumber, whole, minus, decimal, to_text,
  parse_int,
}
use skytest_agent.Scheduler.{
  SchedulePatternType, daily, weekly, monthly, custom, SchedulePatternFields, Validated, valid,
  invalid, CronInput,
}

pub record Time : Type 0 where
  pub hour : ℕ
  pub minute : ℕ

abbrev pub and_then {ℓ κ} :
    {A : Type ℓ} {B : Type κ} → Validated A → (A → Validated B) → Validated B
and_then (valid a) f = f a
and_then (invalid message) f = invalid message

abbrev pub given {ℓ} : {A : Type ℓ} → A → Option A → A
given fallback none = fallback
given fallback (some a) = a

-- `TIME_VALUE_RE`, with the range of hours and of minutes.
abbrev pub parse_time : Option Text → Validated Time
parse_time (some (a ∷ b ∷ colon ∷ c ∷ d ∷ [])) =
    let hour = (a - 48) * 10 + (b - 48) in
    let minute = (c - 48) * 10 + (d - 48) in
    if not (is_digit a && (is_digit b && (colon == 58 && (is_digit c && is_digit d))))
    then invalid "Time must be in HH:mm format"
    else if ltb 23 hour || ltb 59 minute
    then invalid "Time must be in HH:mm format"
    else valid (record { hour = hour; minute = minute })
parse_time _ = invalid "Time must be in HH:mm format"

-- `unique.add`
abbrev pub add_number : ℕ → List ℕ → List ℕ
add_number n numbers = if any (λ x. x == n) numbers then numbers else numbers ++ n ∷ []

abbrev pub unique_numbers : (seen numbers : List ℕ) → List ℕ
unique_numbers seen [] = seen
unique_numbers seen (n ∷ numbers) = unique_numbers (add_number n seen) numbers

abbrev pub ascending : List ℕ → List ℕ
ascending numbers = sort_by (λ n. n) numbers

abbrev pub in_range : (low high n : ℕ) → Bool
in_range low high n = leb low n && leb n high

-- The loop of `parseIntList`: none where a value is refused.
abbrev pub checked_numbers : (low high : ℕ) (unique : List ℕ) → List (Option ℕ) → Option (List ℕ)
checked_numbers low high unique [] = some unique
checked_numbers low high unique (none ∷ values) = none
checked_numbers low high unique (some n ∷ values) =
    let later = checked_numbers low high (add_number n unique) values in
    if in_range low high n then later else none

abbrev pub parse_int_list :
    Option (List (Option ℕ)) → (low high : ℕ) (message : String) → Validated (List ℕ)
parse_int_list none low high message = invalid message
parse_int_list (some []) low high message = invalid message
parse_int_list (some (value ∷ values)) low high message =
    elim (checked_numbers low high [] (value ∷ values)) [
      | none ↦ invalid message
      | some unique ↦ valid (ascending unique)
    ]

-- The five parts of an expression, with a space between them.
abbrev pub expression : (minute hour day month weekday : Text) → Text
expression minute hour day month weekday =
    minute ++ 32 ∷ (hour ++ 32 ∷ (day ++ 32 ∷ (month ++ 32 ∷ weekday)))

abbrev pub any_value : Text
any_value = 42 ∷ []

abbrev pub number_list : List ℕ → Text
number_list numbers = join comma (map decimal numbers)

unfoldable pub compile_cron : CronInput → Validated Text
compile_cron input = elim input.pattern_type [
  | daily ↦ and_then (parse_time input.time) (λ time.
      valid (expression (decimal time.minute) (decimal time.hour) any_value any_value any_value))
  | weekly ↦ and_then (parse_time input.time) (λ time.
      and_then (parse_int_list input.weekdays 0 6 "Select at least one weekday") (λ weekdays.
        valid (
          expression (decimal time.minute) (decimal time.hour) any_value any_value
            (number_list weekdays))))
  | monthly ↦ and_then (parse_time input.time) (λ time.
      and_then (parse_int_list input.days_of_month 1 28 "Select at least one day of month") (λ days.
        valid (
          expression (decimal time.minute) (decimal time.hour) (number_list days) any_value
            any_value)))
  | custom ↦
      let custom_cron = trim (given [] input.custom_cron) in
      if is_empty custom_cron
      then invalid "Custom cron expression is required"
      else valid custom_cron
]

-- `padStart(2, '0')`
abbrev pub pad_two : Text → Text
pad_two [] = 48 ∷ 48 ∷ []
pad_two (c ∷ []) = 48 ∷ c ∷ []
pad_two (c ∷ d ∷ text) = c ∷ d ∷ text

abbrev pub nth_field : ℕ → List Text → Option Text
nth_field n [] = none
nth_field n (field ∷ fields) =
    let later = nth_field (n - 1) fields in if n == 0 then some field else later

abbrev pub time_text : Option SignedNumber → Option SignedNumber → Option Text
time_text (some hour) (some minute) = some (pad_two (to_text hour) ++ 58 ∷ pad_two (to_text minute))
time_text (some hour) none = none
time_text none minute = none

abbrev pub kept_number : (low high : ℕ) → Option SignedNumber → List ℕ
kept_number low high none = []
kept_number low high (some (minus n)) = if n == 0 && low == 0 then 0 ∷ [] else []
kept_number low high (some (whole n)) = if in_range low high n then n ∷ [] else []

abbrev pub kept_numbers : (low high : ℕ) → List Text → List ℕ
kept_numbers low high [] = []
kept_numbers low high (part ∷ parts) =
    kept_number low high (parse_int part) ++ kept_numbers low high parts

abbrev pub parse_cron_int_list : Option Text → (low high : ℕ) → List ℕ
parse_cron_int_list none low high = []
parse_cron_int_list (some field) low high =
    if is_empty field
    then []
    else ascending (unique_numbers [] (kept_numbers low high (split_by is_comma field)))

abbrev pub is_any_value : Option Text → Bool
is_any_value none = false
is_any_value (some field) = text_eq field any_value

-- The fields of a pattern that is not custom, from the parts of its expression.
abbrev pub fields_of_parts : SchedulePatternType → List Text → SchedulePatternFields
fields_of_parts pattern_type parts =
    let hour = parse_int (given [] (nth_field 1 parts)) in
    let minute = parse_int (given [] (nth_field 0 parts)) in
    let time = time_text hour minute in
    elim pattern_type [
      | weekly ↦ record {
        time = time;
        weekdays = parse_cron_int_list (nth_field 4 parts) 0 6;
        days_of_month = [];
        custom_cron = none;
      }
      | monthly ↦ record {
        time = time;
        weekdays = [];
        days_of_month =
            if is_any_value (nth_field 3 parts)
            then parse_cron_int_list (nth_field 2 parts) 1 28
            else [];
        custom_cron = none;
      }
      | _ ↦ record { time = time; weekdays = []; days_of_month = []; custom_cron = none }
    ]

unfoldable pub resolve_schedule_pattern_fields : SchedulePatternType → Text → SchedulePatternFields
resolve_schedule_pattern_fields pattern_type cron_expression = elim pattern_type [
  | custom ↦ record {
    time = none;
    weekdays = [];
    days_of_month = [];
    custom_cron = some cron_expression;
  }
  | preset ↦ fields_of_parts preset (split_words cron_expression)
]

-- The expression with seconds that the parser takes.
abbrev pub to_cron_parser_expression : Text → Validated Text
to_cron_parser_expression cron =
    let fields = split_words cron in
    if length fields == 5
    then valid (48 ∷ 32 ∷ join 32 fields)
    else invalid "Cron expression must have exactly 5 fields"

-- The package `cron-parser`, and the time zones that `Intl` knows.
pub record CronParser : Type 0 where
  pub knows_timezone : Text → Bool
  pub parses : (expression timezone : Text) → Bool
  pub next : (expression timezone : Text) → (after : ℕ) → Validated (Option ℕ)

abbrev pub validate_timezone : CronParser → Text → Validated {0} Unit
validate_timezone parser timezone =
    let value = trim timezone in
    if is_empty value
    then invalid "Timezone is required"
    else if parser.knows_timezone value
    then valid tt
    else invalid "Invalid timezone"

unfoldable pub validate_cron_and_timezone : CronParser → (cron timezone : Text) → Validated {0} Unit
validate_cron_and_timezone parser cron timezone = and_then (validate_timezone parser timezone) (λ _.
    and_then (to_cron_parser_expression cron) (λ fields.
      if parser.parses fields timezone then valid tt else invalid "Invalid cron expression"))

-- `next` gives none where the parser finds no further time, and otherwise throws on what it throws.
unfoldable pub compute_next_run_at :
    CronParser → (cron timezone : Text) (after : ℕ) → Validated (Option ℕ)
unfolding validate_cron_and_timezone
compute_next_run_at parser cron timezone after =
    and_then (validate_cron_and_timezone parser cron timezone)
      (λ _. and_then (to_cron_parser_expression cron) (λ fields. parser.next fields timezone after))
