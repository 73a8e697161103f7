-- ===== src/Scheduler/Fields.antt =====
-- A compiled expression is read back as what was entered.
use skytest_agent.Prelude.{
  ◌≡◌, refl, ap, sym, ◌∙◌, none, some, [], Text, is_empty, if◌then◌else◌, split_words, trim,
  decimal, ◌⊎◌, Bool-cases, inl, inr,
}
use skytest_agent.Scheduler.{
  SchedulePatternType, daily, weekly, monthly, custom, SchedulePatternFields, valid, invalid,
  CronInput,
}
use skytest_agent.Scheduler.Cron.{
  and_then, given, parse_time, parse_int_list, expression, any_value, number_list, compile_cron,
  parse_cron_int_list, fields_of_parts, resolve_schedule_pattern_fields,
}
use skytest_agent.Scheduler.Values.{and_then-valid, valid-injective}
use skytest_agent.Scheduler.Numbers.{number_list-not_space, number_list-not_empty}
use skytest_agent.Scheduler.Times.{time-read, parts-read}
use skytest_agent.Scheduler.Lists.{number_set, parse_int_list-set, numbers-read}

-- What a schedule's form shows of what was entered.
abbrev pub entered_fields : CronInput → SchedulePatternFields
entered_fields input = elim input.pattern_type [
  | daily ↦ record { time = input.time; weekdays = []; days_of_month = []; custom_cron = none }
  | weekly ↦ record {
    time = input.time;
    weekdays = number_set input.weekdays;
    days_of_month = [];
    custom_cron = none;
  }
  | monthly ↦ record {
    time = input.time;
    weekdays = [];
    days_of_month = number_set input.days_of_month;
    custom_cron = none;
  }
  | custom ↦ record {
    time = none;
    weekdays = [];
    days_of_month = [];
    custom_cron = some (trim (given [] input.custom_cron));
  }
]

module _ (input : CronInput) (cron : Text) where
  daily-read :
      and_then (parse_time input.time) (λ time.
        valid (expression (decimal time.minute) (decimal time.hour) any_value any_value any_value))
        ≡ valid cron
      → fields_of_parts daily (split_words cron)
        ≡ record { time = input.time; weekdays = []; days_of_month = []; custom_cron = none }
  daily-read h =
      let (time, e, made) = and_then-valid (parse_time input.time) h in
      ap (λ c. fields_of_parts daily (split_words c)) (sym (valid-injective made))
      ∙ parts-read time any_value any_value any_value refl refl refl refl refl refl daily
      ∙ ap (λ t. record { time = t; weekdays = []; days_of_month = []; custom_cron = none })
          (time-read input.time time e)

  weekly-read :
      and_then (parse_time input.time) (λ time.
        and_then (parse_int_list input.weekdays 0 6 "Select at least one weekday") (λ weekdays.
          valid (
            expression
              (decimal time.minute)
              (decimal time.hour)
              any_value
              any_value
              (number_list weekdays))))
        ≡ valid cron
      → fields_of_parts weekly (split_words cron) ≡ record {
        time = input.time;
        weekdays = number_set input.weekdays;
        days_of_month = [];
        custom_cron = none;
      }
  weekly-read h =
      let (time, e, made) = and_then-valid (parse_time input.time) h in
      let (numbers, f, put) =
        and_then-valid (parse_int_list input.weekdays 0 6 "Select at least one weekday") made in
      let accepted = parse_int_list-set input.weekdays 0 6 _ numbers f in
      ap (λ c. fields_of_parts weekly (split_words c)) (sym (valid-injective put))
      ∙ parts-read time any_value any_value (number_list numbers) refl refl
          (number_list-not_space numbers) refl refl (number_list-not_empty numbers accepted.1)
          weekly
      ∙ ap
          (λ t. record {
            time = t;
            weekdays = parse_cron_int_list (some (number_list numbers)) 0 6;
            days_of_month = [];
            custom_cron = none;
          })
          (time-read input.time time e)
      ∙ ap
          (λ ns. record {
            time = input.time;
            weekdays = ns;
            days_of_month = [];
            custom_cron = none;
          })
          (numbers-read input.weekdays 0 6 _ numbers f)

  monthly-read :
      and_then (parse_time input.time) (λ time.
        and_then
          (parse_int_list input.days_of_month 1 28 "Select at least one day of month")
          (λ days. valid (
            expression
              (decimal time.minute)
              (decimal time.hour)
              (number_list days)
              any_value
              any_value)))
        ≡ valid cron
      → fields_of_parts monthly (split_words cron) ≡ record {
        time = input.time;
        weekdays = [];
        days_of_month = number_set input.days_of_month;
        custom_cron = none;
      }
  monthly-read h =
      let (time, e, made) = and_then-valid (parse_time input.time) h in
      let (numbers, f, put) =
        and_then-valid (parse_int_list input.days_of_month 1 28 "Select at least one day of month")
          made in
      let accepted = parse_int_list-set input.days_of_month 1 28 _ numbers f in
      ap (λ c. fields_of_parts monthly (split_words c)) (sym (valid-injective put))
      ∙ parts-read time (number_list numbers) any_value any_value (number_list-not_space numbers)
          refl refl (number_list-not_empty numbers accepted.1) refl refl monthly
      ∙ ap
          (λ t. record {
            time = t;
            weekdays = [];
            days_of_month = parse_cron_int_list (some (number_list numbers)) 1 28;
            custom_cron = none;
          })
          (time-read input.time time e)
      ∙ ap
          (λ ns. record {
            time = input.time;
            weekdays = [];
            days_of_month = ns;
            custom_cron = none;
          })
          (numbers-read input.days_of_month 1 28 _ numbers f)

  custom-read :
      (if is_empty (trim (given [] input.custom_cron))
          then invalid "Custom cron expression is required"
          else valid (trim (given [] input.custom_cron)))
        ≡ valid cron
      → trim (given [] input.custom_cron) ≡ cron
  custom-read h = elim (Bool-cases (is_empty (trim (given [] input.custom_cron)))) [
    | inl e ↦ let absurd = rw e at h in cc
    | inr e ↦ valid-injective (rw e at h)
  ]

SchedulePatternType-cases :
    (p : SchedulePatternType) → (p ≡ daily) ⊎ ((p ≡ weekly) ⊎ ((p ≡ monthly) ⊎ (p ≡ custom)))
SchedulePatternType-cases daily = inl refl
SchedulePatternType-cases weekly = inr (inl refl)
SchedulePatternType-cases monthly = inr (inr (inl refl))
SchedulePatternType-cases custom = inr (inr (inr refl))

-- The expression that an input compiles to is resolved to the fields that were entered: the same time,
-- the set of the numbers in ascending order, and a custom expression without the space around it.
pub resolve-compile_cron :
    (input : CronInput) (cron : Text)
    → compile_cron input ≡ valid cron
    → resolve_schedule_pattern_fields input.pattern_type cron ≡ entered_fields input
unfolding compile_cron resolve_schedule_pattern_fields
resolve-compile_cron input cron h = elim (SchedulePatternType-cases input.pattern_type) [
  | inl e ↦ rw e (daily-read input cron (rw e at h))
  | inr (inl e) ↦ rw e (weekly-read input cron (rw e at h))
  | inr (inr (inl e)) ↦ rw e (monthly-read input cron (rw e at h))
  | inr (inr (inr e)) ↦ rw e (
      ap (λ c. record { time = none; weekdays = []; days_of_month = []; custom_cron = some c })
        (sym (custom-read input cron (rw e at h))))
]
