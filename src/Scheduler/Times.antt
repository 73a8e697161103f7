-- ===== src/Scheduler/Times.antt =====
-- The parts of a compiled expression, and the time in them.
use skytest_agent.Prelude.{
  ℕ, ◌+◌, ◌-◌, ◌*◌, ◌≤◌, ◌≡◌, refl, ap, ◌∙◌, true, false, not, Option, none, some, [], ◌∷◌, ◌++◌,
  Text, is_empty, ◌==◌, any, split_by, split_by-append, split_by-single, split_words, is_space,
  is_digit, decimal, decimal-small, decimal-large, or_empty, select, decimal-not_empty, whole,
  parse_int, parse_int-decimal, arith, Bool-cases, inl, inr,
}
use skytest_agent.Scheduler.{SchedulePatternType, valid}
use skytest_agent.Scheduler.Cron.{Time, parse_time, expression, pad_two, time_text, fields_of_parts}
use skytest_agent.Scheduler.Numbers.{decimal-not_space}

two_codes : {a b c d : ℕ} → a ≡ c → b ≡ d → Path Text (a ∷ b ∷ []) (c ∷ d ∷ [])
two_codes h k = cc

-- Two digits are padded back to themselves.
pad_two-decimal :
    (a b : ℕ)
    → is_digit a ≡ true
    → is_digit b ≡ true
    → pad_two (decimal ((a - 48) * 10 + (b - 48))) ≡ a ∷ b ∷ []
pad_two-decimal a b h k =
    let ranges : (48 ≤ a) × (a ≤ 57) × (48 ≤ b) × (b ≤ 57) = ground arith in
    let (a_low, a_high, b_low, b_high) = ranges in
    elim (Bool-cases (a == 48)) [
      | inl e ↦
          let zero_hour : a ≡ 48 = ground arith in
          ap pad_two (decimal-small ((a - 48) * 10 + (b - 48)) (omega arith))
          ∙ two_codes (omega arith) (omega arith)
      | inr e ↦
          let positive : 49 ≤ a = ground arith in
          ap pad_two (decimal-large ((a - 48) * 10 + (b - 48)) (omega arith) (omega arith))
          ∙ two_codes (omega arith) (omega arith)
    ]

module _ (minute hour day month weekday : Text) where
  split_words-expression :
      any is_space minute ≡ false
      → any is_space hour ≡ false
      → any is_space day ≡ false
      → any is_space month ≡ false
      → any is_space weekday ≡ false
      → is_empty minute ≡ false
      → is_empty hour ≡ false
      → is_empty day ≡ false
      → is_empty month ≡ false
      → is_empty weekday ≡ false
      → split_words (expression minute hour day month weekday)
        ≡ minute ∷ hour ∷ day ∷ month ∷ weekday ∷ []
  split_words-expression a b c d e f g h i j =
      let last : split_by is_space (month ++ 32 ∷ weekday) ≡ month ∷ weekday ∷ [] =
        split_by-append is_space month weekday 32 d refl
        ∙ ap (λ ps. month ∷ ps) (split_by-single is_space weekday e) in
      let days : split_by is_space (day ++ 32 ∷ (month ++ 32 ∷ weekday))
          ≡ day ∷ month ∷ weekday ∷ [] =
        split_by-append is_space day (month ++ 32 ∷ weekday) 32 c refl ∙ ap (λ ps. day ∷ ps) last in
      let hours : split_by is_space (hour ++ 32 ∷ (day ++ 32 ∷ (month ++ 32 ∷ weekday)))
          ≡ hour ∷ day ∷ month ∷ weekday ∷ [] =
        split_by-append is_space hour (day ++ 32 ∷ (month ++ 32 ∷ weekday)) 32 b refl
        ∙ ap (λ ps. hour ∷ ps) days in
      let parts : split_by is_space (expression minute hour day month weekday)
          ≡ minute ∷ hour ∷ day ∷ month ∷ weekday ∷ [] =
        split_by-append is_space minute (hour ++ 32 ∷ (day ++ 32 ∷ (month ++ 32 ∷ weekday))) 32 a
          refl
        ∙ ap (λ ps. minute ∷ ps) hours in
      ap (λ ps. or_empty (select (λ part. not (is_empty part)) ps)) parts ∙ rw (f, g, h, i, j) refl

joined :
    {hours minutes : Text} {a b c d colon : ℕ}
    → hours ≡ a ∷ b ∷ []
    → minutes ≡ c ∷ d ∷ []
    → colon ≡ 58
    → Path (Option Text) (some (hours ++ 58 ∷ minutes)) (some (a ∷ b ∷ colon ∷ c ∷ d ∷ []))
joined h k l = rw (h, k, l) refl

parse_time-digits :
    (a b colon c d : ℕ) (time : Time)
    → parse_time (some (a ∷ b ∷ colon ∷ c ∷ d ∷ [])) ≡ valid time
    → (is_digit a ≡ true)
      × (is_digit b ≡ true)
      × (colon ≡ 58)
      × (is_digit c ≡ true)
      × (is_digit d ≡ true)
      × (time.hour ≡ (a - 48) * 10 + (b - 48))
      × (time.minute ≡ (c - 48) * 10 + (d - 48))
parse_time-digits a b colon c d time h = ground (arith, h)

parse_time-text :
    (entered : Option Text) (time : Time)
    → parse_time entered ≡ valid time
    → time_text (some (whole time.hour)) (some (whole time.minute)) ≡ entered
parse_time-text none time h = ground arith
parse_time-text (some []) time h = ground arith
parse_time-text (some (a ∷ [])) time h = ground arith
parse_time-text (some (a ∷ b ∷ [])) time h = ground arith
parse_time-text (some (a ∷ b ∷ colon ∷ [])) time h = ground arith
parse_time-text (some (a ∷ b ∷ colon ∷ c ∷ [])) time h = ground arith
parse_time-text (some (a ∷ b ∷ colon ∷ c ∷ d ∷ [])) time h =
    let facts : (is_digit a ≡ true)
        × (is_digit b ≡ true)
        × (colon ≡ 58)
        × (is_digit c ≡ true)
        × (is_digit d ≡ true)
        × (time.hour ≡ (a - 48) * 10 + (b - 48))
        × (time.minute ≡ (c - 48) * 10 + (d - 48)) =
      parse_time-digits a b colon c d time h in
    let hours = ap (λ n. pad_two (decimal n)) facts.5 ∙ pad_two-decimal a b facts.0 facts.1 in
    let minutes = ap (λ n. pad_two (decimal n)) facts.6 ∙ pad_two-decimal c d facts.3 facts.4 in
    joined hours minutes facts.2
parse_time-text (some (a ∷ b ∷ colon ∷ c ∷ d ∷ e ∷ rest)) time h = ground arith

pub time-read :
    (entered : Option Text) (time : Time)
    → parse_time entered ≡ valid time
    → time_text (parse_int (decimal time.hour)) (parse_int (decimal time.minute)) ≡ entered
time-read entered time h =
    ap (λ o. time_text o (parse_int (decimal time.minute))) (parse_int-decimal time.hour)
    ∙ ap (λ o. time_text (some (whole time.hour)) o) (parse_int-decimal time.minute)
    ∙ parse_time-text entered time h

module _ (time : Time) (day month weekday : Text) where
  pub parts-read :
      any is_space day ≡ false
      → any is_space month ≡ false
      → any is_space weekday ≡ false
      → is_empty day ≡ false
      → is_empty month ≡ false
      → is_empty weekday ≡ false
      → (pattern_type : SchedulePatternType)
      → fields_of_parts pattern_type
          (split_words (expression (decimal time.minute) (decimal time.hour) day month weekday))
        ≡ fields_of_parts pattern_type
            (decimal time.minute ∷ decimal time.hour ∷ day ∷ month ∷ weekday ∷ [])
  parts-read c d e h i j pattern_type =
      ap (λ parts. fields_of_parts pattern_type parts)
        (split_words-expression (decimal time.minute) (decimal time.hour) day month weekday
          (decimal-not_space time.minute) (decimal-not_space time.hour) c d e
          (decimal-not_empty time.minute) (decimal-not_empty time.hour) h i j)
