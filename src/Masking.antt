-- ===== src/Masking.antt =====
-- apps/web/src/lib/runtime/log-masking.ts: the values of masked variables are replaced in what a viewer
-- sees. Texts are lists of code units. The regular expression of the masker is an alternation of
-- literal texts, which matches the first of them at each place. Variables is masked-variables.ts, which
-- loads the values; Hidden, Loaded and Viewer prove that a viewer does not see them.
pub mod Hidden
pub mod Variables
pub mod Loaded
pub mod Viewer
use skytest_agent.Prelude.{
  ℕ, zero, suc, ◌-◌, Bool, true, false, not, ◌&&◌, ◌||◌, Option, none, some, List, [], ◌∷◌, ◌++◌,
  Text, text_eq, is_empty, starts_with, if◌then◌else◌, ◌==◌, leb, any, select, find_first, length,
  utf16_length,
}

abbrev pub star : ℕ
star = 42

-- `MASKED_TEXT`
abbrev pub masked_text : Text
masked_text = star ∷ star ∷ star ∷ star ∷ []

-- `set.add` for a value that may be there.
abbrev pub add_value : Text → List Text → List Text
add_value value values = if any (text_eq value) values then values else values ++ value ∷ []

unfoldable pub unique_values : (seen values : List Text) → List Text
unique_values seen [] = seen
unique_values seen (value ∷ values) =
    unique_values (if is_empty value then seen else add_value value seen) values

-- `sort((a, b) => b.length - a.length)`: a value stands before the first that is not longer.
abbrev pub insert_by_length : Text → List Text → List Text
insert_by_length value [] = value ∷ []
insert_by_length value (x ∷ xs) =
    if leb (utf16_length x) (utf16_length value)
    then value ∷ x ∷ xs
    else x ∷ insert_by_length value xs

abbrev pub longest_first : List Text → List Text
longest_first [] = []
longest_first (value ∷ values) = insert_by_length value (longest_first values)

unfoldable pub normalize_masked_values : List Text → List Text
unfolding unique_values
normalize_masked_values masked_values = longest_first (unique_values [] masked_values)

-- `text.replace(pattern, MASKED_TEXT)`; `skip` code units belong to the last match.
unfoldable pub replace_values : List Text → (skip : ℕ) → Text → Text
replace_values values skip [] = []
replace_values values (suc skip) (c ∷ text) = replace_values values skip text
replace_values values zero (c ∷ text) = elim (find_first (starts_with (c ∷ text)) values) [
  | none ↦ c ∷ replace_values values zero text
  | some value ↦ masked_text ++ replace_values values (length value - 1) text
]

unfoldable pub create_exact_value_masker : List Text → Text → Text
unfolding normalize_masked_values replace_values
create_exact_value_masker masked_values text =
    let values = normalize_masked_values masked_values in
    if length values == 0 then text else replace_values values zero text

pub data TestEventType : Type 0 where
  log screenshot : TestEventType

pub data EventData : Type 0 where
  log_data : (message : Text) (level : ℕ) → EventData
  screenshot_data : (src label : Text) → EventData

-- `browserId`, which no masking reads, is left out.
pub record TestEvent : Type 0 where
  pub type : TestEventType
  pub data_of : EventData
  pub timestamp : ℕ

-- An event that the masker does not change is returned as it is.
unfoldable pub mask_event_for_viewer : TestEvent → (Text → Text) → TestEvent
mask_event_for_viewer event mask_text = elim event.type [
  | log ↦ (elim event.data_of [
    | log_data message level ↦
        if text_eq (mask_text message) message
        then event
        else record event { data_of = log_data (mask_text message) level }
    | screenshot_data src label ↦ event
  ])
  | screenshot ↦ (elim event.data_of [
    | log_data message level ↦ event
    | screenshot_data src label ↦
        if text_eq (mask_text label) label
        then event
        else record event { data_of = screenshot_data src (mask_text label) }
  ])
]

abbrev pub mask_nullable_text : Option Text → (Text → Text) → Option Text
mask_nullable_text none mask_text = none
mask_nullable_text (some value) mask_text = some (mask_text value)
