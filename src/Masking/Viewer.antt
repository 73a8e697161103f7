-- ===== src/Masking/Viewer.antt =====
-- What a viewer of a run reads, against the masked variables of its test case and its project.
use skytest_agent.Prelude.{
  ℕ, ◌≤◌, Bool, true, false, ◌&&◌, Option, none, some, List, Text, ◌==◌, select, find_first,
  count_where,
}
use skytest_agent.Masking.{
  TestEvent, TestEventType, log, screenshot, EventData, log_data, screenshot_data,
}
use skytest_agent.Masking.Variables.{VariableConfig, is_masked_variable_of}
use skytest_agent.Masking.Loaded.{is_named}

-- The text of an event that the masker is for.
abbrev pub viewer_text : TestEvent → Text
viewer_text event = elim event.data_of [
  | log_data message level ↦ message
  | screenshot_data src label ↦ label
]

-- A log event carries a message, and a screenshot event an image.
abbrev pub is_typed : TestEventType → EventData → Bool
is_typed log (log_data message level) = true
is_typed log (screenshot_data src label) = false
is_typed screenshot (log_data message level) = false
is_typed screenshot (screenshot_data src label) = true

-- `@@unique([projectId, name])`, `@@unique([testCaseId, name])`
unfoldable pub HasUniqueNames : List VariableConfig → Type 0
HasUniqueNames configs =
    (owner : ℕ) (name : Text) → count_where (λ c. c.owner == owner && is_named name c) configs ≤ 1

abbrev pub own_or : (own shared : Option VariableConfig) → Option Text
own_or (some config) shared = some config.value
own_or none (some config) = some config.value
own_or none none = none

-- The value of a masked variable: the test case's, or else the project's.
abbrev pub masked_value :
    (name : Text) (project_configs test_case_configs : List VariableConfig)
    (project_id test_case_id : ℕ)
    → Option Text
masked_value name project_configs test_case_configs project_id test_case_id =
    own_or
      (find_first (is_named name) (select (is_masked_variable_of test_case_id) test_case_configs))
      (find_first (is_named name) (select (is_masked_variable_of project_id) project_configs))
