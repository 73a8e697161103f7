-- ===== src/Masking/Variables.antt =====
-- apps/web/src/lib/runtime/masked-variables.ts: the values that the masked variables of a test case
-- and of its project have. A `Map` is the list of its entries; the tables of variables are arguments.
use skytest_agent.Prelude.{
  ℕ, Bool, true, false, ◌&&◌, none, some, List, [], ◌∷◌, Text, is_empty, text_eq, if◌then◌else◌,
  ◌==◌, any, select, map,
}
use skytest_agent.Store.{TestRun, TestCase}
use skytest_agent.Store.Keys.{find_run, find_case}

pub data ConfigType : Type 0 where
  url app_id variable random_string file : ConfigType

-- A row of `ProjectConfig` or of `TestCaseConfig`; the owner is the project or the test case.
pub record VariableConfig : Type 0 where
  pub owner : ℕ
  pub name : Text
  pub type : ConfigType
  pub value : Text
  pub masked : Bool

pub record Entry : Type 0 where
  pub key : Text
  pub item : Text

-- `map.set`, which keeps the place of a key that is there.
abbrev pub set_entry : (key item : Text) → List Entry → List Entry
set_entry key item [] = record { key = key; item = item } ∷ []
set_entry key item (e ∷ entries) =
    if text_eq key e.key
    then record { key = key; item = item } ∷ entries
    else e ∷ set_entry key item entries

abbrev pub set_configs : List VariableConfig → List Entry → List Entry
set_configs [] entries = entries
set_configs (config ∷ configs) entries =
    set_configs configs (set_entry config.name config.value entries)

abbrev pub unique_non_empty_from : (seen values : List Text) → List Text
unique_non_empty_from seen [] = []
unique_non_empty_from seen (value ∷ values) =
    let skipped = unique_non_empty_from seen values in
    let kept = unique_non_empty_from (value ∷ seen) values in
    if is_empty value then skipped else if any (text_eq value) seen then skipped else value ∷ kept

unfoldable pub unique_non_empty : List Text → List Text
unique_non_empty values = unique_non_empty_from [] values

abbrev pub is_variable : ConfigType → Bool
is_variable variable = true
is_variable _ = false

abbrev pub is_masked_variable_of : ℕ → VariableConfig → Bool
is_masked_variable_of owner config =
    config.owner == owner && (is_variable config.type && config.masked)

unfoldable pub load_masked_variable_values_for_test_case :
    (project_configs test_case_configs : List VariableConfig) (project_id test_case_id : ℕ)
    → List Text
unfolding unique_non_empty
load_masked_variable_values_for_test_case project_configs test_case_configs project_id
      test_case_id =
    let merged = set_configs (select (is_masked_variable_of project_id) project_configs) [] in
    unique_non_empty (
      map (λ (e : Entry). e.item)
        (set_configs (select (is_masked_variable_of test_case_id) test_case_configs) merged))

-- A run's test case is there, as the column refers to it.
unfoldable pub load_masked_variable_values_for_run :
    List TestRun
    → List TestCase
    → (project_configs test_case_configs : List VariableConfig) (run_id : ℕ) → List Text
unfolding load_masked_variable_values_for_test_case
load_masked_variable_values_for_run runs cases project_configs test_case_configs run_id =
    elim (find_run run_id runs) [
      | none ↦ []
      | some run ↦ (elim (find_case run.test_case_id cases) [
        | none ↦ []
        | some test_case ↦
            load_masked_variable_values_for_test_case project_configs test_case_configs
              test_case.project_id run.test_case_id
      ])
    ]
