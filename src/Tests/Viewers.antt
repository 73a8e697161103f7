-- ===== src/Tests/Viewers.antt =====
-- A masked variable of a test case, and one of its project, in the log of a run.
use skytest_agent.Prelude.{true, List, [], ◌∷◌, Text, ◌≡◌, refl, codes}
use skytest_agent.Masking.{TestEvent, log, log_data, create_exact_value_masker}
use skytest_agent.Masking.Variables.{VariableConfig, variable}

abbrev password : Text
password = codes "abc"

abbrev masked_log : Text
masked_log = codes "typed abc123, then abcabc"

masker_reads :
    create_exact_value_masker (password ∷ codes "abc123" ∷ []) masked_log
    ≡ codes "typed ****, then ********"
unfolding create_exact_value_masker
masker_reads = refl

abbrev own_configs : List VariableConfig
own_configs =
    record { owner = 5; name = codes "password"; type = variable; value = password; masked = true }
    ∷ []

abbrev shared_configs : List VariableConfig
shared_configs =
    record {
      owner = 1;
      name = codes "password";
      type = variable;
      value = codes "xyz";
      masked = true;
    }
    ∷ []

abbrev log_event : TestEvent
log_event = record { type = log; data_of = log_data masked_log 0; timestamp = 7 }
