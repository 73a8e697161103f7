-- ===== src/Cancellation.antt =====
-- apps/web/src/lib/runtime/cancellation-reasons.ts: why a run settled as cancelled. A message is a
-- native text, compared whole.
pub mod People
use text.Mathlib.Text.{◌==◌ as str_eq}
use skytest_agent.Prelude.{
  String, Bool, true, false, Option, none, some, if◌then◌else◌, List, [], ◌∷◌, ◌||◌,
}
use skytest_agent.Status.{TestStatus, cancelled, status_eq}

pub data ReasonCode : Type 0 where
  user_single user_group mcp mcp_for_update login_flow_failed earlier_case_failed : ReasonCode

-- `CANCELLATION_REASON`
unfoldable pub cancellation_reason : ReasonCode → String
cancellation_reason user_single = "This test run was stopped manually."
cancellation_reason user_group = "This run was stopped when its test group was stopped."
cancellation_reason mcp = "This run was stopped from the MCP integration."
cancellation_reason mcp_for_update =
    "This run was stopped from the MCP integration to apply a test case update."
cancellation_reason login_flow_failed =
    "This test did not run because a login flow in the group failed before it."
cancellation_reason earlier_case_failed =
    "This test did not run because an earlier test case in the group failed."

abbrev reason_codes : List ReasonCode
reason_codes =
    user_single ∷ user_group ∷ mcp ∷ mcp_for_update ∷ login_flow_failed ∷ earlier_case_failed ∷ []

-- `REASON_STRING_TO_CODE[error]`
code_of : List ReasonCode → String → Option ReasonCode
code_of [] error = none
code_of (c ∷ cs) error =
    let rest = code_of cs error in if str_eq (cancellation_reason c) error then some c else rest

abbrev is_cancelled : TestStatus → Bool
is_cancelled s = status_eq s cancelled

-- The empty text is falsy.
abbrev present : Option String → Option String
present none = none
present (some e) = if str_eq e "" then none else some e

unfoldable pub cancellation_reason_code_for : TestStatus → Option String → Option ReasonCode
unfolding code_of
cancellation_reason_code_for status error =
    if is_cancelled status
    then (elim (present error) [ none ↦ none | some e ↦ code_of reason_codes e ])
    else none

-- `USER_INITIATED_CANCELLATION_CODES`
abbrev pub is_user_initiated_code : ReasonCode → Bool
is_user_initiated_code user_single = true
is_user_initiated_code user_group = true
is_user_initiated_code mcp = true
is_user_initiated_code mcp_for_update = true
is_user_initiated_code _ = false

unfoldable pub is_user_initiated_cancellation : TestStatus → Option String → Bool
unfolding cancellation_reason_code_for
is_user_initiated_cancellation status error = elim (cancellation_reason_code_for status error) [
  | none ↦ false
  | some code ↦ is_user_initiated_code code
]
