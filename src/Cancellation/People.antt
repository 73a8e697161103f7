-- ===== src/Cancellation/People.antt =====
-- Which stored messages say that a person stopped a run: the reverse lookup of
-- apps/web/src/lib/runtime/cancellation-reasons.ts against the four texts themselves.
use text.Mathlib.Text.{◌==◌ as str_eq}
use text.Mathlib.TextEquality.{eq_iff}
use skytest_agent.Prelude.{
  ◌≡◌, refl, Bool, false, Option, none, some, String, ◌&&◌, ◌||◌, if◌then◌else◌, arith, inl, inr,
  Bool-cases,
}
use skytest_agent.Status.{TestStatus, cancelled, status_eq}
use skytest_agent.Cancellation.{
  ReasonCode, user_single, user_group, mcp, mcp_for_update, login_flow_failed, earlier_case_failed,
  reason_codes, code_of, is_user_initiated_code, cancellation_reason, cancellation_reason_code_for,
  is_user_initiated_cancellation,
}

abbrev is_person : Option ReasonCode → Bool
is_person none = false
is_person (some code) = is_user_initiated_code code

-- The message that says that a person stopped the run.
abbrev pub is_stop_message : Option String → Bool
is_stop_message none = false
is_stop_message (some error) =
    str_eq "This test run was stopped manually." error
    || (str_eq "This run was stopped when its test group was stopped." error
        || (str_eq "This run was stopped from the MCP integration." error
            || str_eq "This run was stopped from the MCP integration to apply a test case update."
                error))

person_branch :
    (a b c d e f : Bool)
    → is_person (
        if a
        then some user_single
        else if b
        then some user_group
        else if c
        then some mcp
        else if d
        then some mcp_for_update
        else if e
        then some login_flow_failed
        else if f
        then some earlier_case_failed
        else none)
      ≡ (a || (b || (c || d)))
person_branch a b c d e f = ground arith

-- The table gives a text one of the four codes exactly where it is one of their messages.
person_code :
    (error : String) → is_person (code_of reason_codes error) ≡ is_stop_message (some error)
unfolding code_of cancellation_reason
person_code error = person_branch _ _ _ _ _ _

cancelled_code :
    (error : String)
    → is_user_initiated_cancellation cancelled (some error) ≡ is_stop_message (some error)
unfolding is_user_initiated_cancellation cancellation_reason_code_for
cancelled_code error = elim (Bool-cases (str_eq error "")) [
  | inl e ↦ rw ((eq_iff error "").0 e) refl
  | inr n ↦ rw (is_user_initiated_cancellation, cancellation_reason_code_for, n) (person_code error)
]

pub is_user_initiated_cancellation_lem :
    (status : TestStatus) (error : Option String)
    → is_user_initiated_cancellation status error
      ≡ (status_eq status cancelled && is_stop_message error)
unfolding is_user_initiated_cancellation cancellation_reason_code_for cancellation_reason
is_user_initiated_cancellation_lem cancelled (some error) = cancelled_code error
is_user_initiated_cancellation_lem cancelled none = refl
is_user_initiated_cancellation_lem _ none = refl
is_user_initiated_cancellation_lem _ (some error) = refl
