-- ===== src/Tests/Rounds.antt =====
-- A function that runs the members of a round: each one's row fails.
use skytest_agent.Prelude.{
  ℕ, suc, ◌+◌, ◌≤◌, ◌≡◌, refl, sym, ap, ◌∙◌, ◌&&◌, List, [], ◌∷◌, if◌then◌else◌, ◌==◌, length,
  count_where, arith, length-sort_by,
}
use skytest_agent.Status.{fail}
use skytest_agent.Store.{TestRun}
use skytest_agent.Retry.Plan.{
  AttemptRecord, CaseEntry, states_of, add_attempt, entries_from, build_case_retry_states,
  executed_by,
}
use skytest_agent.Retry.Runner.{SessionMember, load_session_attempts}
use skytest_agent.Retry.Rounds.{case_count, runs_of}

abbrev run_member : SessionMember → List TestRun → List TestRun
run_member m [] = []
run_member m (r ∷ rs) =
    if r.id == m.id && r.test_case_id == m.test_case_id
    then record r { status = fail } ∷ rs
    else r ∷ run_member m rs

abbrev pub run_members : ℕ → List SessionMember → List TestRun → List TestRun
run_members i [] runs = runs
run_members i (m ∷ ms) runs = run_members i ms (run_member m runs)

executed_by_le : (r : TestRun) → executed_by r.status ≤ 1
executed_by_le r = ground arith

runs_of-run_member :
    (session_id c : ℕ) (m : SessionMember) (runs : List TestRun)
    → runs_of session_id c (run_member m runs)
      ≤ runs_of session_id c runs + (if m.test_case_id == c then 1 else 0)
unfolding load_session_attempts
runs_of-run_member session_id c m [] = omega arith
runs_of-run_member session_id c m (r ∷ rs) = ground (arith, runs_of-run_member session_id c m rs)

pub run_members-runs_of :
    (session_id c i : ℕ) (ms : List SessionMember) (runs : List TestRun)
    → runs_of session_id c (run_members i ms runs)
      ≤ runs_of session_id c runs + count_where (λ m. m.test_case_id == c) ms
run_members-runs_of session_id c i [] runs = omega arith
run_members-runs_of session_id c i (m ∷ ms) runs = omega (
  arith,
  runs_of-run_member session_id c m runs,
  run_members-runs_of session_id c i ms (run_member m runs),
)

-- The cases of the attempts, in their order, and of the entries.
abbrev cases_of : List AttemptRecord → List ℕ
cases_of [] = []
cases_of (a ∷ rest) = a.test_case_id ∷ cases_of rest

abbrev entry_cases : List CaseEntry → List ℕ
entry_cases [] = []
entry_cases (e ∷ es) = e.state.test_case_id ∷ entry_cases es

abbrev add_case : ℕ → List ℕ → List ℕ
add_case c [] = c ∷ []
add_case c (d ∷ ds) = if d == c then d ∷ ds else d ∷ add_case c ds

abbrev add_cases : List ℕ → List ℕ → List ℕ
add_cases ds [] = ds
add_cases ds (c ∷ cs) = add_cases (add_case c ds) cs

entry_cases-add_attempt :
    (a : AttemptRecord) (es : List CaseEntry)
    → entry_cases (add_attempt a es) ≡ add_case a.test_case_id (entry_cases es)
unfolding add_attempt
entry_cases-add_attempt a [] = refl
entry_cases-add_attempt a (e ∷ es) = ground (arith, entry_cases-add_attempt a es)

entry_cases-entries_from :
    (xs : List AttemptRecord) (es : List CaseEntry)
    → entry_cases (entries_from es xs) ≡ add_cases (entry_cases es) (cases_of xs)
unfolding entries_from
entry_cases-entries_from [] es = refl
entry_cases-entries_from (a ∷ xs) es =
    entry_cases-entries_from xs (add_attempt a es)
    ∙ ap (λ ds. add_cases ds (cases_of xs)) (entry_cases-add_attempt a es)

length-entry_cases : (es : List CaseEntry) → length (states_of es) ≡ length (entry_cases es)
length-entry_cases [] = refl
length-entry_cases (e ∷ es) = ap suc (length-entry_cases es)

length-build :
    (xs : List AttemptRecord)
    → length (build_case_retry_states xs) ≡ length (add_cases [] (cases_of xs))
unfolding build_case_retry_states
length-build xs =
    length-sort_by _ _
    ∙ length-entry_cases (entries_from [] xs)
    ∙ ap length (entry_cases-entries_from xs [])

cases_of-run_member :
    (session_id : ℕ) (m : SessionMember) (runs : List TestRun)
    → cases_of (load_session_attempts session_id (run_member m runs))
      ≡ cases_of (load_session_attempts session_id runs)
unfolding load_session_attempts
cases_of-run_member session_id m [] = refl
cases_of-run_member session_id m (r ∷ rs) = ground (arith, cases_of-run_member session_id m rs)

pub run_members-case_count :
    (session_id i : ℕ) (ms : List SessionMember) (runs : List TestRun)
    → case_count session_id (run_members i ms runs) ≡ case_count session_id runs
run_members-case_count session_id i [] runs = refl
run_members-case_count session_id i (m ∷ ms) runs =
    run_members-case_count session_id i ms (run_member m runs)
    ∙ length-build _
    ∙ ap (λ cs. length (add_cases [] cs)) (cases_of-run_member session_id m runs)
    ∙ sym (length-build _)
