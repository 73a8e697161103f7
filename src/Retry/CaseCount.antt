-- ===== src/Retry/CaseCount.antt =====
-- Creating retry attempts adds no case to a session: every created row is of a case that stands in
-- it.
use skytest_agent.Prelude.{
  ℕ, suc, ◌≡◌, refl, sym, ap, ◌∙◌, Bool, true, ◌&&◌, List, [], ◌∷◌, ◌++◌, ◌==◌, ==_refl, any,
  select, length, find_first, arith, Option-cases, inl, inr, length-sort_by, any-append, any-select,
  any_mono, find_first-any,
}
use skytest_agent.Store.{TestRun}
use skytest_agent.Retry.Plan.{
  AttemptRecord, CaseRetryState, CaseEntry, add_attempt, entries_from, states_of,
  build_case_retry_states,
}
use skytest_agent.Retry.Entries.{has_case}
use skytest_agent.Retry.States.{has_case-entries_from}
use skytest_agent.Retry.Runner.{
  attempt_of, attempts_of, in_session, load_session_attempts, retry_run, create_from,
  create_retry_attempts,
}
use skytest_agent.Retry.Created.{load_session_attempts-append, any-latest_by_case, any-sort_desc}

abbrev attempted : ℕ → List AttemptRecord → Bool
attempted c attempts = any (λ a. a.test_case_id == c) attempts

length-states_of : (es : List CaseEntry) → length (states_of es) ≡ length es
length-states_of [] = refl
length-states_of (e ∷ es) = ap suc (length-states_of es)

length-add_attempt :
    (a : AttemptRecord) (es : List CaseEntry)
    → has_case a.test_case_id es ≡ true
    → length (add_attempt a es) ≡ length es
unfolding add_attempt
length-add_attempt a [] h = ground arith
length-add_attempt a (e ∷ es) h = ground (arith, length-add_attempt a es)

entries_from-append :
    (xs : List AttemptRecord) (a : AttemptRecord) (es : List CaseEntry)
    → entries_from es (xs ++ a ∷ []) ≡ add_attempt a (entries_from es xs)
unfolding entries_from
entries_from-append [] a es = refl
entries_from-append (x ∷ xs) a es = entries_from-append xs a (add_attempt x es)

length-build :
    (attempts : List AttemptRecord)
    → length (build_case_retry_states attempts) ≡ length (entries_from [] attempts)
unfolding build_case_retry_states
length-build attempts = length-sort_by _ _ ∙ length-states_of (entries_from [] attempts)

length-build_append :
    (xs : List AttemptRecord) (a : AttemptRecord)
    → attempted a.test_case_id xs ≡ true
    → length (build_case_retry_states (xs ++ a ∷ [])) ≡ length (build_case_retry_states xs)
length-build_append xs a h =
    length-build (xs ++ a ∷ [])
    ∙ ap length (entries_from-append xs a [])
    ∙ length-add_attempt a (entries_from [] xs) (has_case-entries_from a.test_case_id xs [] ∙ h)
    ∙ sym (length-build xs)

attempted-attempts_of :
    (c : ℕ) (runs : List TestRun)
    → attempted c (attempts_of runs) ≡ any (λ r. r.test_case_id == c) runs
attempted-attempts_of c [] = refl
attempted-attempts_of c (r ∷ runs) = ground (arith, attempted-attempts_of c runs)

module _ (cuid clock : List TestRun → ℕ) (session_id : ℕ) where
  abbrev stands : ℕ → List TestRun → Bool
  stands c runs = attempted c (load_session_attempts session_id runs)

  stands-append :
      (c : ℕ) (runs : List TestRun) (r : TestRun)
      → in_session session_id r ≡ true
      → stands c runs ≡ true
      → stands c (runs ++ r ∷ []) ≡ true
  stands-append c runs r i h =
      ap (attempted c) (load_session_attempts-append cuid clock session_id runs r i)
      ∙ any-append (λ a. a.test_case_id == c) (load_session_attempts session_id runs)
          (attempt_of r ∷ [])
      ∙ ground arith

  module _ (latest : List TestRun) where
    create_from-length :
        (plan : List CaseRetryState) (runs : List TestRun)
        → ((c : ℕ) → any (λ r. r.test_case_id == c) latest ≡ true → stands c runs ≡ true)
        → length (
            build_case_retry_states (
              load_session_attempts session_id
                (create_from cuid clock session_id latest plan runs).0))
          ≡ length (build_case_retry_states (load_session_attempts session_id runs))
    unfolding create_from retry_run
    create_from-length [] runs h = refl
    create_from-length (s ∷ plan) runs h =
        elim (Option-cases (find_first (λ r. r.test_case_id == s.test_case_id) latest)) [
          | inl missing ↦ rw (missing, create_from) (create_from-length plan runs h)
          | inr (source, found) ↦
              rw (found, create_from)
                (let r = retry_run session_id (cuid runs) (clock runs) s source in
                  create_from-length plan (runs ++ r ∷ [])
                    (λ c p. stands-append c runs r (==_refl session_id) (h c p))
                  ∙ ap (λ xs. length (build_case_retry_states xs))
                      (load_session_attempts-append cuid clock session_id runs r
                        (==_refl session_id))
                  ∙ length-build_append (load_session_attempts session_id runs) (attempt_of r)
                      (h s.test_case_id (find_first-any _ latest found)))
        ]

  -- A case with a row among those that are read again stands in the session.
  stands_of_row :
      (c : ℕ) (plan : List CaseRetryState) (runs : List TestRun)
      → any
          (λ r. r.test_case_id == c)
          (select
            (λ r. in_session session_id r && any (λ s. s.test_case_id == r.test_case_id) plan)
            runs)
        ≡ true
      → stands c runs ≡ true
  unfolding load_session_attempts
  stands_of_row c plan runs h =
      attempted-attempts_of c (select (in_session session_id) runs)
      ∙ any-select (λ r. r.test_case_id == c) (in_session session_id) runs
      ∙ any_mono _ _ runs (λ r p. ground arith) (sym (any-select _ _ runs) ∙ h)

  -- `createRetryAttempts` leaves the number of cases of the session as it was.
  pub create_retry_attempts-case_count :
      (plan : List CaseRetryState) (runs : List TestRun)
      → length (
          build_case_retry_states (
            load_session_attempts session_id
              (create_retry_attempts cuid clock session_id plan runs).0))
        ≡ length (build_case_retry_states (load_session_attempts session_id runs))
  unfolding create_retry_attempts
  create_retry_attempts-case_count plan runs =
      create_from-length _ plan runs
        λ c p. stands_of_row c plan runs (sym (any-latest_by_case c [] _ ∙ any-sort_desc c _) ∙ p)
