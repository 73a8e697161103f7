-- ===== src/Retry/Created.antt =====
-- The rows and the members that `createRetryAttempts` makes.
use skytest_agent.Prelude.{
  ℕ, ◌+◌, ◌≤◌, ◌≡◌, refl, ap, ◌∙◌, Bool, true, ◌||◌, List, [], ◌∷◌, ◌++◌, ◌==◌, ==_refl, any,
  select, count_where, find_first, arith, Bool-cases, Option-cases, inl, inr, select-append,
  any-append, any_mono,
}
use skytest_agent.Store.{TestRun}
use skytest_agent.Retry.Plan.{AttemptRecord, CaseRetryState}
use skytest_agent.Retry.Entries.{executed_of}
use skytest_agent.Retry.Runner.{
  attempt_of, attempts_of, in_session, load_session_attempts, sort_desc, insert_desc,
  latest_by_case, retry_run, create_from, create_retry_attempts,
}

attempts_of-append :
    (xs ys : List TestRun) → attempts_of (xs ++ ys) ≡ attempts_of xs ++ attempts_of ys
attempts_of-append [] ys = refl
attempts_of-append (x ∷ xs) ys = ap (λ zs. attempt_of x ∷ zs) (attempts_of-append xs ys)

executed_of-append :
    (c : ℕ) (xs ys : List AttemptRecord)
    → executed_of c (xs ++ ys) ≡ executed_of c xs + executed_of c ys
executed_of-append c [] ys = omega arith
executed_of-append c (x ∷ xs) ys = ground (arith, executed_of-append c xs ys)

module _ (c : ℕ) where
  abbrev of_case : TestRun → Bool
  of_case r = r.test_case_id == c

  of_case-present :
      (r : TestRun) (latest : List TestRun)
      → any (λ x. x.test_case_id == r.test_case_id) latest ≡ true
      → of_case r ≡ true
      → any of_case latest ≡ true
  of_case-present r latest h e =
      any_mono (λ x. x.test_case_id == r.test_case_id) of_case latest (λ x p. ground arith) h

  pub any-latest_by_case :
      (latest rs : List TestRun)
      → any of_case (latest_by_case latest rs) ≡ (any of_case latest || any of_case rs)
  unfolding latest_by_case
  any-latest_by_case latest [] = ground arith
  any-latest_by_case latest (r ∷ rs) =
      elim (Bool-cases (any (λ x. x.test_case_id == r.test_case_id) latest)) [
        | inl old ↦
            rw old (any-latest_by_case latest rs ∙ ground (arith, of_case-present r latest old))
        | inr new ↦ rw new (
            any-latest_by_case (latest ++ r ∷ []) rs
            ∙ ground (arith, any-append of_case latest (r ∷ [])))
      ]

  any-insert_desc :
      (r : TestRun) (xs : List TestRun)
      → any of_case (insert_desc r xs) ≡ (of_case r || any of_case xs)
  any-insert_desc r [] = refl
  any-insert_desc r (x ∷ xs) = ground (arith, any-insert_desc r xs)

  pub any-sort_desc : (xs : List TestRun) → any of_case (sort_desc xs) ≡ any of_case xs
  any-sort_desc [] = refl
  any-sort_desc (x ∷ xs) = ground (arith, any-insert_desc x (sort_desc xs), any-sort_desc xs)

module _ (cuid clock : List TestRun → ℕ) (session_id : ℕ) where
  select_one :
      (r : TestRun)
      → in_session session_id r ≡ true
      → select (in_session session_id) (r ∷ []) ≡ r ∷ []
  select_one r h = ground arith

  pub load_session_attempts-append :
      (runs : List TestRun) (r : TestRun)
      → in_session session_id r ≡ true
      → load_session_attempts session_id (runs ++ r ∷ [])
        ≡ load_session_attempts session_id runs ++ attempt_of r ∷ []
  unfolding load_session_attempts
  load_session_attempts-append runs r h =
      ap attempts_of (select-append (in_session session_id) runs (r ∷ []))
      ∙ attempts_of-append (select (in_session session_id) runs)
          (select (in_session session_id) (r ∷ []))
      ∙ ap (λ x. attempts_of (select (in_session session_id) runs) ++ attempts_of x)
          (select_one r h)

  -- The created row: in the session, and not run yet.
  retry_run-executed_of :
      (c : ℕ) (s : CaseRetryState) (source : TestRun) (runs : List TestRun)
      → let r = retry_run session_id (cuid runs) (clock runs) s source in
        executed_of c (load_session_attempts session_id (runs ++ r ∷ []))
        ≡ executed_of c (load_session_attempts session_id runs)
  unfolding retry_run
  retry_run-executed_of c s source runs =
      let r = retry_run session_id (cuid runs) (clock runs) s source in
      ap (executed_of c) (load_session_attempts-append runs r (==_refl session_id))
      ∙ executed_of-append c (load_session_attempts session_id runs) (attempt_of r ∷ [])
      ∙ ground arith

  module _ (c : ℕ) (latest : List TestRun) where
    -- No attempt that ran is added.
    create_from-executed_of :
        (plan : List CaseRetryState) (runs : List TestRun)
        → executed_of c (
            load_session_attempts session_id (create_from cuid clock session_id latest plan runs).0)
          ≡ executed_of c (load_session_attempts session_id runs)
    unfolding create_from
    create_from-executed_of [] runs = refl
    create_from-executed_of (s ∷ plan) runs =
        elim (Option-cases (find_first (λ r. r.test_case_id == s.test_case_id) latest)) [
          | inl missing ↦ rw (missing, create_from) (create_from-executed_of plan runs)
          | inr (source, found) ↦
              rw (found, create_from)
                (create_from-executed_of plan _ ∙ retry_run-executed_of c s source runs)
        ]

    -- The created members are at most as many of each case as the plan has.
    create_from-members :
        (plan : List CaseRetryState) (runs : List TestRun)
        → count_where
            (λ m. m.test_case_id == c)
            (create_from cuid clock session_id latest plan runs).1
          ≤ count_where (λ s. s.test_case_id == c) plan
    unfolding create_from
    create_from-members [] runs = omega arith
    create_from-members (s ∷ plan) runs =
        elim (Option-cases (find_first (λ r. r.test_case_id == s.test_case_id) latest)) [
          | inl missing ↦ rw (missing, create_from) (omega (arith, create_from-members plan runs))
          | inr (source, found) ↦
              rw (found, create_from) (omega (arith, create_from-members plan _))
        ]

  module _ (c : ℕ) (plan : List CaseRetryState) (runs : List TestRun) where
    -- Creating the attempts of a round adds none that ran.
    pub create_retry_attempts-executed_of :
        executed_of c (
          load_session_attempts session_id
            (create_retry_attempts cuid clock session_id plan runs).0)
        ≡ executed_of c (load_session_attempts session_id runs)
    unfolding create_retry_attempts
    create_retry_attempts-executed_of = create_from-executed_of c _ plan runs

    -- A round has at most as many members of a case as its plan names the case.
    pub create_retry_attempts-members :
        count_where
          (λ m. m.test_case_id == c)
          (create_retry_attempts cuid clock session_id plan runs).1
        ≤ count_where (λ s. s.test_case_id == c) plan
    unfolding create_retry_attempts
    create_retry_attempts-members = create_from-members c _ plan runs
