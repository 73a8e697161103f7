-- ===== src/Retry/Budget.antt =====
-- The retry rounds run no case more often than the policy allows.
use mathlib.Core.Option.{some-injective}
use mathlib.Core.Path.{subst}
use skytest_agent.Prelude.{
  ℕ, zero, suc, ◌+◌, max, ◌≤◌, ◌≡◌, ◌≢◌, refl, ap, ◌∙◌, Bool, true, false, not, ◌&&◌, ◌||◌, Option,
  some, List, [], ◌∷◌, if◌then◌else◌, ◌==◌, leb, any, count_where, All, arith, Bool-cases, inl, inr,
  if_intro, count_where-le, leb→le,
}
use skytest_agent.Store.{TestRun}
use skytest_agent.Retry.Plan.{
  AttemptRecord, CaseRetryState, RetryPolicy, FailureMode, is_whole_group, is_continue,
  retries_per_case_for, retry_policy_runs_retries, build_case_retry_states, plan_retry_round,
}
use skytest_agent.Retry.Entries.{executed_of}
use skytest_agent.Retry.States.{
  Describes, build_case_retry_states-Describes, build_case_retry_states-count,
}
use skytest_agent.Retry.Eligible.{is_eligible, is_spent, plan_retry_round_count}
use skytest_agent.Retry.Runner.{
  SessionMember, load_session_attempts, create_retry_attempts, retry_rounds, run_group_retry_rounds,
}
use skytest_agent.Retry.Created.{create_retry_attempts-executed_of, create_retry_attempts-members}
use skytest_agent.Retry.Rounds.{leb-false, runs_of, after_round, rounds, retry_rounds-branches}

module _ (c : ℕ) (policy : RetryPolicy) (attempts : List AttemptRecord) where
  abbrev eligible_here : CaseRetryState → Bool
  eligible_here s = is_eligible policy s && s.test_case_id == c

  eligible-none :
      (cases : List CaseRetryState)
      → All (Describes attempts) cases
      → retries_per_case_for policy + 1 ≤ executed_of c attempts
      → count_where eligible_here cases ≡ 0
  eligible-none [] d h = refl
  eligible-none (s ∷ cases) d h =
      let counted = d.0.counted in
      let here = λ (e : s.test_case_id ≡ c). counted ∙ ap (λ n. executed_of n attempts) e in
      elim (Bool-cases (s.test_case_id == c)) [
        | inl same ↦ ground (arith, here (ground arith), eligible-none cases d.1 h)
        | inr other ↦ ground (arith, eligible-none cases d.1 h)
      ]

  eligible-le :
      (cases : List CaseRetryState)
      → count_where eligible_here cases ≤ count_where (λ s. s.test_case_id == c) cases
  eligible-le cases = count_where-le eligible_here _ (λ s h. ground arith) cases

one-if : (b : Bool) → (if b then 1 else 0) ≤ 1
one-if b = ground arith

module _ (cuid clock : List TestRun → ℕ) (session_id : ℕ) (policy : RetryPolicy)
    (mode : FailureMode) (c : ℕ) where
  abbrev pub planned : ℕ → List TestRun → ℕ
  planned round_index runs =
      count_where (λ s. s.test_case_id == c)
        (plan_retry_round (build_case_retry_states (load_session_attempts session_id runs)) policy
          mode round_index)

  states_count :
      (runs : List TestRun)
      → count_where
          (λ s. s.test_case_id == c)
          (build_case_retry_states (load_session_attempts session_id runs))
        ≤ 1
  states_count runs = omega (
    arith,
    build_case_retry_states-count c (load_session_attempts session_id runs),
    one-if (any (λ a. a.test_case_id == c) (load_session_attempts session_id runs)),
  )

  planned-le :
      (round_index : ℕ) (runs : List TestRun)
      → is_whole_group policy ≡ false
      → planned round_index runs
        ≤ count_where
            (eligible_here c policy (load_session_attempts session_id runs))
            (build_case_retry_states (load_session_attempts session_id runs))
  planned-le round_index runs w =
      let cases = build_case_retry_states (load_session_attempts session_id runs) in
      rw (plan_retry_round_count cases policy mode round_index (λ s. s.test_case_id == c), w)
        (if_intro
          (λ n.
            n ≤ count_where (eligible_here c policy (load_session_attempts session_id runs)) cases)
          (retries_per_case_for policy == 0
            || not (is_continue mode) && any (is_spent policy) cases)
          (λ _. omega arith) (λ _. omega arith))

  -- Under a policy for failed cases a round plans a case once at most, and not at all when it has
  -- used up its runs.
  pub planned-failed :
      (round_index : ℕ) (runs : List TestRun)
      → is_whole_group policy ≡ false
      → runs_of session_id c runs + planned round_index runs
        ≤ max (runs_of session_id c runs) (retries_per_case_for policy + 1)
  planned-failed round_index runs w =
      let attempts = load_session_attempts session_id runs in
      let cases = build_case_retry_states attempts in
      let described = build_case_retry_states-Describes attempts in
      elim (Bool-cases (leb (retries_per_case_for policy + 1) (runs_of session_id c runs))) [
        | inl spent ↦ omega (
          arith,
          planned-le round_index runs w,
          eligible-none c policy attempts cases described (leb→le _ _ spent),
        )
        | inr left ↦ omega (
          arith,
          planned-le round_index runs w,
          eligible-le c policy attempts cases,
          states_count runs,
          leb-false _ _ left,
        )
      ]

  pub planned-whole :
      (round_index : ℕ) (runs : List TestRun)
      → is_whole_group policy ≡ true
      → planned round_index runs ≤ (if round_index == 0 then 1 else 0)
  planned-whole round_index runs w =
      let cases = build_case_retry_states (load_session_attempts session_id runs) in
      rw (plan_retry_round_count cases policy mode round_index (λ s. s.test_case_id == c), w)
        (ground (arith, states_count runs))

  -- A case runs at most as often in a round as it is planned.
  module _ (run_round : ℕ → List SessionMember → List TestRun → List TestRun) (aborted : ℕ → Bool)
      (runs_members : (i : ℕ) (ms : List SessionMember) (runs : List TestRun)
        → runs_of session_id c (run_round i ms runs)
          ≤ runs_of session_id c runs + count_where (λ m. m.test_case_id == c) ms) where
    no_rounds :
        (round_index : ℕ) (runs : List TestRun) {runs' : List TestRun}
        → rounds cuid clock session_id policy mode aborted run_round 0 round_index runs ≢ some runs'
    unfolding retry_rounds
    no_rounds round_index runs e = cc

    after_round-le :
        (round_index : ℕ) (runs : List TestRun)
        → runs_of session_id c
            (after_round cuid clock session_id policy mode aborted run_round round_index runs)
          ≤ runs_of session_id c runs + planned round_index runs
    after_round-le round_index runs =
        let plan =
          plan_retry_round (build_case_retry_states (load_session_attempts session_id runs)) policy
            mode round_index in
        let created = create_retry_attempts cuid clock session_id plan runs in
        omega (
          arith,
          runs_members round_index created.1 created.0,
          create_retry_attempts-executed_of cuid clock session_id c plan runs,
          create_retry_attempts-members cuid clock session_id c plan runs,
        )

    -- The loop keeps a bound that every round keeps.
    module _ (bound : ℕ → ℕ → ℕ) (start : (i a : ℕ) → a ≤ bound i a)
        (mono : (i a b : ℕ) → a ≤ b → bound i a ≤ bound i b)
        (step : (i : ℕ) (runs : List TestRun)
          → bound (i + 1) (runs_of session_id c runs + planned i runs)
            ≤ bound i (runs_of session_id c runs)) where
      abbrev Keeps : ℕ → List TestRun → Option (List TestRun) → Type 0
      Keeps i runs r =
          (runs' : List TestRun)
          → r ≡ some runs'
          → runs_of session_id c runs' ≤ bound i (runs_of session_id c runs)

      returned :
          (i : ℕ) (runs xs : List TestRun)
          → runs_of session_id c xs ≤ bound i (runs_of session_id c runs)
          → Keeps i runs (some xs)
      returned i runs xs h runs' e =
          subst (λ ys. runs_of session_id c ys ≤ bound i (runs_of session_id c runs))
            (some-injective _ _ e) h

      retry_rounds-bound :
          (fuel round_index : ℕ) (runs : List TestRun)
          → Keeps round_index runs
              (rounds cuid clock session_id policy mode aborted run_round fuel round_index runs)
      retry_rounds-bound zero round_index runs = λ runs' e. absurd (no_rounds round_index runs e)
      retry_rounds-bound (suc fuel) round_index runs =
          let n = runs_of session_id c runs in
          let after =
            after_round cuid clock session_id policy mode aborted run_round round_index runs in
          let le = after_round-le round_index runs in
          let next = start (round_index + 1) (n + planned round_index runs) in
          retry_rounds-branches cuid clock session_id policy mode aborted run_round
            (Keeps round_index runs) fuel round_index runs
            (returned round_index runs runs (start round_index n))
            (returned round_index runs _ (
              omega (
                arith,
                start round_index n,
                create_retry_attempts-executed_of cuid clock session_id c _ runs,
              )))
            (returned round_index runs after (omega (arith, le, next, step round_index runs)))
            λ _ runs' e. omega (
              arith,
              retry_rounds-bound fuel (round_index + 1) after runs' e,
              mono (round_index + 1) _ _ le,
              step round_index runs,
            )

      -- So does the whole of the retry.
      pub run_group_retry_rounds-bound :
          (fuel : ℕ) (runs runs' : List TestRun)
          → run_group_retry_rounds cuid clock session_id policy mode aborted run_round fuel runs
            ≡ some runs'
          → runs_of session_id c runs' ≤ bound 0 (runs_of session_id c runs)
      unfolding run_group_retry_rounds
      run_group_retry_rounds-bound fuel runs runs' e =
          if_intro (Keeps 0 runs) (not (retry_policy_runs_retries policy))
            (λ _. returned 0 runs runs (start 0 _)) (λ _. retry_rounds-bound fuel 0 runs) runs' e
