-- ===== src/Retry/Eligible.antt =====
-- Which cases a retry round runs again: `planRetryRound` against a direct description.
use mathlib.Core.Path.{fun_ext}
use skytest_agent.Prelude.{
  ℕ, ◌+◌, ◌≡◌, refl, ap, ◌∙◌, Bool, true, false, List, [], ◌∷◌, not, ◌&&◌, if◌then◌else◌, ◌||◌,
  ◌==◌, ltb, leb, any, select, length, count_where, IsSorted, sort_by, sort_by-IsSorted,
  count_where-sort_by, arith, if_intro,
}
use skytest_agent.Retry.Plan.{
  CaseRetryState, RetryPolicy, FailureMode, is_unresolved, is_whole_group, is_continue,
  retries_per_case_for, plan_retry_round,
}

-- The case may run once more under a policy that retries failed cases.
abbrev pub is_eligible : RetryPolicy → CaseRetryState → Bool
is_eligible policy s = is_unresolved s && ltb s.executed (retries_per_case_for policy + 1)

-- A case that has used up its runs and is still unresolved.
abbrev pub is_spent : RetryPolicy → CaseRetryState → Bool
is_spent policy s = is_unresolved s && leb (retries_per_case_for policy + 1) s.executed

module _ (p q : CaseRetryState → Bool) where
  count_where-select :
      (xs : List CaseRetryState) → count_where p (select q xs) ≡ count_where (λ s. q s && p s) xs
  count_where-select [] = refl
  count_where-select (x ∷ xs) = ground (arith, count_where-select xs)

  any-select : (xs : List CaseRetryState) → any p (select q xs) ≡ any (λ s. q s && p s) xs
  any-select [] = refl
  any-select (x ∷ xs) = ground (arith, any-select xs)

length-select :
    (p : CaseRetryState → Bool) (xs : List CaseRetryState)
    → (length (select p xs) == 0) ≡ not (any p xs)
length-select p [] = refl
length-select p (x ∷ xs) = ground (arith, length-select p xs)

count_where-none :
    (policy : RetryPolicy) (p : CaseRetryState → Bool) (xs : List CaseRetryState)
    → any is_unresolved xs ≡ false
    → count_where (λ s. is_eligible policy s && p s) xs ≡ 0
count_where-none policy p [] h = refl
count_where-none policy p (x ∷ xs) h = ground (arith, count_where-none policy p xs)

module _ (cases : List CaseRetryState) (policy : RetryPolicy) (mode : FailureMode)
    (round_index : ℕ) where
  -- The sorted cases with runs left, as the code filters them.
  abbrev remaining : List CaseRetryState
  remaining =
      select (λ s. ltb s.executed (retries_per_case_for policy + 1)) (select is_unresolved cases)

  -- The branches of the plan: what holds in each of them holds of the plan.
  plan_retry_round-branches {ℓ} :
      (P : List CaseRetryState → Type ℓ)
      → (any is_unresolved cases ≡ false → P [])
      → (any is_unresolved cases ≡ true
          → is_whole_group policy ≡ true
          → (round_index == 0) ≡ true
          → P (sort_by (λ s. s.session_position) cases))
      → (is_whole_group policy ≡ true → (round_index == 0) ≡ false → P [])
      → (is_whole_group policy ≡ false → (retries_per_case_for policy == 0) ≡ true → P [])
      → (is_whole_group policy ≡ false
          → (not (is_continue mode) && any (is_spent policy) cases) ≡ true
          → P [])
      → (is_whole_group policy ≡ false
          → (retries_per_case_for policy == 0) ≡ false
          → (not (is_continue mode) && any (is_spent policy) cases) ≡ false
          → P (sort_by (λ s. s.session_position) remaining))
      → P (plan_retry_round cases policy mode round_index)
  unfolding plan_retry_round
  plan_retry_round-branches P none_unresolved whole later never blocked failed =
      if_intro P (length (select is_unresolved cases) == 0)
        (λ e. none_unresolved (ground (arith, length-select is_unresolved cases)))
        λ some_unresolved.
          if_intro P _
            (λ w.
              if_intro P _ (whole (ground (arith, length-select is_unresolved cases)) w) (later w))
            λ w. if_intro P _ (never w) λ r.
              if_intro P
                (not (is_continue mode)
                  && any (λ s. leb (retries_per_case_for policy + 1) s.executed)
                      (select is_unresolved cases))
                (λ b. blocked w (
                  ground (
                    arith,
                    any-select (λ s. leb (retries_per_case_for policy + 1) s.executed) is_unresolved
                        cases,
                  )))
                λ b. failed w r (
                  ground (
                    arith,
                    any-select (λ s. leb (retries_per_case_for policy + 1) s.executed) is_unresolved
                        cases,
                  ))

  -- The plan is in the order of the session's positions.
  pub plan_retry_round-IsSorted :
      IsSorted (λ s. s.session_position) (plan_retry_round cases policy mode round_index)
  plan_retry_round-IsSorted =
      plan_retry_round-branches (IsSorted (λ s. s.session_position)) (λ _. tt)
        (λ _ _ _. sort_by-IsSorted _ cases) (λ _ _. tt) (λ _ _. tt) (λ _ _. tt)
        (λ _ _ _. sort_by-IsSorted _ remaining)

  -- Which cases a round runs again, as often as they stand in the session: with a policy that
  -- retries failed cases, those that are unresolved and have runs left, unless the group stops at a
  -- failure and an unresolved case has none left; with the whole group's retry, every case in the
  -- first round and none later, if some case is unresolved.
  pub plan_retry_round_count :
      (p : CaseRetryState → Bool)
      → count_where p (plan_retry_round cases policy mode round_index) ≡ (
          if is_whole_group policy
          then if any is_unresolved cases && round_index == 0 then count_where p cases else 0
          else if retries_per_case_for policy == 0
              || not (is_continue mode) && any (is_spent policy) cases
          then 0
          else count_where (λ s. is_eligible policy s && p s) cases)
  plan_retry_round_count p =
      plan_retry_round-branches
        (λ plan. count_where p plan ≡ (
          if is_whole_group policy
          then if any is_unresolved cases && round_index == 0 then count_where p cases else 0
          else if retries_per_case_for policy == 0
              || not (is_continue mode) && any (is_spent policy) cases
          then 0
          else count_where (λ s. is_eligible policy s && p s) cases))
        (λ h. ground (arith, count_where-none policy p cases h))
        (λ u w r. rw (u, w, r) (count_where-sort_by _ p cases)) (λ w r. ground arith)
        (λ w r. ground arith) (λ w b. ground arith)
        (λ w r b.
          rw (w, r, b)
            (count_where-sort_by _ p remaining
              ∙ count_where-select p (λ s. ltb s.executed (retries_per_case_for policy + 1))
                  (select is_unresolved cases)
              ∙ count_where-select (λ s. ltb s.executed (retries_per_case_for policy + 1) && p s)
                  is_unresolved cases
              ∙ ap (λ q. count_where q cases) (fun_ext (λ s. ground arith))))
