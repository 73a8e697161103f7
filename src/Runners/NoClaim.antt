-- ===== src/Runners/NoClaim.antt =====
-- The diagnosis of a runner without work agrees with the claim.
use skytest_agent.Prelude.{
  ℕ, ◌≤◌, ◌≡◌, refl, ap, ◌∙◌, Bool, true, false, not, ◌&&◌, none, List, [], ◌∷◌, Text, ◌==◌, ltb,
  any, any_mono, length, select, count_where, arith, Bool-cases, inl, inr, and→both, text_holds,
  text_eq, text_eq→≡, text_eq_refl, if_intro, option_intro,
}
use skytest_agent.Store.{Db, TestRun, Runner, RunnerDevice}
use skytest_agent.Runners.Claim.{
  Config, ClaimInput, nothing, is_candidate, is_candidate_on, is_requested, has_device,
  claim_explicit_device_run, claim_next_run_for_runner, oldest_candidate, runner_context,
  has_android_capability,
}
use skytest_agent.Runners.Candidate.{is_candidate-Claimable}
use skytest_agent.Runners.Diagnosis.{
  ReasonCode, run_blocked_by_host_resource_lock, run_available_but_locked, is_of_team,
  is_queued_android, is_compatible, device_in, get_claimable_device_ids_for_runner, reason_for,
  explicit_runs, matching_runs, diagnose_no_claim_for_runner,
}

-- The reasons that no other runner's lock has to do with.
abbrev pub is_definite : ReasonCode → Bool
is_definite run_blocked_by_host_resource_lock = false
is_definite run_available_but_locked = false
is_definite _ = true

module _ {ℓ} {A : Type ℓ} where
  count_where-some : (p : A → Bool) (xs : List A) → any p xs ≡ true → 1 ≤ count_where p xs
  count_where-some p [] h = ground arith
  count_where-some p (x ∷ xs) h = ground (arith, count_where-some p xs)

  any-length : (p : A → Bool) (xs : List A) → any p xs ≡ true → 1 ≤ length xs
  any-length p [] h = ground arith
  any-length p (x ∷ xs) h = omega arith

  select-none : (p q : A → Bool) (xs : List A) → any p xs ≡ false → select (λ x. p x && q x) xs ≡ []
  select-none p q [] h = refl
  select-none p q (x ∷ xs) h = ground (arith, select-none p q xs)

any-any-length {ℓ κ} :
    {A : Type ℓ} {B : Type κ} (f : A → B → Bool) (ys : List B) (xs : List A)
    → any (λ x. any (f x) ys) xs ≡ true
    → 1 ≤ length ys
any-any-length f ys [] h = ground arith
any-any-length f ys (x ∷ xs) h = ground (arith, any-length (f x) ys, any-any-length f ys xs)

text_eq_swap : (s t : Text) → text_eq s t ≡ true → text_eq t s ≡ true
text_eq_swap s t h = rw (text_eq→≡ s t h) (text_eq_refl t)

both_hold : (a b : Bool) → a ≡ true → b ≡ true → (a && b) ≡ true
both_hold a b h k = ground arith

reason-open : (q c e m b : ℕ) → 1 ≤ q → 1 ≤ c → 1 ≤ m → is_definite (reason_for q c e m b) ≡ false
reason-open q c e m b hq hc hm = ground arith

-- A device that the claim accepts is among those that the diagnosis lists.
has_device-listed :
    (runner_id : ℕ) (device_id : Text) (devices : List RunnerDevice)
    → has_device runner_id device_id devices ≡ true
    → any (text_eq device_id) (get_claimable_device_ids_for_runner runner_id devices) ≡ true
unfolding has_device get_claimable_device_ids_for_runner
has_device-listed runner_id device_id [] h = ground arith
has_device-listed runner_id device_id (d ∷ devices) h =
    ground
      (arith, has_device-listed runner_id device_id devices, text_eq_swap d.device_id device_id)

module _ (config : Config) (now : ℕ) (input : ClaimInput) (runner : Runner) (db : Db) where
  abbrev ids : List Text
  ids = get_claimable_device_ids_for_runner input.runner_id db.devices

  candidate-compatible :
      (r : TestRun)
      → is_candidate config now input runner db r ≡ true
      → (is_compatible db input r && device_in ids r) ≡ true
  unfolding is_candidate_on
  candidate-compatible r h =
      let c = is_candidate-Claimable config now input runner db r h in
      let asked : is_requested input r ≡ true = (and→both _ _ c.holds_on).0 in
      let rest = and→both _ _ (and→both _ _ c.holds_on).1 in
      let of_team : (c.project.team_id == input.team_id) ≡ true = rest.0 in
      let listed =
        has_device-listed input.runner_id c.device_id db.devices
          (and→both _ _ (and→both _ _ rest.1).1).0 in
      both_hold _ _ (both_hold _ _ asked (rw (c.in_project, is_of_team) of_team))
        (ap (λ o. any (λ d. text_holds o d) ids) c.requested ∙ listed)

  counts :
      any (is_candidate config now input runner db) db.runs ≡ true
      → (1 ≤ count_where (is_queued_android db input) db.runs)
        × (1 ≤ count_where (is_compatible db input) db.runs)
        × (1 ≤ matching_runs db input)
  unfolding matching_runs is_requested
  counts h =
      let some_matching =
        any_mono _ (λ r. is_compatible db input r && device_in ids r) db.runs candidate-compatible
          h in
      let compatible =
        any_mono _ (is_compatible db input) db.runs (λ r e. (and→both _ _ e).0) some_matching in
      let queued_android =
        any_mono _ (is_queued_android db input) db.runs (λ r e. ground (arith, e)) compatible in
      let device =
        any-any-length (λ (r : TestRun) (d : Text). text_holds r.requested_device_id d) ids db.runs
          (any_mono _ (device_in ids) db.runs (λ r e. (and→both _ _ e).1) some_matching) in
      (
        count_where-some _ db.runs queued_android,
        count_where-some _ db.runs compatible,
        if_intro (λ n. 1 ≤ n) (ltb 0 (length ids)) (λ _. count_where-some _ db.runs some_matching)
            (λ e. ground (arith, device, e)),
      )

module _ (config : Config) (now date_now : ℕ) (skipped : TestRun → Bool)
    (order_keys : List Text → List Text) (input : ClaimInput) (db : Db) where
  no_candidate :
      has_android_capability input.capabilities ≡ true
      → is_definite (diagnose_no_claim_for_runner now order_keys input db).reason_code ≡ true
      → (runner : Runner) → any (is_candidate config now input runner db) db.runs ≡ false
  unfolding diagnose_no_claim_for_runner
  no_candidate capable definite runner =
      elim (Bool-cases (any (is_candidate config now input runner db) db.runs)) [
        | inl e ↦
            let (q, c, m) = counts config now input runner db e in
            cc (rw capable at definite, reason-open _ _ (explicit_runs db input) _ _ q c m)
        | inr e ↦ e
      ]

  oldest-none :
      (runner : Runner)
      → any (is_candidate config now input runner db) db.runs ≡ false
      → oldest_candidate config now skipped input runner db ≡ none
  unfolding oldest_candidate
  oldest-none runner h =
      rw (select-none (is_candidate config now input runner db) (λ x. not (skipped x)) db.runs h)
        refl

  -- When the diagnosis gives a reason that is not another run's lock, a claim by the same runner at
  -- the same time finds nothing, whatever other transactions have locked, and changes nothing.
  pub diagnose-nothing :
      is_definite (diagnose_no_claim_for_runner now order_keys input db).reason_code ≡ true
      → claim_next_run_for_runner config now date_now skipped input db ≡ (db, nothing)
  unfolding claim_next_run_for_runner claim_explicit_device_run
  diagnose-nothing definite = elim (Bool-cases (has_android_capability input.capabilities)) [
    | inl capable ↦ rw capable (
        option_intro (λ x. x ≡ (db, nothing)) (runner_context input.runner_id db) (λ _. refl)
          λ runner c. rw (oldest-none runner (no_candidate capable definite runner)) refl)
    | inr missing ↦ rw missing refl
  ]
