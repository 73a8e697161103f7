-- ===== src/Scheduler/Loop.antt =====
-- The loop of the tick.
use skytest_agent.Prelude.{
  ℕ, zero, suc, ◌+◌, ◌≤◌, ◌≡◌, refl, sym, ap, ◌∙◌, Bool, true, false, ◌&&◌, some, List, [], ◌∷◌,
  if◌then◌else◌, ◌==◌, find_first, update_where, length, count_where-le, update_where-once,
  update_where-none, count_where-once, count_where, count_where-update_where, arith, Option-cases,
  inl, inr,
}
use mathlib.Core.Path.{subst}
use skytest_agent.Scheduler.Cron.{CronParser, compute_next_run_at}
use skytest_agent.Scheduler.Values.{Validated-cases}
use skytest_agent.Scheduler.Tick.{
  Schedule, Tables, ClaimedSchedule, ClaimOutcome, empty, skipped, claimed, is_due, next_due,
  disable, advance_schedule, claimed_schedule, update_schedule, claim_schedule, claim_schedules,
}
use skytest_agent.Scheduler.Due.{
  HasUniqueIds, IsForward, settle_schedule, is_computable, advance_schedule-not_due, next-none,
  next-due, next-found,
}

abbrev pub is_runnable : CronParser → ℕ → Schedule → Bool
is_runnable parser now s = is_due now s && is_computable parser now s

-- The update of the chosen row alone.
module _ (parser : CronParser) (now : ℕ) (schedules : List Schedule) (row : Schedule)
    (change : Schedule → Schedule) (unique : HasUniqueIds schedules)
    (found : find_first (λ s. s.id == row.id) schedules ≡ some row) (due : is_due now row ≡ true)
    (changed : is_due now (change row) ≡ false)
    (keeps : (s : Schedule) → (change s).id ≡ s.id) where
  change-HasUniqueIds : HasUniqueIds (update_schedule change row.id schedules)
  unfolding HasUniqueIds
  change-HasUniqueIds id = ground (
    arith,
    unique id,
    count_where-update_where (λ s. s.id == id) (λ s. s.id == row.id) change
        (λ s. ap (λ k. k == id) (keeps s)) schedules,
  )

  change-count :
      count_where (is_due now) schedules
      ≡ suc (count_where (is_due now) (update_schedule change row.id schedules))
  unfolding HasUniqueIds
  change-count = ground (
    arith,
    due,
    changed,
    count_where-once (λ s. s.id == row.id) (is_due now) change row schedules found (unique row.id),
  )

  change-runnable :
      count_where (is_runnable parser now) schedules
      ≡ count_where (is_runnable parser now) (update_schedule change row.id schedules)
        + (if is_computable parser now row then 1 else 0)
  unfolding HasUniqueIds
  change-runnable = ground (
    arith,
    due,
    changed,
    count_where-once (λ s. s.id == row.id) (is_runnable parser now) change row schedules found
        (unique row.id),
  )

  change-then_settle :
      change row ≡ settle_schedule parser now row
      → update_where
          (is_due now)
          (settle_schedule parser now)
          (update_schedule change row.id schedules)
        ≡ update_where (is_due now) (settle_schedule parser now) schedules
  unfolding HasUniqueIds
  change-then_settle same =
      update_where-once (λ s. s.id == row.id) (is_due now) change (settle_schedule parser now) row
        schedules found (unique row.id) due changed same

-- What the loop leaves, and how many it claims.
abbrev pub IsSettled : CronParser → ℕ → Tables → Tables × List ClaimedSchedule → Type 0
IsSettled parser now tables out =
    (out.0.schedules ≡ update_where (is_due now) (settle_schedule parser now) tables.schedules)
    × (length out.1 ≡ count_where (is_runnable parser now) tables.schedules)

module _ (parser : CronParser) (now : ℕ) (forward : IsForward parser) (locked : ℕ → ℕ → Bool)
    (free : (i id : ℕ) → locked i id ≡ false) where
  none_due :
      (tables : Tables)
      → count_where (is_due now) tables.schedules ≡ 0
      → IsSettled parser now tables (tables, [])
  none_due tables h =
      let fewer =
        count_where-le (is_runnable parser now) (is_due now) (λ s e. ground arith)
          tables.schedules in
      (
        sym (update_where-none (is_due now) (settle_schedule parser now) tables.schedules h),
        omega (arith, fewer, h),
      )

  -- A round of the loop, after its transaction.
  abbrev go_on : (remaining index : ℕ) → Tables × ClaimOutcome → Tables × List ClaimedSchedule
  go_on remaining index p = elim p.1 [
    | empty ↦ (p.0, [])
    | skipped ↦ claim_schedules parser now locked remaining (suc index) p.0
    | claimed schedule ↦
        let (last, schedules) = claim_schedules parser now locked remaining (suc index) p.0 in
        (last, schedule ∷ schedules)
  ]

  claim_schedules-after :
      (remaining index : ℕ) (tables : Tables) (p : Tables × ClaimOutcome)
      → claim_schedule parser now (locked index) tables ≡ p
      → IsSettled parser now tables (go_on remaining index p)
      → IsSettled parser now tables (claim_schedules parser now locked (suc remaining) index tables)
  unfolding claim_schedules
  claim_schedules-after remaining index tables p e t =
      subst (λ q. IsSettled parser now tables (go_on remaining index q)) (sym e) t

  module _ (tables : Tables) (row : Schedule) (change : Schedule → Schedule)
      (unique : HasUniqueIds tables.schedules)
      (found : find_first (λ s. s.id == row.id) tables.schedules ≡ some row)
      (due : is_due now row ≡ true) (changed : is_due now (change row) ≡ false)
      (keeps : (s : Schedule) → (change s).id ≡ s.id)
      (same : change row ≡ settle_schedule parser now row) where
    abbrev rest_of : Tables
    rest_of = record tables { schedules = update_schedule change row.id tables.schedules }

    one-IsSettled :
        (out : Tables × List ClaimedSchedule) (claims : List ClaimedSchedule)
        → length claims ≡ length out.1 + (if is_computable parser now row then 1 else 0)
        → IsSettled parser now rest_of out
        → IsSettled parser now tables (out.0, claims)
    one-IsSettled out claims n rest = (
      rest.0
          ∙ change-then_settle parser now tables.schedules row change unique found due changed keeps
              same,
      omega (
        arith,
        n,
        rest.1,
        change-runnable parser now tables.schedules row change unique found due changed keeps,
      ),
    )

  pub claim_schedules-IsSettled :
      (remaining index : ℕ) (tables : Tables)
      → HasUniqueIds tables.schedules
      → count_where (is_due now) tables.schedules ≤ remaining
      → IsSettled parser now tables (claim_schedules parser now locked remaining index tables)
  unfolding claim_schedules claim_schedule settle_schedule is_computable
  claim_schedules-IsSettled zero index tables unique few = none_due tables (omega arith)
  claim_schedules-IsSettled (suc remaining) index tables unique few =
      elim (Option-cases (next_due now (locked index) tables.schedules)) [
        | inl e ↦
            claim_schedules-after remaining index tables (tables, empty)
              (rw (e, claim_schedule) refl)
              (none_due tables (next-none now tables.schedules (locked index) (free index) e))
        | inr (row, chosen) ↦
            let due = next-due now tables.schedules (locked index) row chosen in
            let found = next-found now tables.schedules (locked index) row chosen unique in
            elim (Validated-cases
              (compute_next_run_at parser row.cron_expression row.timezone now)) [
                | inl (next, c) ↦
                    let change = advance_schedule now next in
                    let changed = advance_schedule-not_due parser now forward row next c in
                    let after =
                      rest_of tables row change unique found due changed (λ s. refl)
                        (rw (c, settle_schedule) refl) in
                    let out = claim_schedules parser now locked remaining (suc index) after in
                    let counted : Path ℕ (if is_computable parser now row then 1 else 0) 1 =
                      rw (c, is_computable) refl in
                    let rest =
                      claim_schedules-IsSettled remaining (suc index) after
                        (change-HasUniqueIds parser now tables.schedules row change unique found due
                          changed (λ s. refl))
                        (omega (
                          arith,
                          few,
                          change-count parser now tables.schedules row change unique found due
                              changed (λ s. refl),
                        )) in
                    claim_schedules-after remaining index tables
                      (after, claimed (claimed_schedule tables row))
                      (rw (chosen, claim_schedule) (rw (c, claim_schedule) refl))
                      (one-IsSettled tables row change unique found due changed (λ s. refl)
                        (rw (c, settle_schedule) refl) out (claimed_schedule tables row ∷ out.1)
                        (omega (arith, counted)) rest)
                | inr (message, c) ↦
                    let after =
                      rest_of tables row disable unique found due refl (λ s. refl)
                        (rw (c, settle_schedule) refl) in
                    let out = claim_schedules parser now locked remaining (suc index) after in
                    let counted : Path ℕ (if is_computable parser now row then 1 else 0) 0 =
                      rw (c, is_computable) refl in
                    let rest =
                      claim_schedules-IsSettled remaining (suc index) after
                        (change-HasUniqueIds parser now tables.schedules row disable unique found
                          due refl (λ s. refl))
                        (omega (
                          arith,
                          few,
                          change-count parser now tables.schedules row disable unique found due refl
                              (λ s. refl),
                        )) in
                    claim_schedules-after remaining index tables (after, skipped)
                      (rw (chosen, claim_schedule) (rw (c, claim_schedule) refl))
                      (one-IsSettled tables row disable unique found due refl (λ s. refl)
                        (rw (c, settle_schedule) refl) out out.1 (omega (arith, counted)) rest)
              ]
      ]
