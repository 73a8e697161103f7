-- ===== src/Session/Stranded.antt =====
-- A session that is stranded with its retry hold is settled when it is aborted.
use skytest_agent.Prelude.{
  ℕ, ◌≤◌, ◌≡◌, ◌≢◌, refl, ap, ◌∙◌, ltb, Bool, true, false, ◌||◌, some, List, [], ◌∷◌, String, ◌==◌,
  any, length, select, All, All-update_where, count_where, find_first, update_where, arith,
  Bool-cases, inl, inr, option_intro, if_intro, sort_by-All, length-sort_by, count_where-key,
  count_where-update_where, find_first-update_where,
}
use skytest_agent.Status.{draft, is_run_terminal_status}
use skytest_agent.Store.{Db, TestRun, RunSession}
use skytest_agent.Retry.Plan.{
  AttemptRecord, set_latest, latest_step, latest_from, resolve_latest_attempts,
}
use skytest_agent.Retry.Runner.{in_session, load_session_attempts}
use skytest_agent.Session.Rollup.{rollup_run_session_status}
use skytest_agent.Session.RollupLaws.{IsRunStatus, all_settled, rollup-terminal_iff}
use skytest_agent.Session.Service.{
  find_session, is_active_run, is_held, abort_run, fail_members, fail_active_session_members,
  release_session_retry_hold, next_status, statuses_of, SessionTerminalEvent,
}
use skytest_agent.Session.Settled.{IsSession, recompute-open}
use skytest_agent.Session.Aborted.{is_active_member, selected-IsDue, fail_members-none_active}

abbrev pub IsSettled : AttemptRecord → Type 0
IsSettled a = is_run_terminal_status a.status ≡ true

set_latest-All :
    (a : AttemptRecord) (xs : List AttemptRecord)
    → IsSettled a
    → All IsSettled xs
    → All IsSettled (set_latest a xs) × (1 ≤ length (set_latest a xs))
unfolding set_latest
set_latest-All a [] k h = ((k, tt), omega arith)
set_latest-All a (x ∷ xs) k h = elim (Bool-cases (x.test_case_id == a.test_case_id)) [
  | inl e ↦ rw e ((k, h.1), omega arith)
  | inr e ↦ rw e ((h.0, (set_latest-All a xs k h.1).0), omega arith)
]

find_first-length :
    (p : AttemptRecord → Bool) (xs : List AttemptRecord) (x : AttemptRecord)
    → find_first p xs ≡ some x
    → 1 ≤ length xs
find_first-length p [] x h = ground arith
find_first-length p (y ∷ ys) x h = omega arith

latest_step-All :
    (latest : List AttemptRecord) (a : AttemptRecord)
    → IsSettled a
    → All IsSettled latest
    → All IsSettled (latest_step latest a) × (1 ≤ length (latest_step latest a))
unfolding latest_step
latest_step-All latest a k h =
    option_intro Both (find_first (λ x. x.test_case_id == a.test_case_id) latest)
      (λ _. set_latest-All a latest k h)
      λ current e.
        if_intro Both (ltb current.attempt a.attempt) (λ _. set_latest-All a latest k h)
          (λ _. (h, find_first-length _ latest current e))
  where
    Both : List AttemptRecord → Type 0
    Both xs = All IsSettled xs × (1 ≤ length xs)

latest_from-All :
    (xs latest : List AttemptRecord)
    → All IsSettled xs
    → All IsSettled latest
    → 1 ≤ length latest
    → All IsSettled (latest_from latest xs) × (1 ≤ length (latest_from latest xs))
unfolding latest_from
latest_from-All [] latest k h n = (h, n)
latest_from-All (a ∷ xs) latest k h n =
    let step = latest_step-All latest a k.0 h in
    latest_from-All xs (latest_step latest a) k.1 step.0 step.1

resolve-All :
    (xs : List AttemptRecord)
    → All IsSettled xs
    → 1 ≤ length xs
    → All IsSettled (resolve_latest_attempts xs) × (1 ≤ length (resolve_latest_attempts xs))
unfolding resolve_latest_attempts latest_from
resolve-All [] k n = absurd (omega arith)
resolve-All (a ∷ xs) k n =
    let step = latest_step-All [] a k.0 tt in
    let all = latest_from-All xs (latest_step [] a) k.1 step.0 step.1 in
    (sort_by-All _ _ _ all.0, rw (length-sort_by _ _) all.1)

statuses_of-settled :
    (xs : List AttemptRecord)
    → All IsSettled xs
    → All IsRunStatus (statuses_of xs) × (all_settled (statuses_of xs) ≡ true)
statuses_of-settled [] h = (tt, refl)
statuses_of-settled (a ∷ xs) h =
    let rest = statuses_of-settled xs h.1 in
    (((λ e. ground (arith, h.0, e)), rest.0), ground (arith, h.0, rest.1))

length-statuses_of : (xs : List AttemptRecord) → length (statuses_of xs) ≡ length xs
length-statuses_of [] = refl
length-statuses_of (a ∷ xs) = omega (arith, length-statuses_of xs)

-- The attempts of a session without an active member.
load-IsSettled :
    (session_id : ℕ) (runs : List TestRun)
    → All (λ r. r.status ≢ draft) runs
    → any (is_active_member session_id) runs ≡ false
    → All IsSettled (load_session_attempts session_id runs)
unfolding load_session_attempts
load-IsSettled session_id [] d h = tt
load-IsSettled session_id (r ∷ rs) d h = elim (Bool-cases (in_session session_id r)) [
  | inl e ↦ rw e (ground (arith, d.0, e), load-IsSettled session_id rs d.1 (ground arith))
  | inr e ↦ rw e (load-IsSettled session_id rs d.1 (ground arith))
]

load-some :
    (session_id : ℕ) (runs : List TestRun)
    → any (in_session session_id) runs ≡ true
    → 1 ≤ length (load_session_attempts session_id runs)
unfolding load_session_attempts
load-some session_id [] h = ground arith
load-some session_id (r ∷ rs) h = ground (arith, load-some session_id rs)

rolled_up :
    (xs : List AttemptRecord)
    → All IsSettled xs
    → 1 ≤ length xs
    → is_run_terminal_status
        (rollup_run_session_status (statuses_of (resolve_latest_attempts xs)) false)
      ≡ true
rolled_up xs h n =
    let (settled, some_case) = resolve-All xs h n in
    let (run, all) = statuses_of-settled (resolve_latest_attempts xs) settled in
    rollup-terminal_iff (statuses_of (resolve_latest_attempts xs)) false run
    ∙ rw all (ground (arith, some_case, length-statuses_of (resolve_latest_attempts xs)))

module _ (now : ℕ) (reason result : String) where
  fail_members-sessions :
      (members : List TestRun) (db : Db)
      → (fail_members now reason result members db).0.sessions ≡ db.sessions
  unfolding fail_members
  fail_members-sessions [] db = refl
  fail_members-sessions (m ∷ members) db = fail_members-sessions members _

  abort-in_session :
      (session_id id : ℕ) (runs : List TestRun)
      → any
          (in_session session_id)
          (update_where (is_active_run id) (abort_run now reason result) runs)
        ≡ any (in_session session_id) runs
  unfolding abort_run
  abort-in_session session_id id [] = refl
  abort-in_session session_id id (r ∷ rs) = ground (arith, abort-in_session session_id id rs)

  fail_members-in_session :
      (session_id : ℕ) (members : List TestRun) (db : Db)
      → any (in_session session_id) (fail_members now reason result members db).0.runs
        ≡ any (in_session session_id) db.runs
  unfolding fail_members
  fail_members-in_session session_id [] db = refl
  fail_members-in_session session_id (m ∷ members) db =
      fail_members-in_session session_id members _ ∙ abort-in_session session_id m.id db.runs

  fail_members-statuses :
      (members : List TestRun) (db : Db)
      → All (λ r. r.status ≢ draft) db.runs
      → All (λ r. r.status ≢ draft) (fail_members now reason result members db).0.runs
  unfolding fail_members abort_run
  fail_members-statuses [] db h = h
  fail_members-statuses (m ∷ members) db h = fail_members-statuses members _ (
      All-update_where _ _ (is_active_run m.id) (abort_run now reason result)
        (λ r d. ground (arith, d)) db.runs h)

  module _ (db : Db) (s : RunSession) (h : IsSession db s) (held : s.retry_pending ≡ true)
      (open_session : is_run_terminal_status s.status ≡ false)
      (members : any (in_session s.id) db.runs ≡ true)
      (statuses : All (λ r. r.status ≢ draft) db.runs) where
    abbrev failed_db : Db
    failed_db =
        (fail_members now reason result (select (is_active_member s.id) db.runs)
          (release_session_retry_hold s.id db).0).0

    abbrev released : RunSession
    released = record s { retry_pending = false }

    released-IsSession : IsSession failed_db released
    unfolding release_session_retry_hold
    released-IsSession = record {
      found =
          ap (find_session s.id) (fail_members-sessions (select (is_active_member s.id) db.runs) _)
          ∙ find_first-update_where (λ x. x.id == s.id) (is_held s.id)
              (λ x. record x { retry_pending = false }) (λ x. refl) db.sessions
          ∙ rw h.found (ground (arith, held));
      once =
          ap (count_where (λ x. x.id == s.id))
            (fail_members-sessions (select (is_active_member s.id) db.runs) _)
          ∙ count_where-update_where (λ x. x.id == s.id) (is_held s.id)
              (λ x. record x { retry_pending = false }) (λ x. refl) db.sessions
          ∙ h.once;
    }

    settled_by : is_run_terminal_status (next_status released failed_db) ≡ true
    unfolding next_status release_session_retry_hold
    settled_by =
        let none_active =
          fail_members-none_active now reason result s.id (select (is_active_member s.id) db.runs)
            (release_session_retry_hold s.id db).0 (selected-IsDue s.id db.runs) in
        let settled =
          load-IsSettled s.id failed_db.runs
            (fail_members-statuses (select (is_active_member s.id) db.runs)
              (release_session_retry_hold s.id db).0 statuses)
            none_active in
        let some_attempt = load-some s.id failed_db.runs (
          fail_members-in_session s.id (select (is_active_member s.id) db.runs)
            (release_session_retry_hold s.id db).0
          ∙ members) in
        rolled_up (load_session_attempts s.id failed_db.runs) settled some_attempt

    was_held : (release_session_retry_hold s.id db).1 ≡ true
    unfolding release_session_retry_hold
    was_held =
        let n =
          count_where-key (λ x. x.id == s.id) (λ x. x.retry_pending) db.sessions s h.found h.once in
        ground (arith, n, held)

    -- If a session is not settled and holds for a retry, stands in its table once, and has a run, and no
    -- run is a draft, then `failActiveSessionMembers` settles it.
    pub fail_active_session_members-settles :
        (s' : RunSession) × (find_session s.id
            (fail_active_session_members now reason result s.id db).db.sessions
          ≡ some s')
        × (is_run_terminal_status s'.status ≡ true)
    unfolding fail_active_session_members rollup_run_session_status next_status
    fail_active_session_members-settles =
        let (s', found, status, events) =
          recompute-open now failed_db released released-IsSession open_session in
        let terminal = ap is_run_terminal_status status ∙ settled_by in
        if_intro
          (λ (x : record {
            db : Db;
            events : List SessionTerminalEvent;
            settled : ℕ;
            released : Bool;
          }).
            (s' : RunSession) × (find_session s.id x.db.sessions ≡ some s')
            × (is_run_terminal_status s'.status ≡ true))
          (ltb 0
              (fail_members now reason result (select (is_active_member s.id) db.runs)
                (release_session_retry_hold s.id db).0).1
            || (release_session_retry_hold s.id db).1)
          (λ _. (s', found, terminal)) (λ none_done. ground (arith, none_done, was_held))
