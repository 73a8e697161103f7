-- ===== src/Session/Aborted.antt =====
-- Aborting a session whose driver is gone: no member of it stays active, and the session is settled.
use skytest_agent.Prelude.{
  ℕ, ◌≡◌, refl, ap, ◌∙◌, ltb, Bool, true, false, ◌&&◌, ◌||◌, List, [], ◌∷◌, String, if◌then◌else◌,
  ◌==◌, ==_refl, any, select, All, All-map, All-update_where, arith, if_intro, option_intro,
}
use skytest_agent.Status.{is_run_active_status, status_eq, is_run_terminal_status}
use skytest_agent.Store.{Db, TestRun, RunSession}
use skytest_agent.Retry.Runner.{in_session}
use skytest_agent.Session.Service.{
  is_active_run, abort_run, fail_members, fail_active_session_members, release_session_retry_hold,
  recompute_run_session_status, recompute_session, next_status, find_session, SessionTerminalEvent,
}

abbrev pub is_active_member : ℕ → TestRun → Bool
is_active_member session_id r = in_session session_id r && is_run_active_status r.status

-- An active member is among the runs that are still to be settled.
abbrev pub IsDue : ℕ → List TestRun → TestRun → Type 0
IsDue session_id members r =
    is_active_member session_id r ≡ true → any (λ m. m.id == r.id) members ≡ true

pub selected-IsDue :
    (session_id : ℕ) (runs : List TestRun)
    → All (IsDue session_id (select (is_active_member session_id) runs)) runs
selected-IsDue session_id [] = tt
selected-IsDue session_id (x ∷ xs) = (
  (λ e. ground (arith, ==_refl x.id, e)),
  All-map _ (λ r due e. ground (arith, due e)) xs (selected-IsDue session_id xs),
)

none_due :
    (session_id : ℕ) (runs : List TestRun)
    → All (IsDue session_id []) runs
    → any (is_active_member session_id) runs ≡ false
none_due session_id [] h = refl
none_due session_id (x ∷ xs) h = ground (arith, h.0, none_due session_id xs h.1)

module _ (now : ℕ) (reason result : String) (session_id : ℕ) where
  abort-IsDue :
      (member : TestRun) (members : List TestRun) (r : TestRun)
      → IsDue session_id (member ∷ members) r
      → IsDue session_id members
          (if is_active_run member.id r then abort_run now reason result r else r)
  unfolding abort_run
  abort-IsDue member members r due = ground (arith, due)

  pub fail_members-none_active :
      (members : List TestRun) (db : Db)
      → All (IsDue session_id members) db.runs
      → any (is_active_member session_id) (fail_members now reason result members db).0.runs ≡ false
  unfolding fail_members
  fail_members-none_active [] db h = none_due session_id db.runs h
  fail_members-none_active (member ∷ members) db h =
      fail_members-none_active members _ (
        All-update_where _ _ _ (abort_run now reason result) (abort-IsDue member members) db.runs h)

  recompute_session-runs :
      (s : RunSession) (db : Db) → (recompute_session now s db).0.runs ≡ db.runs
  unfolding recompute_session
  recompute_session-runs s db =
      if_intro (λ (x : Db × List SessionTerminalEvent). x.0.runs ≡ db.runs)
        (status_eq (next_status s db) s.status) (λ _. refl)
        λ _.
          if_intro (λ (x : Db × List SessionTerminalEvent). x.0.runs ≡ db.runs)
            (is_run_terminal_status (next_status s db)) (λ _. refl) (λ _. refl)

  pub recompute-runs : (db : Db) → (recompute_run_session_status now session_id db).0.runs ≡ db.runs
  unfolding recompute_run_session_status
  recompute-runs db =
      option_intro (λ (x : Db × List SessionTerminalEvent). x.0.runs ≡ db.runs)
        (find_session session_id db.sessions) (λ _. refl) λ s _. recompute_session-runs s db

  abbrev failed_in : Db → Db
  failed_in db =
      (fail_members now reason result (select (is_active_member session_id) db.runs)
        (release_session_retry_hold session_id db).0).0

  -- After `failActiveSessionMembers` no member of the session is active, whatever the table held.
  pub fail_active_session_members-none_active :
      (db : Db)
      → any
          (is_active_member session_id)
          (fail_active_session_members now reason result session_id db).db.runs
        ≡ false
  unfolding fail_active_session_members release_session_retry_hold
  fail_active_session_members-none_active db =
      let none_left =
        fail_members-none_active (select (is_active_member session_id) db.runs)
          (release_session_retry_hold session_id db).0 (selected-IsDue session_id db.runs) in
      if_intro
        (λ (x : record {
          db : Db;
          events : List SessionTerminalEvent;
          settled : ℕ;
          released : Bool;
        }).
          any (is_active_member session_id) x.db.runs ≡ false)
        (ltb 0
            (fail_members now reason result (select (is_active_member session_id) db.runs)
              (release_session_retry_hold session_id db).0).1
          || (release_session_retry_hold session_id db).1)
        (λ _. ap (any (is_active_member session_id)) (recompute-runs (failed_in db)) ∙ none_left)
        (λ _. none_left)
