-- ===== src/Session/Settled.antt =====
-- A session settles once: its status is that of its members until it is settled, and never changes
-- afterwards; the session-terminal event is emitted when it settles, and at no other time.
use skytest_agent.Prelude.{
  ℕ, true, false, not, some, List, [], ◌∷◌, ◌≡◌, refl, sym, ap, ◌∙◌, if◌then◌else◌, ◌==◌,
  count_where, update_where, arith, Bool-cases, inl, inr, count_where-key, update_where-none,
  find_first-update_where,
}
use skytest_agent.Status.{status_eq, is_run_terminal_status, status_eq→≡}
use skytest_agent.Store.{Db, RunSession}
use skytest_agent.Session.Service.{
  find_session, next_status, is_open_session, settle, advance, terminal_event, recompute_session,
  recompute_run_session_status, SessionTerminalEvent, statuses_of,
}
use skytest_agent.Session.Rollup.{rollup_run_session_status}
use skytest_agent.Retry.Plan.{resolve_latest_attempts}
use skytest_agent.Retry.Runner.{load_session_attempts}

-- The session stands in the table, once.
pub record IsSession (db : Db) (s : RunSession) : Type 0 where
  pub found : find_session s.id db.sessions ≡ some s
  pub once : count_where (λ x. x.id == s.id) db.sessions ≡ 1

module _ (now : ℕ) (db : Db) (s : RunSession) (h : IsSession db s) where
  open_count :
      count_where (is_open_session s.id) db.sessions
      ≡ (if is_run_terminal_status s.status then 0 else 1)
  open_count =
      count_where-key (λ x. x.id == s.id) (λ x. not (is_run_terminal_status x.status)) db.sessions s
        h.found h.once
      ∙ ground arith

  same_sessions :
      (f : RunSession → RunSession)
      → is_run_terminal_status s.status ≡ true
      → record db { sessions = update_where (is_open_session s.id) f db.sessions } ≡ db
  same_sessions f t =
      ap (λ xs. record db { sessions = xs })
        (update_where-none (is_open_session s.id) f db.sessions
          (open_count ∙ ap (λ b. if b then 0 else 1) t))

  recompute_session-settled :
      is_run_terminal_status s.status ≡ true → recompute_session now s db ≡ (db, [])
  unfolding recompute_session
  recompute_session-settled t =
      let next = next_status s db in
      let none_open = open_count ∙ ap (λ b. if b then 0 else 1) t in
      elim (Bool-cases (status_eq next s.status)) [
        | inl same ↦ rw same
        | inr other ↦ elim (Bool-cases (is_run_terminal_status next)) [
          | inl k ↦
              rw (other, k, none_open) (ap (λ x. (x, [])) (same_sessions (settle next now s) t))
          | inr k ↦ rw (other, k) (ap (λ x. (x, [])) (same_sessions (advance next now s) t))
        ]
      ]

  -- A settled session is left as it is, and no event is emitted.
  pub recompute-settled :
      is_run_terminal_status s.status ≡ true → recompute_run_session_status now s.id db ≡ (db, [])
  unfolding recompute_run_session_status
  recompute-settled t = rw (h.found, recompute_run_session_status) (recompute_session-settled t)

  updated :
      (f : RunSession → RunSession)
      → ((x : RunSession) → (f x).id ≡ x.id)
      → is_run_terminal_status s.status ≡ false
      → find_session s.id (update_where (is_open_session s.id) f db.sessions) ≡ some (f s)
  updated f keep o =
      find_first-update_where (λ x. x.id == s.id) (is_open_session s.id) f
        (λ x. ap (λ n. n == s.id) (keep x)) db.sessions
      ∙ rw h.found (ground arith)

  -- The row of the session after a recomputation, and the events.
  abbrev Recomputed : Db × List SessionTerminalEvent → Type 0
  Recomputed r =
      (s' : RunSession) × (find_session s.id r.0.sessions ≡ some s')
      × (s'.status ≡ next_status s db)
      × (r.1 ≡ (
          if is_run_terminal_status (next_status s db)
          then terminal_event s (next_status s db) ∷ []
          else []))

  recompute_session-open :
      is_run_terminal_status s.status ≡ false → Recomputed (recompute_session now s db)
  unfolding recompute_session
  recompute_session-open o =
      let next = next_status s db in
      let one_open = open_count ∙ ap (λ b. if b then 0 else 1) o in
      elim (Bool-cases (status_eq next s.status)) [
        | inl same ↦
            rw same (let eq = status_eq→≡ next s.status same in (s, h.found, sym eq, rw (eq, o)))
        | inr other ↦ elim (Bool-cases (is_run_terminal_status next)) [
          | inl k ↦
              rw (other, k, one_open)
                (settle next now s s, updated (settle next now s) (λ x. refl) o, refl, refl)
          | inr k ↦
              rw (other, k)
                (advance next now s s, updated (advance next now s) (λ x. refl) o, refl, refl)
        ]
      ]

  -- A session that is not settled, and stands in its table once, takes the status that the latest
  -- attempts of its cases and its own hold for a retry roll up to. One event is emitted, with the
  -- session's identifier, that status and the session's kind, where that status settles it, and
  -- otherwise none.
  pub recompute-open :
      is_run_terminal_status s.status ≡ false
      → (s' : RunSession) × (find_session s.id (recompute_run_session_status now s.id db).0.sessions
          ≡ some s')
        × (s'.status
            ≡ rollup_run_session_status
                (statuses_of (resolve_latest_attempts (load_session_attempts s.id db.runs)))
                s.retry_pending)
        × ((recompute_run_session_status now s.id db).1 ≡ (
            if is_run_terminal_status s'.status
            then record { session_id = s.id; status = s'.status; kind = s.kind } ∷ []
            else []))
  unfolding recompute_run_session_status next_status
  recompute-open o =
      let done : Recomputed (recompute_run_session_status now s.id db) =
        rw (h.found, recompute_run_session_status) (recompute_session-open o) in
      let (s', found, status, events) = done in (s', found, status, rw status events)
