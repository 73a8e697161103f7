-- ===== src/Runners/Stopped.antt =====
-- A stopped session: none of its members that is not deleted stays active.
use mathlib.Core.Option.{some-injective}
use mathlib.Core.Path.{subst}
use skytest_agent.Prelude.{
  ℕ, ◌≤◌, ◌≡◌, refl, sym, ap, ◌∙◌, Bool, true, false, not, ◌&&◌, Option, none, some, List, [], ◌∷◌,
  String, ◌==◌, ==_refl, ==_iff, is_null, any, select, All, All-map, All-update_where, count_where,
  arith, Bool-cases, inl, inr, if_intro, option_intro, count_where-key, count_where-update_where,
  find_first-count, find_first_sound, and→both,
}
use skytest_agent.Status.{is_run_active_status}
use skytest_agent.Store.{Db, TestRun, RunSession}
use skytest_agent.Store.Keys.{find_run}
use skytest_agent.Retry.Runner.{in_session}
use skytest_agent.Session.Service.{find_session, release_session_retry_hold}
use skytest_agent.Session.Aborted.{is_active_member, recompute-runs}
use skytest_agent.Runners.Cancel.{
  is_active_row, cancel_run, cancel_read_run, cancel_active_test_run,
}
use skytest_agent.Runners.SessionCancel.{
  cancel_members, member_runs, cancel_active_run_session, given_or, reason_for_kind,
}
use skytest_agent.Runners.ClaimLaws.{HasUniqueIds}

abbrev pub is_live_member : ℕ → TestRun → Bool
is_live_member session_id r = is_active_member session_id r && is_null r.deleted_at

-- A live member is among the active runs that are still to be cancelled.
abbrev IsListed : ℕ → List TestRun → TestRun → Type 0
IsListed session_id members r =
    is_live_member session_id r ≡ true
    → any (λ m. m.id == r.id && is_run_active_status m.status) members ≡ true

selected-IsListed :
    (session_id : ℕ) (runs : List TestRun)
    → All (IsListed session_id (select (in_session session_id) runs)) runs
selected-IsListed session_id [] = tt
selected-IsListed session_id (x ∷ xs) = (
  (λ e. ground (arith, ==_refl x.id, e)),
  All-map _ (λ r listed e. ground (arith, listed e)) xs (selected-IsListed session_id xs),
)

none_listed :
    (session_id : ℕ) (runs : List TestRun)
    → All (IsListed session_id []) runs
    → any (is_live_member session_id) runs ≡ false
none_listed session_id [] h = refl
none_listed session_id (x ∷ xs) h = ground (arith, h.0, none_listed session_id xs h.1)

module _ {ℓ} {A : Type ℓ} (P Q R : A → Type 0) where
  All-both : ((x : A) → P x → Q x → R x) → (xs : List A) → All P xs → All Q xs → All R xs
  All-both f [] h k = tt
  All-both f (x ∷ xs) h k = (f x h.0 k.0, All-both f xs h.1 k.1)

find_run-none :
    (id : ℕ) (runs : List TestRun) → find_run id runs ≡ none → All (λ x. (x.id == id) ≡ false) runs
find_run-none id [] h = tt
find_run-none id (x ∷ xs) h = ground (arith, find_run-none id xs)

other_rows :
    (id : ℕ) (runs : List TestRun)
    → count_where (λ x. x.id == id) runs ≡ 0
    → All (λ x. (x.id == id) ≡ false) runs
other_rows id [] h = tt
other_rows id (x ∷ xs) h = ground (arith, other_rows id xs)

find_run-only :
    (id : ℕ) (runs : List TestRun) (read : TestRun)
    → find_run id runs ≡ some read
    → count_where (λ x. x.id == id) runs ≤ 1
    → (P : TestRun → Type 0) → P read
    → All (λ x. (x.id == id) ≡ true → P x) runs
find_run-only id [] read f u P p = tt
find_run-only id (x ∷ xs) read f u P p = elim (Bool-cases (x.id == id)) [
  | inl e ↦
      let same : x ≡ read = some-injective _ _ (rw e at f) in
      let others = other_rows id xs (ground (arith, u, e)) in
      ((λ k. subst P (sym same) p), All-map _ (λ y ne k. cc) xs others)
  | inr e ↦ ((λ k. cc), find_run-only id xs read (rw e at f) (ground (arith, u, e)) P p)
]

module _ (now : ℕ) (reason : String) (session_id : ℕ) where
  cancel_read_run-HasUniqueIds :
      (i : ℕ) (read : TestRun) (db : Db)
      → HasUniqueIds db.runs
      → count_where (λ r. r.id == i) (cancel_read_run now reason read db).runs ≤ 1
  unfolding cancel_read_run
  cancel_read_run-HasUniqueIds i read db u =
      if_intro (λ (d : Db). count_where (λ r. r.id == i) d.runs ≤ 1)
        (count_where (is_active_row read.id) db.runs == 1)
        (λ _. omega (
          arith,
          count_where-update_where (λ (r : TestRun). r.id == i) (is_active_row read.id)
              (cancel_run now reason) (λ x. refl) db.runs,
          u i,
        ))
        (λ _. u i)

  cancel_read_run-IsListed :
      (member : TestRun) (members : List TestRun) (read : TestRun) (db : Db)
      → HasUniqueIds db.runs
      → find_run member.id db.runs ≡ some read
      → is_run_active_status read.status ≡ true
      → All (IsListed session_id (member ∷ members)) db.runs
      → All (IsListed session_id members) (cancel_read_run now reason read db).runs
  unfolding cancel_read_run
  cancel_read_run-IsListed member members read db u e active h =
      let same_id : read.id ≡ member.id =
        (==_iff _ _).0 (find_first_sound (λ (x : TestRun). x.id == member.id) db.runs e) in
      let n = find_first-count (λ (x : TestRun). x.id == member.id) db.runs read e in
      let once =
        count_where-key (λ (x : TestRun). x.id == member.id) (λ x. is_run_active_status x.status)
          db.runs read e (omega (arith, n, u member.id)) in
      if_intro (λ (d : Db). All (IsListed session_id members) d.runs)
        (count_where (is_active_row read.id) db.runs == 1)
        (λ _.
          All-update_where _ _ (is_active_row read.id) (cancel_run now reason)
            (λ x listed. ground (arith, listed, same_id)) db.runs h)
        (λ other. absurd (ground (arith, once, active, rw same_id at other)))

  cancel_active_test_run-HasUniqueIds :
      (id : ℕ) (db : Db)
      → HasUniqueIds db.runs
      → HasUniqueIds (cancel_active_test_run now id reason db).runs
  unfolding cancel_active_test_run
  cancel_active_test_run-HasUniqueIds id db u i =
      option_intro (λ (d : Db). count_where (λ r. r.id == i) d.runs ≤ 1) (find_run id db.runs)
        (λ _. u i)
        λ read _.
          if_intro (λ (d : Db). count_where (λ r. r.id == i) d.runs ≤ 1)
            (is_null read.deleted_at && is_run_active_status read.status)
            (λ _. cancel_read_run-HasUniqueIds i read db u) (λ _. u i)

  cancel_active_test_run-IsListed :
      (member : TestRun) (members : List TestRun) (db : Db)
      → HasUniqueIds db.runs
      → All (IsListed session_id (member ∷ members)) db.runs
      → All (IsListed session_id members) (cancel_active_test_run now member.id reason db).runs
  unfolding cancel_active_test_run
  cancel_active_test_run-IsListed member members db u h =
      option_intro (λ (d : Db). All (IsListed session_id members) d.runs)
        (find_run member.id db.runs)
        (λ e.
          All-both _ _ _ (λ x ne listed due. ground (arith, listed due, ne)) db.runs
            (find_run-none member.id db.runs e) h)
        λ read e.
          if_intro (λ (d : Db). All (IsListed session_id members) d.runs)
            (is_null read.deleted_at && is_run_active_status read.status)
            (λ active.
              cancel_read_run-IsListed member members read db u e (and→both _ _ active).1 h)
            λ passive.
              All-both _ _ _ (λ x same listed due. ground (arith, listed due, same)) db.runs
                (find_run-only member.id db.runs read e (u member.id)
                  (λ x. (is_null x.deleted_at && is_run_active_status x.status) ≡ false) passive)
                h

  cancel_members-none_live :
      (members : List TestRun) (db : Db)
      → HasUniqueIds db.runs
      → All (IsListed session_id members) db.runs
      → any (is_live_member session_id) (cancel_members now reason members db).0.runs ≡ false
  unfolding cancel_members
  cancel_members-none_live [] db u h = none_listed session_id db.runs h
  cancel_members-none_live (member ∷ members) db u h =
      if_intro (λ (x : Db × ℕ). any (is_live_member session_id) x.0.runs ≡ false)
        (not (is_run_active_status member.status))
        (λ settled.
          cancel_members-none_live members db u
            (All-map _ (λ x listed due. ground (arith, listed due, settled)) db.runs h))
        λ _.
          cancel_members-none_live members (cancel_active_test_run now member.id reason db)
            (cancel_active_test_run-HasUniqueIds member.id db u)
            (cancel_active_test_run-IsListed member members db u h)

-- After the cancellation of a session that is in the table, no member of it that is not deleted is
-- active, if no two runs have the same identifier.
pub cancel_active_run_session-none_live :
    (now session_id : ℕ) (reason_override : Option String) (db : Db) (s : RunSession)
    → HasUniqueIds db.runs
    → find_session session_id db.sessions ≡ some s
    → any
        (is_live_member session_id)
        (cancel_active_run_session now session_id reason_override db).0.runs
      ≡ false
unfolding cancel_active_run_session release_session_retry_hold
cancel_active_run_session-none_live now session_id reason_override db s u found =
    let reason = given_or reason_override (reason_for_kind (find_session session_id db.sessions)) in
    let members = member_runs session_id (find_session session_id db.sessions) db in
    let stopped = (cancel_members now reason members db).0 in
    ap (any (is_live_member session_id))
      (recompute-runs now "" "" session_id (release_session_retry_hold session_id stopped).0)
    ∙ cancel_members-none_live now reason session_id members db u
        (rw found (selected-IsListed session_id db.runs))
