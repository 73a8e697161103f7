-- ===== src/Runners/Evolve.antt =====
-- How one write may change the row of a run: its status follows the diagram of a run's life, a
-- settled run is frozen, and its event numbers only grow.
use mathlib.Core.Option.{some-injective}
use skytest_agent.Prelude.{
  ℕ, ◌≤◌, ◌≡◌, refl, sym, ap, ◌∙◌, Bool, true, some, List, ◌==◌, ==_iff, update_where, arith,
  Bool-cases, false, ◌⊎◌, inl, inr, find_first-update_where, find_first_sound,
}
use skytest_agent.Status.{
  TestStatus, queued, preparing, running, pass, fail, cancelled, is_run_terminal_status,
  is_run_active_status, is_run_in_progress_status,
}
use skytest_agent.Store.{TestRun}
use skytest_agent.Store.Keys.{find_run}

infix 40 ◌⟶◌
-- The life of a run: what one write may do to its status.
pub data ◌⟶◌ : TestStatus → TestStatus → Type 0 where
  stay : {s : TestStatus} → s ⟶ s
  take : queued ⟶ preparing
  promote : preparing ⟶ running
  requeue : preparing ⟶ queued
  report :
      {s t : TestStatus}
      → is_run_in_progress_status s ≡ true
      → is_run_in_progress_status t ≡ true
      → s ⟶ t
  complete : {s : TestStatus} → is_run_in_progress_status s ≡ true → s ⟶ pass
  give_up : {s : TestStatus} → is_run_active_status s ≡ true → s ⟶ fail
  stop : {s : TestStatus} → is_run_active_status s ≡ true → s ⟶ cancelled

-- A row that can still be settled after an edge could be settled before it.
pub edge_active :
    {s t : TestStatus} → s ⟶ t → is_run_active_status t ≡ true → is_run_active_status s ≡ true
edge_active stay h = h
edge_active take h = refl
edge_active promote h = refl
edge_active requeue h = refl
edge_active {s} (report p q) h = ground arith
edge_active {s} (complete p) h = ground arith
edge_active (give_up p) h = p
edge_active (stop p) h = p

pub active-not_terminal :
    (s : TestStatus) → is_run_active_status s ≡ true → is_run_terminal_status s ≡ false
active-not_terminal s h = ground arith

failed_active : (s : TestStatus) → s ≡ fail → ¬ (is_run_active_status s ≡ true)
failed_active s e h = ground arith

pub record Evolved (r r' : TestRun) : Type 0 where
  pub same_id : r'.id ≡ r.id
  pub status : r.status ⟶ r'.status
  pub sequence : r.next_event_sequence ≤ r'.next_event_sequence
  pub frozen : is_run_terminal_status r.status ≡ true → r' ≡ r

pub Evolved-refl : (r : TestRun) → Evolved r r
Evolved-refl r = record {
  same_id = refl;
  status = stay;
  sequence = omega arith;
  frozen = λ _. refl;
}

-- A row that was not settled is failed.
pub record GaveUp (r r' : TestRun) : Type 0 where
  pub kept_id : r'.id ≡ r.id
  pub kept_sequence : r.next_event_sequence ≡ r'.next_event_sequence
  pub was_active : is_run_active_status r.status ≡ true
  pub is_failed : r'.status ≡ fail

-- What a run does first, and that it may then be failed.
pub Evolved-GaveUp : {r s t : TestRun} → Evolved r s → (t ≡ s) ⊎ GaveUp s t → Evolved r t
Evolved-GaveUp {r} e (inl same) = rw same e
Evolved-GaveUp {r} {s} {t} e (inr g) =
    let active : is_run_active_status r.status ≡ true = edge_active e.status g.was_active in
    record {
      same_id = g.kept_id ∙ e.same_id;
      status = rw g.is_failed (give_up active);
      sequence = omega (arith, e.sequence, g.kept_sequence);
      frozen = λ h. cc (active-not_terminal r.status active);
    }

-- Every row of the one table has evolved into one of the other.
abbrev pub Evolves : List TestRun → List TestRun → Type 0
Evolves runs runs' =
    (id : ℕ) (r : TestRun)
    → find_run id runs ≡ some r
    → (r' : TestRun) × (find_run id runs' ≡ some r') × Evolved r r'

pub Evolves-refl : (runs : List TestRun) → Evolves runs runs
Evolves-refl runs id r h = (r, h, Evolved-refl r)

-- Every row of the one table stands in the other, as it was or failed.
abbrev pub Fails : List TestRun → List TestRun → Type 0
Fails runs runs' =
    (id : ℕ) (r : TestRun)
    → find_run id runs ≡ some r
    → (r' : TestRun) × (find_run id runs' ≡ some r') × ((r' ≡ r) ⊎ GaveUp r r')

pub Evolves-Fails : (a b c : List TestRun) → Evolves a b → Fails b c → Evolves a c
Evolves-Fails a b c f g id r h =
    let (s, hs, es) = f id r h in let (t, ht, et) = g id s hs in (t, ht, Evolved-GaveUp es et)

pub Fails-refl : (runs : List TestRun) → Fails runs runs
Fails-refl runs id r h = (r, h, inl refl)

GaveUp-trans :
    {r s t : TestRun} → (s ≡ r) ⊎ GaveUp r s → (t ≡ s) ⊎ GaveUp s t → (t ≡ r) ⊎ GaveUp r t
GaveUp-trans (inl e) q = rw (← e) q
GaveUp-trans (inr g) (inl e) = inr (rw e g)
GaveUp-trans {r} {s} (inr g) (inr k) = absurd (failed_active s.status g.is_failed k.was_active)

-- A run fails once.
pub Fails-trans : (a b c : List TestRun) → Fails a b → Fails b c → Fails a c
Fails-trans a b c f g id r h =
    let (s, hs, es) = f id r h in let (t, ht, et) = g id s hs in (t, ht, GaveUp-trans es et)

-- The row of a run has the identifier by which it is found.
pub find_run-id :
    (id : ℕ) (runs : List TestRun) {r : TestRun} → find_run id runs ≡ some r → r.id ≡ id
find_run-id id runs h = (==_iff _ _).0 (find_first_sound (λ r. r.id == id) runs h)

-- A row that is found and has the identifier of another row that is found is that row.
pub same_row :
    (id k : ℕ) (runs : List TestRun) (r s : TestRun)
    → find_run id runs ≡ some r
    → find_run k runs ≡ some s
    → (r.id == k) ≡ true
    → r ≡ s
same_row id k runs r s hr hs e =
    let same : id ≡ k = sym (find_run-id id runs hr) ∙ (==_iff _ _).0 e in
    some-injective _ _ (sym hr ∙ ap (λ n. find_run n runs) same ∙ hs)

-- `updateMany`, where each row that is found and updated evolves.
pub update_where-Evolves :
    (p : TestRun → Bool) (f : TestRun → TestRun) (runs : List TestRun)
    → ((r : TestRun) → (f r).id ≡ r.id)
    → ((id : ℕ) (r : TestRun) → find_run id runs ≡ some r → p r ≡ true → Evolved r (f r))
    → Evolves runs (update_where p f runs)
update_where-Evolves p f runs keep step id r h =
    let found =
      find_first-update_where (λ r. r.id == id) p f (λ x. ap (λ n. n == id) (keep x)) runs in
    elim (Bool-cases (p r)) [
      | inl t ↦ (f r, found ∙ rw (h, t), step id r h t)
      | inr n ↦ (r, found ∙ rw (h, n), Evolved-refl r)
    ]

-- `updateMany`, where each row that is updated fails.
pub update_where-Fails :
    (p : TestRun → Bool) (f : TestRun → TestRun) (runs : List TestRun)
    → ((r : TestRun) → (f r).id ≡ r.id)
    → ((r : TestRun) → p r ≡ true → GaveUp r (f r))
    → Fails runs (update_where p f runs)
update_where-Fails p f runs keep step id r h =
    let found =
      find_first-update_where (λ r. r.id == id) p f (λ x. ap (λ n. n == id) (keep x)) runs in
    elim (Bool-cases (p r)) [
      | inl t ↦ (f r, found ∙ rw (h, t), inr (step r t))
      | inr n ↦ (r, found ∙ rw (h, n), inl refl)
    ]
