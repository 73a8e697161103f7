-- ===== src/Session/Coalesce.antt =====
-- apps/web/src/lib/runtime/run-session-service.ts, `recomputeRunSessionStatus`: the recomputations of a
-- session that are asked for at the same time share a pass. The state is what the map and the set of
-- the module hold for one session, with the count of the requests that tells a late pass from an early one.
use skytest_agent.Prelude.{ℕ, suc, ◌+◌, ◌≤◌, ◌≡◌, Bool, true, false, if◌then◌else◌, arith}

-- `seen` is the number of requests before the last pass read the rows; `pass_count` counts the passes, and
-- `failed` tells that the last one threw.
pub record Recompute : Type 0 where
  pub is_running : Bool
  pub rerun_requested : Bool
  pub requests : ℕ
  pub seen : ℕ
  pub pass_count : ℕ
  pub failed : Bool

abbrev pub never_asked : Recompute
never_asked = record {
  is_running = false;
  rerun_requested = false;
  requests = 0;
  seen = 0;
  pass_count = 0;
  failed = false;
}

-- A pass begins by taking the request for another one off.
abbrev pub begin_pass : Recompute → Recompute
begin_pass s = record s {
  rerun_requested = false;
  seen = s.requests;
  pass_count = suc s.pass_count;
  failed = false;
}

unfoldable pub request_recompute : Recompute → Recompute
request_recompute s =
    let asked = record s { requests = suc s.requests } in
    if s.is_running
    then record asked { rerun_requested = true }
    else begin_pass (record asked { is_running = true })

-- The running pass returns.
unfoldable pub finish_pass : Recompute → Recompute
finish_pass s = if s.rerun_requested then begin_pass s else record s { is_running = false }

-- The running pass throws: the loop ends, and a request for another pass stays.
unfoldable pub fail_pass : Recompute → Recompute
fail_pass s = record s { is_running = false; failed = true }

pub data ◌↝*◌ : Recompute → Recompute → Type 0 where
  start : {s : Recompute} → s ↝* s
  ask : {s t : Recompute} → s ↝* t → s ↝* request_recompute t
  finish : {s t : Recompute} → s ↝* t → t.is_running ≡ true → s ↝* finish_pass t
  fail : {s t : Recompute} → s ↝* t → t.is_running ≡ true → s ↝* fail_pass t

infix 30 ◌↝*◌
-- No request is forgotten: where the last pass has seen fewer requests than there were, another pass
-- has been asked for, or the last one failed.
abbrev IsServed : Recompute → Type 0
IsServed s =
    (s.seen ≤ s.requests)
    × (s.failed ≡ false → s.rerun_requested ≡ false → s.seen ≡ s.requests)
    × (s.failed ≡ false → s.is_running ≡ false → s.rerun_requested ≡ false)
    × (s.pass_count + (if s.rerun_requested then 1 else 0) ≤ s.requests)
    × (s.is_running ≡ true → s.failed ≡ false)

request-IsServed : (s : Recompute) → IsServed s → IsServed (request_recompute s)
unfolding request_recompute
request-IsServed s h = ground (arith, h)

finish-IsServed : (s : Recompute) → s.is_running ≡ true → IsServed s → IsServed (finish_pass s)
unfolding finish_pass
finish-IsServed s r h = ground (arith, h, r)

fail-IsServed : (s : Recompute) → s.is_running ≡ true → IsServed s → IsServed (fail_pass s)
unfolding fail_pass
fail-IsServed s r h = ground (arith, h, r)

Steps-IsServed : {s t : Recompute} → s ↝* t → IsServed s → IsServed t
Steps-IsServed start h = h
Steps-IsServed (ask steps) h = request-IsServed _ (Steps-IsServed steps h)
Steps-IsServed (finish steps r) h = finish-IsServed _ r (Steps-IsServed steps h)
Steps-IsServed (fail steps r) h = fail-IsServed _ r (Steps-IsServed steps h)

-- Whatever the order of requests and of passes that return or throw: when no pass runs and the last
-- one did not throw, that pass began after the last request; and there are no more passes than requests.
pub recompute-last_seen :
    {t : Recompute}
    → never_asked ↝* t
    → (t.is_running ≡ false → t.failed ≡ false → t.seen ≡ t.requests) × (t.pass_count ≤ t.requests)
recompute-last_seen steps =
    let served = Steps-IsServed steps (ground arith) in
    ((λ idle fine. served.1 fine (served.2 fine idle)), omega (arith, served.3))
