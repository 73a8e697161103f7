-- ===== src/Tests/Passes.antt =====
-- Three requests for a session that share two pass_count.
use skytest_agent.Prelude.{false, ◌≡◌, ◌≤◌, refl}
use skytest_agent.Session.Coalesce.{
  Recompute, never_asked, request_recompute, finish_pass, ◌↝*◌, start, ask, finish,
  recompute-last_seen,
}

abbrev asked : Recompute
asked = request_recompute (request_recompute (request_recompute never_asked))

abbrev passed_twice : Recompute
passed_twice = finish_pass (finish_pass asked)

requests : never_asked ↝* passed_twice
unfolding request_recompute finish_pass
requests = finish (finish (ask (ask (ask start))) refl) refl

recompute-last_seen_example :
    (passed_twice.is_running ≡ false
      → passed_twice.failed ≡ false
      → passed_twice.seen ≡ passed_twice.requests)
    × (passed_twice.pass_count ≤ passed_twice.requests)
recompute-last_seen_example = recompute-last_seen requests

two_passes : passed_twice.pass_count ≡ 2
unfolding request_recompute finish_pass
two_passes = refl
