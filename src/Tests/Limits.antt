-- ===== src/Tests/Limits.antt =====
-- Four calls of a key with a limit of two, and one of another key.
use skytest_agent.Prelude.{ℕ, max, ◌≤◌, ◌≡◌, List, [], ◌∷◌, Text, refl, codes, arith, some, none}
use skytest_agent.RateLimit.{Memory, Limit, is_rate_limited_in_memory, get_rate_limit_key}
use skytest_agent.RateLimit.Allowed.{Call, allowed_calls, allowed_calls-within_limit}

abbrev two_each_second : Limit
two_each_second = record { limit = 2; window_ms = 1000 }

abbrev call : (at : ℕ) → Text → Call
call at key = record { at = at; key = key; input = two_each_second }

abbrev later_calls : List Call
later_calls =
    call 600 (codes "a") ∷ call 650 (codes "b") ∷ call 700 (codes "a") ∷ call 900 (codes "a") ∷ []

abbrev nothing_yet : Memory
nothing_yet = record { windows = []; cleanup_at_ms = 0 }

allowed_calls-within_limit_example :
    allowed_calls (codes "a") (call 500 (codes "a") ∷ later_calls) nothing_yet ≤ max 1 2
unfolding is_rate_limited_in_memory
allowed_calls-within_limit_example =
    allowed_calls-within_limit (codes "a") two_each_second (omega arith) 500 later_calls nothing_yet
      refl (refl, (refl, (refl, (refl, tt))))

two_allowed : allowed_calls (codes "a") (call 500 (codes "a") ∷ later_calls) nothing_yet ≡ 2
unfolding allowed_calls is_rate_limited_in_memory
two_allowed = refl

behind_a_proxy :
    get_rate_limit_key none
      (some (codes "  "))
      (some (codes " 10.0.0.7, 10.0.0.1"))
      (codes "web-vitals")
    ≡ codes "web-vitals:10.0.0.7"
unfolding get_rate_limit_key
behind_a_proxy = refl
