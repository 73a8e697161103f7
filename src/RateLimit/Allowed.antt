-- ===== src/RateLimit/Allowed.antt =====
-- How many calls of a key are let through.
use skytest_agent.Prelude.{
  ℕ, suc, max, ◌+◌, ◌-◌, ◌≤◌, ◌<◌, ◌≡◌, refl, sym, ◌∙◌, Bool, true, false, not, ◌&&◌, ◌||◌, some,
  List, [], ◌∷◌, Text, text_eq, text_eq→≡, if◌then◌else◌, ◌==◌, ltb, leb, All, delete_where, arith,
  Bool-cases, Option-cases, inl, inr,
}
use mathlib.Core.Path.{subst}
use mathlib.Core.Option.{some-injective}
use skytest_agent.RateLimit.{
  RateLimitWindow, Memory, Limit, rate_limit_retention_ms, is_stale, cleanup_in_memory_windows,
  get_window, set_window, is_rate_limited_in_memory,
}

pub record Call : Type 0 where
  pub at : ℕ
  pub key : Text
  pub input : Limit

-- The calls of a key that are not limited, among calls of any keys.
unfoldable pub allowed_calls : Text → List Call → Memory → ℕ
unfolding is_rate_limited_in_memory
allowed_calls key [] memory = 0
allowed_calls key (call ∷ calls) memory =
    let (after, limited) = is_rate_limited_in_memory call.at call.key call.input memory in
    (if text_eq key call.key && not limited then 1 else 0) + allowed_calls key calls after

-- A call in the window that began at `start`; the calls of one key have the same limit.
abbrev pub is_in_window : Text → Limit → (start : ℕ) → Call → Bool
is_in_window key input start call =
    leb start call.at
    && (ltb call.at (start + input.window_ms)
        && (not (text_eq key call.key)
            || (call.input.limit == input.limit && call.input.window_ms == input.window_ms)))

get_window-set_window :
    (key : Text) (new : RateLimitWindow) (windows : List RateLimitWindow)
    → get_window key (set_window new windows)
      ≡ (if text_eq key new.key then some new else get_window key windows)
get_window-set_window key new [] = refl
get_window-set_window key new (w ∷ windows) = elim (Bool-cases (text_eq new.key w.key)) [
  | inl t ↦ elim (Bool-cases (text_eq key new.key)) [
    | inl same ↦ ground (arith, t, same)
    | inr other ↦ ground (arith, t, other, text_eq→≡ new.key w.key t)
  ]
  | inr f ↦ elim (Bool-cases (text_eq key new.key)) [
    | inl same ↦
        ground (arith, f, same, text_eq→≡ key new.key same, get_window-set_window key new windows)
    | inr other ↦ ground (arith, f, other, get_window-set_window key new windows)
  ]
]

get_window-key :
    (key : Text) (windows : List RateLimitWindow) (w : RateLimitWindow)
    → get_window key windows ≡ some w
    → text_eq key w.key ≡ true
get_window-key key [] w h = ground arith
get_window-key key (v ∷ windows) w h = elim (Bool-cases (text_eq key v.key)) [
  | inl t ↦
      subst (λ (x : RateLimitWindow). text_eq key x.key ≡ true) (some-injective _ _ (rw t at h)) t
  | inr f ↦ get_window-key key windows w (rw f at h)
]

get_window-delete_where :
    (now : ℕ) (key : Text) (windows : List RateLimitWindow) (w : RateLimitWindow)
    → get_window key windows ≡ some w
    → is_stale now w ≡ false
    → get_window key (delete_where (is_stale now) windows) ≡ some w
get_window-delete_where now key [] w h s = ground arith
get_window-delete_where now key (v ∷ windows) w h s =
    ground (arith, h, s, get_window-delete_where now key windows w)

get_window-cleanup :
    (now : ℕ) (key : Text) (memory : Memory) (w : RateLimitWindow)
    → get_window key memory.windows ≡ some w
    → is_stale now w ≡ false
    → get_window key (cleanup_in_memory_windows now memory).windows ≡ some w
get_window-cleanup now key memory w h s = elim (Bool-cases (ltb now memory.cleanup_at_ms)) [
  | inl e ↦ rw e h
  | inr e ↦ rw e (get_window-delete_where now key memory.windows w h s)
]

-- A call of another key leaves the window of this one, unless the cleanup deletes it.
other_key-window :
    (now : ℕ) (key k : Text) (input : Limit) (memory : Memory) (w : RateLimitWindow)
    → get_window key memory.windows ≡ some w
    → is_stale now w ≡ false
    → text_eq key k ≡ false
    → get_window key (is_rate_limited_in_memory now k input memory).0.windows ≡ some w
unfolding is_rate_limited_in_memory
other_key-window now key k input memory w h s other =
    let cleaned = cleanup_in_memory_windows now memory in
    let kept = get_window-cleanup now key memory w h s in
    elim (Option-cases (get_window k cleaned.windows)) [
      | inl e ↦
          rw (e, is_rate_limited_in_memory)
            (get_window-set_window key (record { key = k; count = 1; window_start_ms = now })
                cleaned.windows
              ∙ rw other kept)
      | inr (existing, e) ↦
          let same : k ≡ existing.key =
            text_eq→≡ k existing.key (get_window-key k cleaned.windows existing e) in
          elim (Bool-cases (leb input.window_ms (now - existing.window_start_ms))) [
            | inl late ↦
                rw (e, is_rate_limited_in_memory)
                  (rw (late) (
                    get_window-set_window key (record { key = k; count = 1; window_start_ms = now })
                      cleaned.windows
                    ∙ rw other kept))
            | inr soon ↦
                rw (e, is_rate_limited_in_memory)
                  (rw (soon) (
                    get_window-set_window key (record existing { count = suc existing.count })
                      cleaned.windows
                    ∙ rw (sym same, other) kept))
          ]
    ]

-- A call of the key in its window counts one more.
same_key-window :
    (now : ℕ) (key : Text) (input : Limit) (memory : Memory) (w : RateLimitWindow)
    → get_window key memory.windows ≡ some w
    → is_stale now w ≡ false
    → text_eq key w.key ≡ true
    → leb input.window_ms (now - w.window_start_ms) ≡ false
    → (get_window key (is_rate_limited_in_memory now key input memory).0.windows
        ≡ some (record w { count = suc w.count }))
      × ((is_rate_limited_in_memory now key input memory).1 ≡ ltb input.limit (suc w.count))
unfolding is_rate_limited_in_memory
same_key-window now key input memory w h s own in_time =
    let cleaned = cleanup_in_memory_windows now memory in
    let kept = get_window-cleanup now key memory w h s in
    rw (kept, is_rate_limited_in_memory)
      (rw in_time (
        get_window-set_window key (record w { count = suc w.count }) cleaned.windows ∙ rw own refl,
        refl,
      ))

module _ (key : Text) (input : Limit) (retained : input.window_ms ≤ rate_limit_retention_ms) where
  -- What is left of a window that is open.
  allowed_calls-left :
      (calls : List Call) (memory : Memory) (w : RateLimitWindow)
      → get_window key memory.windows ≡ some w
      → All (λ call. is_in_window key input w.window_start_ms call ≡ true) calls
      → allowed_calls key calls memory ≤ input.limit - w.count
  unfolding allowed_calls
  allowed_calls-left [] memory w h within = omega arith
  allowed_calls-left (call ∷ calls) memory w h within =
      let first = within.0 in
      let early : call.at < w.window_start_ms + input.window_ms = ground (arith, first) in
      let fresh : is_stale call.at w ≡ false = ground (arith, early, retained) in
      elim (Bool-cases (text_eq key call.key)) [
        | inl e ↦
            let same : key ≡ call.key = text_eq→≡ key call.key e in
            let limits : (call.input.limit ≡ input.limit)
                × (call.input.window_ms ≡ input.window_ms) =
              ground (arith, first, e) in
            let started : w.window_start_ms ≤ call.at = ground (arith, first) in
            let in_time : leb call.input.window_ms (call.at - w.window_start_ms) ≡ false =
              ground (arith, limits.1, early, started) in
            let own = get_window-key key memory.windows w h in
            let facts =
              same_key-window call.at call.key call.input memory w
                (subst (λ k. get_window k memory.windows ≡ some w) same h) fresh
                (subst (λ k. text_eq k w.key ≡ true) same own) in_time in
            let after = (is_rate_limited_in_memory call.at call.key call.input memory).0 in
            let counted : get_window key after.windows ≡ some (record w { count = suc w.count }) =
              subst (λ k. get_window k after.windows ≡ some (record w { count = suc w.count }))
                (sym same) facts.0 in
            let rest =
              allowed_calls-left calls after (record w { count = suc w.count }) counted within.1 in
            ground (arith, e, facts.1, limits.0, rest)
        | inr f ↦
            let after = (is_rate_limited_in_memory call.at call.key call.input memory).0 in
            let kept = other_key-window call.at key call.key call.input memory w h fresh f in
            let rest = allowed_calls-left calls after w kept within.1 in ground (arith, f, rest)
      ]

  -- Where a call opens a window of its key, the calls of that key that are let through until the window
  -- ends, this one and those among calls of other keys, are at most as many as the limit, or one. The
  -- window is no longer than windows are kept.
  pub allowed_calls-within_limit :
      (start : ℕ) (calls : List Call) (memory : Memory)
      → get_window key (is_rate_limited_in_memory start key input memory).0.windows
        ≡ some (record { key = key; count = 1; window_start_ms = start })
      → All (λ call. is_in_window key input start call ≡ true) calls
      → allowed_calls key (record { at = start; key = key; input = input } ∷ calls) memory
        ≤ max 1 input.limit
  unfolding allowed_calls
  allowed_calls-within_limit start calls memory opened within =
      let after = (is_rate_limited_in_memory start key input memory).0 in
      let rest =
        allowed_calls-left calls after (record { key = key; count = 1; window_start_ms = start })
          opened within in
      ground (arith, rest)
