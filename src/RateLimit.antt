-- ===== src/RateLimit.antt =====
-- apps/web/src/lib/runners/rate-limit.ts: calls counted by key in windows of time, in memory, and the
-- key of a request. `Date.now()` is an argument; a `Map` is the list of its entries.
pub mod Allowed
use skytest_agent.Prelude.{
  ℕ, suc, ◌+◌, ◌-◌, ◌*◌, ◌/◌, Bool, true, false, not, ◌&&◌, ◌||◌, Option, none, some, List, [], ◌∷◌,
  ◌++◌, Text, is_empty, text_eq, if◌then◌else◌, ◌==◌, ltb, leb, starts_with, trim, codes, select,
  delete_where, split_by, is_comma,
}

pub data RateLimitStoreMode : Type 0 where
  db_mode memory_mode : RateLimitStoreMode

pub record RateLimitWindow : Type 0 where
  pub key : Text
  pub count : ℕ
  pub window_start_ms : ℕ

-- `windows` and `inMemoryRateLimitCleanupAtMs`
pub record Memory : Type 0 where
  pub windows : List RateLimitWindow
  pub cleanup_at_ms : ℕ

pub record Limit : Type 0 where
  pub limit : ℕ
  pub window_ms : ℕ

-- `RATE_LIMIT_RETENTION_MS`
abbrev pub rate_limit_retention_ms : ℕ
rate_limit_retention_ms = 24 * 60 * 60 * 1000

-- `RATE_LIMIT_CLEANUP_INTERVAL_MS`
abbrev pub rate_limit_cleanup_interval_ms : ℕ
rate_limit_cleanup_interval_ms = 5 * 60 * 1000

-- `windowStartMs < nowMs - RATE_LIMIT_RETENTION_MS`
abbrev pub is_stale : ℕ → RateLimitWindow → Bool
is_stale now w = ltb (w.window_start_ms + rate_limit_retention_ms) now

abbrev pub cleanup_in_memory_windows : ℕ → Memory → Memory
cleanup_in_memory_windows now memory = if ltb now memory.cleanup_at_ms then memory else record {
  windows = delete_where (is_stale now) memory.windows;
  cleanup_at_ms = now + rate_limit_cleanup_interval_ms;
}

abbrev pub get_window : Text → List RateLimitWindow → Option RateLimitWindow
get_window key [] = none
get_window key (w ∷ windows) = if text_eq key w.key then some w else get_window key windows

abbrev pub set_window : RateLimitWindow → List RateLimitWindow → List RateLimitWindow
set_window new [] = new ∷ []
set_window new (w ∷ windows) =
    if text_eq new.key w.key then new ∷ windows else w ∷ set_window new windows

unfoldable pub is_rate_limited_in_memory : ℕ → Text → Limit → Memory → Memory × Bool
is_rate_limited_in_memory now key input memory =
    let cleaned = cleanup_in_memory_windows now memory in
    let opened = record cleaned {
      windows = set_window (record { key = key; count = 1; window_start_ms = now }) cleaned.windows;
    } in
    elim (get_window key cleaned.windows) [
      | none ↦ (opened, false)
      | some existing ↦
          if leb input.window_ms (now - existing.window_start_ms) then (opened, false) else (
            record cleaned {
              windows = set_window (record existing { count = suc existing.count }) cleaned.windows;
            },
            ltb input.limit (suc existing.count),
          )
    ]

-- `parseRateLimitStoreMode`; the value is the variable's, trimmed and in lower case.
abbrev pub parse_rate_limit_store_mode : Option Text → RateLimitStoreMode → RateLimitStoreMode
parse_rate_limit_store_mode none fallback = fallback
parse_rate_limit_store_mode (some value) fallback =
    if text_eq value (codes "memory")
    then memory_mode
    else if text_eq value (codes "db")
    then db_mode
    else fallback

unfoldable pub resolve_rate_limit_store_mode :
    (mode runner_mode : Option Text) (key : Text) → RateLimitStoreMode
resolve_rate_limit_store_mode mode runner_mode key =
    if not (starts_with key (codes "runners-v1-"))
    then parse_rate_limit_store_mode mode memory_mode
    else parse_rate_limit_store_mode runner_mode memory_mode

-- `value?.trim()`
abbrev pub trimmed : Option Text → Text
trimmed none = []
trimmed (some value) = trim value

abbrev pub first_part : List Text → Text
first_part [] = []
first_part (part ∷ parts) = part

abbrev pub first_present : List Text → Text → Text
first_present [] fallback = fallback
first_present (value ∷ values) fallback =
    if is_empty value then first_present values fallback else value

abbrev pub first_forwarded : Option Text → Text
first_forwarded none = []
first_forwarded (some value) = trim (first_part (split_by is_comma value))

-- The headers are `fly-client-ip`, `x-real-ip` and `x-forwarded-for`.
unfoldable pub get_rate_limit_key :
    (fly_client_ip real_ip forwarded_for : Option Text) (prefix : Text) → Text
get_rate_limit_key fly_client_ip real_ip forwarded_for prefix =
    prefix
    ++ 58
      ∷ first_present (trimmed fly_client_ip ∷ trimmed real_ip ∷ first_forwarded forwarded_for ∷ [])
          (codes "unknown")
