-- ===== src/RateLimit.antt =====
-- `getClientIp` and `rateLimitMiddleware` of apps/server/src/middleware/rate-limit.ts: a request is let
-- through or refused. The commands of Redis are a parameter, each of which may throw; the time of a
-- request is an argument, in seconds.
pub mod Window
pub mod Sliding
mod Tests
use enclave_mail.Prelude.{
  ℕ, ◌+◌, ◌-◌, ◌/◌, Bool, true, false, List, [], ◌∷◌, ◌++◌, Option, none, some, Text, codes, ltb,
  nat_eq, show, split, trim, if◌then◌else◌,
}
use enclave_mail.Prelude.Attempt.{Attempt, returned, thrown}
use enclave_mail.Prelude.Int.{ℤ, pos, negsuc}

pub record RateLimitConfig : Type 0 where
  pub window_ms : ℕ
  pub max_requests : ℕ
  pub key_prefix : Text
  pub message : Option Text

-- `INCR`, `EXPIRE` and `TTL`.
pub record Counters : Type 1 where
  pub State : Type 0
  pub incr : State → ℕ → Text → State × Attempt ℕ
  pub expire : State → ℕ → Text → ℕ → State × Attempt (Unit {0})
  pub ttl : State → ℕ → Text → Attempt ℤ

abbrev first_part : List Text → Text
first_part [] = codes "unknown"
first_part (first ∷ rest) = trim first

-- The `X-Forwarded-For` header, where the empty one counts as none.
unfoldable pub get_client_ip : Option Text → Text
get_client_ip none = codes "unknown"
get_client_ip (some []) = codes "unknown"
get_client_ip (some (c ∷ forwarded)) = first_part (split b',' (c ∷ forwarded))

pub record RateHeaders : Type 0 where
  pub limit : Text
  pub remaining : Text
  pub reset : Text

pub data Verdict : Type 0 where
  passes : Option RateHeaders → Verdict
  refuses : RateHeaders → Text → ℕ → Verdict

abbrev pub window_seconds : RateLimitConfig → ℕ
window_seconds cfg = (cfg.window_ms + 999) / 1000

abbrev pub reset_seconds : RateLimitConfig → ℤ → ℕ
reset_seconds cfg (pos n) = if ltb 0 n then n else window_seconds cfg
reset_seconds cfg (negsuc n) = window_seconds cfg

abbrev pub headers : RateLimitConfig → ℕ → ℕ → RateHeaders
headers cfg current reset = record {
  limit = show cfg.max_requests;
  remaining = show (cfg.max_requests - current);
  reset = show reset;
}

abbrev pub message_of : RateLimitConfig → Option Text → Text
message_of cfg (some message) = message
message_of cfg none = codes "Too many requests, please try again later."

abbrev pub decide : RateLimitConfig → ℕ → ℕ → Verdict
decide cfg current reset =
    if ltb cfg.max_requests current
    then refuses (headers cfg current reset) (message_of cfg cfg.message) reset
    else passes (some (headers cfg current reset))

-- A command that throws lets the request through.
abbrev pub with_ttl : RateLimitConfig → ℕ → Attempt ℤ → Verdict
with_ttl cfg current (thrown message) = passes none
with_ttl cfg current (returned ttl) = decide cfg current (reset_seconds cfg ttl)

abbrev pub after_expire :
    (counters : Counters)
    → RateLimitConfig
    → ℕ
    → Text
    → ℕ
    → counters.State × Attempt (Unit {0})
    → counters.State × Verdict
after_expire counters cfg now key current (s, thrown message) = (s, passes none)
after_expire counters cfg now key current (s, returned u) =
    (s, with_ttl cfg current (counters.ttl s now key))

-- The first request of a window sets the expiry.
abbrev pub expire_first :
    (counters : Counters)
    → RateLimitConfig
    → counters.State
    → ℕ
    → Text
    → Bool
    → counters.State × Attempt (Unit {0})
expire_first counters cfg s now key true = counters.expire s now key (window_seconds cfg)
expire_first counters cfg s now key false = (s, returned tt)

abbrev pub after_incr :
    (counters : Counters)
    → RateLimitConfig
    → ℕ
    → Text
    → counters.State × Attempt ℕ
    → counters.State × Verdict
after_incr counters cfg now key (s, thrown message) = (s, passes none)
after_incr counters cfg now key (s, returned current) =
    after_expire counters cfg now key current
      (expire_first counters cfg s now key (nat_eq current 1))

unfoldable pub rate_limit :
    (counters : Counters)
    → RateLimitConfig
    → counters.State
    → ℕ
    → Option Text
    → counters.State × Verdict
rate_limit counters cfg s now forwarded =
    let key = cfg.key_prefix ++ get_client_ip forwarded in
    after_incr counters cfg now key (counters.incr s now key)
