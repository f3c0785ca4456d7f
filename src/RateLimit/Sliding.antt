-- ===== src/RateLimit/Sliding.antt =====
-- `createUserRateLimiter` of apps/server/src/middleware/rate-limit.ts. The commands of Redis on sorted
-- sets, of which its transaction consists, are a parameter. Times and scores are in milliseconds.
pub mod Laws
pub mod Recent
pub mod History
pub mod Memory
mod Tests
use enclave_mail.Prelude.{
  ℕ, ◌+◌, ◌-◌, ◌/◌, List, [], ◌∷◌, ◌++◌, Bool, true, false, Option, none, some, Text, codes, leb,
  ltb, show, if◌then◌else◌,
}
use enclave_mail.Prelude.Int.{ℤ, pos, negsuc}
use enclave_mail.Prelude.Attempt.{Attempt, returned, thrown}
use enclave_mail.RateLimit.{RateLimitConfig, RateHeaders, get_client_ip, window_seconds}

-- What becomes of a transaction: its commands run, or `exec` gives nothing, or it throws, and leaves some
-- state behind.
pub data Outcome (S : Type 0) : Type 0 where
  runs : Outcome S
  gives_nothing : S → Outcome S
  breaks : S → Text → Outcome S

-- The commands, with the state, the time and the key; `zcard` may fail on its own.
pub record SortedSets : Type 1 where
  pub State : Type 0
  pub outcome : State → ℕ → Outcome State
  pub zremrangebyscore : State → ℕ → Text → ℤ → ℤ → State
  pub zadd : State → ℕ → Text → ℕ → Text → State
  pub zcard : State → ℕ → Text → Option ℕ
  pub expire : State → ℕ → Text → ℕ → State

pub data SlidingVerdict : Type 0 where
  passes_on : Option RateHeaders → SlidingVerdict
  turns_away : RateHeaders → ℕ → SlidingVerdict

abbrev identifier_of : Option Text → Option Text → Text
identifier_of (some user_id) forwarded = user_id
identifier_of none forwarded = get_client_ip forwarded

abbrev pub sliding_key : RateLimitConfig → Option Text → Option Text → Text
sliding_key cfg user_id forwarded = cfg.key_prefix ++ identifier_of user_id forwarded

-- The member: the time and what `Math.random` gives.
abbrev pub member_of : ℕ → Text → Text
member_of now random = show now ++ codes "-" ++ random

abbrev count_or_zero : Option ℕ → ℕ
count_or_zero (some count) = count
count_or_zero none = 0

abbrev window_headers : RateLimitConfig → ℕ → RateHeaders
window_headers cfg count = record {
  limit = show cfg.max_requests;
  remaining = show (cfg.max_requests - count);
  reset = show (window_seconds cfg);
}

abbrev pub sliding_decide : RateLimitConfig → ℕ → SlidingVerdict
sliding_decide cfg count =
    if ltb cfg.max_requests count
    then turns_away (window_headers cfg count) (window_seconds cfg)
    else passes_on (some (window_headers cfg count))

abbrev pub sliding_result : RateLimitConfig → Attempt (Option (Option ℕ)) → SlidingVerdict
sliding_result cfg (thrown message) = passes_on none
sliding_result cfg (returned none) = passes_on none
sliding_result cfg (returned (some zcard)) = sliding_decide cfg (count_or_zero zcard)

-- `now - cfg.windowMs`.
abbrev pub window_start : ℕ → ℕ → ℤ
window_start now window = if leb window now then pos (now - window) else negsuc (window - now - 1)

-- The transaction: prune the set, add the member with the time as its score, count, set the expiry. Its
-- results hold the count at index 2.
abbrev pub run_transaction :
    (sets : SortedSets)
    → sets.State
    → ℕ
    → Text
    → Text
    → ℤ
    → ℕ
    → Outcome sets.State
    → sets.State × Attempt (Option (Option ℕ))
run_transaction sets s now key member start ttl runs =
    let pruned = sets.zremrangebyscore s now key (pos 0) start in
    let added = sets.zadd pruned now key now member in
    (sets.expire added now key ttl, returned (some (sets.zcard added now key)))
run_transaction sets s now key member start ttl (gives_nothing after) = (after, returned none)
run_transaction sets s now key member start ttl (breaks after message) = (after, thrown message)

unfoldable pub exec :
    (sets : SortedSets)
    → sets.State
    → ℕ
    → Text
    → Text
    → ℤ
    → ℕ
    → sets.State × Attempt (Option (Option ℕ))
exec sets s now key member start ttl =
    run_transaction sets s now key member start ttl (sets.outcome s now)

-- One request at time `now`, with the user if there is one.
unfoldable pub user_rate_limit :
    (sets : SortedSets)
    → RateLimitConfig
    → sets.State
    → ℕ
    → Text
    → Option Text
    → Option Text
    → sets.State × SlidingVerdict
user_rate_limit sets cfg s now random user_id forwarded =
    let r =
      exec sets s now (sliding_key cfg user_id forwarded) (member_of now random)
        (window_start now cfg.window_ms) (window_seconds cfg) in
    (r.0, sliding_result cfg r.1)
