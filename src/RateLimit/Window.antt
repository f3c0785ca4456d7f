-- ===== src/RateLimit/Window.antt =====
-- How many requests of one client are let through in a window.
use enclave_mail.Prelude.{
  ℕ, suc, ◌+◌, ◌-◌, ◌<◌, min, ◌≡◌, refl, ap, ◌∙◌, Bool, true, false, List, [], ◌∷◌, ◌++◌, arith,
  Option, none, some, Text, ltb, nat_eq, if◌then◌else◌, length, All,
}
use enclave_mail.Prelude.Attempt.{Attempt, returned, thrown}
use enclave_mail.Prelude.Int.{ℤ}
use enclave_mail.RateLimit.{
  RateLimitConfig, Counters, Verdict, passes, refuses, get_client_ip, window_seconds, with_ttl,
  after_expire, expire_first, after_incr, rate_limit,
}

-- A counter and the time at which it ends, if there is one.
abbrev pub Entry : Type 0
Entry = Option (ℕ × Option ℕ)

abbrev pub at_time : ℕ → Entry → Entry
at_time now none = none
at_time now (some (n, none)) = some (n, none)
at_time now (some (n, some ends)) = if ltb now ends then some (n, some ends) else none

abbrev pub value_of : Entry → ℕ
value_of none = 0
value_of (some (n, ends)) = n

abbrev pub incremented : Entry → Entry
incremented none = some (1, none)
incremented (some (n, ends)) = some (n + 1, ends)

abbrev pub ending_at : ℕ → Entry → Entry
ending_at ends none = none
ending_at ends (some (n, _)) = some (n, some ends)

-- What Redis documents of its counters, when no command fails.
pub record IsWorking (counters : Counters) : Type 0 where
  pub entry : counters.State → Text → Entry
  pub incr-value :
      (s : counters.State) (now : ℕ) (k : Text)
      → (counters.incr s now k).1 ≡ returned (value_of (at_time now (entry s k)) + 1)
  pub entry-incr :
      (s : counters.State) (now : ℕ) (k : Text)
      → entry (counters.incr s now k).0 k ≡ incremented (at_time now (entry s k))
  pub expire-returned :
      (s : counters.State) (now : ℕ) (k : Text) (ttl : ℕ)
      → (counters.expire s now k ttl).1 ≡ returned tt
  pub entry-expire :
      (s : counters.State) (now : ℕ) (k : Text) (ttl : ℕ)
      → entry (counters.expire s now k ttl).0 k ≡ ending_at (now + ttl) (at_time now (entry s k))
  pub ttl-returned :
      (s : counters.State) (now : ℕ) (k : Text)
      → (seconds : ℤ) × (counters.ttl s now k ≡ returned seconds)

abbrev pub let_through : Verdict → ℕ
let_through (passes headers) = 1
let_through (refuses headers message retry_after) = 0

-- How many of the requests at the given times are let through, one after the other.
unfoldable pub admitted :
    (counters : Counters) → RateLimitConfig → Option Text → counters.State → List ℕ → ℕ
admitted counters cfg forwarded s [] = 0
admitted counters cfg forwarded s (now ∷ times) =
    let r = rate_limit counters cfg s now forwarded in
    let_through r.1 + admitted counters cfg forwarded r.0 times

-- One request, and the ones behind it.
tally :
    (here later l most k : ℕ)
    → here ≡ (if ltb most (k + 1) then 0 else 1)
    → later ≡ min l (most - (k + 1))
    → here + later ≡ min (suc l) (most - k)
tally here later l most k hh hl = ground (arith, hh, hl)

suc_plus : (n : ℕ) → suc (n + 1) ≡ suc n + 1
suc_plus n = omega arith

minus_zero : (n : ℕ) → n - 0 ≡ n
minus_zero n = omega arith

module _ (counters : Counters) (working : IsWorking counters) (cfg : RateLimitConfig)
    (forwarded : Option Text) where
  abbrev key : Text
  key = cfg.key_prefix ++ get_client_ip forwarded

  abbrev limited : counters.State → ℕ → counters.State × Verdict
  limited s now = rate_limit counters cfg s now forwarded

  abbrev one_if : Bool → ℕ
  one_if over = if over then 0 else 1

  decide-admits :
      (over : Bool) (refused passed : Verdict)
      → let_through refused ≡ 0
      → let_through passed ≡ 1
      → let_through (if over then refused else passed) ≡ one_if over
  decide-admits true refused passed hr hp = hr
  decide-admits false refused passed hr hp = hp

  with_ttl-admits :
      (current : ℕ) (ttl : Attempt ℤ) (seconds : ℤ)
      → ttl ≡ returned seconds
      → let_through (with_ttl cfg current ttl) ≡ one_if (ltb cfg.max_requests current)
  with_ttl-admits current (thrown message) seconds e = cc
  with_ttl-admits current (returned ttl) seconds e =
      decide-admits (ltb cfg.max_requests current) _ _ refl refl

  -- A request that is not the first of its window, and one that is.
  not_first :
      (s : counters.State) (now current : ℕ)
      → nat_eq current 1 ≡ false
      → after_incr counters cfg now key (s, returned current)
        ≡ (s, with_ttl cfg current (counters.ttl s now key))
  not_first s now current h =
      ap (λ b. after_expire counters cfg now key current (expire_first counters cfg s now key b)) h

  is_first :
      (s : counters.State) (now current : ℕ)
      → nat_eq current 1 ≡ true
      → after_incr counters cfg now key (s, returned current) ≡ (
        (counters.expire s now key (window_seconds cfg)).0,
        with_ttl cfg current
            (counters.ttl (counters.expire s now key (window_seconds cfg)).0 now key),
      )
  is_first s now current h =
      let expiring = counters.expire s now key (window_seconds cfg) in
      ap (λ b. after_expire counters cfg now key current (expire_first counters cfg s now key b)) h
      ∙ ap (λ a. after_expire counters cfg now key current (expiring.0, a))
          (working.expire-returned s now key (window_seconds cfg))

  at_time-live :
      (now n ends : ℕ) → now < ends → at_time now (some (n, some ends)) ≡ some (n, some ends)
  at_time-live now n ends lt = ground (arith, lt)

  incr-eq :
      (s : counters.State) (now : ℕ) (found : Entry)
      → at_time now (working.entry s key) ≡ found
      → limited s now
        ≡ after_incr counters cfg now key
            ((counters.incr s now key).0, returned (value_of found + 1))
  unfolding rate_limit
  incr-eq s now found e =
      ap (λ a. after_incr counters cfg now key ((counters.incr s now key).0, a))
        (working.incr-value s now key ∙ ap (λ f. returned (value_of f + 1)) e)

  -- A request within the window of the counter.
  later_request :
      (s : counters.State) (now n ends : ℕ)
      → working.entry s key ≡ some (suc n, some ends)
      → now < ends
      → (let_through (limited s now).1 ≡ one_if (ltb cfg.max_requests (suc n + 1)))
        × (working.entry (limited s now).0 key ≡ some (suc n + 1, some ends))
  later_request s now n ends e lt =
      let live = ap (at_time now) e ∙ at_time-live now (suc n) ends lt in
      let after = (counters.incr s now key).0 in
      let same =
        incr-eq s now (some (suc n, some ends)) live
        ∙ not_first after now (suc n + 1) (ground arith) in
      let seconds = working.ttl-returned after now key in
      (
        ap (λ r. let_through r.1) same
            ∙ with_ttl-admits (suc n + 1) (counters.ttl after now key) seconds.0 seconds.1,
        ap (λ r. working.entry r.0 key) same ∙ working.entry-incr s now key ∙ ap incremented live,
      )

  first_request :
      (s : counters.State) (now : ℕ)
      → at_time now (working.entry s key) ≡ none
      → (let_through (limited s now).1 ≡ one_if (ltb cfg.max_requests 1))
        × (working.entry (limited s now).0 key ≡ some (1, some (now + window_seconds cfg)))
  first_request s now e =
      let counted = (counters.incr s now key).0 in
      let after = (counters.expire counted now key (window_seconds cfg)).0 in
      let same = incr-eq s now none e ∙ is_first counted now 1 refl in
      let seconds = working.ttl-returned after now key in
      (
        ap (λ r. let_through r.1) same
            ∙ with_ttl-admits 1 (counters.ttl after now key) seconds.0 seconds.1,
        ap (λ r. working.entry r.0 key) same
            ∙ working.entry-expire counted now key (window_seconds cfg)
            ∙ ap (λ x. ending_at (now + window_seconds cfg) (at_time now x))
                (working.entry-incr s now key ∙ ap incremented e),
      )

  -- Of the requests within a window in which there were `suc n`, the rest of the maximum are let through.
  admitted-within :
      (s : counters.State) (times : List ℕ) (n ends : ℕ)
      → working.entry s key ≡ some (suc n, some ends)
      → All (λ now. now < ends) times
      → admitted counters cfg forwarded s times ≡ min (length times) (cfg.max_requests - suc n)
  unfolding admitted
  admitted-within s [] n ends e within = omega arith
  admitted-within s (now ∷ times) n ends e within =
      let request = later_request s now n ends e within.0 in
      let rest =
        admitted-within (limited s now).0 times (n + 1) ends
          (request.1 ∙ ap (λ m. some (m, some ends)) (omega arith)) within.1 in
      tally _ _ (length times) cfg.max_requests (suc n) request.0
        (rest ∙ ap (λ m. min (length times) (cfg.max_requests - m)) (suc_plus n))

  -- Of the requests that one client makes in a window, the first ones up to the maximum are let through and
  -- no other. The window begins with the first of them, when no counter is running, all come before it
  -- ends, and no command of Redis fails.
  pub admitted-min :
      (s : counters.State) (now : ℕ) (times : List ℕ)
      → at_time now (working.entry s key) ≡ none
      → All (λ t. t < now + window_seconds cfg) times
      → admitted counters cfg forwarded s (now ∷ times)
        ≡ min (length (now ∷ times)) cfg.max_requests
  unfolding admitted
  admitted-min s now times e within =
      let request = first_request s now e in
      let rest =
        admitted-within (limited s now).0 times 0 (now + window_seconds cfg) request.1 within in
      tally _ _ (length times) cfg.max_requests 0 request.0 rest
      ∙ ap (min (suc (length times))) (minus_zero cfg.max_requests)
