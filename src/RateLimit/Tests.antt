-- ===== src/RateLimit/Tests.antt =====
-- The theorem on the rate limit at a concrete input.
use enclave_mail.Prelude.{
  ℕ, ◌+◌, ◌≡◌, refl, ap, List, [], ◌∷◌, arith, Option, none, some, Text, codes, text_eq,
  text_eq_refl, min, length, if◌then◌else◌, text_methods,
}
use enclave_mail.Prelude.Attempt.{returned}
use enclave_mail.Prelude.Int.{pos}
use enclave_mail.RateLimit.{RateLimitConfig, Counters, get_client_ip}
use enclave_mail.RateLimit.Window.{
  Entry, at_time, value_of, incremented, ending_at, IsWorking, admitted, admitted-min,
}

-- Counters in memory.
abbrev set_entry : (Text → Entry) → Text → Entry → Text → Entry
set_entry s k entry l = if text_eq k l then entry else s l

abbrev memory : Counters
memory = record {
  State = Text → Entry;
  incr = λ s now k. (
    set_entry s k (incremented (at_time now (s k))),
    returned (value_of (at_time now (s k)) + 1),
  );
  expire = λ s now k ttl. (set_entry s k (ending_at (now + ttl) (at_time now (s k))), returned tt);
  ttl = λ s now k. returned (pos 1);
}

set_entry-same : (s : Text → Entry) (k : Text) (entry : Entry) → set_entry s k entry k ≡ entry
set_entry-same s k entry = ap (λ b. if b then entry else s k) (text_eq_refl k)

abbrev working_memory : IsWorking memory
working_memory = record {
  entry = λ s k. s k;
  incr-value = λ s now k. refl;
  entry-incr = λ s now k. set_entry-same s k (incremented (at_time now (s k)));
  expire-returned = λ s now k ttl. refl;
  entry-expire = λ s now k ttl. set_entry-same s k (ending_at (now + ttl) (at_time now (s k)));
  ttl-returned = λ s now k. (pos 1, refl);
}

abbrev two_a_minute : RateLimitConfig
two_a_minute = record {
  window_ms = 60000;
  max_requests = 2;
  key_prefix = codes "rl:ip:";
  message = none;
}

abbrev client : Option Text
client = some (codes " 10.0.0.1, 10.0.0.2")

client_ip : get_client_ip client ≡ codes "10.0.0.1"
unfolding text_methods get_client_ip
client_ip = refl

abbrev nothing_counted : memory.State
nothing_counted k = none

abbrev times : List ℕ
times = 5 ∷ 6 ∷ 7 ∷ 64 ∷ []

admitted-min_example :
    admitted memory two_a_minute client nothing_counted times
    ≡ min (length times) two_a_minute.max_requests
admitted-min_example =
    admitted-min memory working_memory two_a_minute client nothing_counted 5 (6 ∷ 7 ∷ 64 ∷ []) refl
      (omega arith, (omega arith, (omega arith, tt)))
