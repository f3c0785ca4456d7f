-- ===== src/RateLimit/Sliding/Tests.antt =====
-- The theorem on the limit of a user at a concrete input.
use enclave_mail.Prelude.{
  ◌≡◌, refl, true, false, List, [], ◌∷◌, arith, Option, none, some, Text, codes, filter, text_eq,
  show, show_from,
}
use enclave_mail.RateLimit.{RateLimitConfig}
use enclave_mail.RateLimit.Sliding.{sliding_key, exec, user_rate_limit}
use enclave_mail.RateLimit.Sliding.History.{
  Timed, let_through_each, by_history, let_through_each-by_history,
}
use enclave_mail.RateLimit.Sliding.Memory.{memory, memory-HasSortedSets, no_sets, entries-no_sets}

abbrev two_in_ten : RateLimitConfig
two_in_ten = record {
  window_ms = 10;
  max_requests = 2;
  key_prefix = codes "rl:send:";
  message = none;
}

abbrev user : Option Text
user = some (codes "u")

-- The third request comes too early, and the last one late enough.
abbrev requests : List Timed
requests = (100, codes "a") ∷ (101, codes "b") ∷ (102, codes "c") ∷ (112, codes "d") ∷ []

third_too_early : by_history 10 2 [] requests ≡ true ∷ true ∷ false ∷ true ∷ []
unfolding by_history filter
third_too_early = refl

commands_run :
    let_through_each memory two_in_ten user none no_sets requests ≡ true ∷ true ∷ false ∷ true ∷ []
unfolding let_through_each user_rate_limit exec filter text_eq show show_from
commands_run = refl

let_through_each-by_history_example :
    let_through_each memory two_in_ten user none no_sets requests ≡ by_history 10 2 [] requests
let_through_each-by_history_example =
    let_through_each-by_history memory memory-HasSortedSets two_in_ten user none no_sets 100
      requests (λ t le. entries-no_sets t (sliding_key two_in_ten user none))
      (omega arith, (omega arith, (omega arith, (omega arith, tt))))
      (
        refl,
        (
          unfold text_eq show show_from in refl,
          (unfold text_eq show show_from in refl, (unfold text_eq show show_from in refl, tt)),
        ),
      )
