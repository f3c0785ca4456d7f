-- ===== src/RateLimit/Sliding/History.antt =====
-- The sliding window against the history of all requests.
use enclave_mail.Prelude.{
  ℕ, suc, ◌+◌, ◌*◌, ◌≤◌, ◌≡◌, refl, sym, ap, ◌∙◌, Bool, true, false, not, List, [], ◌∷◌, ◌++◌,
  arith, Option, some, Text, text_eq, text_Eq, ltb, leb, if◌then◌else◌, length, filter,
  filter-append, All, Bool-cases, inl, inr,
}
use enclave_mail.Prelude.Int.{pos}
use enclave_mail.Prelude.Attempt.{Attempt, returned}
use enclave_mail.RateLimit.{RateLimitConfig, window_seconds}
use enclave_mail.RateLimit.Sliding.{
  SortedSets, SlidingVerdict, passes_on, turns_away, sliding_key, member_of, sliding_result,
  window_start, run_transaction, exec, user_rate_limit,
}
use enclave_mail.RateLimit.Sliding.Laws.{Entry, HasSortedSets}
use enclave_mail.RateLimit.Sliding.Recent.{
  in_window, is_member, filter-later, filter-pruned, filter-new, filter-gone, All-made, window-le,
}

abbrev pub is_passed : SlidingVerdict → Bool
is_passed (passes_on headers) = true
is_passed (turns_away headers retry_after) = false

-- A request and the random part of its member.
abbrev pub Timed : Type 0
Timed = ℕ × Text

-- Which of the requests of one user are let through.
unfoldable pub let_through_each :
    (sets : SortedSets)
    → RateLimitConfig
    → Option Text
    → Option Text
    → sets.State
    → List Timed
    → List Bool
let_through_each sets cfg user_id forwarded s [] = []
let_through_each sets cfg user_id forwarded s ((now, random) ∷ requests) =
    let r = user_rate_limit sets cfg s now random user_id forwarded in
    is_passed r.1 ∷ let_through_each sets cfg user_id forwarded r.0 requests

-- The specification: a request is let through if, with it, at most the maximum of requests were made
-- within the window, those that were turned away included.
unfoldable pub by_history : ℕ → ℕ → List Entry → List Timed → List Bool
by_history window most history [] = []
by_history window most history ((now, random) ∷ requests) =
    leb (suc (length (filter (in_window window now) history))) most
    ∷ by_history window most (history ++ (now, member_of now random) ∷ []) requests

abbrev pub Ascending : ℕ → List Timed → Type 0
Ascending from [] = Unit
Ascending from ((now, random) ∷ requests) = (from ≤ now) × Ascending now requests

-- No member is one of an earlier request.
abbrev pub AllNew : List Entry → List Timed → Type 0
AllNew history [] = Unit
AllNew history ((now, random) ∷ requests) =
    (is_member history (member_of now random) ≡ false)
    × AllNew (history ++ (now, member_of now random) ∷ []) requests

module _ (sets : SortedSets) (laws : HasSortedSets sets) (cfg : RateLimitConfig)
    (user_id forwarded : Option Text) where
  abbrev the_key : Text
  the_key = sliding_key cfg user_id forwarded

  is_passed-result :
      (count : ℕ) (r : Attempt (Option (Option ℕ)))
      → r ≡ returned (some (some count))
      → is_passed (sliding_result cfg r) ≡ leb count cfg.max_requests
  is_passed-result count r e =
      ap (λ r. is_passed (sliding_result cfg r)) e
      ∙ decided (ltb cfg.max_requests count) _ _ refl refl
      ∙ ground arith
    where
      decided :
          (over : Bool) (away on : SlidingVerdict)
          → is_passed away ≡ false
          → is_passed on ≡ true
          → is_passed (if over then away else on) ≡ not over
      decided true away on ha ho = ha
      decided false away on ha ho = ho

  -- From `from` on, the key has the requests of the history that are within the window.
  abbrev Shows : sets.State → ℕ → List Entry → Type 0
  Shows s from history =
      (t : ℕ)
      → from ≤ t
      → filter (in_window cfg.window_ms t) (laws.entries s t the_key)
        ≡ filter (in_window cfg.window_ms t) history

  module _ (s : sets.State) (now : ℕ) (member : Text) (history : List Entry)
      (shown : filter (in_window cfg.window_ms now) (laws.entries s now the_key)
        ≡ filter (in_window cfg.window_ms now) history)
      (fresh : is_member history member ≡ false) where
    abbrev added : sets.State
    added =
        sets.zadd (sets.zremrangebyscore s now the_key (pos 0) (window_start now cfg.window_ms)) now
          the_key now member

    entries-added :
        laws.entries added now the_key
        ≡ filter (in_window cfg.window_ms now) history ++ (now, member) ∷ []
    entries-added =
        let pruned = sets.zremrangebyscore s now the_key (pos 0) (window_start now cfg.window_ms) in
        laws.entries-zadd pruned now the_key now member
        ∙ ap (λ es. filter (λ e. not (text_eq e.1 member)) es ++ (now, member) ∷ [])
            (laws.entries-zremrangebyscore s now the_key (pos 0) (window_start now cfg.window_ms)
              ∙ filter-pruned cfg.window_ms now (laws.entries s now the_key)
              ∙ shown)
        ∙ ap (λ es. es ++ (now, member) ∷ []) (filter-new cfg.window_ms now member history fresh)

    abbrev done : sets.State × Attempt (Option (Option ℕ))
    done = exec sets s now the_key member (window_start now cfg.window_ms) (window_seconds cfg)

    done-runs : done ≡ (
      sets.expire added now the_key (window_seconds cfg),
      returned (some (sets.zcard added now the_key)),
    )
    unfolding exec
    done-runs =
        ap
          (run_transaction sets s now the_key member (window_start now cfg.window_ms)
            (window_seconds cfg))
          (laws.outcome-runs s now)

    done-count :
        done.1
        ≡ returned (some (some (suc (length (filter (in_window cfg.window_ms now) history)))))
    done-count =
        ap (λ r. r.1) done-runs
        ∙ ap (λ o. returned (some o))
            (laws.zcard-entries added now the_key
              ∙ ap (λ es. some (length es)) entries-added
              ∙ ap some (length-snoc (filter (in_window cfg.window_ms now) history) (now, member)))
      where
        length-snoc : (es : List Entry) (e : Entry) → length (es ++ e ∷ []) ≡ suc (length es)
        length-snoc [] e = refl
        length-snoc (x ∷ es) e = ap suc (length-snoc es e)

    done-Shows :
        All (λ e. e.0 ≤ now) (history ++ (now, member) ∷ [])
        → Shows done.0 now (history ++ (now, member) ∷ [])
    done-Shows made t le =
        ap (λ r. filter (in_window cfg.window_ms t) (laws.entries r.0 t the_key)) done-runs
        ∙ ap (filter (in_window cfg.window_ms t))
            (laws.entries-expire added now t the_key (window_seconds cfg) le)
        ∙ elim (Bool-cases (ltb t (now + window_seconds cfg * 1000))) [
          | inl live ↦
              rw (live, entries-added)
                (filter-append (in_window cfg.window_ms t)
                    (filter (in_window cfg.window_ms now) history) ((now, member) ∷ [])
                  ∙ ap (λ es. es ++ filter (in_window cfg.window_ms t) ((now, member) ∷ []))
                      (filter-later cfg.window_ms now t history le)
                  ∙ sym (filter-append (in_window cfg.window_ms t) history ((now, member) ∷ [])))
          | inr over ↦ rw over (
              unfold filter in
              sym (
                filter-gone cfg.window_ms now t (history ++ (now, member) ∷ []) made
                  (ground (arith, window-le cfg.window_ms, over))))
        ]

  let_through_each-from :
      (s : sets.State) (from : ℕ) (history : List Entry) (requests : List Timed)
      → Shows s from history
      → All (λ e. e.0 ≤ from) history
      → Ascending from requests
      → AllNew history requests
      → let_through_each sets cfg user_id forwarded s requests
        ≡ by_history cfg.window_ms cfg.max_requests history requests
  unfolding let_through_each by_history user_rate_limit
  let_through_each-from s from history [] shows made ascending new = refl
  let_through_each-from s from history ((now, random) ∷ requests) shows made ascending new =
      let member = member_of now random in
      let shown = shows now ascending.0 in
      let after = history ++ (now, member) ∷ [] in
      let r = done s now member history shown new.0 in
      let made_now = All-made from now history member made ascending.0 in
      let seen = length (filter (in_window cfg.window_ms now) history) in
      ap (λ b. b ∷ let_through_each sets cfg user_id forwarded r.0 requests)
        (is_passed-result (suc seen) r.1 (done-count s now member history shown new.0))
      ∙ ap (λ t. leb (suc seen) cfg.max_requests ∷ t)
          (let_through_each-from r.0 now after requests
            (done-Shows s now member history shown new.0 made_now) made_now ascending.1 new.1)

  -- The limiter lets through exactly the requests that the specification lets through: those with which at
  -- most the maximum of requests were made within the window. The requests of a user come in the order
  -- of their times, with a new member each, the first when nothing is left in the set; each command of
  -- Redis works as documented, and none fails.
  pub let_through_each-by_history :
      (s : sets.State) (from : ℕ) (requests : List Timed)
      → ((t : ℕ) → from ≤ t → laws.entries s t the_key ≡ [])
      → Ascending from requests
      → AllNew [] requests
      → let_through_each sets cfg user_id forwarded s requests
        ≡ by_history cfg.window_ms cfg.max_requests [] requests
  let_through_each-by_history s from requests empty ascending new =
      let_through_each-from s from [] requests
        (λ t le. ap (filter (in_window cfg.window_ms t)) (empty t le)) tt ascending new
