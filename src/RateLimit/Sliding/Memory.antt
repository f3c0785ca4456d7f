-- ===== src/RateLimit/Sliding/Memory.antt =====
-- The commands on sorted sets in memory: each key has its members with their scores, and an expiry.
use enclave_mail.Prelude.{
  ℕ, ◌+◌, ◌*◌, ◌≡◌, refl, ap, ◌∙◌, not, ◌&&◌, List, [], ◌∷◌, ◌++◌, arith, Option, none, some, Text,
  text_eq, text_eq_refl, ltb, if◌then◌else◌, length, filter,
}
use enclave_mail.Prelude.Int.{pos, leb_ℤ}
use enclave_mail.RateLimit.Sliding.{SortedSets, runs}
use enclave_mail.RateLimit.Sliding.Laws.{Entry, HasSortedSets}

abbrev Stored : Type 0
Stored = List Entry × Option ℕ

abbrev present : Stored → ℕ → List Entry
present (members, none) t = members
present (members, some expiry) t = if ltb t expiry then members else []

-- The expiry that a command leaves, if the key is still there.
abbrev kept_expiry : Option ℕ → ℕ → Option ℕ
kept_expiry none t = none
kept_expiry (some expiry) t = if ltb t expiry then some expiry else none

abbrev put : Text → Stored → (Text → Stored) → Text → Stored
put key stored s other = if text_eq key other then stored else s other

abbrev pub memory : SortedSets
memory = record {
  State = Text → Stored;
  outcome = λ s now. runs;
  zremrangebyscore = λ s now key low high.
      put key
        (
          filter (λ e. not (leb_ℤ low (pos e.0) && leb_ℤ (pos e.0) high)) (present (s key) now),
          kept_expiry (s key).1 now,
        )
        s;
  zadd = λ s now key score member.
      put key
        (
          filter (λ e. not (text_eq e.1 member)) (present (s key) now) ++ (score, member) ∷ [],
          kept_expiry (s key).1 now,
        )
        s;
  zcard = λ s now key. some (length (present (s key) now));
  expire = λ s now key ttl. put key (present (s key) now, some (now + ttl * 1000)) s;
}

put_same : (key : Text) (stored : Stored) (s : Text → Stored) → put key stored s key ≡ stored
put_same key stored s = rw (text_eq_refl key) refl

present-kept :
    (es : List Entry) (expiry : Option ℕ) (now : ℕ) → present (es, kept_expiry expiry now) now ≡ es
present-kept es none now = refl
present-kept es (some expiry) now = ground arith

pub memory-HasSortedSets : HasSortedSets memory
memory-HasSortedSets = record {
  entries = λ s t key. present (s key) t;
  outcome-runs = λ s now. refl;
  zcard-entries = λ s now key. refl;
  entries-zremrangebyscore = λ s now key low high.
      let es =
        filter (λ e. not (leb_ℤ low (pos e.0) && leb_ℤ (pos e.0) high)) (present (s key) now) in
      ap (λ stored. present stored now) (put_same key (es, kept_expiry (s key).1 now) s)
      ∙ present-kept es (s key).1 now;
  entries-zadd = λ s now key score member.
      let es =
        filter (λ e. not (text_eq e.1 member)) (present (s key) now) ++ (score, member) ∷ [] in
      ap (λ stored. present stored now) (put_same key (es, kept_expiry (s key).1 now) s)
      ∙ present-kept es (s key).1 now;
  entries-expire = λ s now t key ttl le.
      ap (λ stored. present stored t)
        (put_same key (present (s key) now, some (now + ttl * 1000)) s);
}

-- Nothing is stored.
abbrev pub no_sets : memory.State
no_sets key = ([], none)

pub entries-no_sets : (t : ℕ) (key : Text) → memory-HasSortedSets.entries no_sets t key ≡ []
unfolding memory-HasSortedSets
entries-no_sets t key = refl
