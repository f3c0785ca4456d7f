-- ===== src/RateLimit/Sliding/Laws.antt =====
-- What Redis documents of its commands on sorted sets.
use enclave_mail.Prelude.{
  ℕ, ◌+◌, ◌*◌, ◌≤◌, ◌≡◌, not, ◌&&◌, List, [], ◌∷◌, ◌++◌, some, Text, text_eq, text_Eq, ltb,
  if◌then◌else◌, length, filter,
}
use enclave_mail.Prelude.Int.{ℤ, pos, leb_ℤ}
use enclave_mail.RateLimit.Sliding.{SortedSets, runs}

-- A member of a sorted set, behind its score.
abbrev pub Entry : Type 0
Entry = ℕ × Text

-- What Redis documents of each command on a key. `entries` are the members that the key has at a time, each
-- once, in the order in which they were last added. The first two laws say that no command fails.
pub record HasSortedSets (sets : SortedSets) : Type 0 where
  pub entries : sets.State → ℕ → Text → List Entry
  pub outcome-runs : (s : sets.State) (now : ℕ) → sets.outcome s now ≡ runs
  pub zcard-entries :
      (s : sets.State) (now : ℕ) (key : Text)
      → sets.zcard s now key ≡ some (length (entries s now key))
  pub entries-zremrangebyscore :
      (s : sets.State) (now : ℕ) (key : Text) (low high : ℤ)
      → entries (sets.zremrangebyscore s now key low high) now key
        ≡ filter (λ e. not (leb_ℤ low (pos e.0) && leb_ℤ (pos e.0) high)) (entries s now key)
  pub entries-zadd :
      (s : sets.State) (now : ℕ) (key : Text) (score : ℕ) (member : Text)
      → entries (sets.zadd s now key score member) now key
        ≡ filter (λ e. not (text_eq e.1 member)) (entries s now key) ++ (score, member) ∷ []
  pub entries-expire :
      (s : sets.State) (now t : ℕ) (key : Text) (ttl : ℕ)
      → now ≤ t
      → entries (sets.expire s now key ttl) t key
        ≡ (if ltb t (now + ttl * 1000) then entries s now key else [])
