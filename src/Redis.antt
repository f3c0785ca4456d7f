-- ===== src/Redis.antt =====
-- The part of Redis that the sessions use: strings and sets with expiry. Redis is not part of this
-- repository, so its operations are a parameter, and what it documents of them are laws. Times are in
-- milliseconds, lifetimes in seconds.
use enclave_mail.Prelude.{
  ℕ, ◌+◌, ◌*◌, ◌≤◌, ◌<◌, ◌≡◌, false, ◌&&◌, ◌||◌, not, List, Option, none, some, Text, text_eq, ltb,
  if◌then◌else◌, contains, text_Eq,
}

pub record Redis : Type 1 where
  pub State : Type 0
  pub fresh : State
  pub get : State → ℕ → Text → Option Text
  pub set_ex : State → ℕ → Text → Text → ℕ → State
  pub del : State → Text → State
  pub sadd : State → ℕ → Text → Text → State
  pub srem : State → ℕ → Text → Text → State
  pub smembers : State → ℕ → Text → List Text
  pub expire : State → ℕ → Text → ℕ → State

-- Strings: a value that is set lasts for its lifetime, and the other commands leave other keys alone.
pub record HasStrings (redis : Redis) : Type 0 where
  pub get-fresh : (t : ℕ) (k : Text) → redis.get redis.fresh t k ≡ none
  pub get-set_ex :
      (s : redis.State) (now t : ℕ) (k v : Text) (ttl : ℕ)
      → now ≤ t
      → redis.get (redis.set_ex s now k v ttl) t k
        ≡ (if ltb t (now + ttl * 1000) then some v else none)
  pub get-set_ex-other :
      (s : redis.State) (now t : ℕ) (k v : Text) (ttl : ℕ) (l : Text)
      → text_eq k l ≡ false
      → redis.get (redis.set_ex s now k v ttl) t l ≡ redis.get s t l
  pub get-del : (s : redis.State) (t : ℕ) (k : Text) → redis.get (redis.del s k) t k ≡ none
  pub get-del-other :
      (s : redis.State) (t : ℕ) (k l : Text)
      → text_eq k l ≡ false
      → redis.get (redis.del s k) t l ≡ redis.get s t l
  pub get-sadd-other :
      (s : redis.State) (now t : ℕ) (k m l : Text)
      → text_eq k l ≡ false
      → redis.get (redis.sadd s now k m) t l ≡ redis.get s t l
  pub get-srem-other :
      (s : redis.State) (now t : ℕ) (k m l : Text)
      → text_eq k l ≡ false
      → redis.get (redis.srem s now k m) t l ≡ redis.get s t l
  pub get-expire-other :
      (s : redis.State) (now t : ℕ) (k : Text) (ttl : ℕ) (l : Text)
      → text_eq k l ≡ false
      → redis.get (redis.expire s now k ttl) t l ≡ redis.get s t l
  pub get-earlier :
      (s : redis.State) (now t : ℕ) (k v : Text)
      → now ≤ t
      → redis.get s t k ≡ some v
      → redis.get s now k ≡ some v

-- Sets: membership after each command, at the time of the command or later.
pub record HasSets (redis : Redis) : Type 0 where
  pub smembers-sadd :
      (s : redis.State) (now : ℕ) (k m n : Text)
      → contains (redis.smembers (redis.sadd s now k m) now k) n
        ≡ (contains (redis.smembers s now k) n || text_eq m n)
  pub smembers-sadd-other :
      (s : redis.State) (now t : ℕ) (k m l : Text)
      → text_eq k l ≡ false
      → redis.smembers (redis.sadd s now k m) t l ≡ redis.smembers s t l
  pub smembers-expire :
      (s : redis.State) (now t : ℕ) (k : Text) (ttl : ℕ)
      → now ≤ t
      → t < now + ttl * 1000
      → redis.smembers (redis.expire s now k ttl) t k ≡ redis.smembers s now k
  pub smembers-expire-other :
      (s : redis.State) (now t : ℕ) (k : Text) (ttl : ℕ) (l : Text)
      → text_eq k l ≡ false
      → redis.smembers (redis.expire s now k ttl) t l ≡ redis.smembers s t l
  pub smembers-srem :
      (s : redis.State) (now t : ℕ) (k m n : Text)
      → now ≤ t
      → contains (redis.smembers (redis.srem s now k m) t k) n
        ≡ (contains (redis.smembers s t k) n && not (text_eq m n))
  pub smembers-srem-other :
      (s : redis.State) (now t : ℕ) (k m l : Text)
      → text_eq k l ≡ false
      → redis.smembers (redis.srem s now k m) t l ≡ redis.smembers s t l
  pub smembers-set_ex-other :
      (s : redis.State) (now t : ℕ) (k v : Text) (ttl : ℕ) (l : Text)
      → text_eq k l ≡ false
      → redis.smembers (redis.set_ex s now k v ttl) t l ≡ redis.smembers s t l
  pub smembers-del-other :
      (s : redis.State) (t : ℕ) (k l : Text)
      → text_eq k l ≡ false
      → redis.smembers (redis.del s k) t l ≡ redis.smembers s t l
