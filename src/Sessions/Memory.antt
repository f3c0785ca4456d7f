-- ===== src/Sessions/Memory.antt =====
-- The commands of Redis that the sessions use, in memory: each key has at most a string with its expiry, and
-- the members of a set with their expiry, if there is one.
use enclave_mail.Prelude.{
  ℕ, ◌+◌, ◌*◌, ◌≤◌, ◌<◌, ◌≡◌, refl, ap, ◌∙◌, ◌&&◌, not, List, [], ◌∷◌, ◌++◌, arith, Option, none,
  some, Text, text_eq, text_eq_refl, text_Eq, contains, ltb, if◌then◌else◌, set_add, set_delete,
  contains-set_add, contains-set_delete, length, take, drop, take-append, drop-append,
}
use enclave_mail.Redis.{Redis, HasStrings, HasSets}
use enclave_mail.Sessions.{SessionData, Platform}

abbrev Strings : Type 0
Strings = Text → Option (Text × ℕ)

abbrev Sets : Type 0
Sets = Text → List Text × Option ℕ

abbrev alive : Option (Text × ℕ) → ℕ → Option Text
alive none t = none
alive (some (v, expiry)) t = if ltb t expiry then some v else none

abbrev present : List Text × Option ℕ → ℕ → List Text
present (members, none) t = members
present (members, some expiry) t = if ltb t expiry then members else []

abbrev kept_expiry : Option ℕ → ℕ → Option ℕ
kept_expiry none t = none
kept_expiry (some expiry) t = if ltb t expiry then some expiry else none

abbrev pub memory : Redis
memory = record {
  State = Strings × Sets;
  fresh = (λ k. none, λ k. ([], none));
  get = λ s t k. alive (s.0 k) t;
  set_ex = λ s now k v ttl. (
    λ l. if text_eq k l then some (v, now + ttl * 1000) else s.0 l,
    λ l. if text_eq k l then ([], none) else s.1 l,
  );
  del = λ s k.
      (λ l. if text_eq k l then none else s.0 l, λ l. if text_eq k l then ([], none) else s.1 l);
  sadd = λ s now k m. (
    s.0,
    λ l.
        if text_eq k l then (set_add (present (s.1 k) now) m, kept_expiry (s.1 k).1 now) else s.1 l,
  );
  srem =
      λ s now k m. (s.0, λ l. if text_eq k l then (set_delete (s.1 k).0 m, (s.1 k).1) else s.1 l);
  smembers = λ s t k. present (s.1 k) t;
  expire = λ s now k ttl.
      (s.0, λ l. if text_eq k l then (present (s.1 k) now, some (now + ttl * 1000)) else s.1 l);
}

alive-earlier :
    (o : Option (Text × ℕ)) (now t : ℕ) (v : Text)
    → now ≤ t
    → alive o t ≡ some v
    → alive o now ≡ some v
alive-earlier none now t v le e = e
alive-earlier (some (w, expiry)) now t v le e = ground (arith, le, e)

pub memory-HasStrings : HasStrings memory
memory-HasStrings = record {
  get-fresh = λ t k. refl;
  get-set_ex = λ s now t k v ttl le. simp (text_eq_refl k);
  get-set_ex-other = λ s now t k v ttl l apart. simp apart;
  get-del = λ s t k. simp (text_eq_refl k);
  get-del-other = λ s t k l apart. simp apart;
  get-sadd-other = λ s now t k m l apart. refl;
  get-srem-other = λ s now t k m l apart. refl;
  get-expire-other = λ s now t k ttl l apart. refl;
  get-earlier = λ s now t k v le e. alive-earlier (s.0 k) now t v le e;
}

present-kept :
    (members : List Text) (expiry : Option ℕ) (now : ℕ)
    → present (members, kept_expiry expiry now) now ≡ members
present-kept members none now = refl
present-kept members (some expiry) now = ground arith

contains-present-deleted :
    (members : List Text) (expiry : Option ℕ) (t : ℕ) (m n : Text)
    → contains (present (set_delete members m, expiry) t) n
      ≡ (contains (present (members, expiry) t) n && not (text_eq m n))
contains-present-deleted members none t m n = contains-set_delete members m n
contains-present-deleted members (some expiry) t m n =
    ground (arith, contains-set_delete members m n)

within_lifetime :
    (members : List Text) (t expiry : ℕ)
    → t < expiry
    → (if ltb t expiry then members else []) ≡ members
within_lifetime members t expiry lt = ground (arith, lt)

pub memory-HasSets : HasSets memory
memory-HasSets = record {
  smembers-sadd = λ s now k m n.
      ap
        (λ b.
          contains
            (present
              (if b then (set_add (present (s.1 k) now) m, kept_expiry (s.1 k).1 now) else s.1 k)
              now)
            n)
        (text_eq_refl k)
      ∙ ap (λ l. contains l n) (present-kept (set_add (present (s.1 k) now) m) (s.1 k).1 now)
      ∙ contains-set_add (present (s.1 k) now) m n;
  smembers-sadd-other = λ s now t k m l apart. simp apart;
  smembers-expire = λ s now t k ttl le lt.
      ap (λ b. present (if b then (present (s.1 k) now, some (now + ttl * 1000)) else s.1 k) t)
        (text_eq_refl k)
      ∙ within_lifetime (present (s.1 k) now) t (now + ttl * 1000) lt;
  smembers-expire-other = λ s now t k ttl l apart. simp apart;
  smembers-srem = λ s now t k m n le.
      ap (λ b. contains (present (if b then (set_delete (s.1 k).0 m, (s.1 k).1) else s.1 k) t) n)
        (text_eq_refl k)
      ∙ contains-present-deleted (s.1 k).0 (s.1 k).1 t m n;
  smembers-srem-other = λ s now t k m l apart. simp apart;
  smembers-set_ex-other = λ s now t k v ttl l apart. simp apart;
  smembers-del-other = λ s t k l apart. simp apart;
}

-- A platform that writes records down with the length of the user's name in front.
abbrev first_or_zero : Text → ℕ
first_or_zero [] = 0
first_or_zero (n ∷ rest) = n

abbrev read_record : Text → SessionData
read_record [] = record { user_id = []; expires_at = [] }
read_record (n ∷ rest) = record { user_id = take n rest; expires_at = drop n rest }

abbrev pub plain_platform : Platform
plain_platform = record {
  hash_token = λ raw. raw;
  stringify = λ details. length details.user_id ∷ (details.user_id ++ details.expires_at);
  parse = read_record;
  to_iso_string = λ time. time ∷ [];
  from_iso_string = first_or_zero;
  session_ttl_seconds = 86400;
}

abbrev record_of : Text → Text → SessionData
record_of user expires = record { user_id = user; expires_at = expires }

pub read-written :
    (details : SessionData) → plain_platform.parse (plain_platform.stringify details) ≡ details
read-written details =
    ap (λ u. record_of u (drop (length details.user_id) (details.user_id ++ details.expires_at)))
      (take-append details.user_id details.expires_at)
    ∙ ap (record_of details.user_id) (drop-append details.user_id details.expires_at)
