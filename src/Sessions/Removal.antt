-- ===== src/Sessions/Removal.antt =====
-- What the deletions of session-manager.ts leave of the strings and the sets.
use mathlib.Core.Path.{subst}
use enclave_mail.Prelude.{
  ℕ, ◌≤◌, ◌≡◌, refl, sym, ap, ◌∙◌, true, false, ◌||◌, List, [], ◌∷◌, map, arith, none, some, Text,
  text_eq, text_eq_iff, text_Eq, contains, Bool-cases, inl, inr, ◌⊎◌,
}
use enclave_mail.Redis.{Redis, HasStrings, HasSets}
use enclave_mail.Sessions.{Platform, session_key, user_sessions_key, del_all}
use enclave_mail.Sessions.Keys.{
  text_eq-session_key, text_eq-user_sessions_key, text_eq-session-user,
}

none-some : (v : Text) → none ≡ some v → ⊥
none-some v e = cc

module _ (redis : Redis) (platform : Platform) (strings : HasStrings redis)
    (sets : HasSets redis) where
  -- A string that is there after a deletion has another key and was there before.
  pub get-del-kept :
      (s : redis.State) (t : ℕ) (k l v : Text)
      → redis.get (redis.del s k) t l ≡ some v
      → (text_eq k l ≡ false) × (redis.get s t l ≡ some v)
  get-del-kept s t k l v e = go (Bool-cases (text_eq k l))
    where
      go :
          (text_eq k l ≡ true) ⊎ (text_eq k l ≡ false)
          → (text_eq k l ≡ false) × (redis.get s t l ≡ some v)
      go (inl same) = absurd (
          none-some v (
            sym (strings.get-del s t k)
            ∙ ap (redis.get (redis.del s k) t) ((text_eq_iff k l).0 same)
            ∙ e))
      go (inr other) = (other, sym (strings.get-del-other s t k l other) ∙ e)

  pub get-del_all-kept :
      (hashes : List Text) (s : redis.State) (t : ℕ) (h v : Text)
      → redis.get (del_all redis s (map session_key hashes)) t (session_key h) ≡ some v
      → (contains hashes h ≡ false) × (redis.get s t (session_key h) ≡ some v)
  unfolding del_all
  get-del_all-kept [] s t h v e = (refl, e)
  get-del_all-kept (x ∷ hashes) s t h v e =
      let rest = get-del_all-kept hashes (redis.del s (session_key x)) t h v e in
      let first = get-del-kept s t (session_key x) (session_key h) v rest.1 in
      let apart = sym (text_eq-session_key x h) ∙ first.0 in
      (ap (λ b. b || contains hashes h) apart ∙ rest.0, first.1)

  pub smembers-del_all :
      (hashes : List Text) (s : redis.State) (t : ℕ) (u : Text)
      → redis.smembers (del_all redis s (map session_key hashes)) t (user_sessions_key u)
        ≡ redis.smembers s t (user_sessions_key u)
  unfolding del_all
  smembers-del_all [] s t u = refl
  smembers-del_all (x ∷ hashes) s t u =
      smembers-del_all hashes (redis.del s (session_key x)) t u
      ∙ sets.smembers-del-other s t (session_key x) (user_sessions_key u) (text_eq-session-user x u)

  -- Taking one hash out of an index leaves the others in theirs.
  pub contains-srem :
      (s : redis.State) (now t : ℕ) (owner hash u h : Text)
      → now ≤ t
      → text_eq hash h ≡ false
      → contains (redis.smembers s t (user_sessions_key u)) h ≡ true
      → contains
          (redis.smembers (redis.srem s now (user_sessions_key owner) hash) t (user_sessions_key u))
          h
        ≡ true
  contains-srem s now t owner hash u h le other held = go (Bool-cases (text_eq owner u))
    where
      go :
          (text_eq owner u ≡ true) ⊎ (text_eq owner u ≡ false)
          → contains
              (redis.smembers
                (redis.srem s now (user_sessions_key owner) hash)
                t
                (user_sessions_key u))
              h
            ≡ true
      go (inl same) =
          subst
            (λ w.
              contains
                (redis.smembers (redis.srem s now (user_sessions_key w) hash) t
                  (user_sessions_key u))
                h
              ≡ true)
            (sym ((text_eq_iff owner u).0 same))
            (sets.smembers-srem s now t (user_sessions_key u) hash h le
              ∙ ground (arith, held, other))
      go (inr apart) =
          ap (λ l. contains l h)
            (sets.smembers-srem-other s now t (user_sessions_key owner) hash (user_sessions_key u)
              (text_eq-user_sessions_key owner u ∙ apart))
          ∙ held
