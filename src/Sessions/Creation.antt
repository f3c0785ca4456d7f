-- ===== src/Sessions/Creation.antt =====
-- What `createSession` makes of the strings and the sets.
use enclave_mail.Prelude.{
  ℕ, ◌≤◌, ◌<◌, ◌≡◌, refl, sym, ap, ◌∙◌, Bool, true, false, ◌||◌, arith, none, some, Text, text_eq,
  text_eq_iff, text_Eq, contains, ltb, if◌then◌else◌,
}
use enclave_mail.Redis.{Redis, HasStrings, HasSets}
use enclave_mail.Sessions.{Platform, session_key, user_sessions_key, expiry, session_record}
use enclave_mail.Sessions.Keys.{
  text_eq-session_key, text_eq-user_sessions_key, text_eq-session-user, text_eq-user-session,
}

pub live-value :
    (b : Bool) (w v : Text) → (if b then some w else none) ≡ some v → (b ≡ true) × (w ≡ v)
live-value true w v e = (refl, cc)
live-value false w v e = cc

module _ (redis : Redis) (platform : Platform) (strings : HasStrings redis)
    (sets : HasSets redis) where
  module _ (s : redis.State) (now : ℕ) (user raw : Text) where
    abbrev pub token : Text
    token = platform.hash_token raw

    abbrev stored : redis.State
    stored =
        redis.set_ex s now (session_key token) (session_record platform now user)
          platform.session_ttl_seconds

    abbrev indexed_state : redis.State
    indexed_state = redis.sadd stored now (user_sessions_key user) token

    abbrev pub created : redis.State
    created = redis.expire indexed_state now (user_sessions_key user) platform.session_ttl_seconds

    pub get-created :
        (t : ℕ) (h : Text)
        → redis.get created t (session_key h) ≡ redis.get stored t (session_key h)
    get-created t h =
        strings.get-expire-other indexed_state now t (user_sessions_key user)
          platform.session_ttl_seconds (session_key h) (text_eq-user-session user h)
        ∙ strings.get-sadd-other stored now t (user_sessions_key user) token (session_key h)
            (text_eq-user-session user h)

    pub smembers-created-other :
        (t : ℕ) (u : Text)
        → text_eq user u ≡ false
        → redis.smembers created t (user_sessions_key u) ≡ redis.smembers s t (user_sessions_key u)
    smembers-created-other t u other =
        let apart = text_eq-user_sessions_key user u ∙ other in
        sets.smembers-expire-other indexed_state now t (user_sessions_key user)
          platform.session_ttl_seconds (user_sessions_key u) apart
        ∙ sets.smembers-sadd-other stored now t (user_sessions_key user) token (user_sessions_key u)
            apart
        ∙ sets.smembers-set_ex-other s now t (session_key token) (session_record platform now user)
            platform.session_ttl_seconds (user_sessions_key u) (text_eq-session-user token u)

    pub contains-created :
        (t : ℕ) (h : Text)
        → now ≤ t
        → t < expiry platform now
        → contains (redis.smembers created t (user_sessions_key user)) h
          ≡ (contains (redis.smembers s now (user_sessions_key user)) h || text_eq token h)
    contains-created t h le lt =
        ap (λ l. contains l h)
          (sets.smembers-expire indexed_state now t (user_sessions_key user)
            platform.session_ttl_seconds le lt)
        ∙ sets.smembers-sadd stored now (user_sessions_key user) token h
        ∙ ap (λ l. contains l h || text_eq token h)
            (sets.smembers-set_ex-other s now now (session_key token)
              (session_record platform now user) platform.session_ttl_seconds
              (user_sessions_key user) (text_eq-session-user token user))

    pub get-stored-same :
        (t : ℕ) (h v : Text)
        → now ≤ t
        → text_eq token h ≡ true
        → redis.get created t (session_key h) ≡ some v
        → (t < expiry platform now) × (session_record platform now user ≡ v)
    get-stored-same t h v le same e =
        let same_token = (text_eq_iff token h).0 same in
        let live = live-value (ltb t (expiry platform now)) (session_record platform now user) v (
          sym (
            strings.get-set_ex s now t (session_key token) (session_record platform now user)
              platform.session_ttl_seconds le)
          ∙ sym (get-created t token)
          ∙ ap (λ k. redis.get created t (session_key k)) same_token
          ∙ e) in
        (ground (arith, live.0), live.1)

    pub get-stored-other :
        (t : ℕ) (h v : Text)
        → text_eq token h ≡ false
        → redis.get created t (session_key h) ≡ some v
        → redis.get s t (session_key h) ≡ some v
    get-stored-other t h v other e =
        sym (
          strings.get-set_ex-other s now t (session_key token) (session_record platform now user)
            platform.session_ttl_seconds (session_key h) (text_eq-session_key token h ∙ other))
        ∙ sym (get-created t h)
        ∙ e
