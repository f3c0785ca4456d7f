-- ===== src/Sessions/Revocation.antt =====
-- Validating and invalidating sessions keeps the index of each user's sessions.
use enclave_mail.Prelude.{
  ℕ, ◌≤◌, ◌≡◌, sym, ap, ◌∙◌, Bool, true, false, map, arith, Option, none, some, Text, text_eq,
  text_eq_iff, text_Eq, contains, leb, Bool-cases, inl, inr, ◌⊎◌,
}
use enclave_mail.Redis.{Redis, HasStrings, HasSets}
use enclave_mail.Sessions.{
  SessionData, Session, Platform, session_key, user_sessions_key, validate_session, session_of,
  unless_expired, check_record, unindex, invalidate_session, del_all, invalidate_all_sessions,
}
use enclave_mail.Sessions.Creation.{token}
use enclave_mail.Sessions.Removal.{get-del-kept, get-del_all-kept, smembers-del_all, contains-srem}
use enclave_mail.Sessions.Index.{IsIndexed}
use enclave_mail.Sessions.Keys.{
  text_eq-session_key, text_eq-user_sessions_key, text_eq-session-user, text_eq-user-session,
}

false-true : false ≡ true → ⊥
false-true e = cc

module _ (redis : Redis) (platform : Platform) (strings : HasStrings redis) (sets : HasSets redis)
    (parse-stringify : (details : SessionData)
      → platform.parse (platform.stringify details) ≡ details) where
  abbrev pub Indexed : redis.State → ℕ → Type 0
  Indexed = IsIndexed redis platform strings sets parse-stringify

  abbrev pub owner : Text → Text
  owner v = (platform.parse v).user_id

  -- Deleting one session.
  del-IsIndexed :
      (s : redis.State) (now : ℕ) (hash : Text)
      → Indexed s now
      → Indexed (redis.del s (session_key hash)) now
  del-IsIndexed s now hash indexed t h v le e =
      let kept =
        get-del-kept redis platform strings sets s t (session_key hash) (session_key h) v e in
      let old = indexed t h v le kept.1 in
      (
        old.0,
        ap (λ l. contains l h)
              (sets.smembers-del-other s t (session_key hash) (user_sessions_key (owner v))
                (text_eq-session-user hash (owner v)))
            ∙ old.1,
      )

  unless_expired-IsIndexed :
      (s : redis.State) (now : ℕ) (hash : Text) (session : Session) (expired : Bool)
      → Indexed s now
      → Indexed (unless_expired redis s (session_key hash) session expired).0 now
  unless_expired-IsIndexed s now hash session true indexed = del-IsIndexed s now hash indexed
  unless_expired-IsIndexed s now hash session false indexed = indexed

  check_record-IsIndexed :
      (s : redis.State) (now : ℕ) (hash : Text) (stored : Option Text)
      → Indexed s now
      → Indexed (check_record redis platform s now (session_key hash) stored).0 now
  check_record-IsIndexed s now hash none indexed = indexed
  check_record-IsIndexed s now hash (some raw) indexed =
      let session = session_of platform (platform.parse raw) in
      unless_expired-IsIndexed s now hash session (leb session.expires_at now) indexed

  pub validate_session-IsIndexed :
      (s : redis.State) (now : ℕ) (token : Text)
      → Indexed s now
      → Indexed (validate_session redis platform s now token).0 now
  unfolding validate_session
  validate_session-IsIndexed s now token =
      check_record-IsIndexed s now (platform.hash_token token)
        (redis.get s now (session_key (platform.hash_token token)))

  -- Deleting one session and its entry in an index.
  invalidated-IsIndexed :
      (s : redis.State) (now : ℕ) (hash : Text) (stored : Option Text)
      → Indexed s now
      → Indexed (redis.del (unindex redis platform s now hash stored) (session_key hash)) now
  invalidated-IsIndexed s now hash none indexed t h v le e =
      del-IsIndexed s now hash indexed t h v le e
  invalidated-IsIndexed s now hash (some raw) indexed t h v le e =
      let removed = redis.srem s now (user_sessions_key (owner raw)) hash in
      let kept =
        get-del-kept redis platform strings sets removed t (session_key hash) (session_key h) v e in
      let before =
        sym (
          strings.get-srem-other s now t (user_sessions_key (owner raw)) hash (session_key h)
            (text_eq-user-session (owner raw) h))
        ∙ kept.1 in
      let old = indexed t h v le before in
      (
        old.0,
        ap (λ l. contains l h)
              (sets.smembers-del-other removed t (session_key hash) (user_sessions_key (owner v))
                (text_eq-session-user hash (owner v)))
            ∙ contains-srem redis platform strings sets s now t (owner raw) hash (owner v) h le
                (sym (text_eq-session_key hash h) ∙ kept.0) old.1,
      )

  pub invalidate_session-IsIndexed :
      (s : redis.State) (now : ℕ) (token : Text)
      → Indexed s now
      → Indexed (invalidate_session redis platform s now token) now
  unfolding invalidate_session
  invalidate_session-IsIndexed s now token =
      invalidated-IsIndexed s now (platform.hash_token token)
        (redis.get s now (session_key (platform.hash_token token)))

  -- A session that is left when all of a user's are invalidated was there before and is another user's.
  pub get-invalidated :
      (s : redis.State) (now t : ℕ) (user h v : Text)
      → Indexed s now
      → now ≤ t
      → redis.get (invalidate_all_sessions redis s now user) t (session_key h) ≡ some v
      → (text_eq user (owner v) ≡ false) × (redis.get s t (session_key h) ≡ some v)
  unfolding invalidate_all_sessions
  get-invalidated s now t user h v indexed le e =
      let hashes = redis.smembers s now (user_sessions_key user) in
      let cleared = del_all redis s (map session_key hashes) in
      let kept =
        get-del-kept redis platform strings sets cleared t (user_sessions_key user) (session_key h)
          v e in
      let before = get-del_all-kept redis platform strings sets hashes s t h v kept.1 in
      let at_once =
        indexed now h v (omega arith) (strings.get-earlier s now t (session_key h) v le before.1) in
      (not_mine (Bool-cases (text_eq user (owner v))) before.0 at_once.1, before.1)
    where
      not_mine :
          (text_eq user (owner v) ≡ true) ⊎ (text_eq user (owner v) ≡ false)
          → contains (redis.smembers s now (user_sessions_key user)) h ≡ false
          → contains (redis.smembers s now (user_sessions_key (owner v))) h ≡ true
          → text_eq user (owner v) ≡ false
      not_mine (inl same) out held = absurd (
          false-true (
            sym out
            ∙ ap (λ w. contains (redis.smembers s now (user_sessions_key w)) h)
                ((text_eq_iff user (owner v)).0 same)
            ∙ held))
      not_mine (inr other) out held = other

  pub invalidate_all_sessions-IsIndexed :
      (s : redis.State) (now : ℕ) (user : Text)
      → Indexed s now
      → Indexed (invalidate_all_sessions redis s now user) now
  unfolding invalidate_all_sessions
  invalidate_all_sessions-IsIndexed s now user indexed t h v le e =
      let hashes = redis.smembers s now (user_sessions_key user) in
      let found = get-invalidated s now t user h v indexed le e in
      let old = indexed t h v le found.1 in
      (
        old.0,
        ap (λ l. contains l h)
              (sets.smembers-del-other (del_all redis s (map session_key hashes)) t
                  (user_sessions_key user) (user_sessions_key (owner v))
                  (text_eq-user_sessions_key user (owner v) ∙ found.0)
                ∙ smembers-del_all redis platform strings sets hashes s t (owner v))
            ∙ old.1,
      )
