-- ===== src/Sessions/Lifetime.antt =====
-- How long a session validates.
use enclave_mail.Prelude.{
  ℕ, ◌≤◌, ◌≡◌, refl, ap, ◌∙◌, Bool, true, false, not, arith, none, some, Text, text_Eq, ltb, leb,
  if◌then◌else◌,
}
use enclave_mail.Redis.{Redis, HasStrings, HasSets}
use enclave_mail.Sessions.{
  SessionData, Session, Platform, session_key, expiry, session_record, create_session,
  validate_session, session_of, unless_expired, check_record,
}
use enclave_mail.Sessions.Creation.{get-created}

abbrev created_session : Text → ℕ → Session
created_session user expires_at = record { user_id = user; expires_at = expires_at }

module _ (redis : Redis) (platform : Platform) (strings : HasStrings redis) (sets : HasSets redis)
    (parse-stringify : (details : SessionData)
      → platform.parse (platform.stringify details) ≡ details) where
  check_record-live :
      (s : redis.State) (key : Text) (now t : ℕ) (user : Text) (live : Bool)
      → platform.from_iso_string (platform.to_iso_string (expiry platform now))
        ≡ expiry platform now
      → leb (expiry platform now) t ≡ not live
      → (check_record redis platform s t key
          (if live then some (session_record platform now user) else none)).1
        ≡ (if live
            then some (record { user_id = user; expires_at = expiry platform now })
            else none)
  check_record-live s key now t user false iso h = refl
  check_record-live s key now t user true iso h =
      let details =
        parse-stringify
          (record { user_id = user; expires_at = platform.to_iso_string (expiry platform now) }) in
      ap (λ session. (unless_expired redis s key session (leb session.expires_at t)).1)
        (ap (session_of platform) details ∙ ap (created_session user) iso)
      ∙ ap (λ b. (unless_expired redis s key (created_session user (expiry platform now)) b).1) h

  -- A session that is created validates with its token, as the session of its user, until its lifetime has
  -- passed, and not from then on. Redis, JSON and the ISO form of dates work as documented.
  pub validate_session-create_session :
      (s : redis.State) (now t : ℕ) (user raw : Text)
      → ((time : ℕ) → platform.from_iso_string (platform.to_iso_string time) ≡ time)
      → now ≤ t
      → (validate_session redis platform (create_session redis platform s now user raw).0 t raw).1
        ≡ (if ltb t (expiry platform now)
            then some (record { user_id = user; expires_at = expiry platform now })
            else none)
  unfolding validate_session create_session
  validate_session-create_session s now t user raw iso le =
      let token_hash = platform.hash_token raw in
      let after = (create_session redis platform s now user raw).0 in
      let written = session_record platform now user in
      ap (λ o. (check_record redis platform after t (session_key token_hash) o).1)
        (get-created redis platform strings sets s now user raw t token_hash
          ∙ strings.get-set_ex s now t (session_key token_hash) written platform.session_ttl_seconds
              le)
      ∙ check_record-live after (session_key token_hash) now t user (ltb t (expiry platform now))
          (iso (expiry platform now)) (ground arith)
