-- ===== src/Sessions/Index.antt =====
-- The index of a user's sessions, which `invalidateAllSessions` relies on.
use mathlib.Core.Path.{subst}
use enclave_mail.Prelude.{
  ℕ, ◌≤◌, ◌<◌, ◌≡◌, sym, ap, ◌∙◌, true, false, ◌||◌, arith, none, some, Text, text_eq, text_eq_iff,
  text_Eq, contains, Bool-cases, inl, inr, ◌⊎◌,
}
use enclave_mail.Redis.{Redis, HasStrings, HasSets}
use enclave_mail.Sessions.{
  SessionData, Platform, session_key, user_sessions_key, expiry, create_session,
}
use enclave_mail.Sessions.Creation.{
  smembers-created-other, contains-created, get-stored-same, get-stored-other, created,
}

module _ (redis : Redis) (platform : Platform) (strings : HasStrings redis) (sets : HasSets redis)
    (parse-stringify : (details : SessionData)
      → platform.parse (platform.stringify details) ≡ details) where
  abbrev pub user_of : Text → Text
  user_of v = (platform.parse v).user_id

  -- From `now` on, each session that is stored ends within a lifetime, and its hash is in the index of
  -- its user for as long as it is stored.
  abbrev pub IsIndexed : redis.State → ℕ → Type 0
  IsIndexed s now =
      (t : ℕ) (h v : Text)
      → now ≤ t
      → redis.get s t (session_key h) ≡ some v
      → (t < expiry platform now)
        × (contains (redis.smembers s t (user_sessions_key (user_of v))) h ≡ true)

  pub fresh-IsIndexed : IsIndexed redis.fresh 0
  fresh-IsIndexed t h v le e = absurd (none-some (sym (strings.get-fresh t (session_key h)) ∙ e))
    where
      none-some : none ≡ some v → ⊥
      none-some p = cc

  pub later-IsIndexed :
      (s : redis.State) (now later : ℕ) → now ≤ later → IsIndexed s now → IsIndexed s later
  later-IsIndexed s now later le indexed t h v lt e =
      let old = indexed t h v (omega (arith, le, lt)) e in (omega (arith, old.0, le), old.1)

  module _ (s : redis.State) (now : ℕ) (user raw : Text) where
    abbrev after_creation : redis.State
    after_creation = created redis platform strings sets s now user raw

    abbrev hash : Text
    hash = platform.hash_token raw

    -- The new session.
    indexed-same :
        (t : ℕ) (h v : Text)
        → now ≤ t
        → text_eq hash h ≡ true
        → redis.get after_creation t (session_key h) ≡ some v
        → (t < expiry platform now)
          × (contains (redis.smembers after_creation t (user_sessions_key (user_of v))) h ≡ true)
    indexed-same t h v le same e =
        let kept = get-stored-same redis platform strings sets s now user raw t h v le same e in
        let details =
          parse-stringify (record {
            user_id = user;
            expires_at = platform.to_iso_string (expiry platform now);
          }) in
        let user_same = ap user_of (sym kept.1) ∙ ap (λ d. d.user_id) details in
        (
          kept.0,
          ap (λ u. contains (redis.smembers after_creation t (user_sessions_key u)) h) user_same
              ∙ contains-created redis platform strings sets s now user raw t h le kept.0
              ∙ ground (arith, same),
        )

    -- A session from before.
    indexed-before :
        (t : ℕ) (h v : Text)
        → IsIndexed s now
        → now ≤ t
        → redis.get s t (session_key h) ≡ some v
        → (t < expiry platform now)
          × (contains (redis.smembers after_creation t (user_sessions_key (user_of v))) h ≡ true)
    indexed-before t h v indexed le e =
        let old = indexed t h v le e in
        let at_once =
          indexed now h v (omega arith) (strings.get-earlier s now t (session_key h) v le e) in
        (old.0, by_user (user_of v) (Bool-cases (text_eq user (user_of v))) old.0 old.1 at_once.1)
      where
        by_user :
            (u : Text)
            → (text_eq user u ≡ true) ⊎ (text_eq user u ≡ false)
            → t < expiry platform now
            → contains (redis.smembers s t (user_sessions_key u)) h ≡ true
            → contains (redis.smembers s now (user_sessions_key u)) h ≡ true
            → contains (redis.smembers after_creation t (user_sessions_key u)) h ≡ true
        by_user u (inl same) lt later_on at_once =
            let users = (text_eq_iff user u).0 same in
            subst (λ w. contains (redis.smembers after_creation t (user_sessions_key w)) h ≡ true)
              users
              (contains-created redis platform strings sets s now user raw t h le lt
                ∙ ap (λ b. b || text_eq hash h)
                    (ap (λ w. contains (redis.smembers s now (user_sessions_key w)) h) users
                      ∙ at_once))
        by_user u (inr other) lt later_on at_once =
            ap (λ l. contains l h)
              (smembers-created-other redis platform strings sets s now user raw t u other)
            ∙ later_on

    pub create_session-IsIndexed :
        IsIndexed s now → IsIndexed (create_session redis platform s now user raw).0 now
    unfolding create_session
    create_session-IsIndexed indexed t h v le e = elim (Bool-cases (text_eq hash h)) [
      | inl same ↦ indexed-same t h v le same e
      | inr other ↦
          indexed-before t h v indexed le
            (get-stored-other redis platform strings sets s now user raw t h v other e)
    ]
