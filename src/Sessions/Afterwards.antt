-- ===== src/Sessions/Afterwards.antt =====
-- What `invalidateSession` of session-manager.ts leaves, and what later operations make of it.
use enclave_mail.Prelude.{
  ℕ, ◌≤◌, ◌≡◌, refl, ap, ◌∙◌, Bool, true, false, arith, Option, none, some, Text, text_eq,
  text_eq_refl, text_Eq, contains, leb,
}
use enclave_mail.Redis.{Redis, HasStrings, HasSets}
use enclave_mail.Sessions.{
  Platform, session_key, user_sessions_key, validate_session, session_of, unless_expired,
  check_record, unindex, invalidate_session,
}
use enclave_mail.Sessions.Keys.{text_eq-session_key, text_eq-session-user, text_eq-user-session}
use enclave_mail.Sessions.Later.{Later, Gone, Later-Gone}

module _ (redis : Redis) (platform : Platform) (strings : HasStrings redis)
    (sets : HasSets redis) where
  invalidate_session-Gone :
      (s : redis.State) (now : ℕ) (raw : Text)
      → Gone redis platform strings sets
          (platform.hash_token raw)
          (invalidate_session redis platform s now raw)
          now
  unfolding invalidate_session
  invalidate_session-Gone s now raw t le =
      let h = platform.hash_token raw in
      strings.get-del (unindex redis platform s now h (redis.get s now (session_key h))) t
        (session_key h)

  -- The entry in the index of the session's owner.
  unindexed :
      (s : redis.State) (now t : ℕ) (raw stored : Text)
      → redis.get s now (session_key (platform.hash_token raw)) ≡ some stored
      → now ≤ t
      → contains
          (redis.smembers
            (invalidate_session redis platform s now raw)
            t
            (user_sessions_key (platform.parse stored).user_id))
          (platform.hash_token raw)
        ≡ false
  unfolding invalidate_session
  unindexed s now t raw stored found le =
      let h = platform.hash_token raw in
      let index = user_sessions_key (platform.parse stored).user_id in
      ap
        (λ o.
          contains
            (redis.smembers (redis.del (unindex redis platform s now h o) (session_key h)) t index)
            h)
        found
      ∙ ap (λ l. contains l h)
          (sets.smembers-del-other (redis.srem s now index h) t (session_key h) index
            (text_eq-session-user h (platform.parse stored).user_id))
      ∙ sets.smembers-srem s now t index h h le
      ∙ ground (arith, text_eq_refl h)

  get-unindex :
      (s : redis.State) (now t : ℕ) (h k : Text) (stored : Option Text)
      → redis.get (unindex redis platform s now h stored) t (session_key k)
        ≡ redis.get s t (session_key k)
  get-unindex s now t h k none = refl
  get-unindex s now t h k (some raw) =
      let owner = (platform.parse raw).user_id in
      strings.get-srem-other s now t (user_sessions_key owner) h (session_key k)
        (text_eq-user-session owner k)

  -- What a check finds depends on the record alone.
  found_alike :
      (s r : redis.State) (t : ℕ) (key : Text) (stored : Option Text)
      → (check_record redis platform s t key stored).1
        ≡ (check_record redis platform r t key stored).1
  found_alike s r t key none = refl
  found_alike s r t key (some raw) =
      alike (leb (session_of platform (platform.parse raw)).expires_at t)
    where
      alike :
          (expired : Bool)
          → (unless_expired redis s key (session_of platform (platform.parse raw)) expired).1
            ≡ (unless_expired redis r key (session_of platform (platform.parse raw)) expired).1
      alike true = refl
      alike false = refl

  others_stay :
      (s : redis.State) (now t : ℕ) (raw other : Text)
      → text_eq (platform.hash_token raw) (platform.hash_token other) ≡ false
      → (validate_session redis platform (invalidate_session redis platform s now raw) t other).1
        ≡ (validate_session redis platform s t other).1
  unfolding validate_session invalidate_session
  others_stay s now t raw other apart =
      let h = platform.hash_token raw in
      let k = platform.hash_token other in
      let removed = unindex redis platform s now h (redis.get s now (session_key h)) in
      let after = redis.del removed (session_key h) in
      ap (λ o. (check_record redis platform after t (session_key k) o).1)
        (strings.get-del-other removed t (session_key h) (session_key k)
            (text_eq-session_key h k ∙ apart)
          ∙ get-unindex s now t h k (redis.get s now (session_key h)))
      ∙ found_alike after s t (session_key k) (redis.get s t (session_key k))

  -- When a session that is stored is invalidated, three things hold. Its token, as any other with the same
  -- hash, does not validate from then on, whatever operations follow, unless a session is created with
  -- this hash. Its hash is no longer in the index of its user. Every token with another hash validates as
  -- it would have without the invalidation. Redis works as documented.
  pub validate_session-invalidate_session :
      (s : redis.State) (now : ℕ) (raw stored token other : Text) (after : redis.State) (t u : ℕ)
      → redis.get s now (session_key (platform.hash_token raw)) ≡ some stored
      → platform.hash_token token ≡ platform.hash_token raw
      → text_eq (platform.hash_token raw) (platform.hash_token other) ≡ false
      → Later redis platform
          (platform.hash_token raw)
          (invalidate_session redis platform s now raw)
          now
          after
          t
      → now ≤ u
      → ((validate_session redis platform after t token).1 ≡ none)
        × (contains
              (redis.smembers
                (invalidate_session redis platform s now raw)
                u
                (user_sessions_key (platform.parse stored).user_id))
              (platform.hash_token raw)
            ≡ false)
        × ((validate_session redis platform (invalidate_session redis platform s now raw) u other).1
            ≡ (validate_session redis platform s u other).1)
  validate_session-invalidate_session s now raw stored token other after t u found same apart later
        le =
      (
        unfold validate_session in
            ap
              (λ o.
                (check_record redis platform after t (session_key (platform.hash_token token)) o).1)
              (ap (λ h. redis.get after t (session_key h)) same
                ∙ Later-Gone redis platform strings sets (platform.hash_token raw)
                    (invalidate_session redis platform s now raw) now after t later
                    (invalidate_session-Gone s now raw) t (omega arith)),
        unindexed s now u raw stored found le,
        others_stay s now u raw other apart,
      )
