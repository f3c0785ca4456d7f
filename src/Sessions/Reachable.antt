-- ===== src/Sessions/Reachable.antt =====
-- The states that the operations of session-manager.ts lead to, at moving times.
use enclave_mail.Prelude.{
  ℕ, ◌≤◌, ◌≡◌, refl, sym, ap, ◌∙◌, Bool, true, false, [], Option, none, some, Text, text_eq,
  text_Eq, leb,
}
use enclave_mail.Redis.{Redis, HasStrings, HasSets}
use enclave_mail.Sessions.{
  SessionData, Session, Platform, session_key, create_session, validate_session, session_of,
  unless_expired, check_record, invalidate_session, invalidate_all_sessions,
}
use enclave_mail.Sessions.Creation.{token}
use enclave_mail.Sessions.Index.{fresh-IsIndexed, later-IsIndexed, create_session-IsIndexed}
use enclave_mail.Sessions.Revocation.{
  Indexed, validate_session-IsIndexed, invalidate_session-IsIndexed,
  invalidate_all_sessions-IsIndexed, get-invalidated,
}

pub data Reachable (redis : Redis) (platform : Platform) : redis.State → ℕ → Type 0 where
  start : Reachable redis platform redis.fresh 0
  passed :
      {s : redis.State} {now : ℕ} (later : ℕ)
      → now ≤ later
      → Reachable redis platform s now
      → Reachable redis platform s later
  creation :
      {s : redis.State} {now : ℕ} (user raw : Text)
      → Reachable redis platform s now
      → Reachable redis platform (create_session redis platform s now user raw).0 now
  validation :
      {s : redis.State} {now : ℕ} (token : Text)
      → Reachable redis platform s now
      → Reachable redis platform (validate_session redis platform s now token).0 now
  invalidation :
      {s : redis.State} {now : ℕ} (token : Text)
      → Reachable redis platform s now
      → Reachable redis platform (invalidate_session redis platform s now token) now
  invalidation_of_all :
      {s : redis.State} {now : ℕ} (user : Text)
      → Reachable redis platform s now
      → Reachable redis platform (invalidate_all_sessions redis s now user) now

abbrev owner_of : Option Session → Text
owner_of (some session) = session.user_id
owner_of none = []

module _ (redis : Redis) (platform : Platform) (strings : HasStrings redis) (sets : HasSets redis)
    (parse-stringify : (details : SessionData)
      → platform.parse (platform.stringify details) ≡ details) where
  Reachable-IsIndexed :
      (s : redis.State) (now : ℕ)
      → Reachable redis platform s now
      → Indexed redis platform strings sets parse-stringify s now
  Reachable-IsIndexed s now start = fresh-IsIndexed redis platform strings sets parse-stringify
  Reachable-IsIndexed s now (passed {s = same} {now = before} later le r) =
      later-IsIndexed redis platform strings sets parse-stringify same before later le
        (Reachable-IsIndexed same before r)
  Reachable-IsIndexed s now (creation {s = before} user raw r) =
      create_session-IsIndexed redis platform strings sets parse-stringify before now user raw
        (Reachable-IsIndexed before now r)
  Reachable-IsIndexed s now (validation {s = before} token r) =
      validate_session-IsIndexed redis platform strings sets parse-stringify before now token
        (Reachable-IsIndexed before now r)
  Reachable-IsIndexed s now (invalidation {s = before} token r) =
      invalidate_session-IsIndexed redis platform strings sets parse-stringify before now token
        (Reachable-IsIndexed before now r)
  Reachable-IsIndexed s now (invalidation_of_all {s = before} user r) =
      invalidate_all_sessions-IsIndexed redis platform strings sets parse-stringify before now user
        (Reachable-IsIndexed before now r)

  unless_expired-some :
      (s : redis.State) (key : Text) (session found : Session) (expired : Bool)
      → (unless_expired redis s key session expired).1 ≡ some found
      → session.user_id ≡ found.user_id
  unless_expired-some s key session found true e = cc
  unless_expired-some s key session found false e = ap owner_of e

  check_record-some :
      (s : redis.State) (t : ℕ) (key : Text) (stored : Option Text) (found : Session)
      → (check_record redis platform s t key stored).1 ≡ some found
      → (raw : Text) × (stored ≡ some raw) × ((platform.parse raw).user_id ≡ found.user_id)
  check_record-some s t key none found e = cc
  check_record-some s t key (some raw) found e =
      let session = session_of platform (platform.parse raw) in
      (raw, refl, unless_expired-some s key session found (leb session.expires_at t) e)

  -- In every state that sessions can get to, when all sessions of a user are invalidated, no token
  -- validates as that user's from then on until a new session is created. Redis and JSON work as documented.
  pub validate_session-invalidate_all_sessions :
      (s : redis.State) (now t : ℕ) (user token : Text) (session : Session)
      → Reachable redis platform s now
      → now ≤ t
      → (validate_session redis platform (invalidate_all_sessions redis s now user) t token).1
        ≡ some session
      → text_eq user session.user_id ≡ false
  unfolding validate_session
  validate_session-invalidate_all_sessions s now t user token session r le e =
      let after = invalidate_all_sessions redis s now user in
      let key = session_key (platform.hash_token token) in
      let found = check_record-some after t key (redis.get after t key) session e in
      ap (text_eq user) (sym found.2)
      ∙ (get-invalidated redis platform strings sets parse-stringify s now t user
          (platform.hash_token token) found.0 (Reachable-IsIndexed s now r) le found.1).0
