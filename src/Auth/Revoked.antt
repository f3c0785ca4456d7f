-- ===== src/Auth/Revoked.antt =====
-- That a user whose sessions were all invalidated is out.
use enclave_mail.Prelude.{
  ℕ, ◌≤◌, ◌≡◌, refl, sym, ap, ◌∙◌, Bool, true, false, List, Option, none, some, Text, text_eq,
  if◌then◌else◌,
}
use enclave_mail.Redis.{Redis, HasStrings, HasSets}
use enclave_mail.Sessions.{
  Platform, Session, SessionData, validate_session, invalidate_all_sessions,
}
use enclave_mail.Sessions.Reachable.{Reachable, validate_session-invalidate_all_sessions}
use enclave_mail.Inbound.Store.{UserRow}
use enclave_mail.Auth.{
  Reply, goes_on, account_disabled, bearer_token, find_user, unless_disabled, for_session,
  with_token, auth_middleware,
}

abbrev user_in : Text → Reply → Text
user_in other (goes_on user_id) = user_id
user_in other _ = other

unless_disabled-goes_on :
    (user_id : Text) (row : Option UserRow) (u : Text)
    → unless_disabled user_id row ≡ goes_on u
    → user_id ≡ u
unless_disabled-goes_on user_id none u e = ap (user_in user_id) e
unless_disabled-goes_on user_id (some user) u e = allowed user.disabled e
  where
    allowed :
        (b : Bool) → (if b then account_disabled else goes_on user_id) ≡ goes_on u → user_id ≡ u
    allowed true e = cc
    allowed false e = ap (user_in user_id) e

for_session-goes_on :
    (users : List UserRow) (session : Option Session) (u : Text)
    → for_session users session ≡ goes_on u
    → (found : Session) × (session ≡ some found) × (found.user_id ≡ u)
for_session-goes_on users none u e = cc
for_session-goes_on users (some session) u e =
    (session, refl, unless_disabled-goes_on session.user_id (find_user users session.user_id) u e)

module _ (redis : Redis) (platform : Platform) (strings : HasStrings redis) (sets : HasSets redis)
    (parse-stringify : (details : SessionData)
      → platform.parse (platform.stringify details) ≡ details)
    (users : List UserRow) (s : redis.State) (now t : ℕ) (user : Text) where
  with_token-goes_on :
      (token : Option Text) (u : Text)
      → Reachable redis platform s now
      → now ≤ t
      → (with_token redis platform users (invalidate_all_sessions redis s now user) t token).1
        ≡ goes_on u
      → text_eq user u ≡ false
  with_token-goes_on none u r le e = cc
  with_token-goes_on (some token) u r le e =
      let after = invalidate_all_sessions redis s now user in
      let found = for_session-goes_on users (validate_session redis platform after t token).1 u e in
      ap (text_eq user) (sym found.2)
      ∙ validate_session-invalidate_all_sessions redis platform strings sets parse-stringify s now t
          user token found.0 r le found.1

  -- When all sessions of a user are invalidated, in any state that sessions can get to, no request reaches
  -- a handler as that user from then on until a new session is created, whatever its header is. Redis
  -- and JSON work as documented.
  pub auth_middleware-invalidate_all_sessions :
      (header : Option Text) (u : Text)
      → Reachable redis platform s now
      → now ≤ t
      → (auth_middleware redis platform users (invalidate_all_sessions redis s now user) t header).1
        ≡ goes_on u
      → text_eq user u ≡ false
  unfolding auth_middleware
  auth_middleware-invalidate_all_sessions header u r le e =
      with_token-goes_on (bearer_token header) u r le e
