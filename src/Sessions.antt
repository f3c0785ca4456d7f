-- ===== src/Sessions.antt =====
-- apps/server/src/auth/session-manager.ts: sessions in Redis. The hash, JSON and the ISO form of dates are
-- parameters; the random token and the time of a call are arguments.
pub mod Keys
pub mod Creation
pub mod Removal
pub mod Index
pub mod Revocation
pub mod Reachable
pub mod Lifetime
pub mod Later
pub mod Afterwards
pub mod Memory
mod Tests
use enclave_mail.Prelude.{
  ℕ, ◌+◌, ◌*◌, Bool, true, false, List, [], ◌∷◌, ◌++◌, Option, none, some, Text, codes, leb,
  if◌then◌else◌, is_empty, map,
}
use enclave_mail.Redis.{Redis}

pub record SessionData : Type 0 where
  pub user_id : Text
  pub expires_at : Text

pub record Session : Type 0 where
  pub user_id : Text
  pub expires_at : ℕ

-- What the module takes from its platform, and its configuration.
pub record Platform : Type 0 where
  pub hash_token : Text → Text
  pub stringify : SessionData → Text
  pub parse : Text → SessionData
  pub to_iso_string : ℕ → Text
  pub from_iso_string : Text → ℕ
  pub session_ttl_seconds : ℕ

abbrev pub session_key : Text → Text
session_key token_hash = codes "session:" ++ token_hash

abbrev pub user_sessions_key : Text → Text
user_sessions_key user_id = codes "user-sessions:" ++ user_id

abbrev pub expiry : Platform → ℕ → ℕ
expiry platform now = now + platform.session_ttl_seconds * 1000

abbrev pub session_record : Platform → ℕ → Text → Text
session_record platform now user_id =
    platform.stringify
      (record { user_id = user_id; expires_at = platform.to_iso_string (expiry platform now) })

-- The state after `createSession` with a random token, and the session.
unfoldable pub create_session :
    (redis : Redis) → Platform → redis.State → ℕ → Text → Text → redis.State × (Text × ℕ)
create_session redis platform s now user_id raw_hex =
    let token_hash = platform.hash_token raw_hex in
    let ttl = platform.session_ttl_seconds in
    let stored =
      redis.set_ex s now (session_key token_hash) (session_record platform now user_id) ttl in
    let indexed = redis.sadd stored now (user_sessions_key user_id) token_hash in
    (redis.expire indexed now (user_sessions_key user_id) ttl, (raw_hex, expiry platform now))

abbrev pub session_of : Platform → SessionData → Session
session_of platform details = record {
  user_id = details.user_id;
  expires_at = platform.from_iso_string details.expires_at;
}

abbrev pub unless_expired :
    (redis : Redis) → redis.State → Text → Session → Bool → redis.State × Option Session
unless_expired redis s key session true = (redis.del s key, none)
unless_expired redis s key session false = (s, some session)

abbrev pub check_record :
    (redis : Redis) → Platform → redis.State → ℕ → Text → Option Text → redis.State × Option Session
check_record redis platform s now key none = (s, none)
check_record redis platform s now key (some raw) =
    let session = session_of platform (platform.parse raw) in
    unless_expired redis s key session (leb session.expires_at now)

unfoldable pub validate_session :
    (redis : Redis) → Platform → redis.State → ℕ → Text → redis.State × Option Session
validate_session redis platform s now token =
    let key = session_key (platform.hash_token token) in
    check_record redis platform s now key (redis.get s now key)

abbrev pub unindex : (redis : Redis) → Platform → redis.State → ℕ → Text → Option Text → redis.State
unindex redis platform s now token_hash none = s
unindex redis platform s now token_hash (some raw) =
    redis.srem s now (user_sessions_key (platform.parse raw).user_id) token_hash

unfoldable pub invalidate_session :
    (redis : Redis) → Platform → redis.State → ℕ → Text → redis.State
invalidate_session redis platform s now token =
    let token_hash = platform.hash_token token in
    let key = session_key token_hash in
    redis.del (unindex redis platform s now token_hash (redis.get s now key)) key

-- `del` of several keys.
unfoldable pub del_all : (redis : Redis) → redis.State → List Text → redis.State
del_all redis s [] = s
del_all redis s (key ∷ keys) = del_all redis (redis.del s key) keys

unfoldable pub invalidate_all_sessions : (redis : Redis) → redis.State → ℕ → Text → redis.State
invalidate_all_sessions redis s now user_id =
    let user_key = user_sessions_key user_id in
    redis.del (del_all redis s (map session_key (redis.smembers s now user_key))) user_key
