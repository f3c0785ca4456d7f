-- ===== src/Auth.antt =====
-- apps/server/src/middleware/auth.ts: which requests reach a handler, and as whom. The session of the
-- token is checked by the session manager, the rest in the table of users.
pub mod Revoked
mod Tests
use enclave_mail.Prelude.{
  ℕ, Bool, true, false, List, [], ◌∷◌, Option, none, some, Text, codes, text_eq, find, drop,
  starts_with, if◌then◌else◌,
}
use enclave_mail.Redis.{Redis}
use enclave_mail.Sessions.{Platform, Session, validate_session}
use enclave_mail.Inbound.Store.{UserRow}

-- The next handler is called for a user, or an error is answered.
pub data Reply : Type 0 where
  goes_on : Text → Reply
  unauthorized account_disabled key_export_required admin_required : Reply

abbrev nonempty : Text → Option Text
nonempty [] = none
nonempty (c ∷ token) = some (c ∷ token)

-- The token of an `Authorization` header.
unfoldable pub bearer_token : Option Text → Option Text
bearer_token none = none
bearer_token (some header) =
    if starts_with header (codes "Bearer ") then nonempty (drop 7 header) else none

unfoldable pub find_user : List UserRow → Text → Option UserRow
find_user users user_id = find (λ u. text_eq u.id user_id) users

abbrev pub unless_disabled : Text → Option UserRow → Reply
unless_disabled user_id none = goes_on user_id
unless_disabled user_id (some user) = if user.disabled then account_disabled else goes_on user_id

abbrev pub for_session : List UserRow → Option Session → Reply
for_session users none = unauthorized
for_session users (some session) = unless_disabled session.user_id (find_user users session.user_id)

abbrev pub with_token :
    (redis : Redis) → Platform → List UserRow → redis.State → ℕ → Option Text → redis.State × Reply
with_token redis platform users s now none = (s, unauthorized)
with_token redis platform users s now (some token) =
    let checked = validate_session redis platform s now token in
    (checked.0, for_session users checked.1)

-- `authMiddleware`.
unfoldable pub auth_middleware :
    (redis : Redis) → Platform → List UserRow → redis.State → ℕ → Option Text → redis.State × Reply
auth_middleware redis platform users s now header =
    with_token redis platform users s now (bearer_token header)

abbrev confirmed : Text → Option UserRow → Reply
confirmed user_id none = unauthorized
confirmed user_id (some user) =
    if user.key_export_confirmed then goes_on user_id else key_export_required

-- `requireKeyExport` and `requireAdmin`, which run behind it.
unfoldable pub require_key_export : List UserRow → Text → Reply
require_key_export users user_id = confirmed user_id (find_user users user_id)

abbrev admin : Text → Option UserRow → Reply
admin user_id none = unauthorized
admin user_id (some user) = if user.is_admin then goes_on user_id else admin_required

unfoldable pub require_admin : List UserRow → Text → Reply
require_admin users user_id = admin user_id (find_user users user_id)
