-- ===== src/Auth/Tests.antt =====
-- The theorem on auth.ts at a concrete input.
use enclave_mail.Prelude.{
  ◌≡◌, refl, false, [], arith, some, codes, text_eq, text_methods, filter, set_add, find,
}
use enclave_mail.Sessions.{create_session, validate_session, invalidate_all_sessions, del_all}
use enclave_mail.Sessions.Memory.{
  memory, memory-HasStrings, memory-HasSets, plain_platform, read-written,
}
use enclave_mail.Sessions.Reachable.{start, creation}
use enclave_mail.Auth.{goes_on, bearer_token, find_user, auth_middleware}
use enclave_mail.Auth.Revoked.{auth_middleware-invalidate_all_sessions}

abbrev one_session : memory.State
one_session = (create_session memory plain_platform memory.fresh 0 (codes "alice") (codes "t1")).0

abbrev two_sessions : memory.State
two_sessions = (create_session memory plain_platform one_session 0 (codes "bob") (codes "t2")).0

bob_goes_on :
    (auth_middleware memory plain_platform []
      (invalidate_all_sessions memory two_sessions 0 (codes "alice"))
      5
      (some (codes "Bearer t2"))).1
    ≡ goes_on (codes "bob")
unfolding text_methods auth_middleware bearer_token find_user find validate_session create_session
    invalidate_all_sessions del_all filter set_add
bob_goes_on = refl

auth_middleware-invalidate_all_sessions_example : text_eq (codes "alice") (codes "bob") ≡ false
auth_middleware-invalidate_all_sessions_example =
    auth_middleware-invalidate_all_sessions memory plain_platform memory-HasStrings memory-HasSets
      read-written [] two_sessions 0 5 (codes "alice") (some (codes "Bearer t2")) (codes "bob")
      (creation (codes "bob") (codes "t2") (creation (codes "alice") (codes "t1") start))
      (omega arith) bob_goes_on
