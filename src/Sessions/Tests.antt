-- ===== src/Sessions/Tests.antt =====
-- The theorems on session-manager.ts at concrete inputs.
use enclave_mail.Prelude.{
  ◌≡◌, refl, false, arith, none, some, Text, codes, text_eq, ltb, if◌then◌else◌, filter, set_add,
  contains, text_Eq,
}
use enclave_mail.Sessions.{
  Session, expiry, create_session, validate_session, invalidate_session, invalidate_all_sessions,
  del_all, session_key, user_sessions_key, session_record,
}
use enclave_mail.Sessions.Memory.{
  memory, memory-HasStrings, memory-HasSets, plain_platform, read-written,
}
use enclave_mail.Sessions.Lifetime.{validate_session-create_session}
use enclave_mail.Sessions.Later.{Later}
use enclave_mail.Sessions.Afterwards.{validate_session-invalidate_session}
use enclave_mail.Sessions.Reachable.{
  Reachable, start, creation, validate_session-invalidate_all_sessions,
}

abbrev alice : Text
alice = codes "alice"

abbrev bob : Text
bob = codes "bob"

abbrev alice_token : Text
alice_token = codes "t1"

abbrev bob_token : Text
bob_token = codes "t2"

-- Both log in at time 0.
abbrev one_session : memory.State
one_session = (create_session memory plain_platform memory.fresh 0 alice alice_token).0

abbrev two_sessions : memory.State
two_sessions = (create_session memory plain_platform one_session 0 bob bob_token).0

two_sessions-Reachable : Reachable memory plain_platform two_sessions 0
two_sessions-Reachable = creation bob bob_token (creation alice alice_token start)

abbrev bob_session : Session
bob_session = record { user_id = bob; expires_at = 86400000 }

bob_validates :
    (validate_session memory plain_platform
      (invalidate_all_sessions memory two_sessions 0 alice)
      5
      bob_token).1
    ≡ some bob_session
unfolding validate_session create_session invalidate_all_sessions del_all text_eq filter set_add
bob_validates = refl

alice_is_out :
    (validate_session memory plain_platform
      (invalidate_all_sessions memory two_sessions 0 alice)
      5
      alice_token).1
    ≡ none
unfolding validate_session create_session invalidate_all_sessions del_all text_eq filter set_add
alice_is_out = refl

validate_session-invalidate_all_sessions_example : text_eq alice bob ≡ false
validate_session-invalidate_all_sessions_example =
    validate_session-invalidate_all_sessions memory plain_platform memory-HasStrings memory-HasSets
      read-written two_sessions 0 5 alice bob_token bob_session two_sessions-Reachable (omega arith)
      bob_validates

validate_session-create_session_example :
    (validate_session memory plain_platform one_session 5 alice_token).1 ≡ (
      if ltb 5 (expiry plain_platform 0)
      then some (record { user_id = alice; expires_at = expiry plain_platform 0 })
      else none)
validate_session-create_session_example =
    validate_session-create_session memory plain_platform memory-HasStrings memory-HasSets
      read-written memory.fresh 0 5 alice alice_token (λ time. refl) (omega arith)

-- The session is invalidated at time 0; at time 5 its token is tried and bob logs in again.
abbrev alice_out : memory.State
alice_out = invalidate_session memory plain_platform two_sessions 0 alice_token

abbrev tried : memory.State
tried = (validate_session memory plain_platform alice_out 5 alice_token).0

abbrev bob_again : memory.State
bob_again = (create_session memory plain_platform tried 5 bob (codes "t3")).0

bob_again-Later : Later memory plain_platform (codes "t1") alice_out 0 bob_again 5
bob_again-Later =
    Later.creation bob (codes "t3") (unfold text_eq in refl)
      (Later.validation alice_token (Later.passed 5 (omega arith) Later.start))

alice_stored :
    memory.get two_sessions 0 (session_key (codes "t1"))
    ≡ some (session_record plain_platform 0 alice)
unfolding create_session text_eq
alice_stored = refl

validate_session-invalidate_session_example :
    ((validate_session memory plain_platform bob_again 5 alice_token).1 ≡ none)
    × (contains
          (memory.smembers alice_out 7 (
            user_sessions_key
              (plain_platform.parse (session_record plain_platform 0 alice)).user_id))
          (codes "t1")
        ≡ false)
    × ((validate_session memory plain_platform alice_out 7 bob_token).1
        ≡ (validate_session memory plain_platform two_sessions 7 bob_token).1)
validate_session-invalidate_session_example =
    validate_session-invalidate_session memory plain_platform memory-HasStrings memory-HasSets
      two_sessions 0 alice_token (session_record plain_platform 0 alice) alice_token bob_token
      bob_again 5 7 alice_stored refl (unfold text_eq in refl) bob_again-Later (omega arith)
