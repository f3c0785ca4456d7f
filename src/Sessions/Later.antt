-- ===== src/Sessions/Later.antt =====
-- The states that later operations of session-manager.ts lead to, and a record that stays away in them.
use enclave_mail.Prelude.{
  ℕ, ◌≤◌, ◌≡◌, refl, sym, ◌∙◌, Bool, true, false, map, arith, Option, none, some, Text, text_eq,
  text_Eq, leb,
}
use enclave_mail.Redis.{Redis, HasStrings, HasSets}
use enclave_mail.Sessions.{
  Session, Platform, session_key, user_sessions_key, create_session, validate_session, session_of,
  unless_expired, check_record, unindex, invalidate_session, del_all, invalidate_all_sessions,
}
use enclave_mail.Sessions.Creation.{get-stored-other}
use enclave_mail.Sessions.Removal.{get-del-kept, get-del_all-kept}
use enclave_mail.Sessions.Keys.{text_eq-user-session}

-- The states that the operations lead to from a state, at moving times, while no session is created with
-- the given hash.
pub data Later (redis : Redis) (platform : Platform) (hash : Text) (before : redis.State) (from : ℕ)
    : redis.State → ℕ → Type 0 where
  start : Later redis platform hash before from before from
  passed :
      {s : redis.State} {now : ℕ} (later : ℕ)
      → now ≤ later
      → Later redis platform hash before from s now
      → Later redis platform hash before from s later
  creation :
      {s : redis.State} {now : ℕ} (user raw : Text)
      → text_eq (platform.hash_token raw) hash ≡ false
      → Later redis platform hash before from s now
      → Later redis platform hash before from (create_session redis platform s now user raw).0 now
  validation :
      {s : redis.State} {now : ℕ} (token : Text)
      → Later redis platform hash before from s now
      → Later redis platform hash before from (validate_session redis platform s now token).0 now
  invalidation :
      {s : redis.State} {now : ℕ} (token : Text)
      → Later redis platform hash before from s now
      → Later redis platform hash before from (invalidate_session redis platform s now token) now
  invalidation_of_all :
      {s : redis.State} {now : ℕ} (user : Text)
      → Later redis platform hash before from s now
      → Later redis platform hash before from (invalidate_all_sessions redis s now user) now

-- What was not there is not there, if all that is there was there before.
none_of_kept :
    (after before : Option Text)
    → ((v : Text) → after ≡ some v → before ≡ some v)
    → before ≡ none
    → after ≡ none
none_of_kept none before kept gone = refl
none_of_kept (some v) before kept gone = absurd (apart v (sym (kept v refl) ∙ gone))
  where
    apart : (v : Text) → some v ≡ none → ⊥
    apart v e = cc

module _ (redis : Redis) (platform : Platform) (strings : HasStrings redis) (sets : HasSets redis)
    (hash : Text) where
  -- No record of the session is there from `now` on.
  abbrev pub Gone : redis.State → ℕ → Type 0
  Gone s now = (t : ℕ) → now ≤ t → redis.get s t (session_key hash) ≡ none

  del-Gone : (s : redis.State) (now : ℕ) (key : Text) → Gone s now → Gone (redis.del s key) now
  del-Gone s now key gone t le =
      none_of_kept (redis.get (redis.del s key) t (session_key hash))
        (redis.get s t (session_key hash))
        (λ v e. (get-del-kept redis platform strings sets s t key (session_key hash) v e).1)
        (gone t le)

  unless_expired-Gone :
      (s : redis.State) (now : ℕ) (key : Text) (session : Session) (expired : Bool)
      → Gone s now
      → Gone (unless_expired redis s key session expired).0 now
  unless_expired-Gone s now key session true gone = del-Gone s now key gone
  unless_expired-Gone s now key session false gone = gone

  check_record-Gone :
      (s : redis.State) (now : ℕ) (key : Text) (stored : Option Text)
      → Gone s now
      → Gone (check_record redis platform s now key stored).0 now
  check_record-Gone s now key none gone = gone
  check_record-Gone s now key (some raw) gone =
      let session = session_of platform (platform.parse raw) in
      unless_expired-Gone s now key session (leb session.expires_at now) gone

  unindex-Gone :
      (s : redis.State) (now : ℕ) (h : Text) (stored : Option Text)
      → Gone s now
      → Gone (unindex redis platform s now h stored) now
  unindex-Gone s now h none gone = gone
  unindex-Gone s now h (some raw) gone =
      let owner = (platform.parse raw).user_id in
      λ t le.
        strings.get-srem-other s now t (user_sessions_key owner) h (session_key hash)
          (text_eq-user-session owner hash)
        ∙ gone t le

  creation-Gone :
      (s : redis.State) (now : ℕ) (user raw : Text)
      → text_eq (platform.hash_token raw) hash ≡ false
      → Gone s now
      → Gone (create_session redis platform s now user raw).0 now
  unfolding create_session
  creation-Gone s now user raw other gone t le =
      none_of_kept _ (redis.get s t (session_key hash))
        (λ v e. get-stored-other redis platform strings sets s now user raw t hash v other e)
        (gone t le)

  invalidation_of_all-Gone :
      (s : redis.State) (now : ℕ) (user : Text)
      → Gone s now
      → Gone (invalidate_all_sessions redis s now user) now
  unfolding invalidate_all_sessions
  invalidation_of_all-Gone s now user gone =
      let hashes = redis.smembers s now (user_sessions_key user) in
      let removed = del_all redis s (map session_key hashes) in
      let all_gone : Gone removed now = λ t le.
        none_of_kept (redis.get removed t (session_key hash)) (redis.get s t (session_key hash))
          (λ v e. (get-del_all-kept redis platform strings sets hashes s t hash v e).1)
          (gone t le) in
      del-Gone removed now (user_sessions_key user) all_gone

  pub Later-Gone :
      (before : redis.State) (from : ℕ) (s : redis.State) (now : ℕ)
      → Later redis platform hash before from s now
      → Gone before from
      → Gone s now
  unfolding validate_session invalidate_session
  Later-Gone before from s now start gone = gone
  Later-Gone before from s now (passed {s = same} {now = earlier} later le r) gone =
      λ t le_t. Later-Gone before from same earlier r gone t (omega (arith, le, le_t))
  Later-Gone before from s now (creation {s = old} user raw other r) gone =
      creation-Gone old now user raw other (Later-Gone before from old now r gone)
  Later-Gone before from s now (validation {s = old} token r) gone =
      let key = session_key (platform.hash_token token) in
      check_record-Gone old now key (redis.get old now key) (Later-Gone before from old now r gone)
  Later-Gone before from s now (invalidation {s = old} token r) gone =
      let h = platform.hash_token token in
      let stored = redis.get old now (session_key h) in
      del-Gone (unindex redis platform old now h stored) now (session_key h)
        (unindex-Gone old now h stored (Later-Gone before from old now r gone))
  Later-Gone before from s now (invalidation_of_all {s = old} user r) gone =
      invalidation_of_all-Gone old now user (Later-Gone before from old now r gone)
