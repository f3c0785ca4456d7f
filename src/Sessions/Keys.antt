-- ===== src/Sessions/Keys.antt =====
-- The keys of sessions and of the indices do not collide.
use enclave_mail.Prelude.{◌≡◌, refl, false, Text, text_eq}
use enclave_mail.Sessions.{session_key, user_sessions_key}

pub text_eq-session_key : (h k : Text) → text_eq (session_key h) (session_key k) ≡ text_eq h k
unfolding text_eq
text_eq-session_key h k = refl

pub text_eq-user_sessions_key :
    (u v : Text) → text_eq (user_sessions_key u) (user_sessions_key v) ≡ text_eq u v
unfolding text_eq
text_eq-user_sessions_key u v = refl

pub text_eq-session-user : (h u : Text) → text_eq (session_key h) (user_sessions_key u) ≡ false
unfolding text_eq
text_eq-session-user h u = refl

pub text_eq-user-session : (u h : Text) → text_eq (user_sessions_key u) (session_key h) ≡ false
unfolding text_eq
text_eq-user-session u h = refl
