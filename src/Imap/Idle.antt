-- ===== src/Imap/Idle.antt =====
-- apps/server/src/imap/commands/idle.ts. The environment gives out a handle for each subscription to
-- mailbox updates and for each timer, and keeps those that are still in force.
pub mod Tidy
use enclave_mail.Prelude.{
  ℕ, suc, Bool, true, false, not, ◌&&◌, ◌||◌, List, [], ◌∷◌, ◌++◌, Option, none, some, Text, codes,
  show, nat_eq, text_eq, filter, any, if◌then◌else◌,
}
use enclave_mail.Imap.Types.{
  Session, ConnectionState, not_authenticated, authenticated, selected, logout, Response, Status,
  ok, bad, to_tagged, text, crlf,
}

pub record Subscription : Type 0 where
  pub handle : ℕ
  pub mailbox_id : Text

pub record Environment : Type 0 where
  pub subscriptions : List Subscription
  pub timers : List ℕ
  pub next_handle : ℕ

-- A session with its environment, and the responses of a call.
pub record Idling : Type 0 where
  pub session : Session
  pub env : Environment

pub record IdleResult : Type 0 where
  pub state : Idling
  pub responses : List Response

unfoldable pub unsubscribe : Option ℕ → Environment → Environment
unsubscribe none env = env
unsubscribe (some h) env = record env {
  subscriptions = filter (λ s. not (nat_eq s.handle h)) env.subscriptions;
}

unfoldable pub clear_timer : Option ℕ → Environment → Environment
clear_timer none env = env
clear_timer (some h) env = record env { timers = filter (λ t. not (nat_eq t h)) env.timers }

-- `clearIdleState`.
unfoldable pub clear_idle_state : Idling → Idling
clear_idle_state i = record {
  session = record (i.session) {
    is_idling = false;
    idle_tag = none;
    idle_unsubscribe = none;
    idle_timer = none;
  };
  env = clear_timer (i.session).idle_timer (unsubscribe (i.session).idle_unsubscribe i.env);
}

-- The mailbox that is open, if there is one.
abbrev pub idle_mailbox : ConnectionState → Option Text → Option Text
idle_mailbox selected (some (h ∷ s)) = some (h ∷ s)
idle_mailbox _ _ = none

-- The subscription first, then the timer.
unfoldable pub start_idling : Idling → Text → Text → Idling
start_idling i tag mailbox_id =
    let h = (i.env).next_handle in
    record {
      session = record (i.session) {
        is_idling = true;
        idle_tag = some tag;
        idle_unsubscribe = some h;
        idle_timer = some (suc h);
      };
      env = record {
        subscriptions = record { handle = h; mailbox_id = mailbox_id } ∷ (i.env).subscriptions;
        timers = suc h ∷ (i.env).timers;
        next_handle = suc (suc h);
      };
    }

abbrev pub answer : Idling → Text → Status → Text → IdleResult
answer i tag status message = record { state = i; responses = to_tagged tag status message ∷ [] }

abbrev pub idle_in : Idling → Text → Option Text → IdleResult
idle_in i tag none = answer i tag bad (codes "Not in selected state")
idle_in i tag (some mailbox_id) =
    if (i.session).is_idling then answer i tag bad (codes "Already idling") else record {
      state = start_idling i tag mailbox_id;
      responses = text (codes "+ idling" ++ crlf) ∷ [];
    }

-- `handleIdle`.
unfoldable pub handle_idle : Idling → Text → IdleResult
handle_idle i tag = idle_in i tag (idle_mailbox (i.session).state (i.session).selected_mailbox)

-- The tag of a session that idles.
abbrev pub idling_tag : Bool → Option Text → Option Text
idling_tag true (some (h ∷ s)) = some (h ∷ s)
idling_tag _ _ = none

abbrev pub done_with : Idling → Option Text → IdleResult
done_with i none = record { state = i; responses = text (codes "BAD Not idling" ++ crlf) ∷ [] }
done_with i (some tag) = answer (clear_idle_state i) tag ok (codes "IDLE terminated")

-- `handleDone`.
unfoldable pub handle_done : Idling → IdleResult
handle_done i = done_with i (idling_tag (i.session).is_idling (i.session).idle_tag)

unfoldable pub cleanup : Idling → Idling
cleanup i = if (i.session).is_idling then clear_idle_state i else i

-- What the callbacks do: the timer ends the connection, an update is pushed to each subscription.
unfoldable pub idle_timeout : Idling → IdleResult
idle_timeout i = record {
  state = clear_idle_state i;
  responses = text (codes "* BYE IDLE timeout" ++ crlf) ∷ [];
}

unfoldable pub push_updates : Text → ℕ → List Subscription → List Response
push_updates mailbox_id count [] = []
push_updates mailbox_id count (s ∷ subscriptions) =
    let rest = push_updates mailbox_id count subscriptions in
    if text_eq s.mailbox_id mailbox_id
    then text (codes "* " ++ (show count ++ (codes " EXISTS" ++ crlf))) ∷ rest
    else rest
