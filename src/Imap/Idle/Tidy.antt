-- ===== src/Imap/Idle/Tidy.antt =====
-- What a session that waits for updates holds, and that it lets go of it.
use enclave_mail.Prelude.{
  ℕ, suc, ◌≡◌, refl, true, false, [], ◌∷◌, arith, Option, none, some, Text, codes, filter, ◌⊎◌, inl,
  inr,
}
use enclave_mail.Imap.Types.{ConnectionState, selected, ok, to_tagged}
use enclave_mail.Imap.Idle.{
  Idling, unsubscribe, clear_timer, clear_idle_state, idle_mailbox, idle_in, idling_tag, done_with,
  start_idling, handle_idle, handle_done, cleanup,
}

-- A session that does not wait holds no subscription and no timer.
pub record IsQuiet (i : Idling) : Type 0 where
  pub still : (i.session).is_idling ≡ false
  pub no_tag : (i.session).idle_tag ≡ none
  pub no_unsubscribe : (i.session).idle_unsubscribe ≡ none
  pub no_timer : (i.session).idle_timer ≡ none
  pub no_subscriptions : (i.env).subscriptions ≡ []
  pub no_timers : (i.env).timers ≡ []

-- A session that waits holds one of each, and knows both handles.
pub record IsWaiting (i : Idling) : Type 0 where
  pub tag : Text
  pub mailbox_id : Text
  pub handle : ℕ
  pub timer : ℕ
  pub waits : (i.session).is_idling ≡ true
  pub has_tag : (i.session).idle_tag ≡ some tag
  pub has_unsubscribe : (i.session).idle_unsubscribe ≡ some handle
  pub has_timer : (i.session).idle_timer ≡ some timer
  pub subscribed : (i.env).subscriptions ≡ record { handle = handle; mailbox_id = mailbox_id } ∷ []
  pub timed : (i.env).timers ≡ timer ∷ []

abbrev pub IsTidy : Idling → Type 0
IsTidy i = IsQuiet i ⊎ IsWaiting i

clear_idle_state-IsQuiet : (i : Idling) → IsTidy i → IsQuiet (clear_idle_state i)
unfolding clear_idle_state clear_timer unsubscribe filter
clear_idle_state-IsQuiet i (inl q) = ground arith
clear_idle_state-IsQuiet i (inr w) = ground arith

-- Cleaning up a session that holds one subscription and one timer while it waits, and neither
-- otherwise, leaves no subscription and no timer behind.
pub cleanup-IsQuiet : (i : Idling) → IsTidy i → IsQuiet (cleanup i)
unfolding cleanup
cleanup-IsQuiet i (inl q) = ground arith
cleanup-IsQuiet i (inr w) = ground (arith, clear_idle_state-IsQuiet i (inr w))

start_idling-IsWaiting :
    (i : Idling) (tag mailbox : Text) → IsQuiet i → IsWaiting (start_idling i tag mailbox)
unfolding start_idling
start_idling-IsWaiting i tag mailbox q = record {
  tag = tag;
  mailbox_id = mailbox;
  handle = (i.env).next_handle;
  timer = suc (i.env).next_handle;
  waits = refl;
  has_tag = refl;
  has_unsubscribe = refl;
  has_timer = refl;
  subscribed = rw (q.no_subscriptions);
  timed = rw (q.no_timers);
}

idle_in-IsTidy :
    (i : Idling) (tag : Text) (m : Option Text) → IsTidy i → IsTidy (idle_in i tag m).state
idle_in-IsTidy i tag none t = t
idle_in-IsTidy i tag (some mailbox) (inl q) =
    simp (q.still) (inr (start_idling-IsWaiting i tag mailbox q))
idle_in-IsTidy i tag (some mailbox) (inr w) = simp (w.waits) (inr w)

-- `IDLE` and `DONE` keep a session tidy: it holds a subscription and a timer while it waits, and
-- neither otherwise.
pub handle_idle-IsTidy : (i : Idling) (tag : Text) → IsTidy i → IsTidy (handle_idle i tag).state
unfolding handle_idle
handle_idle-IsTidy i tag t =
    idle_in-IsTidy i tag (idle_mailbox (i.session).state (i.session).selected_mailbox) t

done_with-IsTidy : (i : Idling) (m : Option Text) → IsTidy i → IsTidy (done_with i m).state
done_with-IsTidy i none t = t
done_with-IsTidy i (some tag) t = inl (clear_idle_state-IsQuiet i t)

pub handle_done-IsTidy : (i : Idling) → IsTidy i → IsTidy (handle_done i).state
unfolding handle_done
handle_done-IsTidy i t =
    done_with-IsTidy i (idling_tag (i.session).is_idling (i.session).idle_tag) t

handle_idle-starts :
    (i : Idling) (c m : ℕ) (tag mailbox : Text)
    → IsQuiet i
    → (i.session).state ≡ selected
    → (i.session).selected_mailbox ≡ some (m ∷ mailbox)
    → (handle_idle i (c ∷ tag)).state ≡ start_idling i (c ∷ tag) (m ∷ mailbox)
unfolding handle_idle
handle_idle-starts i c m tag mailbox q s b = rw (s, b, q.still)

done_responses :
    (i : Idling) (c : ℕ) (tag mailbox : Text)
    → (handle_done (start_idling i (c ∷ tag) mailbox)).responses
      ≡ to_tagged (c ∷ tag) ok (codes "IDLE terminated") ∷ []
unfolding handle_done start_idling
done_responses i c tag mailbox = refl

done_state :
    (i : Idling) (c : ℕ) (tag mailbox : Text)
    → (handle_done (start_idling i (c ∷ tag) mailbox)).state
      ≡ clear_idle_state (start_idling i (c ∷ tag) mailbox)
unfolding handle_done start_idling
done_state i c tag mailbox = refl

-- `DONE` after an `IDLE` with a tag, in a selected session that does not wait: the answer bears the
-- tag of the `IDLE`, and nothing is held any more.
pub handle_done-handle_idle :
    (i : Idling) (c m : ℕ) (tag mailbox : Text)
    → IsQuiet i
    → (i.session).state ≡ selected
    → (i.session).selected_mailbox ≡ some (m ∷ mailbox)
    → let waiting = (handle_idle i (c ∷ tag)).state in
      (IsWaiting waiting)
      × ((handle_done waiting).responses ≡ to_tagged (c ∷ tag) ok (codes "IDLE terminated") ∷ [])
      × IsQuiet (handle_done waiting).state
handle_done-handle_idle i c m tag mailbox q s b =
    let w = start_idling-IsWaiting i (c ∷ tag) (m ∷ mailbox) q in
    rw (handle_idle-starts i c m tag mailbox q s b) (
      w,
      done_responses i c tag (m ∷ mailbox),
      rw (done_state i c tag (m ∷ mailbox))
          (clear_idle_state-IsQuiet (start_idling i (c ∷ tag) (m ∷ mailbox)) (inr w)),
    )

-- Who is logged in and what is selected makes no difference.
abbrev pub with_access : Idling → ConnectionState → Option Text → Option Text → Idling
with_access i state user mailbox = record i {
  session = record (i.session) { state = state; user_id = user; selected_mailbox = mailbox };
}

pub IsTidy-with_access :
    (i : Idling) (state : ConnectionState) (user mailbox : Option Text)
    → IsTidy i
    → IsTidy (with_access i state user mailbox)
IsTidy-with_access i state user mailbox (inl q) = inl (record {
  still = q.still;
  no_tag = q.no_tag;
  no_unsubscribe = q.no_unsubscribe;
  no_timer = q.no_timer;
  no_subscriptions = q.no_subscriptions;
  no_timers = q.no_timers;
})
IsTidy-with_access i state user mailbox (inr w) = inr (record {
  tag = w.tag;
  mailbox_id = w.mailbox_id;
  handle = w.handle;
  timer = w.timer;
  waits = w.waits;
  has_tag = w.has_tag;
  has_unsubscribe = w.has_unsubscribe;
  has_timer = w.has_timer;
  subscribed = w.subscribed;
  timed = w.timed;
})
