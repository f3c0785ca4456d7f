-- ===== src/Imap/Message/Actions/Expunge.antt =====
-- What `EXPUNGE` of commands/message.ts leaves in the mailbox, and the counters that it writes.
use enclave_mail.Prelude.{
  ℕ, suc, ◌≡◌, ◌≢◌, refl, ◌∙◌, sym, ap, Bool, true, false, not, ◌&&◌, List, [], ◌∷◌, map, arith,
  some, Text, text_eq, text_eq_refl, text_Eq, length, contains, filter, All, Bool-cases, inl, inr,
  if◌then◌else◌,
}
use mathlib.Core.Path.{subst}
use enclave_mail.Imap.Types.{Result}
use enclave_mail.Imap.Database.{
  Database, MailboxRow, MessageRow, in_mailbox, insert_by_uid, order_by_uid, list_messages,
  update_mailboxes, update_mailbox_counters, delete_messages,
}
use enclave_mail.Imap.Message.Flags.{seen, deleted}
use enclave_mail.Imap.Message.Store.{delete_messages_by_ids}
use enclave_mail.Imap.Message.Replies.{index_from, unread_count}
use enclave_mail.Imap.Message.Actions.{is_deleted, remaining_after, handle_expunge}

-- How many messages pass a test.
tally : (MessageRow → Bool) → List MessageRow → ℕ
tally p [] = 0
tally p (m ∷ ms) = if p m then suc (tally p ms) else tally p ms

abbrev marked : MessageRow → Bool
marked m = contains m.flags deleted

abbrev ids_of : List MessageRow → List Text
ids_of ms = map (λ m. m.id) ms

length-tally : (ms : List MessageRow) → length ms ≡ tally (λ m. true) ms
unfolding tally
length-tally [] = refl
length-tally (m ∷ ms) = ap suc (length-tally ms)

unread_count-tally :
    (ms : List MessageRow) → unread_count ms ≡ tally (λ m. not (contains m.flags seen)) ms
unfolding tally unread_count
unread_count-tally [] = refl
unread_count-tally (m ∷ ms) = ground (arith, unread_count-tally ms)

module _ (p : MessageRow → Bool) where
  tally-insert_by_uid :
      (m : MessageRow) (ns : List MessageRow) → tally p (insert_by_uid m ns) ≡ tally p (m ∷ ns)
  unfolding tally insert_by_uid
  tally-insert_by_uid m [] = refl
  tally-insert_by_uid m (n ∷ ns) = ground (arith, tally-insert_by_uid m ns)

  tally-order_by_uid : (ms : List MessageRow) → tally p (order_by_uid ms) ≡ tally p ms
  unfolding tally order_by_uid
  tally-order_by_uid [] = refl
  tally-order_by_uid (m ∷ ms) =
      tally-insert_by_uid m (order_by_uid ms)
      ∙ ap (λ k. if p m then suc k else k) (tally-order_by_uid ms)

  -- Two filters in either order leave as many.
  tally-filter-filter :
      (q r : MessageRow → Bool) (ms : List MessageRow)
      → tally p (filter q (filter r ms)) ≡ tally p (filter r (filter q ms))
  unfolding tally filter
  tally-filter-filter q r [] = refl
  tally-filter-filter q r (m ∷ ms) = ground (arith, tally-filter-filter q r ms)

  -- A filter depends on the number of messages only.
  tally-filter :
      (q : MessageRow → Bool) (ms : List MessageRow)
      → tally p (filter q ms) ≡ tally (λ m. q m && p m) ms
  unfolding tally filter
  tally-filter q [] = refl
  tally-filter q (m ∷ ms) = ground (arith, tally-filter q ms)

tally-left :
    (p i q : MessageRow → Bool) (ms : List MessageRow)
    → tally p (order_by_uid (filter i (filter q ms)))
      ≡ tally p (filter q (order_by_uid (filter i ms)))
tally-left p i q ms =
    tally-order_by_uid p (filter i (filter q ms))
    ∙ tally-filter-filter p i q ms
    ∙ tally-filter p q (filter i ms)
    ∙ sym (tally-order_by_uid (λ m. q m && p m) (filter i ms))
    ∙ sym (tally-filter p q (order_by_uid (filter i ms)))

abbrev kept : List Text → MessageRow → Bool
kept ids m = not (contains ids m.id)

remaining_after-index_from :
    (ids : List Text) (n : ℕ) (ms : List MessageRow)
    → remaining_after ids (index_from n ms) ≡ filter (kept ids) ms
unfolding remaining_after index_from filter
remaining_after-index_from ids n [] = refl
remaining_after-index_from ids n (m ∷ ms) =
    ground (arith, remaining_after-index_from ids (suc n) ms)

deletions-index_from :
    (n : ℕ) (ms : List MessageRow)
    → map (λ e. (e.message).id) (filter is_deleted (index_from n ms)) ≡ ids_of (filter marked ms)
unfolding index_from filter
deletions-index_from n [] = refl
deletions-index_from n (m ∷ ms) = ground (arith, deletions-index_from (suc n) ms)

-- A list of ids has the id of every marked message.
abbrev Covers : List Text → List MessageRow → Type 0
Covers ids ms = All (λ m. marked m ≡ true → contains ids m.id ≡ true) ms

Covers-cons :
    (id : Text) (ids : List Text) (ms : List MessageRow) → Covers ids ms → Covers (id ∷ ids) ms
Covers-cons id ids [] h = tt
Covers-cons id ids (m ∷ ms) h = (λ e. let hit = h.0 e in ground arith, Covers-cons id ids ms h.1)

marked_first :
    (m : MessageRow) (ms : List MessageRow)
    → marked m ≡ true
    → filter marked (m ∷ ms) ≡ m ∷ filter marked ms
unfolding filter
marked_first m ms e = rw e

unmarked_first :
    (m : MessageRow) (ms : List MessageRow)
    → marked m ≡ false
    → filter marked (m ∷ ms) ≡ filter marked ms
unfolding filter
unmarked_first m ms e = rw e

Covers-marked : (ms : List MessageRow) → Covers (ids_of (filter marked ms)) ms
Covers-marked [] = tt
Covers-marked (m ∷ ms) = elim (Bool-cases (marked m)) [
  | inl e ↦
      subst (λ left. Covers (ids_of left) (m ∷ ms)) (sym (marked_first m ms e))
        (
          λ _. rw (text_eq_refl m.id),
          Covers-cons m.id (ids_of (filter marked ms)) ms (Covers-marked ms),
        )
  | inr e ↦
      subst (λ left. Covers (ids_of left) (m ∷ ms)) (sym (unmarked_first m ms e))
        (absurd_marked m e, Covers-marked ms)
]
  where
    absurd_marked :
        (m : MessageRow)
        → marked m ≡ false
        → marked m ≡ true
        → contains (ids_of (filter marked ms)) m.id ≡ true
    absurd_marked m e h = cc

none_marked :
    (ids : List Text) (ms : List MessageRow)
    → Covers ids ms
    → tally marked (filter (kept ids) ms) ≡ 0
unfolding tally filter
none_marked ids [] h = refl
none_marked ids (m ∷ ms) h = elim (Bool-cases (marked m)) [
  | inl e ↦ let hit = h.0 e in ground (arith, none_marked ids ms h.1)
  | inr e ↦ ground (arith, none_marked ids ms h.1)
]

-- The counters of a mailbox are those of its messages.
abbrev pub Counts : Text → Database → MailboxRow → Type 0
Counts mailbox_id db b =
    text_eq b.id mailbox_id ≡ true
    → (b.message_count ≡ length (list_messages mailbox_id db))
      × (b.unread_count ≡ unread_count (list_messages mailbox_id db))

update_mailboxes-All :
    (P : MailboxRow → Type 0) (id : Text) (f : MailboxRow → MailboxRow) (bs : List MailboxRow)
    → ((b : MailboxRow) → P (f b))
    → ((b : MailboxRow) → text_eq b.id id ≡ false → P b)
    → All P (update_mailboxes id f bs)
unfolding update_mailboxes
update_mailboxes-All P id f [] h k = tt
update_mailboxes-All P id f (b ∷ bs) h k = elim (Bool-cases (text_eq b.id id)) [
  | inl e ↦ simp e (h b, update_mailboxes-All P id f bs h k)
  | inr e ↦ simp e (k b e, update_mailboxes-All P id f bs h k)
]

-- The messages of the mailbox that are left, counted by a test before and after the deletion.
tally-list_messages :
    (p : MessageRow → Bool) (ids : List Text) (mailbox_id : Text) (db : Database)
    → tally p (list_messages mailbox_id (delete_messages_by_ids ids db))
      ≡ tally p (filter (kept ids) (list_messages mailbox_id db))
unfolding list_messages delete_messages_by_ids delete_messages
tally-list_messages p ids mailbox_id db =
    tally-left p (in_mailbox mailbox_id) (kept ids) db.messages

module _ (mailbox_id : Text) (db : Database) where
  abbrev gone : List Text
  gone = ids_of (filter marked (list_messages mailbox_id db))

  abbrev left : Database
  left = delete_messages_by_ids gone db

  left_messages : List MessageRow
  left_messages = filter (kept gone) (list_messages mailbox_id db)

  expunged : Database
  expunged =
      update_mailbox_counters mailbox_id (length left_messages) (unread_count left_messages) left

  length-left : length left_messages ≡ length (list_messages mailbox_id left)
  unfolding left_messages
  length-left =
      length-tally left_messages
      ∙ sym (tally-list_messages (λ m. true) gone mailbox_id db)
      ∙ sym (length-tally (list_messages mailbox_id left))

  unread_count-left : unread_count left_messages ≡ unread_count (list_messages mailbox_id left)
  unfolding left_messages
  unread_count-left =
      unread_count-tally left_messages
      ∙ sym (tally-list_messages (λ m. not (contains m.flags seen)) gone mailbox_id db)
      ∙ sym (unread_count-tally (list_messages mailbox_id left))

  list_messages-expunged : list_messages mailbox_id expunged ≡ list_messages mailbox_id left
  unfolding expunged update_mailbox_counters list_messages
  list_messages-expunged = refl

  expunged-Counts : All (Counts mailbox_id expunged) expunged.mailboxes
  unfolding expunged update_mailbox_counters
  expunged-Counts =
      update_mailboxes-All (Counts mailbox_id expunged) mailbox_id _ left.mailboxes
        (λ b same. (
          length-left ∙ ap length (sym list_messages-expunged),
          unread_count-left ∙ ap unread_count (sym list_messages-expunged),
        ))
        (λ b other same. absurd (false_true (sym other ∙ same)))
    where
      false_true : false ≡ true → ⊥
      false_true e = cc

  abbrev written : List Text → List MessageRow → Database
  written ids rest =
      update_mailbox_counters mailbox_id (length rest) (unread_count rest)
        (delete_messages_by_ids ids db)

  handle_expunge-expunged :
      (tag : Text)
      → (r : Result Database) × (handle_expunge tag db
            (index_from 1 (list_messages mailbox_id db))
            mailbox_id
          ≡ some r)
        × (r.state ≡ expunged)
  unfolding handle_expunge expunged left_messages
  handle_expunge-expunged tag =
      let indexed = index_from 1 (list_messages mailbox_id db) in
      (
        _,
        refl,
        ap (λ ids. written ids (remaining_after ids indexed))
              (deletions-index_from 1 (list_messages mailbox_id db))
            ∙ ap (written gone) (remaining_after-index_from gone 1 (list_messages mailbox_id db)),
      )

  tally-marked : tally marked (list_messages mailbox_id expunged) ≡ 0
  tally-marked =
      ap (tally marked) list_messages-expunged
      ∙ tally-list_messages marked gone mailbox_id db
      ∙ none_marked gone (list_messages mailbox_id db) (Covers-marked (list_messages mailbox_id db))

suc_ne_zero : (n : ℕ) → suc n ≢ 0
suc_ne_zero n e = omega arith

none_of_tally :
    (ms : List MessageRow) → tally marked ms ≡ 0 → All (λ m. contains m.flags deleted ≡ false) ms
unfolding tally
none_of_tally [] e = tt
none_of_tally (m ∷ ms) e = elim (Bool-cases (marked m)) [
  | inl hit ↦ absurd (suc_ne_zero (tally marked ms) (simp hit at e))
  | inr miss ↦ (miss, none_of_tally ms (simp miss at e))
]

-- `EXPUNGE` succeeds on every mailbox: afterwards no message of the mailbox is marked as deleted, and
-- the counters of the mailbox are the number of its messages and of the unread ones among them.
pub handle_expunge-Counts :
    (tag mailbox_id : Text) (db : Database)
    → (r : Result Database) × (handle_expunge tag db
          (index_from 1 (list_messages mailbox_id db))
          mailbox_id
        ≡ some r)
      × All (λ m. contains m.flags deleted ≡ false) (list_messages mailbox_id (r.state))
      × All (Counts mailbox_id (r.state)) (r.state).mailboxes
handle_expunge-Counts tag mailbox_id db =
    let (r, e, same) = handle_expunge-expunged mailbox_id db tag in
    (
      r,
      e,
      rw same (
          none_of_tally (list_messages mailbox_id (expunged mailbox_id db))
            (tally-marked mailbox_id db)),
      rw same (expunged-Counts mailbox_id db),
    )
