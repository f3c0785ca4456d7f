-- ===== src/Imap/Message/Store/Uids.antt =====
-- What `copyMessages` and `appendStubMessage` store, and that they succeed.
use enclave_mail.Prelude.{
  ℕ, zero, suc, ◌+◌, ◌≡◌, ◌≢◌, refl, ◌∙◌, sym, ap, Bool, true, false, List, [], ◌∷◌, ◌++◌,
  append_assoc, append-nil, arith, Option, none, some, Text, text_eq, text_eq_iff, text_Eq,
  contains, length, any, All-append, if◌then◌else◌,
}
use enclave_mail.Imap.Database.{
  Database, MailboxRow, MessageRow, BodyRow, update_mailboxes, find_mailbox_by_id,
}
use enclave_mail.Imap.Database.Integrity.{
  Below, UidBelow, Below-mono, IsBounded, insert_message-eq, find_mailbox_by_id-known, find-All,
  update_mailboxes-bounded,
}
use enclave_mail.Imap.Message.Flags.{seen, normalize_db_flags}
use enclave_mail.Imap.Message.Store.{
  Copying, copied_row, copy_body, copy_message, copy_loop, add_copies, finish_copy, copy_into,
  copy_messages, get_message_body,
}

-- The numbers from `start`, `count` of them.
pub count_up : ℕ → ℕ → List ℕ
count_up start zero = []
count_up start (suc count) = start ∷ count_up (start + 1) count

-- How many of the messages are unread.
pub unread_in : List MessageRow → ℕ
unread_in [] = 0
unread_in (m ∷ ms) = if contains m.flags seen then unread_in ms else suc (unread_in ms)

text_ne : (s t : Text) → text_eq s t ≡ false → s ≢ t
text_ne s t e p = let same = (text_eq_iff s t).1 p in cc

length-count_up : (start count : ℕ) → length (count_up start count) ≡ count
unfolding count_up
length-count_up start zero = refl
length-count_up start (suc count) = ap suc (length-count_up (start + 1) count)

count_step : (b : Bool) (n k : ℕ) → (if b then n else n + 1) + k ≡ n + (if b then k else suc k)
count_step true n k = refl
count_step false n k = omega arith

-- The destination that is found bounds its uids.
find-bounded :
    (id : Text) (db : Database) (b : MailboxRow)
    → find_mailbox_by_id id db ≡ some b
    → IsBounded db
    → Below id b.uid_next db.messages × (any (λ r. text_eq r.id id) db.mailboxes ≡ true)
unfolding find_mailbox_by_id
find-bounded id db b found bounded =
    let (below, same) =
      find-All (λ r. Below r.id r.uid_next db.messages) (λ r. text_eq r.id id) db.mailboxes b
        bounded found in
    (rw ((text_eq_iff b.id id).0 same) at below, find_mailbox_by_id-known db.mailboxes id b found)

module _ (uuid : ℕ → Text) (id : Text) where
  -- The copies of a list of messages: fresh ids and consecutive uids, in the destination.
  pub copied_rows : ℕ → ℕ → List MessageRow → List MessageRow
  copied_rows next_id uid [] = []
  copied_rows next_id uid (m ∷ ms) =
      record m { id = uuid next_id; mailbox_id = id; uid = uid; flags = normalize_db_flags m.flags }
      ∷ copied_rows (suc next_id) (uid + 1) ms

  -- What the loop has done when it ends at `d`.
  pub record Copied (c : Copying) (sources : List MessageRow) (d : Copying) : Type 0 where
    pub uids : d.destination_uids ≡ c.destination_uids ++ count_up c.next_uid (length sources)
    pub unread : d.unread_delta ≡ c.unread_delta + unread_in sources
    pub same_mailboxes : (d.db).mailboxes ≡ (c.db).mailboxes
    pub stored : (d.db).messages ≡ (c.db).messages ++ copied_rows (c.db).next_id c.next_uid sources
    pub bounded : Below id (c.next_uid + length sources) (d.db).messages

  copy_body-kept :
      (new_id : Text) (body : Option BodyRow) (db : Database)
      → ((copy_body uuid new_id body db).mailboxes ≡ db.mailboxes)
        × ((copy_body uuid new_id body db).messages ≡ db.messages)
        × ((copy_body uuid new_id body db).next_id ≡ db.next_id)
  unfolding copy_body
  copy_body-kept new_id none db = (refl, refl, refl)
  copy_body-kept new_id (some body) db = (refl, refl, refl)

  -- The database after the insert of one round, and the state after the round.
  abbrev inserted : Copying → MessageRow → Database
  inserted c source = record (c.db) {
    messages = (c.db).messages ++ copied_row uuid id c source ∷ [];
    next_id = suc (c.db).next_id;
  }

  abbrev stepped : Copying → MessageRow → Copying
  stepped c source = record {
    destination_uids = c.destination_uids ++ c.next_uid ∷ [];
    next_uid = c.next_uid + 1;
    unread_delta = (if contains source.flags seen then c.unread_delta else c.unread_delta + 1);
    db =
        copy_body uuid (uuid (c.db).next_id) (get_message_body source.id (inserted c source))
          (inserted c source);
  }

  copy_message-eq :
      (c : Copying) (source : MessageRow)
      → Below id c.next_uid (c.db).messages
      → any (λ b. text_eq b.id id) (c.db).mailboxes ≡ true
      → copy_message uuid id c source ≡ some (stepped c source)
  unfolding copy_message
  copy_message-eq c source h known =
      rw (insert_message-eq (copied_row uuid id c source) c.db h known, copy_message)

  stepped-kept :
      (c : Copying) (source : MessageRow)
      → ((stepped c source).db.mailboxes ≡ (c.db).mailboxes)
        × ((stepped c source).db.messages ≡ (inserted c source).messages)
        × ((stepped c source).db.next_id ≡ (inserted c source).next_id)
  stepped-kept c source =
      copy_body-kept (uuid (c.db).next_id) (get_message_body source.id (inserted c source))
        (inserted c source)

  stepped-Below :
      (c : Copying) (source : MessageRow)
      → Below id c.next_uid (c.db).messages
      → Below id (c.next_uid + 1) (inserted c source).messages
  stepped-Below c source h =
      All-append (UidBelow id (c.next_uid + 1)) (c.db).messages (copied_row uuid id c source ∷ [])
        (Below-mono id c.next_uid (c.next_uid + 1) (c.db).messages (omega arith) h)
        (λ e. omega arith, tt)

  Copied-cons :
      (c : Copying) (source : MessageRow) (sources : List MessageRow) (d : Copying)
      → Copied (stepped c source) sources d
      → Copied c (source ∷ sources) d
  unfolding count_up unread_in copied_rows
  Copied-cons c source sources d r =
      let kept = stepped-kept c source in
      record {
        uids = r.uids ∙ append_assoc c.destination_uids (c.next_uid ∷ []) _;
        unread =
            r.unread ∙ count_step (contains source.flags seen) c.unread_delta (unread_in sources);
        same_mailboxes = r.same_mailboxes ∙ kept.0;
        stored =
            simp (kept.1, kept.2) at (r.stored)
            ∙ append_assoc (c.db).messages (copied_row uuid id c source ∷ []) _;
        bounded =
            Below-mono id (c.next_uid + 1 + length sources) (c.next_uid + suc (length sources))
              (d.db).messages (omega arith) r.bounded;
      }

  copy_loop-Copied :
      (c : Copying) (sources : List MessageRow)
      → Below id c.next_uid (c.db).messages
      → any (λ b. text_eq b.id id) (c.db).mailboxes ≡ true
      → (d : Copying) × (copy_loop uuid id c sources ≡ some d) × Copied c sources d
  unfolding copy_loop count_up unread_in copied_rows
  copy_loop-Copied c [] h known = (
    c,
    refl,
    record {
      uids = sym (append-nil c.destination_uids);
      unread = omega arith;
      same_mailboxes = refl;
      stored = sym (append-nil (c.db).messages);
      bounded = Below-mono id c.next_uid (c.next_uid + 0) (c.db).messages (omega arith) h;
    },
  )
  copy_loop-Copied c (source ∷ sources) h known =
      let next = stepped c source in
      let kept = stepped-kept c source in
      let (d, e, r) =
        copy_loop-Copied next sources (rw (kept.1) (stepped-Below c source h))
          (rw (kept.0) known) in
      (d, rw (copy_message-eq c source h known, copy_loop) e, Copied-cons c source sources d r)

  -- The copies are messages of the destination only.
  copied_rows-elsewhere :
      (other : Text) (n next_id uid : ℕ) (sources : List MessageRow)
      → text_eq other id ≡ false
      → Below other n (copied_rows next_id uid sources)
  unfolding copied_rows
  copied_rows-elsewhere other n next_id uid [] e = tt
  copied_rows-elsewhere other n next_id uid (m ∷ ms) e = (
    λ same. absurd (text_ne other id e (sym ((text_eq_iff id other).0 same))),
    copied_rows-elsewhere other n (suc next_id) (uid + 1) ms e,
  )

  -- The loop from the state in which `copyMessages` starts it.
  abbrev starting : MailboxRow → Database → Copying
  starting b db = record { destination_uids = []; next_uid = b.uid_next; unread_delta = 0; db = db }

  abbrev finished : MailboxRow → Copying → Database
  finished b d = record (d.db) { mailboxes = update_mailboxes id (add_copies b d) (d.db).mailboxes }

  finished-IsBounded :
      (b : MailboxRow) (db : Database) (source : MessageRow) (sources : List MessageRow)
      (d : Copying)
      → IsBounded db
      → Copied (starting b db) (source ∷ sources) d
      → length d.destination_uids ≡ length (source ∷ sources)
      → IsBounded (finished b d)
  finished-IsBounded b db source sources d bounded r count =
      update_mailboxes-bounded id (add_copies b d) (d.db).messages db.messages (d.db).mailboxes
        (λ row same. rw ((text_eq_iff row.id id).0 same, count) r.bounded)
        (λ row other h. rw r.stored (
          All-append (UidBelow row.id row.uid_next) db.messages
            (copied_rows db.next_id b.uid_next (source ∷ sources)) h
            (copied_rows-elsewhere row.id row.uid_next db.next_id b.uid_next (source ∷ sources)
              other)))
        (rw r.same_mailboxes bounded)

add_zero : {n : ℕ} (k : ℕ) → n ≡ 0 + k → n ≡ k
add_zero k e = omega arith

-- The counters of a mailbox `r` after `n` copies, `u` of them unread, into `b`.
abbrev counted : MailboxRow → ℕ → ℕ → MailboxRow → MailboxRow
counted b n u r = record r {
  uid_next = b.uid_next + n;
  message_count = b.message_count + n;
  unread_count = b.unread_count + u;
}

copy_into-finished :
    (uuid : ℕ → Text) (destination b : MailboxRow) (source : MessageRow) (sources : List MessageRow)
    (db : Database) (d : Copying)
    → find_mailbox_by_id destination.id db ≡ some b
    → copy_loop uuid destination.id (starting uuid destination.id b db) (source ∷ sources) ≡ some d
    → copy_messages uuid destination (source ∷ sources) db
      ≡ some (d.destination_uids, finished uuid destination.id b d)
unfolding copy_messages
copy_into-finished uuid destination b source sources db d found e =
    ap (λ o. copy_into uuid destination.id o (source ∷ sources) db) found
    ∙ ap (finish_copy destination.id b) e

-- If every mailbox bounds its uids and the destination is found, it takes one or more copies: they
-- get the uids from `uid_next` on, they are added behind the other messages, the counters of the
-- destination grow by the copies and the unread ones among them, and the mailboxes still bound
-- their uids.
pub copy_messages-stored :
    (uuid : ℕ → Text) (destination b : MailboxRow) (source : MessageRow) (sources : List MessageRow)
    (db : Database)
    → find_mailbox_by_id destination.id db ≡ some b
    → IsBounded db
    → (db' : Database) × (copy_messages uuid destination (source ∷ sources) db
        ≡ some (count_up b.uid_next (length (source ∷ sources)), db'))
      × (db'.messages
          ≡ db.messages ++ copied_rows uuid destination.id db.next_id b.uid_next (source ∷ sources))
      × (db'.mailboxes
          ≡ update_mailboxes destination.id
              (λ r. record r {
                uid_next = b.uid_next + length (source ∷ sources);
                message_count = b.message_count + length (source ∷ sources);
                unread_count = b.unread_count + unread_in (source ∷ sources);
              })
              db.mailboxes)
      × IsBounded db'
copy_messages-stored uuid destination b source sources db found bounded =
    let id = destination.id in
    let (below, same) = find-bounded id db b found bounded in
    let (d, e, r) =
      copy_loop-Copied uuid id (starting uuid id b db) (source ∷ sources) below same in
    let k = length (source ∷ sources) in
    let count = ap length r.uids ∙ length-count_up b.uid_next k in
    let unread = add_zero (unread_in (source ∷ sources)) r.unread in
    (
      finished uuid id b d,
      copy_into-finished uuid destination b source sources db d found e
          ∙ ap (λ uids. some (uids, finished uuid id b d)) r.uids,
      r.stored,
      ap (λ n. update_mailboxes id (counted b n d.unread_delta) d.db.mailboxes) count
          ∙ ap (λ u. update_mailboxes id (counted b k u) d.db.mailboxes) unread
          ∙ ap (update_mailboxes id (counted b k (unread_in (source ∷ sources)))) r.same_mailboxes,
      finished-IsBounded uuid id b db source sources d bounded r count,
    )
