-- ===== src/Imap/Mailbox/Effects.antt =====
-- What a mailbox command can do: nothing to the session, or open or close a mailbox. A property
-- that survives these changes and any change of the database survives every mailbox command.
use enclave_mail.Prelude.{
  ℕ, ◌/◌, Bool, true, false, List, [], ◌∷◌, Option, none, some, Text, codes, trim, to_lower_case,
  contains, text_Eq, Bool-cases, inl, inr,
}
use enclave_mail.Imap.Types.{selected, authenticated, Result, Response}
use enclave_mail.Imap.Database.{
  Database, MailboxRow, MailboxType, custom, list_messages, update_mailbox_counters,
}
use enclave_mail.Imap.Mailbox.Commands.{
  Connected, handle_list, handle_select, handle_create, handle_delete, handle_status, handle_close,
  listed, list_responses, select_row, created, create_free, create_named, delete_done, delete_row,
  delete_found, status_reply, Items, values, unsupported_item, status_of, status_items, status_for,
  close_mailbox, open_mailbox,
}
use enclave_mail.Imap.Mailbox.Handler.{
  run_mailbox_command, MailboxCommand, list, lsub, select_, examine, create, delete, status_, close,
  unknown,
}
use enclave_mail.Imap.Mailbox.Store.{
  expunge_deleted_messages, list_mailboxes, find_mailbox_by_name, create_mailbox,
  find_mailbox_by_name_case_insensitive, system_mailbox_names, delete_mailbox_by_id,
  to_mailbox_stats, parse_status_items,
}

-- What holds of the state that a call leaves, if it leaves one.
abbrev pub After {ℓ κ} : {S : Type ℓ} → (S → Type κ) → Option (Result S) → Type κ
After P none = Unit
After P (some r) = P r.state

module _ {ℓ} (P : Connected → Type ℓ) (c : Connected) (h : P c)
    (stored : (db : Database) → P (record c { db = db }))
    (opened : (id : Text)
      → P (record c {
        session = record (c.session) { state = selected; selected_mailbox = some id };
      }))
    (closed : (db : Database)
      → P (record {
        session = record (c.session) { state = authenticated; selected_mailbox = none };
        db = db;
      })) where
  listed-After : (tag name : Text) (rs : Option (List Response)) → After P (listed c tag name rs)
  listed-After tag name none = tt
  listed-After tag name (some rs) = h

  handle_list-After :
      (fold : ℕ → ℕ) (tag user_id name : Text) (args : List Text)
      → After P (handle_list fold c tag user_id name args)
  unfolding handle_list
  handle_list-After fold tag user_id name [] = h
  handle_list-After fold tag user_id name (r ∷ []) = h
  handle_list-After fold tag user_id name (r ∷ p ∷ args) =
      listed-After tag name (list_responses fold name p (list_mailboxes user_id c.db))

  select_row-After :
      (tag u : Text) (read_only : Bool) (m : Option MailboxRow)
      → After P (select_row c tag read_only m)
  select_row-After tag u read_only none = h
  select_row-After tag u read_only (some mailbox) = opened mailbox.id

  handle_select-After :
      (tag u : Text) (read_only : Bool) (args : List Text)
      → After P (handle_select c tag u read_only args)
  unfolding handle_select
  handle_select-After tag u read_only [] = h
  handle_select-After tag u read_only ([] ∷ args) = h
  handle_select-After tag u read_only ((d ∷ s) ∷ args) =
      select_row-After tag u read_only (find_mailbox_by_name u (trim (d ∷ s)) c.db)

  created-After : (tag : Text) (db : Option Database) → After P (created c tag db)
  created-After tag none = tt
  created-After tag (some db) = stored db

  create_free-After :
      (uuid : ℕ → Text) (now : ℕ) (tag user_id name : Text) (found : Option MailboxRow)
      → After P (create_free uuid now c tag user_id name found)
  create_free-After uuid now tag user_id name (some existing) = h
  create_free-After uuid now tag user_id name none =
      created-After tag (create_mailbox uuid user_id name (now / 1000) c.db)

  create_named-After :
      (uuid : ℕ → Text) (now : ℕ) (tag user_id name : Text)
      → After P (create_named uuid now c tag user_id name)
  create_named-After uuid now tag user_id [] = h
  create_named-After uuid now tag user_id (d ∷ s) =
      elim (Bool-cases (contains system_mailbox_names (to_lower_case (d ∷ s)))) [
        | inl reserved ↦ simp reserved h
        | inr free ↦ simp free (
            create_free-After uuid now tag user_id (d ∷ s)
              (find_mailbox_by_name_case_insensitive user_id (d ∷ s) c.db))
      ]

  handle_create-After :
      (uuid : ℕ → Text) (now : ℕ) (tag user_id : Text) (args : List Text)
      → After P (handle_create uuid now c tag user_id args)
  unfolding handle_create
  handle_create-After uuid now tag user_id [] = h
  handle_create-After uuid now tag user_id ([] ∷ args) = h
  handle_create-After uuid now tag user_id ((d ∷ s) ∷ args) =
      create_named-After uuid now tag user_id (trim (d ∷ s))

  delete_done-After :
      (tag : Text) (db : Database) (gone : Bool) → After P (delete_done c tag db gone)
  delete_done-After tag db true = stored db
  delete_done-After tag db false = h

  delete_row-After :
      (tag user_id mailbox_id : Text) (type : MailboxType)
      → After P (delete_row c tag user_id mailbox_id type)
  delete_row-After tag user_id mailbox_id custom =
      delete_done-After tag (delete_mailbox_by_id user_id mailbox_id c.db).0
        (delete_mailbox_by_id user_id mailbox_id c.db).1
  delete_row-After tag user_id mailbox_id _ = h

  delete_found-After :
      (tag user_id : Text) (m : Option MailboxRow) → After P (delete_found c tag user_id m)
  delete_found-After tag user_id none = h
  delete_found-After tag user_id (some m) = delete_row-After tag user_id m.id m.type

  handle_delete-After :
      (tag user_id : Text) (args : List Text) → After P (handle_delete c tag user_id args)
  unfolding handle_delete
  handle_delete-After tag user_id [] = h
  handle_delete-After tag user_id ([] ∷ args) = h
  handle_delete-After tag user_id ((d ∷ s) ∷ args) =
      delete_found-After tag user_id (find_mailbox_by_name user_id (trim (d ∷ s)) c.db)

  status_reply-After :
      (tag : Text) (mailbox : MailboxRow) (items : Items)
      → After P (status_reply c tag mailbox items)
  status_reply-After tag mailbox (values vs) = h
  status_reply-After tag mailbox (unsupported_item i) = h

  status_of-After :
      (tag : Text) (items : List Text) (m : Option MailboxRow) → After P (status_of c tag items m)
  status_of-After tag items none = h
  status_of-After tag items (some mailbox) =
      status_reply-After tag mailbox
        (status_items (to_mailbox_stats (list_messages mailbox.id c.db)) mailbox items)

  status_for-After :
      (tag user_id name : Text) (items : Option (List Text))
      → After P (status_for c tag user_id name items)
  status_for-After tag user_id name none = h
  status_for-After tag user_id name (some items) =
      status_of-After tag items (find_mailbox_by_name user_id name c.db)

  handle_status-After :
      (tag user_id : Text) (args : List Text) → After P (handle_status c tag user_id args)
  unfolding handle_status
  handle_status-After tag user_id [] = h
  handle_status-After tag user_id ([] ∷ args) = h
  handle_status-After tag user_id ((d ∷ s) ∷ args) =
      status_for-After tag user_id (trim (d ∷ s)) (parse_status_items args)

  close_mailbox-After : (tag u : Text) (m : Option Text) → After P (close_mailbox c tag m)
  close_mailbox-After tag u none = h
  close_mailbox-After tag u (some m) = closed (
      update_mailbox_counters m
        (to_mailbox_stats (list_messages m (expunge_deleted_messages m c.db))).exists
        (to_mailbox_stats (list_messages m (expunge_deleted_messages m c.db))).unseen_count
        (expunge_deleted_messages m c.db))

  handle_close-After : (tag u : Text) → After P (handle_close c tag)
  unfolding handle_close
  handle_close-After tag u =
      close_mailbox-After tag u (open_mailbox (c.session).state (c.session).selected_mailbox)

  pub run_mailbox_command-After :
      (fold : ℕ → ℕ) (uuid : ℕ → Text) (now : ℕ) (tag u : Text) (command : MailboxCommand)
      (args : List Text)
      → After P (run_mailbox_command fold uuid now c tag u command args)
  unfolding run_mailbox_command
  run_mailbox_command-After fold uuid now tag u list args =
      handle_list-After fold tag u (codes "LIST") args
  run_mailbox_command-After fold uuid now tag u lsub args =
      handle_list-After fold tag u (codes "LSUB") args
  run_mailbox_command-After fold uuid now tag u select_ args = handle_select-After tag u false args
  run_mailbox_command-After fold uuid now tag u examine args = handle_select-After tag u true args
  run_mailbox_command-After fold uuid now tag u create args =
      handle_create-After uuid now tag u args
  run_mailbox_command-After fold uuid now tag u delete args = handle_delete-After tag u args
  run_mailbox_command-After fold uuid now tag u status_ args = handle_status-After tag u args
  run_mailbox_command-After fold uuid now tag u close args = handle_close-After tag u
  run_mailbox_command-After fold uuid now tag u unknown args = h
