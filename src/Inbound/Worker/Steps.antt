-- ===== src/Inbound/Worker/Steps.antt =====
-- What one round of the loop over the recipients does.
use mathlib.Core.Path.{subst}
use enclave_mail.Prelude.{
  ℕ, ◌+◌, ◌≤◌, ◌≡◌, refl, sym, ap, true, List, arith, Option, none, some, Text, any,
}
use enclave_mail.Prelude.Attempt.{Attempt, returned, thrown}
use enclave_mail.Imap.Database.{Database, MailboxRow}
use enclave_mail.Inbound.Store.{
  UserRow, KeypairRow, DeliveryStoreResult, DeliveryInsertInput, stored, duplicate,
  find_active_x25519_public_key, find_inbox_mailbox, is_duplicate, store_delivery,
}
use enclave_mail.Inbound.Store.Growth.{
  Grows, Grows-refl, id_of, IsThere, store_delivery-Fits, store_delivery-duplicate,
}
use enclave_mail.Inbound.Worker.{
  Platform, Encrypted, Inbox, Incoming, skip, fail, record_result, store_encrypted, with_inbox,
  with_key, with_user, delivery_input, encrypt_with_recipient_public_key,
}

-- The message is in the mailbox.
abbrev pub Holds : Incoming → Option Text → Database → Type 0
Holds incoming none db = Unit
Holds incoming (some id) db = any (is_duplicate id incoming.resolved_message_id) db.messages ≡ true

-- The mailbox that a recipient's mail goes to, as its id.
abbrev pub with_key_target : UserRow → Option KeypairRow → Database → Option Text
with_key_target user none db = none
with_key_target user (some key) db = id_of (find_inbox_mailbox user.id db)

abbrev pub with_user_target : List KeypairRow → Option UserRow → Database → Option Text
with_user_target keypairs none db = none
with_user_target keypairs (some user) db =
    with_key_target user (find_active_x25519_public_key keypairs user.id) db

-- A step of the loop: the tables grow, the failures do not become fewer, and if there is no new one the
-- message is in the mailbox of the recipient. If it was there before, nothing is stored and the tables
-- stay as they are.
pub record Step (incoming : Incoming) (target : Database → Option Text) (s after : Inbox)
    : Type 0 where
  pub grows : Grows s.db after.db
  pub failures : s.failed_recipients ≤ after.failed_recipients
  pub holds : after.failed_recipients ≡ s.failed_recipients → Holds incoming (target s.db) after.db
  pub again :
      Holds incoming (target s.db) s.db
      → (after.stored_recipients ≡ s.stored_recipients) × (after.db ≡ s.db)

more : (n : ℕ) → n + 1 ≡ n → ⊥
more n e = omega (arith, e)

not_thrown :
    (message : Text) (db old : Database)
    → ◌≡◌ {A = Attempt DeliveryStoreResult × Database}
        (thrown message, db)
        (returned duplicate, old)
    → ⊥
not_thrown message db old e = cc

not_stored :
    (count : ℕ) (db old : Database)
    → ◌≡◌ {A = Attempt DeliveryStoreResult × Database}
        (returned (stored count), db)
        (returned duplicate, old)
    → ⊥
not_stored count db old e = cc

module _ (platform : Platform) (incoming : Incoming) where
  skip-Step :
      (target : Database → Option Text) (s : Inbox)
      → target s.db ≡ none
      → Step incoming target s (skip s)
  skip-Step target s e = record {
    grows = Grows-refl s.db;
    failures = omega arith;
    holds = λ same. subst (λ o. Holds incoming o s.db) (sym e) tt;
    again = λ there. (refl, refl);
  }

  fail-Step : (target : Database → Option Text) (s : Inbox) → Step incoming target s (fail s)
  fail-Step target s = record {
    grows = Grows-refl s.db;
    failures = omega arith;
    holds = λ same. absurd (more s.failed_recipients same);
    again = λ there. (refl, refl);
  }

  module _ (target : Database → Option Text) (recipient user_id : Text) (mailbox : MailboxRow)
      (encrypted : Encrypted) (s : Inbox) where
    abbrev input : DeliveryInsertInput
    input = delivery_input platform incoming recipient mailbox encrypted

    record_result-Step :
        (r : Attempt DeliveryStoreResult × Database)
        → target s.db ≡ some mailbox.id
        → Grows s.db r.1
        → IsThere input r
        → (Holds incoming (some mailbox.id) s.db → r ≡ (returned duplicate, s.db))
        → Step incoming target s (record_result user_id mailbox.id s r)
    record_result-Step (thrown message, db) e grows there dup = record {
      grows = grows;
      failures = omega arith;
      holds = λ same. absurd (more s.failed_recipients same);
      again = λ held.
          absurd (not_thrown message db s.db (dup (subst (λ o. Holds incoming o s.db) e held)));
    }
    record_result-Step (returned duplicate, db) e grows there dup = record {
      grows = grows;
      failures = omega arith;
      holds = λ same. subst (λ o. Holds incoming o db) (sym e) there;
      again = λ held. (refl, ap (λ r. r.1) (dup (subst (λ o. Holds incoming o s.db) e held)));
    }
    record_result-Step (returned (stored count), db) e grows there dup = record {
      grows = grows;
      failures = omega arith;
      holds = λ same. subst (λ o. Holds incoming o db) (sym e) there;
      again = λ held.
          absurd (not_stored count db s.db (dup (subst (λ o. Holds incoming o s.db) e held)));
    }

  store_encrypted-Step :
      (target : Database → Option Text) (recipient : Text) (user : UserRow) (mailbox : MailboxRow)
      (encrypted : Attempt Encrypted) (s : Inbox)
      → target s.db ≡ some mailbox.id
      → Step incoming target s
          (store_encrypted platform incoming recipient user mailbox encrypted s)
  store_encrypted-Step target recipient user mailbox (thrown message) s e = fail-Step target s
  store_encrypted-Step target recipient user mailbox (returned encrypted) s e =
      let to_store = delivery_input platform incoming recipient mailbox encrypted in
      let fits = store_delivery-Fits to_store s.db platform.uuid platform.refusal in
      record_result-Step target recipient user.id mailbox encrypted s
        (store_delivery platform.uuid platform.refusal to_store s.db) e fits.0 fits.1
        (store_delivery-duplicate to_store s.db platform.uuid platform.refusal)

  with_inbox-Step :
      (target : Database → Option Text) (recipient : Text) (user : UserRow) (key : KeypairRow)
      (mailbox : Option MailboxRow) (s : Inbox)
      → target s.db ≡ id_of mailbox
      → Step incoming target s (with_inbox platform incoming recipient user key mailbox s)
  with_inbox-Step target recipient user key none s e = skip-Step target s e
  with_inbox-Step target recipient user key (some mailbox) s e =
      store_encrypted-Step target recipient user mailbox
        (encrypt_with_recipient_public_key platform incoming.raw_email incoming.metadata.subject
          key.public_key)
        s e

  with_key-Step :
      (recipient : Text) (user : UserRow) (key : Option KeypairRow) (s : Inbox)
      → Step incoming (with_key_target user key) s (with_key platform incoming recipient user key s)
  with_key-Step recipient user none s = skip-Step (with_key_target user none) s refl
  with_key-Step recipient user (some key) s =
      with_inbox-Step (with_key_target user (some key)) recipient user key
        (find_inbox_mailbox user.id s.db) s refl

  pub with_user-Step :
      (keypairs : List KeypairRow) (recipient : Text) (user : Option UserRow) (s : Inbox)
      → Step incoming
          (with_user_target keypairs user)
          s
          (with_user platform keypairs incoming recipient user s)
  with_user-Step keypairs recipient none s = skip-Step (with_user_target keypairs none) s refl
  with_user-Step keypairs recipient (some user) s =
      with_key-Step recipient user (find_active_x25519_public_key keypairs user.id) s
