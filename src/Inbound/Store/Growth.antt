-- ===== src/Inbound/Store/Growth.antt =====
-- What `storeDelivery` does to the tables.
use enclave_mail.Prelude.{
  ℕ, ◌≡◌, refl, sym, ◌∙◌, ap, Bool, true, false, ◌&&◌, ◌||◌, List, [], ◌∷◌, ◌++◌, arith, Option,
  none, some, Text, text_eq, text_eq_refl, any, any-append, find, if◌then◌else◌,
}
use enclave_mail.Prelude.Attempt.{Attempt, returned, thrown}
use enclave_mail.Imap.Database.{
  Database, MailboxRow, MessageRow, find_mailbox_by_id, update_mailboxes, insert_message,
}
use enclave_mail.Inbound.Store.{
  DeliveryInsertInput, DeliveryStoreResult, duplicate, find_inbox_mailbox, inbox_of, is_duplicate,
  delivered_row, count_delivery, with_delivery, counted, inserted, unless_duplicate, store_delivery,
}

abbrev pub id_of : Option MailboxRow → Option Text
id_of none = none
id_of (some b) = some b.id

-- No message is lost, and everyone's inbox is still the same one.
pub record Grows (before after : Database) : Type 0 where
  pub keeps : (p : MessageRow → Bool) → any p before.messages ≡ true → any p after.messages ≡ true
  pub inboxes :
      (user : Text) → id_of (find_inbox_mailbox user after) ≡ id_of (find_inbox_mailbox user before)

pub Grows-refl : (db : Database) → Grows db db
Grows-refl db = record { keeps = λ p h. h; inboxes = λ user. refl }

pub Grows-trans : (a b c : Database) → Grows a b → Grows b c → Grows a c
Grows-trans a b c f g = record {
  keeps = λ p h. g.keeps p (f.keeps p h);
  inboxes = λ user. g.inboxes user ∙ f.inboxes user;
}

id-picked :
    (hit : Bool) (b c : MailboxRow) (x y : Option MailboxRow)
    → b.id ≡ c.id
    → id_of x ≡ id_of y
    → id_of (if hit then some b else x) ≡ id_of (if hit then some c else y)
id-picked true b c x y hb hx = ap (λ i. some i) hb
id-picked false b c x y hb hx = hx

id-counted :
    (user : Text) (same : Bool) (b : MailboxRow) (x y : Option MailboxRow)
    → id_of x ≡ id_of y
    → id_of (
        if inbox_of user (if same then count_delivery b else b)
        then some (if same then count_delivery b else b)
        else x)
      ≡ id_of (if inbox_of user b then some b else y)
id-counted user true b x y h = id-picked (inbox_of user b) (count_delivery b) b x y refl h
id-counted user false b x y h = id-picked (inbox_of user b) b b x y refl h

find-update_mailboxes :
    (user id : Text) (bs : List MailboxRow)
    → id_of (find (inbox_of user) (update_mailboxes id count_delivery bs))
      ≡ id_of (find (inbox_of user) bs)
unfolding find update_mailboxes
find-update_mailboxes user id [] = refl
find-update_mailboxes user id (b ∷ bs) =
    id-counted user (text_eq b.id id) b
      (find (inbox_of user) (update_mailboxes id count_delivery bs)) (find (inbox_of user) bs)
      (find-update_mailboxes user id bs)

not_refused :
    (refused : Bool) (d db : Database) → (if refused then none else some d) ≡ some db → d ≡ db
not_refused true d db e = cc
not_refused false d db e = cc

insert_message-some :
    (m : MessageRow) (before db : Database)
    → insert_message m before ≡ some db
    → (db.messages ≡ before.messages ++ m ∷ []) × (db.mailboxes ≡ before.mailboxes)
unfolding insert_message
insert_message-some m before db e =
    let same = not_refused _ _ db e in
    (sym (ap (λ d. d.messages) same), sym (ap (λ d. d.mailboxes) same))

-- The message is there when the result says so.
abbrev pub IsThere : DeliveryInsertInput → Attempt DeliveryStoreResult × Database → Type 0
IsThere input (returned r, db) =
    any (is_duplicate input.mailbox_id input.message_id) db.messages ≡ true
IsThere input (thrown message, db) = Unit

module _ (input : DeliveryInsertInput) (before : Database) where
  -- A step of the transaction that has stored the message.
  abbrev Fits : Attempt DeliveryStoreResult × Database → Type 0
  Fits r = Grows before r.1 × IsThere input r

  with_delivery-Grows :
      (id : Text) (db : Database)
      → db.messages ≡ before.messages ++ delivered_row id input ∷ []
      → db.mailboxes ≡ before.mailboxes
      → Grows before (with_delivery id input db)
  unfolding find_inbox_mailbox
  with_delivery-Grows id db hm hb = record {
    keeps = λ p h.
        ap (any p) hm
        ∙ any-append p before.messages (delivered_row id input ∷ [])
        ∙ ap (λ b. b || any p (delivered_row id input ∷ [])) h;
    inboxes = λ user.
        find-update_mailboxes user input.mailbox_id db.mailboxes
        ∙ ap (λ bs. id_of (find (inbox_of user) bs)) hb;
  }

  found_last :
      (earlier : Bool)
      → (earlier
          || ((text_eq input.mailbox_id input.mailbox_id
                && text_eq input.message_id input.message_id)
              || false))
        ≡ true
  found_last earlier = ground (arith, text_eq_refl input.mailbox_id, text_eq_refl input.message_id)

  delivered_row-there :
      (id : Text) (db : Database)
      → db.messages ≡ before.messages ++ delivered_row id input ∷ []
      → any (is_duplicate input.mailbox_id input.message_id) db.messages ≡ true
  delivered_row-there id db hm =
      let test = is_duplicate input.mailbox_id input.message_id in
      ap (any test) hm
      ∙ any-append test before.messages (delivered_row id input ∷ [])
      ∙ found_last (any test before.messages)

  counted-Fits :
      (id : Text) (db : Database) (b : Option MailboxRow)
      → Grows before (with_delivery id input db)
      → any (is_duplicate input.mailbox_id input.message_id) db.messages ≡ true
      → Fits (counted input before (with_delivery id input db) b)
  counted-Fits id db none grows there = (Grows-refl before, tt)
  counted-Fits id db (some b) grows there = (grows, there)

  inserted-Fits :
      (refusal id : Text) (o : Option Database)
      → insert_message (delivered_row id input) before ≡ o
      → Fits (inserted refusal id input before o)
  inserted-Fits refusal id none e = (Grows-refl before, tt)
  inserted-Fits refusal id (some db) e =
      let rows = insert_message-some (delivered_row id input) before db e in
      counted-Fits id db (find_mailbox_by_id input.mailbox_id (with_delivery id input db))
        (with_delivery-Grows id db rows.0 rows.1) (delivered_row-there id db rows.0)

  unless_duplicate-Fits :
      (found : Bool) (r : Attempt DeliveryStoreResult × Database)
      → any (is_duplicate input.mailbox_id input.message_id) before.messages ≡ found
      → Fits r
      → Fits (unless_duplicate found before r)
  unless_duplicate-Fits true r e fits = (Grows-refl before, e)
  unless_duplicate-Fits false r e fits = fits

  pub store_delivery-Fits :
      (uuid : ℕ → Text) (refusal : Text)
      → Grows before (store_delivery uuid refusal input before).1
        × IsThere input (store_delivery uuid refusal input before)
  unfolding store_delivery
  store_delivery-Fits uuid refusal =
      unless_duplicate-Fits (any (is_duplicate input.mailbox_id input.message_id) before.messages)
        (inserted refusal (uuid before.next_id) input before
          (insert_message (delivered_row (uuid before.next_id) input) before))
        refl
        (inserted-Fits refusal (uuid before.next_id)
          (insert_message (delivered_row (uuid before.next_id) input) before) refl)

  -- A message that is there is not stored again, and nothing changes.
  pub store_delivery-duplicate :
      (uuid : ℕ → Text) (refusal : Text)
      → any (is_duplicate input.mailbox_id input.message_id) before.messages ≡ true
      → store_delivery uuid refusal input before ≡ (returned duplicate, before)
  unfolding store_delivery
  store_delivery-duplicate uuid refusal there =
      ap
        (λ found. unless_duplicate found before (
          inserted refusal (uuid before.next_id) input before
            (insert_message (delivered_row (uuid before.next_id) input) before)))
        there
