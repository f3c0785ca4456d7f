-- ===== src/Imap/Database/Integrity.antt =====
-- The uids of a mailbox lie below its `uid_next`, so an insert at `uid_next` is never refused.
use enclave_mail.Prelude.{
  ℕ, suc, ◌≤◌, ◌<◌, ◌≡◌, refl, Bool, true, false, ◌&&◌, List, [], ◌∷◌, ◌++◌, arith, some, Text,
  nat_eq, text_eq, any, All, find, inl, inr, Bool-cases,
}
use mathlib.Core.Path.{subst}
use mathlib.Core.Option.{some-injective}
use enclave_mail.Imap.Database.{Database, MailboxRow, MessageRow, insert_message, update_mailboxes}

abbrev pub UidBelow : Text → ℕ → MessageRow → Type 0
UidBelow id n m = text_eq m.mailbox_id id ≡ true → m.uid < n

abbrev pub Below : Text → ℕ → List MessageRow → Type 0
Below id n ms = All (UidBelow id n) ms

-- Each mailbox bounds the uids of its messages.
abbrev pub IsBounded : Database → Type 0
IsBounded db = All (λ b. Below b.id b.uid_next db.messages) db.mailboxes

pub Below-mono :
    (id : Text) (m n : ℕ) (ms : List MessageRow) → m ≤ n → Below id m ms → Below id n ms
Below-mono id m n [] le h = tt
Below-mono id m n (x ∷ ms) le h = (λ e. let lt = h.0 e in omega arith, Below-mono id m n ms le h.1)

not_taken :
    (id : Text) (n : ℕ) (ms : List MessageRow)
    → Below id n ms
    → any (λ m. text_eq m.mailbox_id id && nat_eq m.uid n) ms ≡ false
not_taken id n [] h = refl
not_taken id n (m ∷ ms) h = elim (Bool-cases (text_eq m.mailbox_id id)) [
  | inl same ↦ let lt = h.0 same in ground (arith, not_taken id n ms h.1)
  | inr other ↦ rw other (not_taken id n ms h.1)
]

-- An insert at a uid above those of its mailbox succeeds.
pub insert_message-eq :
    (m : MessageRow) (db : Database)
    → Below m.mailbox_id m.uid db.messages
    → any (λ b. text_eq b.id m.mailbox_id) db.mailboxes ≡ true
    → insert_message m db
      ≡ some (record db { messages = db.messages ++ m ∷ []; next_id = suc db.next_id })
unfolding insert_message
insert_message-eq m db h known = simp (not_taken m.mailbox_id m.uid db.messages h, known)

-- The row that a query by id finds has that id, and is a row of the table.
pub find_mailbox_by_id-known :
    (bs : List MailboxRow) (id : Text) (b : MailboxRow)
    → find (λ b. text_eq b.id id) bs ≡ some b
    → any (λ b. text_eq b.id id) bs ≡ true
unfolding find
find_mailbox_by_id-known [] id b e = cc
find_mailbox_by_id-known (x ∷ bs) id b e = ground (arith, find_mailbox_by_id-known bs id b)

-- What holds of every row holds of a row that a query finds, and the row passes the query's test.
pub find-All {ℓ κ} :
    {A : Type ℓ} (P : A → Type κ) (p : A → Bool) (xs : List A) (x : A)
    → All P xs
    → find p xs ≡ some x
    → P x × (p x ≡ true)
unfolding find
find-All P p [] x h e = cc
find-All P p (y ∷ xs) x h e = elim (Bool-cases (p y)) [
  | inl hit ↦ subst (λ z. P z × (p z ≡ true)) (some-injective y x (simp hit at e)) (h.0, hit)
  | inr miss ↦ find-All P p xs x h.1 (simp miss at e)
]

module _ (id : Text) (f : MailboxRow → MailboxRow) (ms : List MessageRow) where
  -- An update of a mailbox that bounds the uids at `n`, while other mailboxes gain no message.
  pub update_mailboxes-bounded :
      (old : List MessageRow) (bs : List MailboxRow)
      → ((b : MailboxRow) → text_eq b.id id ≡ true → Below (f b).id (f b).uid_next ms)
      → ((b : MailboxRow)
          → text_eq b.id id ≡ false
          → Below b.id b.uid_next old
          → Below b.id b.uid_next ms)
      → All (λ b. Below b.id b.uid_next old) bs
      → All (λ b. Below b.id b.uid_next ms) (update_mailboxes id f bs)
  unfolding update_mailboxes
  update_mailboxes-bounded old [] same other h = tt
  update_mailboxes-bounded old (b ∷ bs) same other h = elim (Bool-cases (text_eq b.id id)) [
    | inl e ↦ simp e (same b e, update_mailboxes-bounded old bs same other h.1)
    | inr e ↦ simp e (other b e h.0, update_mailboxes-bounded old bs same other h.1)
  ]
