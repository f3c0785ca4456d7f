-- ===== src/Imap/Message/Fetch/Announcing.antt =====
-- Every literal of a `FETCH` response is announced: bytes stand behind the text that tells their number.
use enclave_mail.Prelude.{
  ℕ, Bool, true, false, List, [], ◌∷◌, ◌++◌, Option, Text, codes, text_eq, ◌||◌, show, length,
  if◌then◌else◌,
}
use enclave_mail.Imap.Types.{Response, text, bytes}
use enclave_mail.Imap.Database.{MessageRow, BodyRow}
use enclave_mail.Imap.Message.Fetch.{
  separator, push_with_separator, announcement, push_literal, push_item, push_items,
}

-- Segments in which every run of bytes stands directly behind its announcement.
pub data Announced : List Response → Type 0 where
  ended : Announced []
  line : (s : Text) (rest : List Response) → Announced rest → Announced (text s ∷ rest)
  literal :
      (label : Text) (b : List ℕ) (rest : List Response)
      → Announced rest
      → Announced
          (text (label ++ (codes " {" ++ (show (length b) ++ codes "}\r\n"))) ∷ bytes b ∷ rest)

pub Announced-append : (xs ys : List Response) → Announced xs → Announced ys → Announced (xs ++ ys)
Announced-append _ ys ended hy = hy
Announced-append _ ys (line s rest h) hy = line s (rest ++ ys) (Announced-append rest ys h hy)
Announced-append _ ys (literal label b rest h) hy =
    literal label b (rest ++ ys) (Announced-append rest ys h hy)

separator-Announced :
    (segments ys : List Response) → Announced ys → Announced (separator segments ++ ys)
separator-Announced [] ys h = h
separator-Announced (s ∷ []) ys h = h
separator-Announced (s ∷ t ∷ segments) ys h = line (codes " ") ys h

push_with_separator-Announced :
    (segments : List Response) (value : Text)
    → Announced segments
    → Announced (push_with_separator segments value)
unfolding push_with_separator
push_with_separator-Announced segments value h =
    Announced-append segments _ h
      (separator-Announced segments (text value ∷ []) (line value [] ended))

push_literal-Announced :
    (segments : List Response) (label : Text) (b : List ℕ)
    → Announced segments
    → Announced (push_literal segments label b)
unfolding push_literal
push_literal-Announced segments label b h = Announced-append segments _ h (
    separator-Announced segments (text (announcement label b) ∷ bytes b ∷ [])
      (literal label b [] ended))

either_way :
    (test : Bool) (xs ys : List Response)
    → Announced xs
    → Announced ys
    → Announced (if test then xs else ys)
either_way true xs ys hx hy = hx
either_way false xs ys hx hy = hy

push_item-Announced :
    (message : MessageRow) (body : Option BodyRow) (segments : List Response) (item : Text)
    → Announced segments
    → Announced (push_item message body segments item)
unfolding push_item
push_item-Announced message body segments item h =
    let plain : (value : Text) → Announced (push_with_separator segments value) =
      λ value. push_with_separator-Announced segments value h in
    let long : (label : Text) (b : List ℕ) → Announced (push_literal segments label b) =
      λ label b. push_literal-Announced segments label b h in
    let is : Text → Bool = text_eq item in
    either_way (is (codes "FLAGS")) _ _ (plain _) (
      either_way (is (codes "ENVELOPE")) _ _ (plain _) (
        either_way (is (codes "BODY") || is (codes "BODYSTRUCTURE")) _ _ (plain _) (
          either_way (is (codes "RFC822.SIZE")) _ _ (plain _) (
            either_way (is (codes "UID")) _ _ (plain _) (
              either_way (is (codes "INTERNALDATE")) _ _ (plain _) (
                either_way (is (codes "BODY[HEADER]")) _ _ (long _ _) (
                  either_way (is (codes "BODY[]") || is (codes "BODY[TEXT]")) _ _ (long _ _)
                    (plain item))))))))

pub push_items-Announced :
    (message : MessageRow) (body : Option BodyRow) (segments : List Response) (items : List Text)
    → Announced segments
    → Announced (push_items message body segments items)
unfolding push_items
push_items-Announced message body segments [] h = h
push_items-Announced message body segments (item ∷ items) h =
    push_items-Announced message body (push_item message body segments item) items
      (push_item-Announced message body segments item h)
