-- ===== src/Imap/Message/Fetch/Literals.antt =====
-- The literals of a `FETCH` response, and how the response is written.
use enclave_mail.Prelude.{
  ℕ, Bool, true, false, List, [], ◌∷◌, ◌++◌, Option, none, some, Text, codes, text_eq, text_eq_iff,
  ◌||◌, ◌≡◌, refl, sym, ap, ◌∙◌, append-nil, append_assoc, any, if◌then◌else◌,
}
use enclave_mail.Imap.Types.{Response, text, bytes, crlf}
use enclave_mail.Imap.Database.{MessageRow, BodyRow}
use enclave_mail.Imap.Message.Fetch.{
  separator, push_with_separator, announcement, push_literal, push_item, push_items, opening,
  concat_map, bytes_of, text_of, is_binary, body_bytes, join_literal_segments, build_fetch_response,
  format_header_block,
}
use enclave_mail.Prelude.Dates.{to_bytes}
use enclave_mail.Imap.Message.Fetch.Announcing.{
  Announced, ended, line, Announced-append, push_items-Announced,
}

-- The stored body, which is empty if there is none.
abbrev pub stored_body : Option BodyRow → List ℕ
stored_body none = []
stored_body (some body) = body.encrypted_body

-- The literals that the items ask for, in order.
abbrev pub item_literals : MessageRow → Option BodyRow → Text → List (List ℕ)
item_literals message body item =
    if text_eq item (codes "BODY[HEADER]")
    then to_bytes (format_header_block message) ∷ []
    else if text_eq item (codes "BODY[]") || text_eq item (codes "BODY[TEXT]")
    then stored_body body ∷ []
    else []

abbrev pub literals_of : MessageRow → Option BodyRow → List Text → List (List ℕ)
literals_of message body [] = []
literals_of message body (item ∷ items) =
    item_literals message body item ++ literals_of message body items

-- The runs of bytes in the segments.
abbrev pub runs : List Response → List (List ℕ)
runs [] = []
runs (text s ∷ rest) = runs rest
runs (bytes b ∷ rest) = b ∷ runs rest

-- What is written for the segments: bytes as they are, and text in UTF-8.
abbrev pub wire : List Response → List ℕ
wire [] = []
wire (text s ∷ rest) = to_bytes s ++ wire rest
wire (bytes b ∷ rest) = b ++ wire rest

-- The text of segments without runs of bytes.
abbrev pub plain_text : List Response → Text
plain_text [] = []
plain_text (text s ∷ rest) = s ++ plain_text rest
plain_text (bytes b ∷ rest) = plain_text rest

-- A response that is written for the segments: bytes where a literal is asked for, else text.
abbrev pub either_form : List (List ℕ) → List ℕ → Text → Response
either_form [] as_bytes as_text = text as_text
either_form (first ∷ others) as_bytes as_text = bytes as_bytes

abbrev pub written : List (List ℕ) → List Response → Response
written literals segments = either_form literals (wire segments) (plain_text segments)

runs-append : (xs ys : List Response) → runs (xs ++ ys) ≡ runs xs ++ runs ys
runs-append [] ys = refl
runs-append (text s ∷ xs) ys = runs-append xs ys
runs-append (bytes b ∷ xs) ys = ap (λ t. b ∷ t) (runs-append xs ys)

runs-separator : (segments ys : List Response) → runs (separator segments ++ ys) ≡ runs ys
runs-separator [] ys = refl
runs-separator (s ∷ []) ys = refl
runs-separator (s ∷ t ∷ segments) ys = refl

runs-push_with_separator :
    (segments : List Response) (value : Text)
    → runs (push_with_separator segments value) ≡ runs segments ++ []
unfolding push_with_separator
runs-push_with_separator segments value =
    runs-append segments (separator segments ++ text value ∷ [])
    ∙ ap (λ t. runs segments ++ t) (runs-separator segments (text value ∷ []))

runs-push_literal :
    (segments : List Response) (label : Text) (b : List ℕ)
    → runs (push_literal segments label b) ≡ runs segments ++ b ∷ []
unfolding push_literal
runs-push_literal segments label b =
    runs-append segments (separator segments ++ text (announcement label b) ∷ bytes b ∷ [])
    ∙ ap (λ t. runs segments ++ t)
        (runs-separator segments (text (announcement label b) ∷ bytes b ∷ []))

chosen :
    (test : Bool) (xs ys : List Response) (l : List (List ℕ))
    → (test ≡ true → runs xs ≡ l)
    → (test ≡ false → runs ys ≡ l)
    → runs (if test then xs else ys) ≡ l
chosen true xs ys l hx hy = hx refl
chosen false xs ys l hx hy = hy refl

either_name {ℓ} : {P : Type ℓ} (a b : Bool) → (a || b) ≡ true → (a ≡ true → P) → (b ≡ true → P) → P
either_name true b e ha hb = ha refl
either_name false b e ha hb = hb e

stored_body-body_bytes : (body : Option BodyRow) → stored_body body ≡ body_bytes body
stored_body-body_bytes none = refl
stored_body-body_bytes (some body) = refl

module _ (message : MessageRow) (body : Option BodyRow) (segments : List Response)
    (item : Text) where
  asks_nothing :
      (name : Text)
      → item_literals message body name ≡ []
      → text_eq item name ≡ true
      → item_literals message body item ≡ []
  asks_nothing name h e = rw ((text_eq_iff item name).0 e) h

  runs-plain :
      (value : Text)
      → item_literals message body item ≡ []
      → runs (push_with_separator segments value) ≡ runs segments ++ item_literals message body item
  runs-plain value h =
      runs-push_with_separator segments value ∙ ap (λ l. runs segments ++ l) (sym h)

  runs-long :
      (label : Text) (b : List ℕ)
      → item_literals message body item ≡ b ∷ []
      → runs (push_literal segments label b) ≡ runs segments ++ item_literals message body item
  runs-long label b h = runs-push_literal segments label b ∙ ap (λ l. runs segments ++ l) (sym h)

  runs-push_item :
      runs (push_item message body segments item) ≡ runs segments ++ item_literals message body item
  unfolding push_item
  runs-push_item =
      let is : Text → Bool = text_eq item in
      let quiet : (name : Text)
          → item_literals message body name ≡ []
          → is name ≡ true
          → item_literals message body item ≡ [] =
        asks_nothing in
      let l = runs segments ++ item_literals message body item in
      chosen (is (codes "FLAGS")) _ _ l
        (λ e. runs-plain _ (quiet (codes "FLAGS") (unfold text_eq in refl) e))
        λ _.
          chosen (is (codes "ENVELOPE")) _ _ l
            (λ e. runs-plain _ (quiet (codes "ENVELOPE") (unfold text_eq in refl) e))
            λ _.
              chosen (is (codes "BODY") || is (codes "BODYSTRUCTURE")) _ _ l
                (λ e. runs-plain _ (
                  either_name (is (codes "BODY")) (is (codes "BODYSTRUCTURE")) e
                    (quiet (codes "BODY") (unfold text_eq in refl))
                    (quiet (codes "BODYSTRUCTURE") (unfold text_eq in refl))))
                λ _.
                  chosen (is (codes "RFC822.SIZE")) _ _ l
                    (λ e. runs-plain _ (quiet (codes "RFC822.SIZE") (unfold text_eq in refl) e))
                    λ _.
                      chosen (is (codes "UID")) _ _ l
                        (λ e. runs-plain _ (quiet (codes "UID") (unfold text_eq in refl) e))
                        λ _.
                          chosen (is (codes "INTERNALDATE")) _ _ l
                            (λ e.
                              runs-plain _
                                (quiet (codes "INTERNALDATE") (unfold text_eq in refl) e))
                            λ _.
                              chosen (is (codes "BODY[HEADER]")) _ _ l
                                (λ e. runs-long _ _ (rw e refl))
                                λ header.
                                  chosen (is (codes "BODY[]") || is (codes "BODY[TEXT]")) _ _ l
                                    (λ e.
                                      runs-long _ _
                                        (rw (header, e, stored_body-body_bytes body) refl))
                                    (λ none_left. runs-plain item (rw (header, none_left) refl))

runs-push_items :
    (message : MessageRow) (body : Option BodyRow) (segments : List Response) (items : List Text)
    → runs (push_items message body segments items)
      ≡ runs segments ++ literals_of message body items
unfolding push_items
runs-push_items message body segments [] = sym (append-nil (runs segments))
runs-push_items message body segments (item ∷ items) =
    runs-push_items message body (push_item message body segments item) items
    ∙ ap (λ t. t ++ literals_of message body items) (runs-push_item message body segments item)
    ∙ append_assoc (runs segments) (item_literals message body item)
        (literals_of message body items)

concat_map-wire : (segments : List Response) → concat_map bytes_of segments ≡ wire segments
concat_map-wire [] = refl
concat_map-wire (text s ∷ rest) = ap (λ t. to_bytes s ++ t) (concat_map-wire rest)
concat_map-wire (bytes b ∷ rest) = ap (λ t. b ++ t) (concat_map-wire rest)

concat_map-plain_text :
    (segments : List Response) → concat_map text_of segments ≡ plain_text segments
concat_map-plain_text [] = refl
concat_map-plain_text (text s ∷ rest) = ap (λ t. s ++ t) (concat_map-plain_text rest)
concat_map-plain_text (bytes b ∷ rest) = concat_map-plain_text rest

join_literal_segments-written :
    (segments : List Response) → join_literal_segments segments ≡ written (runs segments) segments
unfolding join_literal_segments
join_literal_segments-written segments =
    rw (concat_map-wire segments, concat_map-plain_text segments) (joined segments _ _)
  where
    joined :
        (rest : List Response) (b : List ℕ) (s : Text)
        → (if any is_binary rest then bytes b else text s) ≡ either_form (runs rest) b s
    joined [] b s = refl
    joined (text t ∷ rest) b s = joined rest b s
    joined (bytes a ∷ rest) b s = refl

-- Whatever is asked for, the response is written for segments in which each literal stands directly
-- behind a text that ends with its length in braces and a line end; its literals are those that the
-- items ask for, in order.
pub build_fetch_response-Announced :
    (sequence : ℕ) (message : MessageRow) (items : List Text) (body : Option BodyRow)
    → (segments : List Response) × Announced segments
      × (runs segments ≡ literals_of message body items)
      × (build_fetch_response sequence message items body
          ≡ written (literals_of message body items) segments)
unfolding build_fetch_response
build_fetch_response-Announced sequence message items body =
    let pushed = push_items message body (opening sequence) items in
    let segments = pushed ++ text (codes ")" ++ crlf) ∷ [] in
    let same : runs segments ≡ literals_of message body items =
      runs-append pushed (text (codes ")" ++ crlf) ∷ [])
      ∙ append-nil (runs pushed)
      ∙ runs-push_items message body (opening sequence) items in
    (
      segments,
      Announced-append pushed _
          (push_items-Announced message body (opening sequence) items (line _ [] ended))
          (line (codes ")" ++ crlf) [] ended),
      same,
      join_literal_segments-written segments ∙ ap (λ l. written l segments) same,
    )
