-- ===== src/Imap/Message/Fetch.antt =====
-- The formatting of `FETCH` responses in commands/message.ts.
pub mod Announcing
pub mod Literals
use enclave_mail.Prelude.{
  ℕ, ◌/◌, Bool, true, false, ◌&&◌, ◌||◌, List, [], ◌∷◌, ◌++◌, map, Option, none, some, Text, codes,
  show, join, words, trim, to_upper_case, is_empty, starts_with, ends_with, length, text_eq, any,
  if◌then◌else◌,
}
use enclave_mail.Prelude.Dates.{
  civil_of_days, ms_per_day, months, name_at, pad2, clock_text, to_utc_string, to_bytes,
}
use enclave_mail.Prelude.{break_at}
use enclave_mail.Imap.Types.{Response, text, bytes, crlf, escape_imap_string}
use enclave_mail.Imap.Database.{MessageRow, BodyRow}
use enclave_mail.Imap.Message.Flags.{to_imap_flags, inside}

-- `parseFetchItems`.
unfoldable pub parse_fetch_items : List Text → List Text
parse_fetch_items args =
    let joined = trim (join (codes " ") args) in
    let content =
      if starts_with joined (codes "(") && ends_with joined (codes ")")
      then inside joined
      else joined in
    if is_empty joined then [] else map to_upper_case (words (trim content))

-- `formatImapDate`.
unfoldable pub format_imap_date : ℕ → Text
format_imap_date value =
    let c = civil_of_days (value / ms_per_day) in
    pad2 c.day
    ++ (codes "-"
        ++ (name_at c.month months (codes "Jan")
            ++ (codes "-" ++ (show c.year ++ (codes " " ++ (clock_text value ++ codes " +0000"))))))

abbrev pub or_else : Text → Text → Text
or_else [] default = default
or_else (c ∷ s) default = c ∷ s

abbrev pub first_part : Option Text → Text
first_part none = []
first_part (some rest) = (break_at b'@' rest).0

-- `parseAddress`: the first two parts of `value.split('@')`.
unfoldable pub parse_address : Text → Text × Text
parse_address value = (
  or_else (break_at b'@' value).0 (codes "unknown"),
  or_else (first_part (break_at b'@' value).1) (codes "localhost"),
)

unfoldable pub format_address : Text → Text
format_address address =
    let (local, domain) = parse_address address in
    codes "(NIL NIL \""
    ++ (escape_imap_string local ++ (codes "\" \"" ++ (escape_imap_string domain ++ codes "\")")))

unfoldable pub format_address_list : List Text → Text
format_address_list [] = codes "NIL"
format_address_list (a ∷ addresses) =
    codes "(" ++ (join (codes " ") (map format_address (a ∷ addresses)) ++ codes ")")

-- `message.messageId ? … : 'NIL'`
abbrev pub quoted_id : Option Text → Text
quoted_id none = codes "NIL"
quoted_id (some []) = codes "NIL"
quoted_id (some (c ∷ s)) = codes "\"" ++ (escape_imap_string (c ∷ s) ++ codes "\"")

unfoldable pub format_envelope : MessageRow → Text
format_envelope message =
    codes "(\""
    ++ (escape_imap_string (to_utc_string message.date)
        ++ (codes "\" \"\" "
            ++ (format_address_list (message.from_address ∷ [])
                ++ (codes " NIL NIL NIL "
                    ++ (format_address_list message.to_addresses
                        ++ (codes " NIL NIL NIL "
                            ++ (quoted_id message.message_id ++ codes ")")))))))

unfoldable pub format_body_structure : ℕ → Text
format_body_structure size =
    codes "(\"TEXT\" \"PLAIN\" NIL NIL NIL \"BASE64\" " ++ (show size ++ codes ")")

abbrev pub id_header : Option Text → List Text
id_header none = []
id_header (some []) = []
id_header (some (c ∷ s)) = (codes "Message-ID: " ++ c ∷ s) ∷ []

unfoldable pub format_header_block : MessageRow → Text
format_header_block message =
    let headers =
      (codes "From: " ++ message.from_address)
      ∷ (codes "To: " ++ join (codes ", ") message.to_addresses)
      ∷ (codes "Date: " ++ to_utc_string message.date)
      ∷ id_header message.message_id in
    join crlf headers ++ (crlf ++ crlf)

-- A segment of a response is text or bytes, as the response is.
abbrev pub separator : List Response → List Response
separator [] = []
separator (s ∷ []) = []
separator (s ∷ t ∷ segments) = text (codes " ") ∷ []

-- `pushWithSeparator` and `pushLiteral`.
unfoldable pub push_with_separator : List Response → Text → List Response
push_with_separator segments value = segments ++ (separator segments ++ text value ∷ [])

-- The text in front of a literal announces its length.
abbrev pub announcement : Text → List ℕ → Text
announcement label literal = label ++ (codes " {" ++ (show (length literal) ++ (codes "}" ++ crlf)))

unfoldable pub push_literal : List Response → Text → List ℕ → List Response
push_literal segments label literal =
    segments ++ (separator segments ++ text (announcement label literal) ∷ bytes literal ∷ [])

abbrev pub body_bytes : Option BodyRow → List ℕ
body_bytes none = []
body_bytes (some body) = body.encrypted_body

-- One item of the `switch`.
unfoldable pub push_item : MessageRow → Option BodyRow → List Response → Text → List Response
push_item message body segments item =
    if text_eq item (codes "FLAGS")
    then push_with_separator segments (codes "FLAGS " ++ to_imap_flags message.flags)
    else if text_eq item (codes "ENVELOPE")
    then push_with_separator segments (codes "ENVELOPE " ++ format_envelope message)
    else if text_eq item (codes "BODY") || text_eq item (codes "BODYSTRUCTURE")
    then push_with_separator segments (item ++ (codes " " ++ format_body_structure message.size))
    else if text_eq item (codes "RFC822.SIZE")
    then push_with_separator segments (codes "RFC822.SIZE " ++ show message.size)
    else if text_eq item (codes "UID")
    then push_with_separator segments (codes "UID " ++ show message.uid)
    else if text_eq item (codes "INTERNALDATE")
    then push_with_separator segments
        (codes "INTERNALDATE \"" ++ (format_imap_date message.date ++ codes "\""))
    else if text_eq item (codes "BODY[HEADER]")
    then push_literal segments (codes "BODY[HEADER]") (to_bytes (format_header_block message))
    else if text_eq item (codes "BODY[]") || text_eq item (codes "BODY[TEXT]")
    then push_literal segments item (body_bytes body)
    else push_with_separator segments item

unfoldable pub push_items : MessageRow → Option BodyRow → List Response → List Text → List Response
push_items message body segments [] = segments
push_items message body segments (item ∷ items) =
    push_items message body (push_item message body segments item) items

abbrev pub is_binary : Response → Bool
is_binary (text s) = false
is_binary (bytes b) = true

abbrev pub text_of : Response → Text
text_of (text s) = s
text_of (bytes b) = []

abbrev pub bytes_of : Response → List ℕ
bytes_of (text s) = to_bytes s
bytes_of (bytes b) = b

abbrev pub concat_map : (Response → List ℕ) → List Response → List ℕ
concat_map f [] = []
concat_map f (s ∷ segments) = f s ++ concat_map f segments

-- `joinLiteralSegments`.
unfoldable pub join_literal_segments : List Response → Response
join_literal_segments segments =
    if any is_binary segments
    then bytes (concat_map bytes_of segments)
    else text (concat_map text_of segments)

abbrev pub opening : ℕ → List Response
opening sequence = text (codes "* " ++ (show sequence ++ codes " FETCH (")) ∷ []

unfoldable pub build_fetch_response : ℕ → MessageRow → List Text → Option BodyRow → Response
build_fetch_response sequence message items body =
    join_literal_segments
      (push_items message body (opening sequence) items ++ text (codes ")" ++ crlf) ∷ [])
