-- ===== src/Outbound/Framing.antt =====
-- `normalizeLineEndings` and `dotStuffMessage` of queue/outbound-worker.ts: the text of a message as it is
-- sent behind `DATA`.
use enclave_mail.Prelude.{
  ℕ, ◌≡◌, refl, true, false, ◌&&◌, [], ◌∷◌, ◌++◌, Option, none, some, Text, nat_eq, nat_eq_iff,
  append_assoc, Bool-cases, inl, inr, if◌then◌else◌,
}

-- `replace(/\r?\n/g, '\r\n')`
unfoldable pub normalize_line_endings : Text → Text
normalize_line_endings [] = []
normalize_line_endings (c ∷ []) = if nat_eq c 10 then 13 ∷ 10 ∷ [] else c ∷ []
normalize_line_endings (c ∷ d ∷ s) =
    let shorter = normalize_line_endings s in
    let rest = normalize_line_endings (d ∷ s) in
    if nat_eq c 10
    then 13 ∷ 10 ∷ rest
    else if nat_eq c 13 && nat_eq d 10
    then 13 ∷ 10 ∷ shorter
    else c ∷ rest

-- Where a text is read: at the start of a line, behind a carriage return, or within a line.
pub data Place : Type 0 where
  line_start after_return within : Place

abbrev pub next_place : Place → ℕ → Place
next_place after_return c =
    if nat_eq c 10 then line_start else if nat_eq c 13 then after_return else within
next_place _ c = if nat_eq c 13 then after_return else within

-- `replace(/(^|\r\n)\./g, '$1..')`, from a place on.
unfoldable pub stuff_from : Place → Text → Text
stuff_from place [] = []
stuff_from line_start (c ∷ s) =
    if nat_eq c b'.'
    then b'.' ∷ b'.' ∷ stuff_from within s
    else c ∷ stuff_from (next_place line_start c) s
stuff_from after_return (c ∷ s) = c ∷ stuff_from (next_place after_return c) s
stuff_from within (c ∷ s) = c ∷ stuff_from (next_place within c) s

unfoldable pub dot_stuff_message : Text → Text
dot_stuff_message message = stuff_from line_start message

-- The text that `relayWithSmtp` writes behind `DATA`.
unfoldable pub data_body : Text → Text
data_body message =
    dot_stuff_message (normalize_line_endings message) ++ (13 ∷ 10 ∷ b'.' ∷ 13 ∷ 10 ∷ [])

abbrev prepend : ℕ → Option (Text × Text) → Option (Text × Text)
prepend c none = none
prepend c (some (message, rest)) = some (c ∷ message, rest)

-- The server's side, as SMTP describes it: a line that is a single dot ends the message, and a dot that
-- begins any other line is dropped. The text behind the message is handed back.
abbrev at_dot : Text → Option (Text × Text) → Option (Text × Text)
at_dot [] dropped = dropped
at_dot (c ∷ []) dropped = dropped
at_dot (c ∷ d ∷ s) dropped = if nat_eq c 13 && nat_eq d 10 then some ([], s) else dropped

unfoldable pub read_data : Place → Text → Option (Text × Text)
read_data place [] = none
read_data line_start (c ∷ s) =
    let dropped = read_data within s in
    let kept = prepend c (read_data (next_place line_start c) s) in
    if nat_eq c b'.' then at_dot s dropped else kept
read_data after_return (c ∷ s) = prepend c (read_data (next_place after_return c) s)
read_data within (c ∷ s) = prepend c (read_data (next_place within c) s)

-- The end of the message from any place.
read_end :
    (place : Place) (rest : Text)
    → read_data place (13 ∷ 10 ∷ b'.' ∷ 13 ∷ 10 ∷ rest) ≡ some (13 ∷ 10 ∷ [], rest)
unfolding read_data
read_end line_start rest = refl
read_end after_return rest = refl
read_end within rest = refl

abbrev ending : Text → Text
ending rest = 13 ∷ 10 ∷ b'.' ∷ 13 ∷ 10 ∷ rest

read_plain :
    (c : ℕ) (t : Text)
    → nat_eq c b'.' ≡ false
    → read_data line_start (c ∷ t) ≡ prepend c (read_data (next_place line_start c) t)
unfolding read_data
read_plain c t e = simp e

read_dotted :
    (t : Text) → read_data line_start (b'.' ∷ b'.' ∷ t) ≡ prepend b'.' (read_data within t)
unfolding read_data
read_dotted [] = refl
read_dotted (c ∷ s) = refl

stuff_plain :
    (c : ℕ) (s : Text)
    → nat_eq c b'.' ≡ false
    → stuff_from line_start (c ∷ s) ≡ c ∷ stuff_from (next_place line_start c) s
unfolding stuff_from
stuff_plain c s e = simp e

stuff_dotted :
    (c : ℕ) (s : Text)
    → nat_eq c b'.' ≡ true
    → stuff_from line_start (c ∷ s) ≡ b'.' ∷ b'.' ∷ stuff_from within s
unfolding stuff_from
stuff_dotted c s e = simp e

stuff_nil : (place : Place) → stuff_from place [] ≡ []
unfolding stuff_from
stuff_nil place = refl

-- Behind a carriage return, and within a line, a character is sent and read as it is.
read_after :
    (c : ℕ) (t : Text)
    → read_data after_return (c ∷ t) ≡ prepend c (read_data (next_place after_return c) t)
unfolding read_data
read_after c t = refl

read_within :
    (c : ℕ) (t : Text) → read_data within (c ∷ t) ≡ prepend c (read_data (next_place within c) t)
unfolding read_data
read_within c t = refl

stuff_after :
    (c : ℕ) (s : Text)
    → stuff_from after_return (c ∷ s) ≡ c ∷ stuff_from (next_place after_return c) s
unfolding stuff_from
stuff_after c s = refl

stuff_within :
    (c : ℕ) (s : Text) → stuff_from within (c ∷ s) ≡ c ∷ stuff_from (next_place within c) s
unfolding stuff_from
stuff_within c s = refl

-- What the server reads of stuffed text that the end of the message follows is the text, at every place.
read_data-stuff_from :
    (place : Place) (s rest : Text)
    → read_data place (stuff_from place s ++ ending rest) ≡ some (s ++ 13 ∷ 10 ∷ [], rest)
read_data-stuff_from place [] rest = rw (stuff_nil place, read_end place rest)
read_data-stuff_from after_return (c ∷ s) rest = rw (
  stuff_after c s,
  read_after c (stuff_from (next_place after_return c) s ++ ending rest),
  read_data-stuff_from (next_place after_return c) s rest,
)
read_data-stuff_from within (c ∷ s) rest = rw (
  stuff_within c s,
  read_within c (stuff_from (next_place within c) s ++ ending rest),
  read_data-stuff_from (next_place within c) s rest,
)
read_data-stuff_from line_start (c ∷ s) rest = elim (Bool-cases (nat_eq c b'.')) [
  | inl e ↦ rw (
    stuff_dotted c s e,
    read_dotted (stuff_from within s ++ ending rest),
    read_data-stuff_from within s rest,
    (nat_eq_iff c b'.').0 e,
  )
  | inr e ↦ rw (
    stuff_plain c s e,
    read_plain c (stuff_from (next_place line_start c) s ++ ending rest) e,
    read_data-stuff_from (next_place line_start c) s rest,
  )
]

-- The server reads what is sent behind DATA as the message with its line endings normalised and a last
-- line end, and goes on with what follows: no text in a message ends it early, nor changes on the way.
pub read_data-data_body :
    (message rest : Text)
    → read_data line_start (data_body message ++ rest)
      ≡ some (normalize_line_endings message ++ 13 ∷ 10 ∷ [], rest)
unfolding data_body dot_stuff_message
read_data-data_body message rest = rw (
  append_assoc (stuff_from line_start (normalize_line_endings message))
      (13 ∷ 10 ∷ b'.' ∷ 13 ∷ 10 ∷ []) rest,
  read_data-stuff_from line_start (normalize_line_endings message) rest,
)
