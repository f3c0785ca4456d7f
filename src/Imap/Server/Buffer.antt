-- ===== src/Imap/Server/Buffer.antt =====
-- The `data` callback of server.ts: the bytes of a connection, cut into lines. `decode` is the `decode`
-- of the platform's `TextDecoder`, which the callback calls for each chunk on its own.
use enclave_mail.Prelude.{
  ℕ, ◌≡◌, refl, ◌∙◌, sym, ap, Bool, true, false, not, ◌&&◌, List, [], ◌∷◌, ◌++◌, map, filter,
  append_assoc, append-nil, arith, Text, is_empty, nat_eq, split, split_from, if◌then◌else◌,
  Bool-cases, inl, inr,
}

-- `buffer` and `queue` of the connection's context.
pub record Received : Type 0 where
  pub buffer : Text
  pub queue : List Text

-- `replace(/\r$/, '')`
unfoldable pub strip_return : Text → Text
strip_return [] = []
strip_return (c ∷ []) = if nat_eq c 13 then [] else c ∷ []
strip_return (c ∷ d ∷ s) = c ∷ strip_return (d ∷ s)

-- A line joins the queue if it is not empty.
abbrev pub enqueue : List Text → Text → List Text
enqueue queue line = if is_empty line then queue else queue ++ line ∷ []

-- The loop that takes the lines off the buffer; `current` holds the line that is not yet ended.
unfoldable pub take_lines : List Text → Text → Text → Received
take_lines queue current [] = record { buffer = current; queue = queue }
take_lines queue current (c ∷ s) =
    let ended = take_lines (enqueue queue (strip_return current)) [] s in
    let longer = take_lines queue (current ++ c ∷ []) s in if nat_eq c 10 then ended else longer

-- The callback, up to the processing of the queue.
unfoldable pub receive : (List ℕ → Text) → Received → List ℕ → Received
receive decode r chunk = take_lines r.queue [] (r.buffer ++ decode chunk)

-- The callback for one chunk after the other.
unfoldable pub receive_all : (List ℕ → Text) → Received → List (List ℕ) → Received
receive_all decode r [] = r
receive_all decode r (chunk ∷ chunks) = receive_all decode (receive decode r chunk) chunks

take_lines-append :
    (queue : List Text) (current xs ys : Text)
    → take_lines queue current (xs ++ ys)
      ≡ take_lines (take_lines queue current xs).queue (take_lines queue current xs).buffer ys
unfolding take_lines
take_lines-append queue current [] ys = refl
take_lines-append queue current (c ∷ xs) ys = ground (
  arith,
  take_lines-append (enqueue queue (strip_return current)) [] xs ys,
  take_lines-append queue (current ++ c ∷ []) xs ys,
)

-- No line end waits in a buffer.
abbrev pub NoLineEnd : Text → Type 0
NoLineEnd [] = Unit
NoLineEnd (c ∷ s) = (nat_eq c 10 ≡ false) × NoLineEnd s

NoLineEnd-append : (s : Text) (c : ℕ) → NoLineEnd s → nat_eq c 10 ≡ false → NoLineEnd (s ++ c ∷ [])
NoLineEnd-append [] c h n = (n, tt)
NoLineEnd-append (d ∷ s) c h n = (h.0, NoLineEnd-append s c h.1 n)

take_lines-NoLineEnd :
    (queue : List Text) (current s : Text)
    → NoLineEnd current
    → NoLineEnd (take_lines queue current s).buffer
unfolding take_lines
take_lines-NoLineEnd queue current [] h = h
take_lines-NoLineEnd queue current (c ∷ s) h = ground (
  arith,
  take_lines-NoLineEnd (enqueue queue (strip_return current)) [] s tt,
  take_lines-NoLineEnd queue (current ++ c ∷ []) s,
  NoLineEnd-append current c h,
)

-- A text without line ends only grows the buffer.
take_lines-current :
    (queue : List Text) (current s t : Text)
    → NoLineEnd s
    → take_lines queue current (s ++ t) ≡ take_lines queue (current ++ s) t
unfolding take_lines
take_lines-current queue current [] t h = rw (append-nil current)
take_lines-current queue current (c ∷ s) t h =
    rw (h.0, take_lines-current queue (current ++ c ∷ []) s t h.1, append_assoc current (c ∷ []) s)

-- The text of the buffer and one more text.
abbrev with_text : Received → Text → Received
with_text r s = take_lines r.queue [] (r.buffer ++ s)

with_text-append : (r : Received) (s t : Text) → with_text (with_text r s) t ≡ with_text r (s ++ t)
with_text-append r s t =
    let first = take_lines r.queue [] (r.buffer ++ s) in
    take_lines-current first.queue [] first.buffer t
      (take_lines-NoLineEnd r.queue [] (r.buffer ++ s) tt)
    ∙ (sym (take_lines-append r.queue [] (r.buffer ++ s) t)
        ∙ ap (take_lines r.queue []) (append_assoc r.buffer s t))

-- What the chunks decode to, each on its own.
abbrev pub decoded : (List ℕ → Text) → List (List ℕ) → Text
decoded decode [] = []
decoded decode (chunk ∷ chunks) = decode chunk ++ decoded decode chunks

receive_all-with_text :
    (decode : List ℕ → Text) (r : Received) (chunks : List (List ℕ))
    → NoLineEnd r.buffer
    → receive_all decode r chunks ≡ with_text r (decoded decode chunks)
unfolding receive_all receive take_lines
receive_all-with_text decode r [] h = sym (take_lines-current r.queue [] r.buffer [] h)
receive_all-with_text decode r (chunk ∷ chunks) h =
    receive_all-with_text decode (receive decode r chunk) chunks
      (take_lines-NoLineEnd r.queue [] (r.buffer ++ decode chunk) tt)
    ∙ with_text-append r (decode chunk) (decoded decode chunks)

-- The specification: the parts between line feeds, of which the last one is not ended.
abbrev pub ended_parts : List Text → List Text
ended_parts [] = []
ended_parts (part ∷ []) = []
ended_parts (part ∷ next ∷ parts) = part ∷ ended_parts (next ∷ parts)

abbrev pub last_part : List Text → Text
last_part [] = []
last_part (part ∷ []) = part
last_part (part ∷ next ∷ parts) = last_part (next ∷ parts)

-- A part without a carriage return at its end.
abbrev pub without_return : Text → Text
without_return [] = []
without_return (c ∷ s) = if is_empty s && nat_eq c 13 then [] else c ∷ without_return s

abbrev pub lines_of : Text → List Text
lines_of s = filter (λ line. not (is_empty line)) (map without_return (ended_parts (split 10 s)))

strip_return-without_return : (s : Text) → strip_return s ≡ without_return s
unfolding strip_return
strip_return-without_return [] = refl
strip_return-without_return (c ∷ []) = refl
strip_return-without_return (c ∷ d ∷ s) = ap (λ t. c ∷ t) (strip_return-without_return (d ∷ s))

abbrev is_nil : List Text → Bool
is_nil [] = true
is_nil (part ∷ parts) = false

split_from-nonempty : (cur : Text) (c : ℕ) (s : Text) → is_nil (split_from cur c s) ≡ false
unfolding split_from
split_from-nonempty cur c [] = refl
split_from-nonempty cur c (d ∷ s) = ground (arith, split_from-nonempty (cur ++ d ∷ []) c s)

parts-cons :
    (part : Text) (parts : List Text)
    → is_nil parts ≡ false
    → (ended_parts (part ∷ parts) ≡ part ∷ ended_parts parts)
      × (last_part (part ∷ parts) ≡ last_part parts)
parts-cons part [] h = cc
parts-cons part (next ∷ parts) h = (refl, refl)

abbrev received : Text → List Text → Received
received buffer queue = record { buffer = buffer; queue = queue }

-- The lines of the parts, behind those that are waiting.
abbrev after_parts : List Text → List Text → Received
after_parts queue parts =
    received (last_part parts)
      (queue ++ filter (λ line. not (is_empty line)) (map without_return (ended_parts parts)))

enqueue-filter :
    (queue lines : List Text) (line : Text)
    → enqueue queue line ++ filter (λ l. not (is_empty l)) lines
      ≡ queue ++ filter (λ l. not (is_empty l)) (line ∷ lines)
unfolding filter
enqueue-filter queue lines [] = refl
enqueue-filter queue lines (c ∷ s) =
    append_assoc queue ((c ∷ s) ∷ []) (filter (λ l. not (is_empty l)) lines)

after_parts-cons :
    (queue : List Text) (part : Text) (parts : List Text)
    → is_nil parts ≡ false
    → after_parts (enqueue queue (without_return part)) parts ≡ after_parts queue (part ∷ parts)
after_parts-cons queue part parts h =
    rw ((parts-cons part parts h).0, (parts-cons part parts h).1)
      (ap (received (last_part parts))
        (enqueue-filter queue (map without_return (ended_parts parts)) (without_return part)))

take_lines-split_from :
    (queue : List Text) (current s : Text)
    → take_lines queue current s ≡ after_parts queue (split_from current 10 s)
unfolding take_lines split_from
take_lines-split_from queue current [] =
    ap (received current) (sym (append-nil queue) ∙ unfold filter in refl)
take_lines-split_from queue current (c ∷ s) = elim (Bool-cases (nat_eq c 10)) [
  | inl ends ↦
      rw (ends, strip_return-without_return current)
        (take_lines-split_from (enqueue queue (without_return current)) [] s
          ∙ after_parts-cons queue current (split_from [] 10 s) (split_from-nonempty [] 10 s))
  | inr more ↦ rw more (take_lines-split_from queue (current ++ c ∷ []) s)
]

-- The chunks of a new connection leave the lines that their decoded texts form together, wherever these
-- are cut: the ended parts between line feeds, without the carriage return at the end and without the
-- empty ones, in order; the part that is not ended stays in the buffer.
pub receive_all-lines_of :
    (decode : List ℕ → Text) (chunks : List (List ℕ))
    → receive_all decode (record { buffer = []; queue = [] }) chunks ≡ record {
      buffer = last_part (split 10 (decoded decode chunks));
      queue = lines_of (decoded decode chunks);
    }
receive_all-lines_of decode chunks =
    receive_all-with_text decode (record { buffer = []; queue = [] }) chunks tt
    ∙ unfold split in take_lines-split_from [] [] (decoded decode chunks)
