-- ===== src/Outbound/Talk.antt =====
-- `createLineReader` and `sendSmtpCommand` of queue/outbound-worker.ts: a dialogue with a server, which
-- reads the lines that the server sends one by one and writes to the socket.
use enclave_mail.Prelude.{
  ℕ, ◌+◌, ◌*◌, ◌-◌, Bool, true, false, ◌&&◌, ◌||◌, not, List, [], ◌∷◌, ◌++◌, Option, none, some,
  Text, codes, nat_eq, leb, if◌then◌else◌, any, text_includes, to_upper_case, ◌≡◌, append_assoc,
  append-nil, refl, ap, sym, ◌∙◌,
}

pub record SmtpResponse : Type 0 where
  pub code : ℕ
  pub lines : List Text

-- What becomes of a step: it may also wait for a line that never comes.
pub data Progress {ℓ} (A : Type ℓ) : Type ℓ where
  finished : A → Progress A
  failed : Text → Progress A
  waiting : Progress A

-- What is done to the socket: text is written, the connection is upgraded to TLS, or it is closed.
pub data Written : Type 0 where
  sent : Text → Written
  upgraded closed : Written

pub record Conn : Type 0 where
  pub incoming : List Text
  pub written : List Written

abbrev pub Talk {ℓ} : Type ℓ → Type ℓ
Talk A = Conn → Progress A × Conn

abbrev pub proceed {ℓ κ} :
    {A : Type ℓ} {B : Type κ} → Progress A × Conn → (A → Talk B) → Progress B × Conn
proceed (finished a, conn) next = next a conn
proceed (failed message, conn) next = (failed message, conn)
proceed (waiting, conn) next = (waiting, conn)

infixl 5 ◌>>◌
abbrev pub ◌>>◌ {ℓ κ} : {A : Type ℓ} {B : Type κ} → Talk A → (A → Talk B) → Talk B
(talk >> next) conn = proceed (talk conn) next

abbrev pub finish {ℓ} : {A : Type ℓ} → A → Talk A
finish a conn = (finished a, conn)

-- A guard that throws.
abbrev pub demand : Bool → Text → Talk (Unit {0})
demand true message conn = (finished tt, conn)
demand false message conn = (failed message, conn)

-- `socket.write`.
abbrev pub write : Written → Talk (Unit {0})
write w conn = (finished tt, record { incoming = conn.incoming; written = conn.written ++ w ∷ [] })

abbrev is_digit : ℕ → Bool
is_digit c = leb b'0' c && leb c b'9'

-- What `.` matches in a regular expression.
abbrev is_line_end : ℕ → Bool
is_line_end c = nat_eq c 10 || nat_eq c 13 || nat_eq c 0x2028 || nat_eq c 0x2029

-- `/^(\d{3})([ -])(.*)$/`: the code, and whether the line is the last one of its response.
unfoldable pub match_line : Text → Option (ℕ × Bool)
match_line (a ∷ b ∷ c ∷ sep ∷ text) =
    if is_digit a
      && is_digit b
      && is_digit c
      && (nat_eq sep b' ' || nat_eq sep b'-')
      && not (any is_line_end text)
    then some ((a - b'0') * 100 + (b - b'0') * 10 + (c - b'0'), nat_eq sep b' ')
    else none
match_line _ = none

abbrev take_line :
    Text
    → List Text
    → List Text
    → Option (ℕ × Bool)
    → Progress SmtpResponse × List Text
    → Progress SmtpResponse × List Text
take_line line lines incoming none more =
    (failed (codes "Invalid SMTP response line: " ++ line), incoming)
take_line line lines incoming (some (code, true)) more =
    (finished (record { code = code; lines = lines ++ line ∷ [] }), incoming)
take_line line lines incoming (some (code, false)) more = more

-- The response that begins with `lines`, and the lines that are left.
unfoldable pub response_from : List Text → List Text → Progress SmtpResponse × List Text
response_from lines [] = (waiting, [])
response_from lines (line ∷ incoming) =
    take_line line lines incoming (match_line line) (response_from (lines ++ line ∷ []) incoming)

abbrev received : Progress SmtpResponse × List Text → List Written → Progress SmtpResponse × Conn
received (progress, incoming) written =
    (progress, record { incoming = incoming; written = written })

unfoldable pub read_response : Talk SmtpResponse
read_response conn = received (response_from [] conn.incoming) conn.written

unfoldable pub send_smtp_command : Text → Talk SmtpResponse
send_smtp_command command = write (sent (command ++ 13 ∷ 10 ∷ [])) >> λ _. read_response

unfoldable pub response_has_start_tls : SmtpResponse → Bool
response_has_start_tls response =
    any (λ line. text_includes (to_upper_case line) (codes "STARTTLS")) response.lines

-- A step says `told` when it writes exactly that if it succeeds.
abbrev pub Says {ℓ} : {A : Type ℓ} → Talk A → List Written → Type ℓ
Says {A = A} talk told =
    (conn : Conn) (a : A) (after : Conn)
    → talk conn ≡ (finished a, after)
    → after.written ≡ conn.written ++ told

pub >>-eq-finished {ℓ κ} :
    {A : Type ℓ} {B : Type κ} (r : Progress A × Conn) (next : A → Talk B) (b : B) (last : Conn)
    → proceed r next ≡ (finished b, last)
    → (a : A) × (conn : Conn) × (r ≡ (finished a, conn)) × (next a conn ≡ (finished b, last))
>>-eq-finished (finished a, conn) next b last e = (a, conn, refl, e)
>>-eq-finished (failed message, conn) next b last e = cc
>>-eq-finished (waiting, conn) next b last e = cc

pub >>-Says {ℓ κ} :
    {A : Type ℓ} {B : Type κ} (talk : Talk A) (next : A → Talk B) (first second : List Written)
    → Says talk first
    → ((a : A) → Says (next a) second)
    → Says (talk >> next) (first ++ second)
>>-Says talk next first second hf hs conn b last e =
    let middle = >>-eq-finished (talk conn) next b last e in
    hs middle.0 middle.1 b last middle.3
    ∙ ap (λ w. w ++ second) (hf conn middle.0 middle.1 middle.2)
    ∙ append_assoc conn.written first second

pub demand-Says : (ok : Bool) (message : Text) → Says (demand ok message) []
demand-Says true message conn a last e =
    sym (ap (λ r. r.1.written) e) ∙ sym (append-nil conn.written)
demand-Says false message conn a last e = cc

pub finish-Says {ℓ} : {A : Type ℓ} (a : A) → Says (finish a) []
finish-Says a conn b last e = sym (ap (λ r. r.1.written) e) ∙ sym (append-nil conn.written)

pub write-Says : (w : Written) → Says (write w) (w ∷ [])
write-Says w conn a last e = sym (ap (λ r. r.1.written) e)

pub read_response-Says : Says read_response []
unfolding read_response
read_response-Says conn a last e = sym (ap (λ r. r.1.written) e) ∙ sym (append-nil conn.written)

pub send_smtp_command-Says :
    (command : Text) → Says (send_smtp_command command) (sent (command ++ 13 ∷ 10 ∷ []) ∷ [])
unfolding send_smtp_command
send_smtp_command-Says command =
    >>-Says (write (sent (command ++ 13 ∷ 10 ∷ []))) (λ _. read_response)
      (sent (command ++ 13 ∷ 10 ∷ []) ∷ []) [] (write-Says (sent (command ++ 13 ∷ 10 ∷ [])))
      (λ _. read_response-Says)

-- A response that is checked is read, and nothing is written.
pub checked-Says :
    (ok : SmtpResponse → Bool) (message : SmtpResponse → Text)
    → Says (read_response >> λ response. demand (ok response) (message response)) []
checked-Says ok message =
    >>-Says read_response (λ response. demand (ok response) (message response)) [] []
      read_response-Says (λ response. demand-Says (ok response) (message response))
