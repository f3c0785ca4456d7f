-- ===== src/Outbound/Relay.antt =====
-- `relayWithSmtp` of queue/outbound-worker.ts: the dialogue that hands a message to a server.
pub mod Transcript
use enclave_mail.Prelude.{
  ℕ, Bool, true, false, ◌||◌, List, [], ◌∷◌, ◌++◌, Text, codes, nat_eq, join,
}
use enclave_mail.Prelude.Attempt.{Attempt, returned, thrown}
use enclave_mail.Outbound.Framing.{data_body}
use enclave_mail.Outbound.Talk.{
  SmtpResponse, Progress, finished, failed, waiting, Conn, Written, sent, upgraded, closed, Talk,
  ◌>>◌, finish, demand, write, read_response, send_smtp_command, response_has_start_tls,
}

pub record RelayEnvelope : Type 0 where
  pub from : Text
  pub to : List Text
  pub message : Text
  pub ehlo_domain : Text

abbrev pub rejected : Text → Text → SmtpResponse → Text
rejected label mx_host response =
    label ++ codes " rejected by " ++ mx_host ++ codes ": " ++ join (codes " | ") response.lines

-- A command and the check of the response to it, with the words of the error.
unfoldable pub ask : Text → Text → Text → (ℕ → Bool) → Talk (Unit {0})
ask mx_host label command accepts = send_smtp_command command >> λ response.
    demand (accepts response.code) (rejected label mx_host response)

abbrev pub is_250 : ℕ → Bool
is_250 code = nat_eq code 250

abbrev pub ehlo : Text → RelayEnvelope → Talk SmtpResponse
ehlo mx_host envelope = send_smtp_command (codes "EHLO " ++ envelope.ehlo_domain) >> λ response.
    demand (is_250 response.code) (rejected (codes "EHLO") mx_host response) >> λ _. finish response

-- `upgradeSocketToTls`: a handshake that verifies the certificate and, when it fails, one that does not;
-- each gives its error or the lines that come over the secure socket.
abbrev pub handshake : Attempt (List Text) × Attempt (List Text) → Attempt (List Text)
handshake (returned secure, unverified) = returned secure
handshake (thrown message, unverified) = unverified

-- The change of sockets; what the old reader holds is dropped.
abbrev pub upgrade_socket_to_tls : Attempt (List Text) → Talk (Unit {0})
upgrade_socket_to_tls (thrown message) conn = (failed message, conn)
upgrade_socket_to_tls (returned secure) conn =
    (finished tt, record { incoming = secure; written = conn.written ++ upgraded ∷ [] })

abbrev pub secure_session : Text → RelayEnvelope → Attempt (List Text) → Bool → Talk (Unit {0})
secure_session mx_host envelope secure false = finish tt
secure_session mx_host envelope secure true = upgrade_socket_to_tls secure >> λ _.
    ask mx_host (codes "EHLO after STARTTLS") (codes "EHLO " ++ envelope.ehlo_domain) is_250

abbrev pub start_tls : Text → RelayEnvelope → Attempt (List Text) → Bool → Talk (Unit {0})
start_tls mx_host envelope secure false = finish tt
start_tls mx_host envelope secure true = send_smtp_command (codes "STARTTLS") >> λ response.
    secure_session mx_host envelope secure (nat_eq response.code 220)

unfoldable pub greet : Text → RelayEnvelope → Attempt (List Text) → Talk (Unit {0})
greet mx_host envelope secure = read_response >> λ banner.
    demand (nat_eq banner.code 220) (rejected (codes "SMTP banner") mx_host banner) >> λ _.
    ehlo mx_host envelope >> λ response.
    start_tls mx_host envelope secure (response_has_start_tls response)

unfoldable pub send_recipients : Text → List Text → Talk (Unit {0})
send_recipients mx_host [] = finish tt
send_recipients mx_host (recipient ∷ recipients) =
    ask mx_host (codes "RCPT TO") (codes "RCPT TO:<" ++ recipient ++ codes ">")
      (λ code. nat_eq code 250 || nat_eq code 251)
    >> λ _. send_recipients mx_host recipients

unfoldable pub send_body : Text → Text → Talk (Unit {0})
send_body mx_host message = write (sent (data_body message)) >> λ _.
    read_response >> λ ack. demand (is_250 ack.code) (rejected (codes "Message body") mx_host ack)

unfoldable pub transmit : Text → RelayEnvelope → Talk (Unit {0})
transmit mx_host envelope =
    ask mx_host (codes "MAIL FROM") (codes "MAIL FROM:<" ++ envelope.from ++ codes ">") is_250
    >> λ _. send_recipients mx_host envelope.to >> λ _.
        ask mx_host (codes "DATA") (codes "DATA") (λ code. nat_eq code 354) >> λ _.
        send_body mx_host envelope.message >> λ _.
        ask mx_host (codes "QUIT") (codes "QUIT") (λ code. nat_eq code 221)

-- A new connection with the lines that the server sends.
abbrev pub opened : List Text → Conn
opened incoming = record { incoming = incoming; written = [] }

-- `closeConnection`, behind a success and behind an error, and what has been written then.
abbrev pub close_connection : Progress (Unit {0}) × Conn → Progress (Unit {0}) × List Written
close_connection (finished u, conn) = (finished u, conn.written ++ closed ∷ [])
close_connection (failed message, conn) = (failed message, conn.written ++ closed ∷ [])
close_connection (waiting, conn) = (waiting, conn.written)

-- `connection` is what `connectTcp` gives, an error or the lines that the server sends.
unfoldable pub relay_with_smtp :
    Attempt (List Text)
    → Attempt (List Text) × Attempt (List Text)
    → Text
    → RelayEnvelope
    → Progress (Unit {0}) × List Written
relay_with_smtp (thrown message) tls mx_host envelope = (failed message, [])
relay_with_smtp (returned incoming) tls mx_host envelope =
    close_connection
      ((greet mx_host envelope (handshake tls) >> λ _. transmit mx_host envelope) (opened incoming))
