-- ===== src/Outbound/Relay/Transcript.antt =====
-- What `relayWithSmtp` writes to the server when it succeeds.
use enclave_mail.Prelude.{
  ℕ, Bool, true, false, ◌≡◌, refl, sym, ap, ◌∙◌, List, [], ◌∷◌, ◌++◌, map, append_assoc, Text,
  codes, nat_eq, ◌||◌,
}
use enclave_mail.Prelude.Attempt.{Attempt, returned, thrown}
use enclave_mail.Outbound.Framing.{data_body}
use enclave_mail.Outbound.Talk.{
  Progress, finished, failed, waiting, Conn, Written, sent, upgraded, closed, Talk, ◌>>◌, finish,
  demand, read_response, send_smtp_command, response_has_start_tls, Says, >>-Says, >>-eq-finished,
  demand-Says, write-Says, read_response-Says, finish-Says, checked-Says, send_smtp_command-Says,
}
use enclave_mail.Outbound.Relay.{
  RelayEnvelope, rejected, ask, is_250, ehlo, handshake, upgrade_socket_to_tls, secure_session,
  start_tls, greet, send_recipients, send_body, transmit, close_connection, opened, relay_with_smtp,
}

abbrev pub line : Text → Written
line command = sent (command ++ 13 ∷ 10 ∷ [])

ask-Says :
    (mx_host label command : Text) (accepts : ℕ → Bool)
    → Says (ask mx_host label command accepts) (line command ∷ [])
unfolding ask
ask-Says mx_host label command accepts =
    >>-Says (send_smtp_command command)
      (λ response. demand (accepts response.code) (rejected label mx_host response))
      (line command ∷ []) [] (send_smtp_command-Says command)
      (λ response. demand-Says (accepts response.code) (rejected label mx_host response))

abbrev pub rcpt : Text → Written
rcpt recipient = line (codes "RCPT TO:<" ++ recipient ++ codes ">")

send_recipients-Says :
    (mx_host : Text) (recipients : List Text)
    → Says (send_recipients mx_host recipients) (map rcpt recipients)
unfolding send_recipients
send_recipients-Says mx_host [] = finish-Says tt
send_recipients-Says mx_host (recipient ∷ recipients) =
    >>-Says
      (ask mx_host (codes "RCPT TO") (codes "RCPT TO:<" ++ recipient ++ codes ">")
        (λ code. nat_eq code 250 || nat_eq code 251))
      (λ _. send_recipients mx_host recipients) (rcpt recipient ∷ []) (map rcpt recipients)
      (ask-Says mx_host (codes "RCPT TO") (codes "RCPT TO:<" ++ recipient ++ codes ">")
        (λ code. nat_eq code 250 || nat_eq code 251))
      (λ _. send_recipients-Says mx_host recipients)

send_body-Says :
    (mx_host message : Text) → Says (send_body mx_host message) (sent (data_body message) ∷ [])
unfolding send_body
send_body-Says mx_host message =
    >>-Says _ _ (sent (data_body message) ∷ []) [] (write-Says (sent (data_body message))) (λ _.
      checked-Says (λ ack. is_250 ack.code) (λ ack. rejected (codes "Message body") mx_host ack))

abbrev pub transaction : RelayEnvelope → List Written
transaction envelope =
    line (codes "MAIL FROM:<" ++ envelope.from ++ codes ">")
    ∷ (map rcpt envelope.to
        ++ line (codes "DATA") ∷ sent (data_body envelope.message) ∷ line (codes "QUIT") ∷ [])

transmit-Says :
    (mx_host : Text) (envelope : RelayEnvelope)
    → Says (transmit mx_host envelope) (transaction envelope)
unfolding transmit
transmit-Says mx_host envelope =
    >>-Says _ _ (line (codes "MAIL FROM:<" ++ envelope.from ++ codes ">") ∷ []) _
      (ask-Says mx_host (codes "MAIL FROM") (codes "MAIL FROM:<" ++ envelope.from ++ codes ">")
        is_250)
      (λ _. >>-Says _ _ (map rcpt envelope.to) _ (send_recipients-Says mx_host envelope.to) (λ _.
        >>-Says _ _ (line (codes "DATA") ∷ []) _
          (ask-Says mx_host (codes "DATA") (codes "DATA") (λ code. nat_eq code 354))
          (λ _.
            >>-Says _ _ (sent (data_body envelope.message) ∷ []) _
              (send_body-Says mx_host envelope.message)
              (λ _. ask-Says mx_host (codes "QUIT") (codes "QUIT") (λ code. nat_eq code 221)))))

-- What is written before the transaction: in the clear, when the server refuses STARTTLS, or over TLS.
pub data IsGreeting (envelope : RelayEnvelope) : List Written → Type 0 where
  in_the_clear : IsGreeting envelope (line (codes "EHLO " ++ envelope.ehlo_domain) ∷ [])
  refused_tls :
      IsGreeting envelope
        (line (codes "EHLO " ++ envelope.ehlo_domain) ∷ line (codes "STARTTLS") ∷ [])
  over_tls : IsGreeting envelope (
      line (codes "EHLO " ++ envelope.ehlo_domain)
      ∷ line (codes "STARTTLS")
      ∷ upgraded
      ∷ line (codes "EHLO " ++ envelope.ehlo_domain)
      ∷ [])

-- A step that, if it succeeds, writes some list with the property `P`.
abbrev Tells : Talk (Unit {0}) → (List Written → Type 0) → Type 0
Tells talk P =
    (conn : Conn) (u : Unit {0}) (after : Conn)
    → talk conn ≡ (finished u, after)
    → (told : List Written) × P told × (after.written ≡ conn.written ++ told)

Says-Tells :
    (talk : Talk (Unit {0})) (told : List Written) (P : List Written → Type 0)
    → Says talk told
    → P told
    → Tells talk P
Says-Tells talk told P says holds conn u after e = (told, holds, says conn u after e)

>>-Tells {ℓ} :
    {A : Type ℓ} (talk : Talk A) (next : A → Talk (Unit {0})) (first : List Written)
    (P : List Written → Type 0)
    → Says talk first
    → ((a : A) → Tells (next a) (λ told. P (first ++ told)))
    → Tells (talk >> next) P
>>-Tells talk next first P says tells conn u last e =
    let middle = >>-eq-finished (talk conn) next u last e in
    let told = tells middle.0 middle.1 u last middle.3 in
    (
      first ++ told.0,
      told.1,
      told.2
          ∙ ap (λ w. w ++ told.0) (says conn middle.0 middle.1 middle.2)
          ∙ append_assoc conn.written first told.0,
    )

upgrade_socket_to_tls-Says :
    (secure : Attempt (List Text)) → Says (upgrade_socket_to_tls secure) (upgraded ∷ [])
upgrade_socket_to_tls-Says (thrown message) conn a last e = cc
upgrade_socket_to_tls-Says (returned secure) conn a last e = sym (ap (λ r. r.1.written) e)

ehlo-Says :
    (mx_host : Text) (envelope : RelayEnvelope)
    → Says (ehlo mx_host envelope) (line (codes "EHLO " ++ envelope.ehlo_domain) ∷ [])
ehlo-Says mx_host envelope =
    >>-Says (send_smtp_command (codes "EHLO " ++ envelope.ehlo_domain))
      (λ response. demand (is_250 response.code) (rejected (codes "EHLO") mx_host response) >> λ _.
        finish response)
      (line (codes "EHLO " ++ envelope.ehlo_domain) ∷ []) []
      (send_smtp_command-Says (codes "EHLO " ++ envelope.ehlo_domain))
      (λ response.
        >>-Says (demand (is_250 response.code) (rejected (codes "EHLO") mx_host response))
          (λ _. finish response) [] []
          (demand-Says (is_250 response.code) (rejected (codes "EHLO") mx_host response))
          (λ _. finish-Says response))

module _ (mx_host : Text) (envelope : RelayEnvelope) (secure : Attempt (List Text)) where
  abbrev hello : Written
  hello = line (codes "EHLO " ++ envelope.ehlo_domain)

  secure_session-Tells :
      (accepted : Bool)
      → Tells
          (secure_session mx_host envelope secure accepted)
          (λ told. IsGreeting envelope (hello ∷ line (codes "STARTTLS") ∷ told))
  secure_session-Tells false = Says-Tells (finish tt) [] _ (finish-Says tt) refused_tls
  secure_session-Tells true =
      >>-Tells (upgrade_socket_to_tls secure) _ (upgraded ∷ []) _
        (upgrade_socket_to_tls-Says secure)
        (λ _.
          Says-Tells _ (hello ∷ []) _
            (ask-Says mx_host (codes "EHLO after STARTTLS") (codes "EHLO " ++ envelope.ehlo_domain)
              is_250)
            over_tls)

  start_tls-Tells :
      (offered : Bool)
      → Tells
          (start_tls mx_host envelope secure offered)
          (λ told. IsGreeting envelope (hello ∷ told))
  start_tls-Tells false = Says-Tells (finish tt) [] _ (finish-Says tt) in_the_clear
  start_tls-Tells true =
      >>-Tells (send_smtp_command (codes "STARTTLS"))
        (λ response. secure_session mx_host envelope secure (nat_eq response.code 220))
        (line (codes "STARTTLS") ∷ []) _ (send_smtp_command-Says (codes "STARTTLS"))
        (λ response. secure_session-Tells (nat_eq response.code 220))

  greet-Tells : Tells (greet mx_host envelope secure) (IsGreeting envelope)
  unfolding greet
  greet-Tells = >>-Tells read_response _ [] _ read_response-Says (λ banner.
      >>-Tells (demand (nat_eq banner.code 220) (rejected (codes "SMTP banner") mx_host banner)) _
        [] _ (demand-Says (nat_eq banner.code 220) (rejected (codes "SMTP banner") mx_host banner))
        (λ _.
          >>-Tells (ehlo mx_host envelope)
            (λ response. start_tls mx_host envelope secure (response_has_start_tls response))
            (hello ∷ []) _ (ehlo-Says mx_host envelope)
            (λ response. start_tls-Tells (response_has_start_tls response))))

close_connection-written :
    (r : Progress (Unit {0}) × Conn) (written : List Written)
    → close_connection r ≡ (finished tt, written)
    → (conn : Conn) × (r ≡ (finished tt, conn)) × (written ≡ conn.written ++ closed ∷ [])
close_connection-written (finished u, conn) written e = (conn, refl, sym (ap (λ p. p.1) e))
close_connection-written (failed message, conn) written e = cc
close_connection-written (waiting, conn) written e = cc

-- When relaying a message succeeds, what was done to the connection is a greeting, which is one of three,
-- then the sender, every recipient in order, DATA, the stuffed message once, QUIT and the closing.
pub relay_with_smtp-transcript :
    (connection : Attempt (List Text)) (tls : Attempt (List Text) × Attempt (List Text))
    (mx_host : Text) (envelope : RelayEnvelope) (written : List Written)
    → relay_with_smtp connection tls mx_host envelope ≡ (finished tt, written)
    → (greeting : List Written) × IsGreeting envelope greeting
      × (written ≡ greeting ++ (transaction envelope ++ closed ∷ []))
unfolding relay_with_smtp
relay_with_smtp-transcript (thrown message) tls mx_host envelope written e = cc
relay_with_smtp-transcript (returned incoming) tls mx_host envelope written e =
    let done =
      close_connection-written
        ((greet mx_host envelope (handshake tls) >> λ _. transmit mx_host envelope)
          (opened incoming))
        written e in
    let middle =
      >>-eq-finished (greet mx_host envelope (handshake tls) (opened incoming))
        (λ _. transmit mx_host envelope) tt done.0 done.1 in
    let greeted =
      greet-Tells mx_host envelope (handshake tls) (opened incoming) middle.0 middle.1 middle.2 in
    (
      greeted.0,
      greeted.1,
      done.2
          ∙ ap (λ w. w ++ closed ∷ []) (transmit-Says mx_host envelope middle.1 tt done.0 middle.3)
          ∙ ap (λ w. (w ++ transaction envelope) ++ closed ∷ []) greeted.2
          ∙ append_assoc greeted.0 (transaction envelope) (closed ∷ []),
    )
