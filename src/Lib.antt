-- ===== src/Lib.antt =====
-- Enclave Mail: the IMAP server of apps/server/src/imap, with the mail tables of packages/db, the
-- workers for outbound and inbound mail of apps/server/src/queue, the sessions of apps/server/src/auth
-- with the middleware that asks for them,
-- and the double ratchet and the key agreement of packages/crypto/src/ratchet.
--
-- A line that a client sends passes through these parts. `receive` of Imap/Server/Buffer.antt cuts
-- the incoming data into lines (the `data` callback of server.ts). `parse_imap_command` of
-- Imap/Parser.antt (parser.ts) makes a command of a line. `execute_command` of Imap/Server.antt
-- (server.ts) hands the command to the handler of its kind: `mailbox_command` of
-- Imap/Mailbox/Handler.antt (commands/mailbox.ts), `message_command` of Imap/Message/Handler.antt
-- (commands/message.ts), or `handle_idle` and `handle_done` of Imap/Idle.antt (commands/idle.ts). The
-- handlers read and write the session and the tables.
--
--   Imap/Types         types.ts, and the response lines that all modules format
--   Imap/Parser        parser.ts
--   Imap/Database      packages/db/src/schema/{mailboxes,messages,message-bodies}.ts, and the queries
--   Imap/Message       commands/message.ts: Flags, SequenceSet, Store (createDrizzleMessageStore),
--                      Fetch, Search, Replies (what the commands share), Actions (FETCH, STORE, SEARCH,
--                      EXPUNGE), Handler (COPY, APPEND and createMessageCommandHandler)
--   Imap/Mailbox       commands/mailbox.ts: Pattern (matchesMailboxPattern), Store
--                      (createDrizzleMailboxStore), Commands (one function each), Handler
--                      (createMailboxCommandHandler)
--   Imap/Idle          commands/idle.ts
--   Imap/Server        server.ts; Server/Buffer is the cutting of data into lines
--   Imap/Tests         concrete connections, and the theorems at work on them
--   Ratchet            packages/crypto/src/ratchet/double-ratchet.ts and types.ts: sessions, encryption
--                      and decryption; Ratchet/Tests has two sessions over a plain cipher
--   X3dh               packages/crypto/src/ratchet/x3dh.ts; X3dh/Tests runs it over a plain exchange
--   Mime               apps/server/src/lib/mime-encryption.ts; Mime/Sample has primitives to run it
--   Outbound           apps/server/src/queue/outbound-worker.ts: Addresses (domains, servers, delays),
--                      Framing (the text behind DATA), Talk (createLineReader), Relay (relayWithSmtp),
--                      Multipart (attachments), Worker (processOutboundMailJob)
--   Inbound            Metadata (apps/server/src/smtp/inbound.ts), Encryptor (smtp/encrypt.ts), Store
--                      and Worker (apps/server/src/queue/inbound-worker.ts)
--   Redis, Sessions    apps/server/src/auth/session-manager.ts over the commands of Redis;
--                      Sessions/Memory has the commands in memory
--   Auth               apps/server/src/middleware/auth.ts over the sessions and the table of users
--   RateLimit          apps/server/src/middleware/rate-limit.ts: the fixed window, and in
--                      Sliding the sliding one
--   Prelude            Booleans, lists, JavaScript's strings, integers and dates
--
-- A handler takes the state and the command and returns `Option (Result S)`: the state that it
-- leaves, the responses, and whether the connection is closed. `none` is a rejected promise: the
-- database refused an insert, or a pattern is no regular expression. A transaction that is refused
-- changes nothing.
--
-- Texts are lists of UTF-16 code units. `toUpperCase` and `toLowerCase` are those of ASCII; other
-- letters stay as they are. The folding of case in the pattern of `LIST` is a parameter, `fold`.
-- Numbers are exact. Dates are milliseconds since 1970 in UTC. A `Set` or a
-- `Map` is a list in insertion order. A query with a limit of one takes the first row in the order of
-- the table. No recursion needs fuel: the loops of the source run over texts and lists.
--
-- Parameters of the model: `uuid`, the ids that the database generates, by number; `date_parse`, the
-- formats of `new Date(text)` beyond the one that the code reads itself; `validate_login` and
-- `validate_session`, the check of a session token (middleware/session.ts), which give an answer and
-- do not throw; `decode`, the `TextDecoder` of the platform, which decodes each chunk of data on its
-- own; `fold`, what a regular expression with the flag `i` compares; `now`, the clock. The
-- handles of subscriptions and timers are numbers that the environment of a connection gives out.
--
-- The ratchet is a component of its own: `encrypt_message` and `decrypt_message` take a session and
-- return the next one, or `none` for an error that is thrown. The hash functions, X25519 and the
-- cipher are a record of functions, `Primitives`; what is relied on is `Laws`: opening what was
-- sealed, the 16 bytes that sealing adds, the 32 bytes of a public key. Random bytes are arguments.
-- The rounds of `skipMessageKeys` are the difference of the two message numbers.
-- `x3dh_initiate_sender` and `x3dh_initiate_recipient` take the same primitives, with `Signatures` for
-- Ed25519 and `ExchangeLaws` for what they rely on: the exchange is the same from both sides, and a
-- signature verifies.
--
-- A call that may throw returns an `Attempt`. An attempt at an outbound job reads the message,
-- decrypts its body (Mime), signs it, groups the recipients by domain and relays the message to a
-- server of each domain; `process_outbound_mail_job` keeps a log of what it does to the world, with
-- the outcome of each call, and every dependency may answer by the log so far. The queue, which runs
-- the job again, is the relation `Tried`. `relay_with_smtp` takes the lines that a server sends, in
-- the clear and over TLS, and gives what is written; when the lines run out it waits.
-- `process_inbound_mail_job` stores a message in the inbox of each local recipient, in the tables that
-- the IMAP commands read. The sessions run over `Redis`, a record of commands whose documented
-- behaviour is `HasStrings` and `HasSets`; the states that the four operations reach are `Reachable`.
-- `auth_middleware` says which requests reach a handler and as whom, `rate_limit` whether a request is
-- let through; its commands of Redis are `Counters`; `user_rate_limit` does so by a sorted set, in a
-- transaction of four of the commands of `SortedSets`, whose documented behaviour is
-- `HasSortedSets`; Sliding/Memory has them in memory. The commands of one operation on sessions run
-- with no other operation between them. What later operations make of an invalidated session is in
-- Sessions/Afterwards.
--
-- Not modelled: the queries by which the outbound worker marks a message and creates the notice to its
-- sender, which are parameters; sockets; the chunks in which a server's lines arrive; the TLS
-- listener, the environment variables and the socket writes of server.ts; the columns created_at and
-- updated_at; mailbox names that are properties of every JavaScript object, such as `constructor`; the
-- HTTP interface, the rest of the cryptography package and the web client.
mod Prelude
pub mod Imap
pub mod Ratchet
pub mod X3dh
pub mod Mime
pub mod Outbound
pub mod Redis
pub mod Sessions
pub mod Inbound
pub mod RateLimit
pub mod Auth
