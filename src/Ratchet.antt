-- ===== src/Ratchet.antt =====
-- packages/crypto/src/ratchet/double-ratchet.ts and types.ts: the double ratchet. `none` is an error
-- that is thrown. Random bytes are arguments: the nonce of a message, the private key of a new ratchet
-- step. Sessions are values here, so `cloneSession` is the identity.
pub mod Skipped
pub mod Agreement
pub mod Tests
use enclave_mail.Prelude.{
  ℕ, zero, suc, ◌+◌, ◌-◌, ◌*◌, ◌/◌, ◌%◌, Bool, true, false, not, ◌&&◌, List, [], ◌∷◌, ◌++◌, Option,
  none, some, Text, codes, show, ltb, nat_eq, text_eq, text_Eq, length, take, drop, if◌then◌else◌,
}

abbrev pub Bytes : Type 0
Bytes = List ℕ

-- The libraries @noble/ciphers, @noble/curves and @noble/hashes: `hkdf` and `hmac` with SHA-256, X25519,
-- and ChaCha20-Poly1305 with a key, a nonce and associated data.
pub record Primitives : Type 0 where
  pub hkdf : Bytes → Bytes → Bytes → ℕ → Bytes
  pub hmac : Bytes → Bytes → Bytes
  pub get_shared_secret : Bytes → Bytes → Option Bytes
  pub get_public_key : Bytes → Bytes
  pub encrypt : Bytes → Bytes → Bytes → Bytes → Bytes
  pub decrypt : Bytes → Bytes → Bytes → Bytes → Option Bytes

pub record MessageHeader : Type 0 where
  pub dh_ratchet_key : Bytes
  pub message_number : ℕ
  pub previous_chain_length : ℕ

pub record EncryptedMessage : Type 0 where
  pub header : MessageHeader
  pub ciphertext : Bytes

pub record DhKeyPair : Type 0 where
  pub public_key : Bytes
  pub private_key : Bytes

-- A `Map` is a list of its entries, the oldest first.
pub record RatchetSession : Type 0 where
  pub dh_sending_key : Bytes
  pub dh_receiving_key : Option Bytes
  pub root_key : Bytes
  pub sending_chain_key : Option Bytes
  pub receiving_chain_key : Option Bytes
  pub sending_message_number : ℕ
  pub receiving_message_number : ℕ
  pub previous_sending_chain_length : ℕ
  pub skipped_message_keys : List (Text × Bytes)

abbrev pub key_length : ℕ
key_length = 32

abbrev pub nonce_length : ℕ
nonce_length = 12

abbrev pub max_skipped_keys : ℕ
max_skipped_keys = 64

abbrev pub root_info : Bytes
root_info = codes "enclave-ratchet-root"

abbrev pub send_info : Bytes
send_info = codes "enclave-ratchet-send"

abbrev pub msg_info : Bytes
msg_info = codes "enclave-ratchet-msg"

-- The next call of a chain that may throw.
abbrev pub and_then {ℓ κ} : {A : Type ℓ} {B : Type κ} → Option A → (A → Option B) → Option B
and_then none f = none
and_then (some a) f = f a

unfoldable pub assert_key_length : Bytes → Option Bytes
assert_key_length key = if nat_eq (length key) key_length then some key else none

unfoldable pub hex_digit : ℕ → ℕ
hex_digit n = if ltb n 10 then b'0' + n else b'a' + n - 10

unfoldable pub to_hex : Bytes → Text
to_hex [] = []
to_hex (byte ∷ bytes) = hex_digit (byte / 16) ∷ hex_digit (byte % 16) ∷ to_hex bytes

-- `arraysEqual` with a second argument that is no `null`.
abbrev pub arrays_equal : Option Bytes → Bytes → Bool
arrays_equal none right = false
arrays_equal (some left) right = text_eq left right

-- `setUint32`: four bytes, the highest first, of the number modulo 2 ^ 32.
unfoldable pub uint32 : ℕ → Bytes
uint32 n = n / 16777216 % 256 ∷ n / 65536 % 256 ∷ n / 256 % 256 ∷ n % 256 ∷ []

unfoldable pub serialize_header : MessageHeader → Option Bytes
serialize_header header =
    and_then (assert_key_length header.dh_ratchet_key)
      λ key. some (key ++ (uint32 header.message_number ++ uint32 header.previous_chain_length))

unfoldable pub header_cache_key : Bytes → ℕ → Text
header_cache_key dh_ratchet_key message_number =
    to_hex dh_ratchet_key ++ (codes ":" ++ show message_number)

-- `get`, `set` and `delete` of a `Map`: an entry that is set again keeps its place.
unfoldable pub map_get : Text → List (Text × Bytes) → Option Bytes
map_get key [] = none
map_get key ((k, v) ∷ entries) = if text_eq k key then some v else map_get key entries

unfoldable pub map_set : Text → Bytes → List (Text × Bytes) → List (Text × Bytes)
map_set key value [] = (key, value) ∷ []
map_set key value ((k, v) ∷ entries) =
    if text_eq k key then (k, value) ∷ entries else (k, v) ∷ map_set key value entries

unfoldable pub map_delete : Text → List (Text × Bytes) → List (Text × Bytes)
map_delete key [] = []
map_delete key ((k, v) ∷ entries) =
    if text_eq k key then entries else (k, v) ∷ map_delete key entries

unfoldable pub with_bounded_skipped_keys : List (Text × Bytes) → List (Text × Bytes)
with_bounded_skipped_keys [] = []
with_bounded_skipped_keys (entry ∷ entries) =
    let rest = with_bounded_skipped_keys entries in
    if ltb max_skipped_keys (length (entry ∷ entries)) then rest else entry ∷ entries

module _ (p : Primitives) where
  unfoldable pub kdf_root_chain : Bytes → Bytes → Bytes × Bytes
  kdf_root_chain root_key dh_output =
      let output = p.hkdf dh_output root_key root_info (key_length * 2) in
      (take key_length output, take key_length (drop key_length output))

  unfoldable pub kdf_chain : Bytes → Bytes × Bytes
  kdf_chain chain_key = (p.hmac chain_key send_info, p.hmac chain_key msg_info)

  unfoldable pub decrypt_with_message_key : Bytes → MessageHeader → Bytes → Option Bytes
  decrypt_with_message_key message_key header ciphertext =
      if ltb (length ciphertext) (nonce_length + 16)
      then none
      else and_then (serialize_header header) λ header_bytes.
        p.decrypt message_key (take nonce_length ciphertext) header_bytes
          (drop nonce_length ciphertext)

  unfoldable pub compute_dh : Bytes → Bytes → Option Bytes
  compute_dh private_key public_key = and_then (assert_key_length private_key) λ private.
      and_then (assert_key_length public_key) λ public. p.get_shared_secret private public

  -- One round of the loop of `skipMessageKeys`, with the two keys that are not `null`.
  abbrev pub skip_one : Bytes → Bytes → RatchetSession → RatchetSession
  skip_one dh_receiving_key chain_key session = record session {
    receiving_chain_key = some (kdf_chain chain_key).0;
    receiving_message_number = session.receiving_message_number + 1;
    skipped_message_keys = with_bounded_skipped_keys (
        map_set (header_cache_key dh_receiving_key session.receiving_message_number)
          (kdf_chain chain_key).1 session.skipped_message_keys);
  }

  -- `rounds` of the loop.
  unfoldable pub skip_loop : ℕ → Bytes → Bytes → RatchetSession → RatchetSession
  skip_loop zero dh_receiving_key chain_key session = session
  skip_loop (suc rounds) dh_receiving_key chain_key session =
      skip_loop rounds dh_receiving_key (kdf_chain chain_key).0
        (skip_one dh_receiving_key chain_key session)

  abbrev pub skip_from : Option Bytes → Option Bytes → RatchetSession → ℕ → RatchetSession
  skip_from (some chain_key) (some dh_receiving_key) session until_message_number =
      skip_loop (until_message_number - session.receiving_message_number) dh_receiving_key chain_key
        session
  skip_from none dh_receiving_key session until_message_number = session
  skip_from (some chain_key) none session until_message_number = session

  -- The subtraction stops at 0, as the loop does.
  unfoldable pub skip_message_keys : RatchetSession → ℕ → RatchetSession
  skip_message_keys session until_message_number =
      skip_from session.receiving_chain_key session.dh_receiving_key session until_message_number

  abbrev pub ratcheted : RatchetSession → Bytes → Bytes → Bytes → Bytes → RatchetSession
  ratcheted next their_new_public_key new_sending_private_key first_dh second_dh =
      let (root_after_receive, receiving_chain_key) = kdf_root_chain next.root_key first_dh in
      let (root_after_send, sending_chain_key) = kdf_root_chain root_after_receive second_dh in
      record next {
        root_key = root_after_send;
        dh_sending_key = new_sending_private_key;
        dh_receiving_key = some their_new_public_key;
        sending_chain_key = some sending_chain_key;
        receiving_chain_key = some receiving_chain_key;
        previous_sending_chain_length = next.sending_message_number;
        sending_message_number = 0;
        receiving_message_number = 0;
      }

  unfoldable pub apply_dh_ratchet : Bytes → RatchetSession → Bytes → Option RatchetSession
  apply_dh_ratchet new_sending_private_key session their_new_public_key =
      let next = skip_message_keys session session.receiving_message_number in
      and_then (assert_key_length their_new_public_key) λ _.
        and_then (compute_dh next.dh_sending_key their_new_public_key) λ first_dh.
          and_then (compute_dh new_sending_private_key their_new_public_key) λ second_dh.
            some (ratcheted next their_new_public_key new_sending_private_key first_dh second_dh)

  abbrev pub header_of : RatchetSession → MessageHeader
  header_of session = record {
    dh_ratchet_key = p.get_public_key session.dh_sending_key;
    message_number = session.sending_message_number;
    previous_chain_length = session.previous_sending_chain_length;
  }

  unfoldable pub encrypt_message :
      Bytes → RatchetSession → Bytes → Option (RatchetSession × EncryptedMessage)
  encrypt_message nonce session plaintext =
      let header = header_of session in
      and_then session.sending_chain_key λ chain_key.
        and_then (serialize_header header) λ header_bytes. some (
          record session {
            sending_chain_key = some (kdf_chain chain_key).0;
            sending_message_number = session.sending_message_number + 1;
          },
          record {
            header = header;
            ciphertext = nonce ++ p.encrypt (kdf_chain chain_key).1 nonce header_bytes plaintext;
          },
        )

  -- The message with the key that the cache has for it.
  abbrev pub decrypt_cached :
      RatchetSession → EncryptedMessage → Text → Bytes → Option (RatchetSession × Bytes)
  decrypt_cached session message cached_key_id cached_key =
      and_then (decrypt_with_message_key cached_key message.header message.ciphertext) λ plaintext.
        some (
          record session {
            skipped_message_keys = map_delete cached_key_id session.skipped_message_keys;
          },
          plaintext,
        )

  -- The step to the sender's ratchet key, if it is a new one.
  abbrev pub follow_ratchet : Bytes → RatchetSession → MessageHeader → Bool → Option RatchetSession
  follow_ratchet fresh_key session header true = some session
  follow_ratchet fresh_key session header false =
      apply_dh_ratchet fresh_key (skip_message_keys session header.previous_chain_length)
        header.dh_ratchet_key

  -- The message with the next key of the receiving chain.
  abbrev pub decrypt_next : RatchetSession → EncryptedMessage → Option (RatchetSession × Bytes)
  decrypt_next next message = and_then next.receiving_chain_key λ chain_key.
      and_then (decrypt_with_message_key (kdf_chain chain_key).1 message.header message.ciphertext)
        λ plaintext. some (
          record next {
            receiving_chain_key = some (kdf_chain chain_key).0;
            receiving_message_number = next.receiving_message_number + 1;
          },
          plaintext,
        )

  abbrev pub decrypt_ahead : EncryptedMessage → RatchetSession → Option (RatchetSession × Bytes)
  decrypt_ahead message next =
      if ltb (message.header).message_number next.receiving_message_number
      then none
      else decrypt_next (skip_message_keys next (message.header).message_number) message

  abbrev pub decrypt_uncached :
      Bytes → RatchetSession → EncryptedMessage → Option (RatchetSession × Bytes)
  decrypt_uncached fresh_key session message =
      and_then
        (follow_ratchet fresh_key session message.header
          (arrays_equal session.dh_receiving_key (message.header).dh_ratchet_key))
        (decrypt_ahead message)

  abbrev pub decrypt_with_cache :
      Bytes → RatchetSession → EncryptedMessage → Option Bytes → Option (RatchetSession × Bytes)
  decrypt_with_cache fresh_key session message none = decrypt_uncached fresh_key session message
  decrypt_with_cache fresh_key session message (some cached_key) =
      decrypt_cached session message
        (header_cache_key (message.header).dh_ratchet_key (message.header).message_number)
        cached_key

  unfoldable pub decrypt_message :
      Bytes → RatchetSession → EncryptedMessage → Option (RatchetSession × Bytes)
  decrypt_message fresh_key session message = decrypt_with_cache fresh_key session message (
      map_get (header_cache_key (message.header).dh_ratchet_key (message.header).message_number)
        session.skipped_message_keys)

  -- `initSession`, by `isInitiator`.
  abbrev pub init_as : Bytes → DhKeyPair → Option Bytes → Bool → Option RatchetSession
  init_as shared_secret ours none true = none
  init_as shared_secret ours (some theirs) true = and_then (assert_key_length theirs) λ _.
      and_then (compute_dh ours.private_key theirs) λ dh_output.
        let (root_key, sending_chain_key) = kdf_root_chain shared_secret dh_output in
        some (record {
          dh_sending_key = ours.private_key;
          dh_receiving_key = some theirs;
          root_key = root_key;
          sending_chain_key = some sending_chain_key;
          receiving_chain_key = none;
          sending_message_number = 0;
          receiving_message_number = 0;
          previous_sending_chain_length = 0;
          skipped_message_keys = [];
        })
  init_as shared_secret ours theirs false = some (record {
    dh_sending_key = ours.private_key;
    dh_receiving_key = theirs;
    root_key = shared_secret;
    sending_chain_key = none;
    receiving_chain_key = none;
    sending_message_number = 0;
    receiving_message_number = 0;
    previous_sending_chain_length = 0;
    skipped_message_keys = [];
  })

  unfoldable pub init_session : Bytes → DhKeyPair → Option Bytes → Bool → Option RatchetSession
  init_session shared_secret our_ratchet_key_pair their_ratchet_public_key is_initiator =
      and_then (assert_key_length shared_secret) λ _.
        and_then (assert_key_length our_ratchet_key_pair.private_key) λ _.
          and_then (assert_key_length our_ratchet_key_pair.public_key)
            λ _. init_as shared_secret our_ratchet_key_pair their_ratchet_public_key is_initiator
