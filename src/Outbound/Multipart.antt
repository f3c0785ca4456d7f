-- ===== src/Outbound/Multipart.antt =====
-- `fetchAndDecryptAttachments` and `assembleMultipartMime` of queue/outbound-worker.ts. The row of an
-- attachment is looked up by a parameter, and the random boundary is an argument.
use enclave_mail.Prelude.{List, [], ◌∷◌, ◌++◌, Option, none, some, Text, codes, replace_all}
use enclave_mail.Prelude.Attempt.{Attempt, returned, ◌>>=◌}
use enclave_mail.Mime.{Bytes, Crypto, Env, decrypt_blob}

pub record AttachmentBlob : Type 0 where
  pub filename : Text
  pub mime_type : Text
  pub encrypted_blob : Bytes
  pub nonce : Text

pub record DecryptedAttachment : Type 0 where
  pub filename : Text
  pub mime_type : Text
  pub content : Bytes

abbrev decrypt_row : Crypto → Env → AttachmentBlob → Attempt DecryptedAttachment
decrypt_row crypto env row = decrypt_blob crypto env row.encrypted_blob row.nonce >>= λ decrypted.
    returned (record { filename = row.filename; mime_type = row.mime_type; content = decrypted })

-- A row that is missing is passed over.
abbrev with_row :
    Crypto
    → Env
    → Option AttachmentBlob
    → Attempt (List DecryptedAttachment)
    → Attempt (List DecryptedAttachment)
with_row crypto env none rest = rest
with_row crypto env (some row) rest =
    decrypt_row crypto env row >>= λ first. rest >>= λ others. returned (first ∷ others)

unfoldable pub fetch_and_decrypt_attachments :
    Crypto → Env → (Text → Option AttachmentBlob) → List Text → Attempt (List DecryptedAttachment)
fetch_and_decrypt_attachments crypto env find_blob [] = returned []
fetch_and_decrypt_attachments crypto env find_blob (id ∷ ids) =
    with_row crypto env (find_blob id) (fetch_and_decrypt_attachments crypto env find_blob ids)

abbrev crlf : Text
crlf = 13 ∷ 10 ∷ []

abbrev html_part : Crypto → Text → Text → Text
html_part crypto boundary html_body =
    codes "--"
    ++ boundary
    ++ crlf
    ++ codes "Content-Type: text/html; charset=utf-8"
    ++ crlf
    ++ codes "Content-Transfer-Encoding: base64"
    ++ crlf
    ++ crlf
    ++ crypto.base64 (crypto.utf8 html_body)
    ++ crlf

abbrev safe_filename : Text → Text
safe_filename filename = replace_all 34 (92 ∷ 34 ∷ []) filename

abbrev attachment_part : Crypto → Text → DecryptedAttachment → Text
attachment_part crypto boundary att =
    codes "--"
    ++ boundary
    ++ crlf
    ++ codes "Content-Type: "
    ++ att.mime_type
    ++ codes "; name=\""
    ++ safe_filename att.filename
    ++ codes "\""
    ++ crlf
    ++ codes "Content-Disposition: attachment; filename=\""
    ++ safe_filename att.filename
    ++ codes "\""
    ++ crlf
    ++ codes "Content-Transfer-Encoding: base64"
    ++ crlf
    ++ crlf
    ++ crypto.base64 att.content
    ++ crlf

unfoldable pub attachment_parts : Crypto → Text → List DecryptedAttachment → Text
attachment_parts crypto boundary [] = []
attachment_parts crypto boundary (att ∷ attachments) =
    attachment_part crypto boundary att ++ attachment_parts crypto boundary attachments

unfoldable pub assemble_multipart_mime : Crypto → Text → Text → List DecryptedAttachment → Text
assemble_multipart_mime crypto boundary html_body attachments =
    codes "Content-Type: multipart/mixed; boundary=\""
    ++ boundary
    ++ codes "\""
    ++ crlf
    ++ codes "MIME-Version: 1.0"
    ++ crlf
    ++ crlf
    ++ html_part crypto boundary html_body
    ++ attachment_parts crypto boundary attachments
    ++ codes "--"
    ++ boundary
    ++ codes "--"
    ++ crlf
