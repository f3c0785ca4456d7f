-- ===== src/Outbound/Worker/Signing.antt =====
-- What message an attempt at a job signs.
use enclave_mail.Prelude.{◌≡◌, refl, sym, ap, ◌∙◌, List, [], ◌∷◌, Text, Option, none, some}
use enclave_mail.Prelude.Attempt.{Attempt, returned, thrown, >>=-eq-returned, returned_injective}
use enclave_mail.Outbound.Multipart.{
  DecryptedAttachment, fetch_and_decrypt_attachments, assemble_multipart_mime,
}
use mathlib.Core.Path.{subst}
use enclave_mail.Mime.{decrypt_mime_body}
use enclave_mail.Outbound.Addresses.{parse_address_domain}
use enclave_mail.Outbound.Worker.{
  OutboundMailJob, Log, OutboundWorkerDeps, Act, and_then, with_attachments, attach, signed_mime,
}

module _ (deps : OutboundWorkerDeps) (job : OutboundMailJob) where
  -- The body that is sent: the decrypted one, or the multipart body of it and the attachments that the job
  -- names, if there are any.
  abbrev pub Joins : Text → List DecryptedAttachment → Text → Type 0
  Joins decrypted [] mime_body = mime_body ≡ decrypted
  Joins decrypted (att ∷ attachments) mime_body =
      mime_body ≡ assemble_multipart_mime deps.crypto deps.boundary decrypted (att ∷ attachments)

  abbrev pub IsAttached : Text → Option (List Text) → Text → Type 0
  IsAttached decrypted none mime_body = mime_body ≡ decrypted
  IsAttached decrypted (some attachment_ids) mime_body =
      (attachments : List DecryptedAttachment) × (fetch_and_decrypt_attachments deps.crypto deps.env
          deps.find_blob attachment_ids
        ≡ returned attachments)
      × Joins decrypted attachments mime_body

  -- The signed message: the body of the job decrypts, the attachments join it, and the key of the worker
  -- signs the whole for the domain of the sender. `log` is what was done before.
  pub record IsSigned (log : Log) (signed : Text) : Type 0 where
    pub decrypted : Text
    pub mime_body : Text
    pub dkim_domain : Text
    pub private_key_pem : Text
    pub is_decrypted :
        decrypt_mime_body deps.crypto deps.env job.encrypted_mime_body job.mime_body_nonce
        ≡ returned decrypted
    pub is_attached : IsAttached decrypted job.attachment_ids mime_body
    pub is_domain : parse_address_domain job.from ≡ returned dkim_domain
    pub is_key : deps.load_dkim_private_key log ≡ returned private_key_pem
    pub is_signature :
        deps.sign_message log mime_body dkim_domain deps.dkim_selector private_key_pem
        ≡ returned signed

  stays {ℓ κ} :
      {A : Type ℓ} {B : Type κ} (log : Log) (r : Attempt A × Log) (next : A → Act B)
      → r.1 ≡ log
      → ((a : A) → (next a log).1 ≡ log)
      → (and_then r next).1 ≡ log
  stays log (returned a, after) next quiet goes = rw quiet (goes a)
  stays log (thrown message, after) next quiet goes = quiet

  pub signed_mime-quiet : (log : Log) → (signed_mime deps job log).1 ≡ log
  unfolding signed_mime
  signed_mime-quiet log =
      stays log
        (decrypt_mime_body deps.crypto deps.env job.encrypted_mime_body job.mime_body_nonce, log) _
        refl
        (λ decrypted.
          stays log (attach deps job.attachment_ids decrypted, log) _ refl
            (λ mime_body.
              stays log (parse_address_domain job.from, log) _ refl
                (λ dkim_domain.
                  stays log (deps.load_dkim_private_key log, log) _ refl
                    (λ private_key_pem. refl))))

  and_then-returned {ℓ κ} :
      {A : Type ℓ} {B : Type κ} (r : Attempt A × Log) (next : A → Act B) (b : B) (log : Log)
      → r.1 ≡ log
      → (and_then r next).0 ≡ returned b
      → (a : A) × (r.0 ≡ returned a) × ((next a log).0 ≡ returned b)
  and_then-returned (returned a, after) next b log quiet e =
      (a, refl, sym (ap (λ l. (next a l).0) quiet) ∙ e)
  and_then-returned (thrown message, after) next b log quiet e = cc

  with_attachments-Joins :
      (decrypted : Text) (attachments : List DecryptedAttachment)
      → Joins decrypted attachments (with_attachments deps decrypted attachments)
  with_attachments-Joins decrypted [] = refl
  with_attachments-Joins decrypted (att ∷ attachments) = refl

  attach-IsAttached :
      (decrypted : Text) (ids : Option (List Text)) (mime_body : Text)
      → attach deps ids decrypted ≡ returned mime_body
      → IsAttached decrypted ids mime_body
  attach-IsAttached decrypted none mime_body e = returned_injective mime_body decrypted (sym e)
  attach-IsAttached decrypted (some ids) mime_body e =
      let (attachments, fetched, joined) =
        >>=-eq-returned (fetch_and_decrypt_attachments deps.crypto deps.env deps.find_blob ids)
          (λ attachments. returned (with_attachments deps decrypted attachments)) mime_body e in
      (
        attachments,
        fetched,
        subst (Joins decrypted attachments)
            (returned_injective (with_attachments deps decrypted attachments) mime_body joined)
            (with_attachments-Joins decrypted attachments),
      )

  pub signed_mime-IsSigned :
      (log : Log) (signed : Text)
      → (signed_mime deps job log).0 ≡ returned signed
      → IsSigned log signed
  unfolding signed_mime
  signed_mime-IsSigned log signed e =
      let (decrypted, is_decrypted, e1) =
        and_then-returned
          (decrypt_mime_body deps.crypto deps.env job.encrypted_mime_body job.mime_body_nonce, log)
          _ signed log refl e in
      let (mime_body, is_attached, e2) =
        and_then-returned (attach deps job.attachment_ids decrypted, log) _ signed log refl e1 in
      let (dkim_domain, is_domain, e3) =
        and_then-returned (parse_address_domain job.from, log) _ signed log refl e2 in
      let (private_key_pem, is_key, is_signature) =
        and_then-returned (deps.load_dkim_private_key log, log) _ signed log refl e3 in
      record {
        decrypted = decrypted;
        mime_body = mime_body;
        dkim_domain = dkim_domain;
        private_key_pem = private_key_pem;
        is_decrypted = is_decrypted;
        is_attached = attach-IsAttached decrypted job.attachment_ids mime_body is_attached;
        is_domain = is_domain;
        is_key = is_key;
        is_signature = is_signature;
      }
