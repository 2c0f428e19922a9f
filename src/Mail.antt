-- ===== src/Mail.antt =====
-- internal/api/email_delivery.go: scheduleEmailDelivery, deliverEmail and renderEmail, on the tables
-- email_deliveries and background_jobs (migrations 000003, 000010 and 000011). The JSON codec, the
-- text of a UUID and the SMTP server are parameters; Send of smtpEmailSender is not modelled.
pub mod Sending
mod Tests
use Prim.Native.String.{◌++◌ as str_append}
use complicatedauth_backend.Prelude.{
  ℕ, String, str_eq, ◌≡◌, Bool, true, false, ◌&&◌, ◌||◌, List, [], ◌∷◌, ◌++◌, Option, none, some,
  ◌==◌, ==_iff, if◌then◌else◌,
}
use complicatedauth_backend.Table.{Keyed, get, update, exists}
use complicatedauth_backend.Cleanup.{is_some}
use complicatedauth_backend.Db.{Result, ok, err, Outcome, done, rejected, lost}
use complicatedauth_backend.Keyring.{
  EncryptedValue, EncryptionKeyring, Crypto, KeyringError, seal, open_value,
}
use complicatedauth_backend.Jobs.Rows as JobRows

-- emailMessage
pub record EmailMessage : Type 0 where
  pub delivery_uid : ℕ
  pub to : String
  pub subject : String
  pub text : String

-- emailDeliveryPayload
pub record EmailDeliveryPayload : Type 0 where
  pub display_name : String
  pub tenant_name : String
  pub link : String

pub data Status : Type 0 where
  pending delivered : Status

abbrev pub is_pending : Status → Bool
is_pending pending = true
is_pending delivered = false

-- email_deliveries
pub record Delivery : Type 0 where
  pub uid : ℕ
  pub tenant_uid : ℕ
  pub template : String
  pub recipient : EncryptedValue
  pub payload : EncryptedValue
  pub status : Status
  pub delivered_at : Option ℕ

instance abbrev pub delivery_keyed : Keyed Delivery
delivery_keyed = record { Key = ℕ; key = λ r. r.uid; same = λ j k. j == k; same_iff = ==_iff }

-- The texts of UUIDs, the bytes of texts, and JSON.
pub record Codec : Type 0 where
  pub uuid_text : ℕ → String
  pub bytes : String → List ℕ
  pub text : List ℕ → String
  pub marshal : EmailDeliveryPayload → Option (List ℕ)
  pub unmarshal : List ℕ → Option EmailDeliveryPayload
  pub job_payload : ℕ → String

pub data MailError : Type 0 where
  encrypt_failed : KeyringError → MailError
  encode_failed insert_failed enqueue_failed load_failed : MailError
  decrypt_failed : KeyringError → MailError
  decode_failed : MailError
  unsupported_template : String → MailError
  send_failed update_failed : MailError

-- emailDeliveryContext
unfoldable pub email_delivery_context : Codec → ℕ → String → List ℕ
email_delivery_context codec uid field =
    codec.bytes
      (str_append "email-delivery|" (str_append (codec.uuid_text uid) (str_append "|" field)))

-- The salutation of renderEmail.
unfoldable pub salutation : EmailDeliveryPayload → String
salutation p =
    if str_eq p.display_name "" then "Hello" else str_append "Hello" (str_append " " p.display_name)

abbrev letter : EmailDeliveryPayload → String → String → String
letter p middle end =
    str_append (salutation p)
      (str_append middle (str_append p.tenant_name (str_append ":\n\n" (str_append p.link end))))

-- renderEmail: subject and text.
unfoldable pub render_email : String → EmailDeliveryPayload → Result MailError (String × String)
unfolding salutation
render_email template p =
    if str_eq template "tenant_email_verification"
    then ok (
      "Verify your ComplicatedAuth email",
      letter p ",\n\nVerify your email for "
          "\n\nThis link expires in 24 hours. If you did not request it, you can ignore this message.",
    )
    else if str_eq template "tenant_password_reset"
    then ok (
      "Reset your ComplicatedAuth password",
      letter p ",\n\nReset your password for "
          "\n\nThis link expires in 30 minutes and can be used once. If you did not request it, you can ignore this message.",
    )
    else if str_eq template "tenant_invitation"
    then ok (
      "You were invited to ComplicatedAuth",
      letter p ",\n\nYou were invited to join "
          "\n\nThis link expires in 7 days and can be used once.",
    )
    else err (unsupported_template template)

-- The tables that a delivery is scheduled in.
pub record Outbox : Type 0 where
  pub deliveries : List Delivery
  pub jobs : List JobRows.Row

-- INSERT INTO background_jobs, with the defaults of its columns.
unfoldable pub delivery_job : Codec → ℕ → ℕ → ℕ → JobRows.Row
delivery_job codec job_uid now uid = record {
  uid = job_uid;
  queue = "email";
  job_type = "email.delivery";
  deduplication_key = some (str_append "email-delivery:" (codec.uuid_text uid));
  payload = codec.job_payload uid;
  status = JobRows.pending;
  attempts = 0;
  max_attempts = 8;
  available_at = now;
  lease_uid = none;
  lease_expires_at = none;
  last_error = none;
  created_at = now;
  updated_at = now;
  completed_at = none;
  dead_lettered_at = none;
}

abbrev is_key : Option String → String → Bool
is_key none key = false
is_key (some k) key = str_eq k key

-- The unique constraints of background_jobs.
unfoldable pub clashes : Codec → ℕ → ℕ → List JobRows.Row → Bool
clashes codec job_uid uid jobs =
    exists
      (λ j.
        j.uid == job_uid
        || str_eq j.queue "email"
          && is_key j.deduplication_key (str_append "email-delivery:" (codec.uuid_text uid)))
      jobs

-- What scheduleEmailDelivery reads besides its arguments, and which statements fail.
pub record Scheduling : Type 0 where
  pub delivery_uid : ℕ
  pub job_uid : ℕ
  pub recipient_nonce : Option (List ℕ)
  pub payload_nonce : Option (List ℕ)
  pub now : ℕ
  pub insert_fails : Bool
  pub enqueue_fails : Bool

-- The check of the column template.
abbrev pub is_template : String → Bool
is_template s =
    str_eq s "tenant_email_verification"
    || str_eq s "tenant_password_reset"
    || str_eq s "tenant_invitation"

-- The statements of scheduleEmailDelivery.
unfoldable pub enqueue :
    Codec
    → Scheduling
    → ℕ
    → String
    → EncryptedValue
    → EncryptedValue
    → Outbox
    → Result MailError Outbox
unfolding delivery_job clashes
enqueue codec at tenant_uid template recipient payload t =
    if at.insert_fails
      || is_some (get at.delivery_uid t.deliveries)
      || (if is_template template then false else true)
    then err insert_failed
    else if at.enqueue_fails || clashes codec at.job_uid at.delivery_uid t.jobs
    then err enqueue_failed
    else ok (record {
      deliveries =
          t.deliveries
          ++ record {
            uid = at.delivery_uid;
            tenant_uid = tenant_uid;
            template = template;
            recipient = recipient;
            payload = payload;
            status = pending;
            delivered_at = none;
          }
            ∷ [];
      jobs = t.jobs ++ delivery_job codec at.job_uid at.now at.delivery_uid ∷ [];
    })

-- scheduleEmailDelivery, inside the transaction of its caller, who rolls back on an error.
unfoldable pub schedule_email_delivery :
    Crypto
    → Codec
    → EncryptionKeyring
    → Scheduling
    → ℕ
    → String
    → String
    → EmailDeliveryPayload
    → Outbox
    → Result MailError Outbox
unfolding email_delivery_context enqueue
schedule_email_delivery crypto codec k at tenant_uid template recipient payload t =
    elim (seal crypto k at.recipient_nonce (codec.bytes recipient)
      (email_delivery_context codec at.delivery_uid "recipient")) [
        | err e ↦ err (encrypt_failed e)
        | ok sealed_recipient ↦ elim (codec.marshal payload) [
          | none ↦ err encode_failed
          | some raw ↦
              elim (seal crypto k at.payload_nonce raw
                (email_delivery_context codec at.delivery_uid "payload")) [
                  | err e ↦ err (encrypt_failed e)
                  | ok sealed_payload ↦
                      enqueue codec at tenant_uid template sealed_recipient sealed_payload t
                ]
        ]
      ]

-- The message of a delivery: deliverEmail from the decryption to renderEmail.
unfoldable pub message_of :
    Crypto → Codec → EncryptionKeyring → Delivery → Result MailError EmailMessage
unfolding email_delivery_context render_email
message_of crypto codec k d =
    elim (open_value crypto k d.recipient (email_delivery_context codec d.uid "recipient")) [
      | err e ↦ err (decrypt_failed e)
      | ok recipient ↦
          elim (open_value crypto k d.payload (email_delivery_context codec d.uid "payload")) [
            | err e ↦ err (decrypt_failed e)
            | ok raw ↦ elim (codec.unmarshal raw) [
              | none ↦ err decode_failed
              | some payload ↦ elim (render_email d.template payload) [
                | err e ↦ err e
                | ok rendered ↦ ok (record {
                  delivery_uid = d.uid;
                  to = codec.text recipient;
                  subject = rendered.0;
                  text = rendered.1;
                })
              ]
            ]
          ]
    ]

-- UPDATE email_deliveries SET status='delivered' ... WHERE uid=$1 AND status='pending'
unfoldable pub mark_delivered : ℕ → ℕ → List Delivery → List Delivery
mark_delivered uid now =
    update (λ d. d.uid == uid && is_pending d.status)
      (λ d. record d { status = delivered; delivered_at = some now })

-- How the calls of deliverEmail end.
pub record Delivering : Type 0 where
  pub read_fails : Bool
  pub send_fails : Bool
  pub exec : Outcome
  pub now : ℕ

abbrev marked : Outcome → ℕ → ℕ → List Delivery → Result MailError (Unit {0}) × List Delivery
marked done uid now t = (ok tt, mark_delivered uid now t)
marked rejected uid now t = (err update_failed, t)
marked lost uid now t = (err update_failed, mark_delivered uid now t)

-- deliverEmail: its answer and the table, and the message that is handed to Send.
unfoldable pub deliver_email :
    Crypto
    → Codec
    → EncryptionKeyring
    → Delivering
    → ℕ
    → List Delivery
    → (Result MailError (Unit {0}) × List Delivery) × Option EmailMessage
unfolding message_of mark_delivered
deliver_email crypto codec k at uid t =
    if at.read_fails then ((err load_failed, t), none) else elim (get uid t) [
      | none ↦ ((ok tt, t), none)
      | some d ↦
          if is_pending d.status
          then elim (message_of crypto codec k d) [
            | err e ↦ ((err e, t), none)
            | ok message ↦
                if at.send_fails
                then ((err send_failed, t), some message)
                else (marked at.exec uid at.now t, some message)
          ]
          else ((ok tt, t), none)
    ]
