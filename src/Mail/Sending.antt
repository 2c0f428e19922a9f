-- ===== src/Mail/Sending.antt =====
-- From scheduleEmailDelivery to deliverEmail: what is sent, and how often.
use complicatedauth_backend.Prelude.{
  ℕ, ◌≡◌, ◌≤◌, refl, String, true, false, ◌&&◌, List, [], ◌∷◌, ◌++◌, none, some, arith, inl, inr,
  Option-cases, length, ◌==◌,
}
use complicatedauth_backend.Table.{get}
use complicatedauth_backend.Table.Laws.{get_appended, get-update, get-key}
use complicatedauth_backend.Db.{Result, ok, result_cases, done}
use complicatedauth_backend.Keyring.{
  EncryptedValue, EncryptionKeyring, Crypto, IsAead, KeyringError, parse_entries, empty_keyring,
  seal, open_value,
}
use complicatedauth_backend.Keyring.Rotation.{rotated_keyring_opens}
use complicatedauth_backend.Jobs.Rows as JobRows
use complicatedauth_backend.Jobs.{Readings, returned_job}
use complicatedauth_backend.Workers.{Handlers, names, handle_background_job}
use complicatedauth_backend.Workers.Rounds.{queue_at}
use complicatedauth_backend.Mail.{
  EmailMessage, EmailDeliveryPayload, pending, delivered, is_pending, Delivery, delivery_keyed,
  Codec, email_delivery_context, render_email, Outbox, delivery_job, Scheduling, is_template,
  enqueue, schedule_email_delivery, message_of, mark_delivered, Delivering, deliver_email,
}

-- The calls of deliverEmail that all succeed.
abbrev pub delivers_at : ℕ → Delivering
delivers_at now = record { read_fails = false; send_fails = false; exec = done; now = now }

renders :
    (template : String) (p : EmailDeliveryPayload)
    → is_template template ≡ true
    → (rendered : String × String) × (render_email template p ≡ ok rendered)
unfolding render_email
renders template p h = elim (result_cases (render_email template p)) [
  | inr rendered ↦ rendered
  | inl (e, failed) ↦ absurd (ground arith)
]

module _ (crypto : Crypto) (codec : Codec) (k : EncryptionKeyring) (at : Scheduling)
    (tenant_uid : ℕ) (template recipient : String) (payload : EmailDeliveryPayload)
    (t new : Outbox) where
  -- What scheduleEmailDelivery has written.
  record Scheduled : Type 0 where
    sealed_recipient : EncryptedValue
    sealed_payload : EncryptedValue
    raw : List ℕ
    recipient_is :
        seal crypto k at.recipient_nonce
          (codec.bytes recipient)
          (email_delivery_context codec at.delivery_uid "recipient")
        ≡ ok sealed_recipient
    raw_is : codec.marshal payload ≡ some raw
    payload_is :
        seal crypto k at.payload_nonce raw (email_delivery_context codec at.delivery_uid "payload")
        ≡ ok sealed_payload
    known : is_template template ≡ true
    stored :
        get at.delivery_uid new.deliveries
        ≡ some (record {
          uid = at.delivery_uid;
          tenant_uid = tenant_uid;
          template = template;
          recipient = sealed_recipient;
          payload = sealed_payload;
          status = pending;
          delivered_at = none;
        })
    queued : new.jobs ≡ t.jobs ++ delivery_job codec at.job_uid at.now at.delivery_uid ∷ []

  schedule-Scheduled :
      schedule_email_delivery crypto codec k at tenant_uid template recipient payload t ≡ ok new
      → Scheduled
  unfolding schedule_email_delivery
  schedule-Scheduled h =
      elim (result_cases (
        seal crypto k at.recipient_nonce (codec.bytes recipient)
          (email_delivery_context codec at.delivery_uid "recipient"))) [
            | inl (e, failed) ↦ absurd (ground arith)
            | inr (sealed, sealed_is) ↦ elim (Option-cases (codec.marshal payload)) [
              | inl failed ↦ absurd (ground arith)
              | inr (raw, raw_is) ↦
                  elim (result_cases (
                    seal crypto k at.payload_nonce raw
                      (email_delivery_context codec at.delivery_uid "payload"))) [
                        | inl (e, failed) ↦ absurd (ground arith)
                        | inr (value, value_is) ↦
                            let made : enqueue codec at tenant_uid template sealed value t
                                ≡ ok new =
                              ground arith in
                            let (known, stored, queued) = enqueued sealed value made in
                            record {
                              sealed_recipient = sealed;
                              sealed_payload = value;
                              raw = raw;
                              recipient_is = sealed_is;
                              raw_is = raw_is;
                              payload_is = value_is;
                              known = known;
                              stored = stored;
                              queued = queued;
                            }
                      ]
            ]
          ]
    where
      enqueued :
          (sealed value : EncryptedValue)
          → enqueue codec at tenant_uid template sealed value t ≡ ok new
          → (is_template template ≡ true)
            × (get at.delivery_uid new.deliveries
                ≡ some (record {
                  uid = at.delivery_uid;
                  tenant_uid = tenant_uid;
                  template = template;
                  recipient = sealed;
                  payload = value;
                  status = pending;
                  delivered_at = none;
                }))
            × (new.jobs ≡ t.jobs ++ delivery_job codec at.job_uid at.now at.delivery_uid ∷ [])
      enqueued sealed value h =
          let row : Delivery = record {
            uid = at.delivery_uid;
            tenant_uid = tenant_uid;
            template = template;
            recipient = sealed;
            payload = value;
            status = pending;
            delivered_at = none;
          } in
          unfold enqueue in
          (ground arith, ground (arith, get_appended t.deliveries row), ground arith)

-- A delivery that is marked is not sent again.
delivered_once :
    (crypto : Crypto) (codec : Codec) (k : EncryptionKeyring) (at : Delivering) (now uid : ℕ)
    (ds : List Delivery) (d : Delivery)
    → get uid ds ≡ some d
    → (deliver_email crypto codec k at uid (mark_delivered uid now ds)).1 ≡ none
unfolding deliver_email mark_delivered
delivered_once crypto codec k at now uid ds d h =
    let here = get-key uid ds d h in
    ground (
      arith,
      get-update (λ d. d.uid == uid && is_pending d.status)
          (λ d. record d { status = delivered; delivered_at = some now }) uid ds (λ y. refl),
    )

deliver_sends :
    (crypto : Crypto) (codec : Codec) (k : EncryptionKeyring) (now uid : ℕ) (ds : List Delivery)
    (d : Delivery) (message : EmailMessage)
    → get uid ds ≡ some d
    → is_pending d.status ≡ true
    → message_of crypto codec k d ≡ ok message
    → deliver_email crypto codec k (delivers_at now) uid ds
      ≡ ((ok tt, mark_delivered uid now ds), some message)
unfolding deliver_email
deliver_sends crypto codec k now uid ds d message h p m = ground arith

message_of_scheduled :
    (crypto : Crypto) (codec : Codec) (k : EncryptionKeyring) (d : Delivery) (recipient : String)
    (payload : EmailDeliveryPayload) (raw : List ℕ) (rendered : String × String)
    → codec.text (codec.bytes recipient) ≡ recipient
    → codec.unmarshal raw ≡ some payload
    → open_value crypto k d.recipient (email_delivery_context codec d.uid "recipient")
      ≡ ok (codec.bytes recipient)
    → open_value crypto k d.payload (email_delivery_context codec d.uid "payload") ≡ ok raw
    → render_email d.template payload ≡ ok rendered
    → message_of crypto codec k d
      ≡ ok
          (record { delivery_uid = d.uid; to = recipient; subject = rendered.0; text = rendered.1 })
unfolding message_of
message_of_scheduled crypto codec k d recipient payload raw rendered b m o o' r = ground arith

same_value :
    {r : Result KeyringError EncryptedValue} {a b : EncryptedValue} → r ≡ ok a → r ≡ ok b → a ≡ b
same_value h k = ground arith

-- The handler of a delivery's job calls deliverEmail for the delivery.
delivers_named :
    (codec : Codec) (job_uid now uid : ℕ) (S : Type 0) (handlers : Handlers S) (s : S)
    (readings : Readings) (lease span : ℕ)
    → handlers.delivery_payload (codec.job_payload uid) ≡ names uid
    → (handle_background_job handlers
        (returned_job readings lease span (delivery_job codec job_uid now uid))
        s).1
      ≡ (handlers.deliver_email uid s).1
unfolding handle_background_job returned_job delivery_job
delivers_named codec job_uid now uid S handlers s readings lease span named = ground arith

-- A scheduled e-mail is sent, once: when scheduleEmailDelivery has succeeded under a keyring, with a
-- recipient and a payload that are read as they were written, it has added one job, of the queue
-- "email" that every worker claims from, pending and available at once with an attempt left and no
-- lease, for which, if its payload is read as it was written, handleBackgroundJob calls
-- deliverEmail with the delivery; and deliverEmail, under that keyring with a newer key in front and
-- with calls that succeed, hands the rendered template to Send for the recipient; after that no
-- call of deliverEmail hands anything to Send for this delivery.
pub scheduled_email_is_sent :
    (crypto : Crypto)
    → IsAead crypto
    → (codec : Codec) (newer entry : String) (entries : List String) (k k' : EncryptionKeyring)
    → parse_entries crypto (entry ∷ entries) empty_keyring ≡ ok k
    → parse_entries crypto (newer ∷ entry ∷ entries) empty_keyring ≡ ok k'
    → (at : Scheduling) (n n' : List ℕ) → at.recipient_nonce ≡ some n
    → at.payload_nonce ≡ some n'
    → length n ≡ crypto.nonce_size
    → length n' ≡ crypto.nonce_size
    → (tenant_uid : ℕ) (template recipient : String) (payload : EmailDeliveryPayload)
      (t new : Outbox)
    → codec.text (codec.bytes recipient) ≡ recipient
    → ((raw : List ℕ) → codec.marshal payload ≡ some raw → codec.unmarshal raw ≡ some payload)
    → schedule_email_delivery crypto codec k at tenant_uid template recipient payload t ≡ ok new
    → (S : Type 0) (handlers : Handlers S) (s : S) (readings : Readings) (lease span now : ℕ)
    → handlers.delivery_payload (codec.job_payload at.delivery_uid) ≡ names at.delivery_uid
    → (rendered : String × String) × (render_email template payload ≡ ok rendered)
      × ((j : JobRows.Row) × (new.jobs ≡ t.jobs ++ j ∷ [])
          × (j.queue ≡ queue_at 1)
          × (j.status ≡ JobRows.pending)
          × (j.attempts ≡ 0)
          × (1 ≤ j.max_attempts)
          × (j.available_at ≡ at.now)
          × (j.lease_uid ≡ none)
          × ((handle_background_job handlers (returned_job readings lease span j) s).1
              ≡ (handlers.deliver_email at.delivery_uid s).1))
      × ((deliver_email crypto codec k' (delivers_at now) at.delivery_uid new.deliveries).1
          ≡ some (record {
            delivery_uid = at.delivery_uid;
            to = recipient;
            subject = rendered.0;
            text = rendered.1;
          }))
      × ((deliver_email crypto codec k' (delivers_at now) at.delivery_uid new.deliveries).0.0
          ≡ ok tt)
      × ((at' : Delivering)
          → (deliver_email crypto codec k' at' at.delivery_uid
              (deliver_email crypto codec k'
                (delivers_at now)
                at.delivery_uid
                new.deliveries).0.1).1
            ≡ none)
unfolding delivery_job
scheduled_email_is_sent crypto aead codec newer entry entries k k' h h' at n n' a a' size size'
      tenant_uid template recipient payload t new reads decodes made S handlers s readings lease
      span now named =
    let x = schedule-Scheduled crypto codec k at tenant_uid template recipient payload t new made in
    let (rendered, is_rendered) = renders template payload x.known in
    let (v, v_is, own_v, opens_v) =
      rotated_keyring_opens crypto aead newer entry entries k k' h h' n (codec.bytes recipient)
        (email_delivery_context codec at.delivery_uid "recipient") size in
    let (w, w_is, own_w, opens_w) =
      rotated_keyring_opens crypto aead newer entry entries k k' h h' n' x.raw
        (email_delivery_context codec at.delivery_uid "payload") size' in
    let same_v : v ≡ x.sealed_recipient = same_value v_is (rw a at x.recipient_is) in
    let same_w : w ≡ x.sealed_payload = same_value w_is (rw a' at x.payload_is) in
    let sent = deliver_sends crypto codec k' now at.delivery_uid new.deliveries _ _ x.stored refl (
      message_of_scheduled crypto codec k' _ recipient payload x.raw rendered reads
        (decodes x.raw x.raw_is) (rw same_v at opens_v) (rw same_w at opens_w) is_rendered) in
    (
      rendered,
      is_rendered,
      (
        delivery_job codec at.job_uid at.now at.delivery_uid,
        x.queued,
        unfold queue_at in refl,
        refl,
        refl,
        omega arith,
        refl,
        refl,
        delivers_named codec at.job_uid at.now at.delivery_uid S handlers s readings lease span
            named,
      ),
      rw sent refl,
      rw sent refl,
      λ at'.
          rw sent
            (delivered_once crypto codec k' at' now at.delivery_uid new.deliveries _ x.stored),
    )
