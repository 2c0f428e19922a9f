-- ===== src/Mail/Tests.antt =====
-- An invitation from its scheduling to its delivery.
use Prim.Native.String.{len}
use complicatedauth_backend.Prelude.{
  ℕ, zero, suc, ◌≡◌, ◌≤◌, refl, String, List, [], ◌∷◌, ◌++◌, none, some, false, true,
}
use complicatedauth_backend.Prelude.Text.{cut, trim_space, matches}
use complicatedauth_backend.Table.{get, exists}
use complicatedauth_backend.Db.{ok}
use complicatedauth_backend.Keyring.{
  EncryptionKeyring, Crypto, IsAead, parse_entries, empty_keyring, seal,
}
use complicatedauth_backend.Jobs.Rows as JobRows
use complicatedauth_backend.Jobs.{Readings, returned_job}
use complicatedauth_backend.Workers.{Handlers, undecodable, names, handle_background_job}
use complicatedauth_backend.Workers.Rounds.{queue_at}
use complicatedauth_backend.Mail.{
  EmailDeliveryPayload, pending, Codec, Outbox, Scheduling, Delivering, schedule_email_delivery,
  deliver_email, render_email, delivery_job,
}
use complicatedauth_backend.Mail.Sending.{delivers_at, scheduled_email_is_sent}

abbrev bytes : ℕ → ℕ → List ℕ
bytes b zero = []
bytes b (suc n) = b ∷ bytes b n

abbrev crypto : Crypto
crypto = record {
  decode = λ s. some (bytes (len s) 32);
  accepts = λ key. true;
  nonce_size = 1;
  seal_with = λ key nonce plaintext context. plaintext;
  open_with = λ key nonce ciphertext context. some ciphertext;
}

crypto-IsAead : IsAead crypto
crypto-IsAead = record { accepts_32 = λ key e. refl; opens = λ key nonce plaintext context e. refl }

abbrev payload : EmailDeliveryPayload
payload = record { display_name = "Ada"; tenant_name = "Acme"; link = "https://x" }

abbrev codec : Codec
codec = record {
  uuid_text = λ uid. "0";
  bytes = λ s. len s ∷ [];
  text = λ b. "ada@example.com";
  marshal = λ p. some (4 ∷ []);
  unmarshal = λ raw. some payload;
  job_payload = λ uid. "{}";
}

abbrev scheduling : Scheduling
scheduling = record {
  delivery_uid = 12;
  job_uid = 13;
  recipient_nonce = some (5 ∷ []);
  payload_nonce = some (6 ∷ []);
  now = 100;
  insert_fails = false;
  enqueue_fails = false;
}

abbrev old : EncryptionKeyring
old = record { active_version = "v1"; keys = ("v1", bytes 1 32) ∷ [] }

abbrev new : EncryptionKeyring
new = record { active_version = "v2"; keys = ("v1", bytes 1 32) ∷ ("v2", bytes 3 32) ∷ [] }

is_old : parse_entries crypto ("v1:a" ∷ []) empty_keyring ≡ ok old
unfolding parse_entries cut trim_space matches
is_old = refl

is_new : parse_entries crypto ("v2:abc" ∷ "v1:a" ∷ []) empty_keyring ≡ ok new
unfolding parse_entries cut trim_space matches
is_new = refl

abbrev outbox : Outbox
outbox = record {
  deliveries =
      record {
        uid = 12;
        tenant_uid = 1;
        template = "tenant_invitation";
        recipient = record { key_version = "v1"; nonce = 5 ∷ []; ciphertext = 15 ∷ [] };
        payload = record { key_version = "v1"; nonce = 6 ∷ []; ciphertext = 4 ∷ [] };
        status = pending;
        delivered_at = none;
      }
      ∷ [];
  jobs = delivery_job codec 13 100 12 ∷ [];
}

schedules :
    schedule_email_delivery crypto codec old scheduling 1 "tenant_invitation" "ada@example.com"
      payload
      (record { deliveries = []; jobs = [] })
    ≡ ok outbox
unfolding schedule_email_delivery seal get exists
schedules = refl

-- Handlers that count the deliveries.
abbrev handlers : Handlers ℕ
handlers = record {
  case_payload = λ p. undecodable;
  delivery_payload = λ p. names 12;
  purge_support_case = λ uid s. (ok none, s);
  deliver_email = λ uid s. (ok tt, suc s);
  run_maintenance_cleanup = λ s. (ok 0, s);
}

abbrev readings : Readings
readings = record {
  exhausted_check = 110;
  exhausted_at = 110;
  exhausted_updated = 110;
  available_check = 110;
  lease_check = 110;
  lease_value = 110;
  claim_updated = 110;
}

scheduled_email_is_sent_example :
    (rendered : String × String) × (render_email "tenant_invitation" payload ≡ ok rendered)
    × ((j : JobRows.Row) × (outbox.jobs ≡ [] ++ j ∷ [])
        × (j.queue ≡ queue_at 1)
        × (j.status ≡ JobRows.pending)
        × (j.attempts ≡ 0)
        × (1 ≤ j.max_attempts)
        × (j.available_at ≡ 100)
        × (j.lease_uid ≡ none)
        × ((handle_background_job handlers (returned_job readings 3 40 j) 0).1
            ≡ (handlers.deliver_email 12 0).1))
    × ((deliver_email crypto codec new (delivers_at 200) 12 outbox.deliveries).1
        ≡ some (record {
          delivery_uid = 12;
          to = "ada@example.com";
          subject = rendered.0;
          text = rendered.1;
        }))
    × ((deliver_email crypto codec new (delivers_at 200) 12 outbox.deliveries).0.0 ≡ ok tt)
    × ((at' : Delivering)
        → (deliver_email crypto codec new at' 12
            (deliver_email crypto codec new (delivers_at 200) 12 outbox.deliveries).0.1).1
          ≡ none)
scheduled_email_is_sent_example =
    scheduled_email_is_sent crypto crypto-IsAead codec "v2:abc" "v1:a" [] old new is_old is_new
      scheduling (5 ∷ []) (6 ∷ []) refl refl refl refl 1 "tenant_invitation" "ada@example.com"
      payload (record { deliveries = []; jobs = [] }) outbox refl (λ raw e. refl) schedules ℕ
      handlers 0 readings 3 40 200 refl
