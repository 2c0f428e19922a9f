-- ===== src/Workers.antt =====
-- internal/api/background_jobs.go: the workers over internal/store/background_jobs.go. The context is
-- not cancelled here: a cancelled one ends the worker. Logging and the wait between rounds without a
-- job are not modelled. The text of an error stands without the error that it wraps.
pub mod Purge
pub mod Delay
pub mod Rounds
pub mod Laws
mod Tests
use complicatedauth_backend.Prelude.{
  ℕ, ◌+◌, String, str_eq, ◌≡◌, Bool, true, false, List, Option, none, some, if◌then◌else◌,
}
use complicatedauth_backend.Db.{Result, ok, err}
use complicatedauth_backend.Jobs.{Job}

-- What a job's payload decodes to: not JSON, no UUID in its field, or the UUID.
pub data Payload : Type 0 where
  undecodable bad_uid : Payload
  names : ℕ → Payload

-- The handlers of the job types over a state S, and how payloads are read. A handler answers with
-- backgroundJobResult.rescheduleAt, or with an error's text.
pub record Handlers (S : Type 0) : Type 0 where
  pub case_payload : String → Payload
  pub delivery_payload : String → Payload
  pub purge_support_case : ℕ → S → Result String (Option ℕ) × S
  pub deliver_email : ℕ → S → Result String (Unit {0}) × S
  pub run_maintenance_cleanup : S → Result String ℕ × S

abbrev without_time : Result String (Unit {0}) → Result String (Option ℕ)
without_time (err e) = err e
without_time (ok u) = ok none

abbrev with_time : Result String ℕ → Result String (Option ℕ)
with_time (err e) = err e
with_time (ok t) = ok (some t)

module _ {S : Type 0} where
  abbrev purged : Payload → Handlers S → S → Result String (Option ℕ) × S
  purged undecodable h s = (err "decode support case purge payload", s)
  purged bad_uid h s = (err "support case purge payload has an invalid case_uid", s)
  purged (names uid) h s = h.purge_support_case uid s

  abbrev sent : Payload → Handlers S → S → Result String (Option ℕ) × S
  sent undecodable h s = (err "decode email delivery payload", s)
  sent bad_uid h s = (err "email delivery payload has an invalid delivery_uid", s)
  sent (names uid) h s = let (answer, s') = h.deliver_email uid s in (without_time answer, s')

  -- handleBackgroundJob
  unfoldable pub handle_background_job : Handlers S → Job → S → Result String (Option ℕ) × S
  handle_background_job h job s =
      if str_eq job.job_type "support_case.purge"
      then purged (h.case_payload job.payload) h s
      else if str_eq job.job_type "email.delivery"
      then sent (h.delivery_payload job.payload) h s
      else if str_eq job.job_type "maintenance.cleanup"
      then (let (answer, s') = h.run_maintenance_cleanup s in (with_time answer, s'))
      else (err "unsupported background job type", s)
