-- ===== src/Jobs/Tests.antt =====
-- A queue with one e-mail to send, and what the store's promises give for it.
use Prim.Native.String.{len, ◌++◌ as str_append}
use text.Mathlib.Text.{is_char_boundary}
use complicatedauth_backend.Prelude.{
  ℕ, zero, suc, ◌*◌, ◌+◌, ◌<◌, ◌≡◌, ◌≢◌, refl, List, [], ◌∷◌, ◌++◌, none, some, String, arith, All,
  false, true, Bool, inl, ◌⊎◌,
}
use complicatedauth_backend.Prelude.Int.{pos}
use complicatedauth_backend.Prelude.Text.{matches, trim_space}
use complicatedauth_backend.Table.{get, Unique, update, select}
use complicatedauth_backend.Db.{transact, done, ok, err}
use complicatedauth_backend.Duration.{second, duration_seconds}
use complicatedauth_backend.Jobs.Rows.{
  Row, Clock, row_keyed, pending, running, completed, dead_lettered,
}
use complicatedauth_backend.Jobs.Message.{stored_message, message_of}
use complicatedauth_backend.Jobs.{
  Job, Readings, Faults, claim, claim_body, complete, retry, reschedule, lease_lost, retry_failed,
  lease_row, returned_job, is_eligible, first_of_queue, is_exhausted, precedes, not_dead_lettered,
}
use complicatedauth_backend.Jobs.Operator.{Replay, Action, replay, check_replay, replay_body}
use complicatedauth_backend.Jobs.Invariant.{IsValid, RowIsValid}
use complicatedauth_backend.Jobs.Calls.{Call, claims, completes, closes, forgets, run, run-IsValid}
use complicatedauth_backend.Jobs.Scheduling.{Purge, purge_key, has_key, schedule_purge}
use complicatedauth_backend.Jobs.Inserted.{closing_resets_purge}
use complicatedauth_backend.Cleanup.{is_some}
use complicatedauth_backend.Jobs.Leases.{ByOthers, no_second_claim, holder_completes}
use complicatedauth_backend.Jobs.Verdicts.{
  without_lease_nothing_changes, retry_of_split_character, dead_letter_stays,
}
use complicatedauth_backend.Jobs.Replays.{replay_revives}

abbrev email : Row
email = record {
  uid = 4;
  queue = "email";
  job_type = "email.send";
  deduplication_key = none;
  payload = "{}";
  status = pending;
  attempts = 0;
  max_attempts = 3;
  available_at = 0;
  lease_uid = none;
  lease_expires_at = none;
  last_error = none;
  created_at = 0;
  updated_at = 0;
  completed_at = none;
  dead_lettered_at = none;
}

abbrev queue : List Row
queue = email ∷ []

abbrev instant : ℕ → Readings
instant t = record {
  exhausted_check = t;
  exhausted_at = t;
  exhausted_updated = t;
  available_check = t;
  lease_check = t;
  lease_value = t;
  claim_updated = t;
}

abbrev moment : ℕ → Clock
moment t = record { value = t; updated = t }

abbrev no_faults : Faults
no_faults = record { begin = false; first = false; second = false; third = false; commit = done }

abbrev nobody : ℕ → Bool
nobody uid = false

-- What the worker with the lease 7 gets.
abbrev job : Job
job = record {
  uid = 4;
  queue = "email";
  job_type = "email.send";
  deduplication_key = none;
  payload = "{}";
  attempt = 1;
  max_attempts = 3;
  lease_uid = 7;
  lease_expires_at = 1 + 30 * second;
  created_at = 0;
}

queue-Unique : Unique queue
unfolding get
queue-Unique = (refl, tt)

email-RowIsValid : RowIsValid email
email-RowIsValid = record {
  leased = refl;
  lease_timed = refl;
  completion = refl;
  death = refl;
  bound_low = omega arith;
  bound_high = omega arith;
  attempts_bounded = omega arith;
  pending_has_attempt = λ e. omega arith;
  running_has_begun = λ e. cc;
}

queue-IsValid : IsValid queue
queue-IsValid = record { unique = queue-Unique; rows = (email-RowIsValid, tt) }

abbrev claim_email : Call
claim_email = claims false no_faults (instant 1) nobody "email" (pos (30 * second)) 7

claimed :
    (claim false no_faults (instant 1) nobody "email" (pos (30 * second)) 7 queue).0 ≡ ok (some job)
unfolding claim matches transact claim_body first_of_queue select update is_eligible is_exhausted
    returned_job duration_seconds
claimed = refl

run-IsValid_example : IsValid (run (queue, []) (claim_email ∷ [])).0
run-IsValid_example = run-IsValid (claim_email ∷ []) (queue, []) queue-IsValid

-- What closing the support case 8 writes.
abbrev closing : Purge
closing = record {
  case_uid = "8";
  job_uid = 6;
  payload = "{8}";
  retention_until = 90;
  inserted_at = 2;
  now = 2;
}

abbrev others : List Call
others =
    claims false no_faults (instant 3) nobody "email" (pos (30 * second)) 8
    ∷ closes done closing
    ∷ forgets done (λ row. true)
    ∷ []

others_early : All (ByOthers job) others
unfolding purge_key
others_early = ((omega arith, omega arith), (refl, (tt, tt)))

abbrev later : List Row
later =
    (run ((claim false no_faults (instant 1) nobody "email" (pos (30 * second)) 7 queue).1, [])
      others).0

holder_completes_example :
    ((complete done (moment 5) job later).0 ≡ ok tt)
    × ((row : Row) × (get 4 (complete done (moment 5) job later).1 ≡ some row)
        × (row.status ≡ completed)
        × (row.lease_uid ≡ none))
holder_completes_example =
    holder_completes no_faults (instant 1) nobody "email" (pos (30 * second)) 7 queue [] job others
      queue-IsValid claimed others_early (moment 5)

abbrev reminder : Row
reminder = record email { uid = 5 }

-- The queue with a second e-mail, and the job that the second worker gets.
abbrev two : List Row
two = email ∷ reminder ∷ []

abbrev second_job : Job
second_job = record job { uid = 5; lease_uid = 9; lease_expires_at = 4 + 30 * second }

two-IsValid : IsValid two
unfolding get
two-IsValid = record {
  unique = (refl, (refl, tt));
  rows = (
    email-RowIsValid,
    (
      record {
        leased = refl;
        lease_timed = refl;
        completion = refl;
        death = refl;
        bound_low = omega arith;
        bound_high = omega arith;
        attempts_bounded = omega arith;
        pending_has_attempt = λ e. omega arith;
        running_has_begun = λ e. cc;
      },
      tt,
    ),
  );
}

first_claims :
    (claim false no_faults (instant 1) nobody "email" (pos (30 * second)) 7 two).0 ≡ ok (some job)
unfolding claim matches transact claim_body first_of_queue select update is_eligible is_exhausted
    returned_job precedes duration_seconds
first_claims = refl

abbrev between : List Row
between =
    (run ((claim false no_faults (instant 1) nobody "email" (pos (30 * second)) 7 two).1, []) []).0

second_claims :
    (claim false no_faults (instant 4) nobody "email" (pos (30 * second)) 9 between).0
    ≡ ok (some second_job)
unfolding claim matches transact claim_body first_of_queue select update run is_eligible
    is_exhausted precedes lease_row duration_seconds returned_job
second_claims = refl

no_second_claim_example : second_job.uid ≢ job.uid
no_second_claim_example =
    no_second_claim no_faults (instant 1) nobody "email" (pos (30 * second)) 7 two [] job []
      two-IsValid first_claims tt no_faults (instant 4) nobody "email" (pos (30 * second)) 9
      second_job (omega arith) second_claims

idle : (row : Row) → get 4 queue ≡ some row → (row.status ≢ running) ⊎ (row.lease_uid ≢ some 7)
unfolding get
idle row e = inl (λ h. cc)

without_lease_nothing_changes_example :
    (complete done (moment 5) job queue ≡ (err lease_lost, queue))
    × (retry done (moment 5) job 90 none queue ≡ (err lease_lost, queue))
    × (reschedule done (moment 5) job 90 queue ≡ (err lease_lost, queue))
unfolding stored_message message_of
without_lease_nothing_changes_example =
    without_lease_nothing_changes job queue queue-Unique idle (moment 5) 90 none
      "background job failed" refl

abbrev dead : Row
dead = record email {
  status = dead_lettered;
  attempts = 3;
  last_error = some "mailbox full";
  dead_lettered_at = some 2;
}

dead-RowIsValid : RowIsValid dead
dead-RowIsValid = record {
  leased = refl;
  lease_timed = refl;
  completion = refl;
  death = refl;
  bound_low = omega arith;
  bound_high = omega arith;
  attempts_bounded = omega arith;
  pending_has_attempt = λ e. cc;
  running_has_begun = λ e. cc;
}

dead-IsValid : IsValid (dead ∷ [])
unfolding get
dead-IsValid = record { unique = (refl, tt); rows = (dead-RowIsValid, tt) }

dead_found : get 4 (dead ∷ []) ≡ some dead
unfolding get
dead_found = refl

dead_letter_stays_example :
    get 4
      (run
        (dead ∷ [], [])
        (claim_email ∷ completes done (moment 5) job ∷ closes done closing ∷ [])).0
    ≡ some dead
unfolding purge_key
dead_letter_stays_example =
    dead_letter_stays (claim_email ∷ completes done (moment 5) job ∷ closes done closing ∷ [])
      (dead ∷ [], []) dead dead-IsValid dead_found refl (tt, (tt, (refl, tt)))

abbrev request : Replay
request = record { job_uid = 4; actor = "alice"; reason = "mailbox was emptied" }

refused : (replay false no_faults (moment 9) 20 request (queue, [])).0 ≡ err not_dead_lettered
unfolding replay check_replay trim_space transact replay_body get
refused = refl

replayed : (replay false no_faults (moment 9) 20 request (dead ∷ [], [])).0 ≡ ok tt
unfolding replay check_replay trim_space transact replay_body get
replayed = refl

replay_revives_example :
    (row : Row) × (new : Row) × (action : Action) × (get 4 (dead ∷ []) ≡ some row)
    × (row.status ≡ dead_lettered)
    × (get 4 (replay false no_faults (moment 9) 20 request (dead ∷ [], [])).1.0 ≡ some new)
    × ((new.status ≡ pending)
        × (new.attempts ≡ 0)
        × (new.available_at ≡ 9)
        × (new.lease_uid ≡ none)
        × (new.lease_expires_at ≡ none)
        × (new.last_error ≡ none)
        × (new.dead_lettered_at ≡ none))
    × ((new.queue ≡ row.queue)
        × (new.job_type ≡ row.job_type)
        × (new.payload ≡ row.payload)
        × (new.max_attempts ≡ row.max_attempts))
    × ((j : ℕ)
        → j ≢ 4
        → get j (replay false no_faults (moment 9) 20 request (dead ∷ [], [])).1.0
          ≡ get j (dead ∷ []))
    × ((replay false no_faults (moment 9) 20 request (dead ∷ [], [])).1.1 ≡ [] ++ action ∷ [])
    × ((action.uid ≡ 20)
        × (action.actor ≡ "alice")
        × (action.reason ≡ "mailbox was emptied")
        × (action.target_uid ≡ 4)
        × (action.queue ≡ row.queue)
        × (action.job_type ≡ row.job_type)
        × (action.attempts ≡ row.attempts)
        × (action.max_attempts ≡ row.max_attempts)
        × (action.had_last_error ≡ is_some row.last_error))
replay_revives_example =
    replay_revives false no_faults (moment 9) 20 request (dead ∷ []) [] replayed

-- The purge of the support case 8, dead-lettered.
abbrev stuck : Row
stuck = record dead { queue = "retention"; deduplication_key = some "support-case:8" }

stuck_found : get 4 (stuck ∷ []) ≡ some stuck
unfolding get
stuck_found = refl

is_its_purge : has_key "retention" (purge_key closing) stuck ≡ true
unfolding purge_key
is_its_purge = refl

closing_resets_purge_example :
    (new : Row) × (get 4 (schedule_purge done closing (stuck ∷ [])) ≡ some new)
    × (new.status ≡ pending)
    × (new.attempts ≡ 0)
    × (new.available_at ≡ 90)
    × (new.lease_uid ≡ none)
    × (new.last_error ≡ none)
    × (new.dead_lettered_at ≡ none)
closing_resets_purge_example =
    closing_resets_purge closing (stuck ∷ []) 4 stuck stuck_found is_its_purge

abbrev repeat : ℕ → String → String
repeat zero s = ""
repeat (suc n) s = str_append s (repeat n s)

-- 1999 letters, and a letter of two bytes.
abbrev long_text : String
long_text = str_append (repeat 99 "aaaaaaaaaaaaaaaaaaaa") "aaaaaaaaaaaaaaaaaaaé"

long_message : message_of (some long_text) ≡ long_text
unfolding message_of trim_space
long_message = refl

too_long : 2000 < len (message_of (some long_text))
too_long = rw long_message (omega arith)

cut_in_character : is_char_boundary (message_of (some long_text)) 2000 ≡ false
cut_in_character = rw long_message refl

retry_of_split_character_example :
    retry done (moment 5) job 90 (some long_text) later ≡ (err retry_failed, later)
retry_of_split_character_example =
    retry_of_split_character done (moment 5) job 90 (some long_text) later too_long cut_in_character
