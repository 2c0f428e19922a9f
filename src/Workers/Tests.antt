-- ===== src/Workers/Tests.antt =====
-- A worker that runs the maintenance job, which fails at first.
use complicatedauth_backend.Prelude.{
  ℕ, ◌+◌, ◌*◌, ◌≤◌, ◌<◌, ◌≡◌, refl, String, true, false, List, [], ◌∷◌, none, some, arith, subst,
  ltb, All, ◌⊎◌, if◌then◌else◌, ◌==◌,
}
use complicatedauth_backend.Prelude.Int.{pos}
use complicatedauth_backend.Prelude.Text.{matches, trim_space}
use complicatedauth_backend.Table.{get, Unique, select, update}
use complicatedauth_backend.Db.{ok, err, done, transact}
use complicatedauth_backend.Duration.{second, duration_seconds}
use complicatedauth_backend.Jobs.{
  Job, claim, claim_body, first_of_queue, is_eligible, is_exhausted, returned_job,
}
use complicatedauth_backend.Jobs.Rows.{Row, row_keyed, pending}
use complicatedauth_backend.Jobs.Message.{stored_message}
use complicatedauth_backend.Jobs.Invariant.{IsValid}
use complicatedauth_backend.Jobs.Calls as JobCalls
use complicatedauth_backend.Jobs.Calls.{run}
use complicatedauth_backend.Jobs.Scheduling.{purge_key}
use complicatedauth_backend.Jobs.Leases.{ByOthers}
use complicatedauth_backend.Workers.{Handlers, names, handle_background_job}
use complicatedauth_backend.Workers.Delay.{retry_delay, retry_delay_bounds}
use complicatedauth_backend.Workers.Purge.{
  SupportCase, case_keyed, Cases, Call, purge_support_case, purge_respects_retention,
  purge_comes_about,
}
use complicatedauth_backend.Workers.Rounds.{Round, queue_at, try_claims, work}
use complicatedauth_backend.Workers.Laws.{EndsAs, claimed_job_is_settled}

abbrev third : ℕ
third = 3

retry_delay_bounds_example :
    (second ≤ retry_delay 3 (some 200))
    × (retry_delay 3 (some 200) ≤ 320 * second)
    × (second ≤ retry_delay 3 none)
    × (retry_delay 3 none ≤ retry_delay 3 (some 200))
    × ((third ≡ 0) ⊎ ((retry_delay 3 (some 200) < retry_delay 4 none) ⊎ (9 ≤ 3)))
retry_delay_bounds_example = retry_delay_bounds 3 200 (omega arith)

abbrev upkeep : Row
upkeep = record {
  uid = 9;
  queue = "maintenance";
  job_type = "maintenance.cleanup";
  deduplication_key = some "global";
  payload = "{}";
  status = pending;
  attempts = 0;
  max_attempts = 12;
  available_at = 5;
  lease_uid = none;
  lease_expires_at = none;
  last_error = none;
  created_at = 2;
  updated_at = 2;
  completed_at = none;
  dead_lettered_at = none;
}

abbrev jobs : List Row
jobs = upkeep ∷ []

jobs-IsValid : IsValid jobs
unfolding get
jobs-IsValid = record {
  unique = (refl, tt);
  rows = (
    record {
      leased = refl;
      lease_timed = refl;
      completion = refl;
      death = refl;
      bound_low = omega arith;
      bound_high = omega arith;
      attempts_bounded = omega arith;
      pending_has_attempt = λ e. omega arith;
      running_has_begun = λ e. cc;
    },
    tt,
  );
}

abbrev handlers : Handlers (Unit {0})
handlers = record {
  case_payload = λ p. names 1;
  delivery_payload = λ p. names 1;
  purge_support_case = λ uid s. (ok none, s);
  deliver_email = λ uid s. (ok tt, s);
  run_maintenance_cleanup = λ s. (err "clean up oauth_access_tokens", s);
}

-- While the handler runs, another worker finds nothing to claim and a support case is closed.
abbrev others : List JobCalls.Call
others =
    JobCalls.claims false
      (record { begin = false; first = false; second = false; third = false; commit = done })
      (record {
        exhausted_check = 12;
        exhausted_at = 12;
        exhausted_updated = 12;
        available_check = 12;
        lease_check = 12;
        lease_value = 12;
        claim_updated = 12;
      })
      (λ uid. false) "maintenance" (pos (30 * second)) 5
    ∷ JobCalls.closes done (record {
      case_uid = "8";
      job_uid = 6;
      payload = "{}";
      retention_until = 90;
      inserted_at = 13;
      now = 13;
    })
    ∷ []

abbrev round : Round (Unit {0})
round = record {
  claims = λ offset. record {
    others = [];
    faults = record { begin = false; first = false; second = false; third = false; commit = done };
    at = record {
      exhausted_check = 10;
      exhausted_at = 10;
      exhausted_updated = 10;
      available_check = 10;
      lease_check = 10;
      lease_value = 10;
      claim_updated = 10;
    };
    locked = λ uid. false;
    lease_uid = 3;
  };
  lease = pos (30 * second);
  handlers = handlers;
  others = others;
  finished_at = 20;
  random = some 255;
  exec = done;
  now = record { value = 21; updated = 22 };
}

abbrev job : Job
job = record {
  uid = 9;
  queue = "maintenance";
  job_type = "maintenance.cleanup";
  deduplication_key = some "global";
  payload = "{}";
  attempt = 1;
  max_attempts = 12;
  lease_uid = 3;
  lease_expires_at = 10 + 30 * second;
  created_at = 2;
}

others_early : All (ByOthers job) others
unfolding purge_key
others_early = ((omega arith, omega arith), (refl, tt))

is_claimed : (try_claims round 1 0 3 (jobs, [])).0 ≡ some (1, job)
unfolding try_claims run claim matches transact claim_body first_of_queue select update is_eligible
    is_exhausted returned_job duration_seconds queue_at
is_claimed = refl

fails : (handle_background_job handlers job tt).0 ≡ err "clean up oauth_access_tokens"
unfolding handle_background_job
fails = refl

is_text : (m : String) × (stored_message (some "clean up oauth_access_tokens") ≡ some m)
unfolding stored_message trim_space
is_text = ("clean up oauth_access_tokens", refl)

is_stored :
    (message : String)
    → (handle_background_job handlers job tt).0 ≡ err message
    → (m : String) × (stored_message (some message) ≡ some m)
is_stored message e =
    let same : "clean up oauth_access_tokens" ≡ message = ground (arith, fails, e) in
    subst (λ text. (m : String) × (stored_message (some text) ≡ some m)) same is_text

claimed_job_is_settled_example :
    (row : Row) × (get 9 (work round 1 tt (jobs, [])).2.0 ≡ some row)
    × (row.lease_uid ≡ none)
    × EndsAs 20 job (handle_background_job handlers job tt).0 row
claimed_job_is_settled_example =
    claimed_job_is_settled round 1 tt (jobs, []) 1 job jobs-IsValid refl (λ r e. ground arith)
      is_claimed others_early is_stored

abbrev closed : SupportCase
closed = record {
  uid = 2;
  tenant_uid = 1;
  project_uid = none;
  case_reference = "SC-AAAAAAAAAAAA";
  category = "bug";
  status = "closed";
  retention_until = some 50;
}

abbrev cases : Cases
cases = record { cases = closed ∷ []; events = [] }

abbrev purge : Call
purge = record {
  begin_fails = false;
  read_fails = false;
  now = 60;
  audit_fails = false;
  delete_fails = false;
  commit = done;
}

cases-Unique : Unique cases.cases
unfolding get
cases-Unique = (refl, tt)

is_found : get 2 cases.cases ≡ some closed
unfolding get
is_found = refl

purge_respects_retention_example :
    ((purge_support_case purge 2 cases).1 ≡ cases)
    ⊎ ((until : ℕ) × (some 50 ≡ some until)
        × (until ≤ 60)
        × (true ≡ true)
        × ((j : ℕ)
            → get j (purge_support_case purge 2 cases).1.cases
              ≡ (if j == 2 then none else get j cases.cases)))
purge_respects_retention_example =
    purge_respects_retention purge 2 cases closed cases-Unique is_found

purge_comes_about_example :
    ((purge_support_case purge 2 cases).0 ≡ ok (if ltb 60 50 then some 50 else none))
    × (get 2 (purge_support_case purge 2 cases).1.cases ≡ (if ltb 60 50 then some closed else none))
purge_comes_about_example =
    purge_comes_about purge 2 50 cases closed cases-Unique is_found (refl, refl, refl, refl, refl)
      refl refl
