-- ===== src/Maintenance/Tests.antt =====
-- A cleanup run that meets a live session and one that ended long ago.
use complicatedauth_backend.Prelude.{◌+◌, ◌*◌, ◌≡◌, refl, ◌⊎◌, List, [], ◌∷◌, none, some, false}
use complicatedauth_backend.Table.{get, Unique}
use complicatedauth_backend.Cleanup.{cleanup}
use complicatedauth_backend.Db.{ok, done, settle}
use complicatedauth_backend.Duration.{minute, hour}
use complicatedauth_backend.Idempotency.{Row, row_keyed, processing, delete_expired}
use complicatedauth_backend.Idempotency.Validate.{same_key}
use complicatedauth_backend.Maintenance.{Call, cleanups, day, run_maintenance_cleanup}
use complicatedauth_backend.Maintenance.Rows.{Session}
use complicatedauth_backend.Maintenance.Batches.{Store}
use complicatedauth_backend.Maintenance.Records.{DrainedRecords}
use complicatedauth_backend.Maintenance.Laws.{HasKeys, Drained, hourly_run_leaves_nothing_due}

abbrev live : Session
live = record {
  uid = 1;
  created_at = 1;
  expires_at = 200 * day;
  idle_expires_at = 150 * day;
  revoked_at = none;
}

abbrev ended : Session
ended = record {
  uid = 2;
  created_at = 1;
  expires_at = 200 * day;
  idle_expires_at = 150 * day;
  revoked_at = some day;
}

abbrev store : Store cleanups
store = (
  [],
  (
    [],
    ([], ([], ([], ([], ([], (live ∷ ended ∷ [], ([], ([], ([], ([], ([], ([], ([], tt))))))))))))),
  ),
)

abbrev call : Call
call = record {
  idempotency_exec = done;
  idempotency_clock = 100 * day;
  exec = λ n. done;
  clock = λ n. 100 * day;
  schedule_fails = false;
  schedule_clock = 100 * day;
}

store-HasKeys : HasKeys cleanups store
unfolding get
store-HasKeys = (
  tt,
  (
    tt,
    (
      tt,
      (tt, (tt, (tt, (tt, ((refl, (refl, tt)), (tt, (tt, (tt, (tt, (tt, (tt, (tt, tt)))))))))))),
    ),
  ),
)

-- A claim of a request that is still live, and one that has expired.
abbrev live_record : Row
live_record = record {
  key = record {
    principal_type = "tenant_member";
    principal_uid = "7";
    operation = "projects.create";
    idempotency_key = "retry-1";
  };
  request_hash = [];
  state = processing;
  lease_uid = 3;
  lease_expires_at = 100 * day + minute;
  response_status = none;
  response_headers = none;
  response_body = none;
  created_at = 100 * day;
  completed_at = none;
  expires_at = 102 * day;
}

abbrev expired_record : Row
expired_record = record live_record {
  key = record {
    principal_type = "tenant_member";
    principal_uid = "7";
    operation = "projects.create";
    idempotency_key = "retry-0";
  };
  expires_at = 99 * day;
}

abbrev records : List Row
records = live_record ∷ expired_record ∷ []

records-Unique : Unique records
unfolding get same_key
records-Unique = (refl, (refl, tt))

ends : (run_maintenance_cleanup call (records, store)).0 ≡ ok (100 * day + hour)
unfolding run_maintenance_cleanup delete_expired settle cleanup same_key
ends = refl

hourly_run_leaves_nothing_due_example :
    (100 * day + hour ≡ 100 * day + minute)
    ⊎ ((100 * day + hour ≡ 100 * day + hour)
        × DrainedRecords (100 * day) (run_maintenance_cleanup call (records, store)).1.0
        × Drained call.clock 0 cleanups (run_maintenance_cleanup call (records, store)).1.1)
hourly_run_leaves_nothing_due_example =
    hourly_run_leaves_nothing_due call records store (100 * day + hour) records-Unique store-HasKeys
      ends
