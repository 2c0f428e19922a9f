-- ===== src/Jobs/Leases.antt =====
-- A job that Claim has given belongs to its worker until the lease runs out.
use complicatedauth_backend.Prelude.{
  ℕ, ◌+◌, ◌*◌, ◌<◌, ◌≤◌, ◌≡◌, refl, sym, ◌∙◌, ap, ◌≢◌, inl, inr, Bool, true, false, List, [], ◌∷◌,
  Option, none, some, arith, Option-cases, if◌then◌else◌, leb, ◌==◌, All, String, subst,
}
use complicatedauth_backend.Prelude.Int.{ℤ}
use complicatedauth_backend.Table.{get, update, Unique}
use complicatedauth_backend.Table.Laws.{get-update, count-get, All-get}
use complicatedauth_backend.Db.{Result, ok, done, settle}
use complicatedauth_backend.Duration.{second, duration_seconds}
use complicatedauth_backend.Jobs.Rows.{
  Row, Clock, row_keyed, pending, running, completed, dead_lettered,
}
use complicatedauth_backend.Jobs.Message.{stored_message}
use complicatedauth_backend.Jobs.{
  Error, Job, Readings, Faults, is_eligible, lease_row, claim, claim_body, returned_job,
  first_of_queue, exec_owned, owned, complete, complete_row, retry, retry_row, reschedule,
  reschedule_row, complete_failed, retry_failed, reschedule_failed,
}
use complicatedauth_backend.Jobs.Operator.{Action, Tables}
use complicatedauth_backend.Jobs.Selection.{
  buried, candidates, candidate-get, claim-eq-ok, claim_oldest,
}
use complicatedauth_backend.Jobs.Scheduling.{names, purge_key}
use complicatedauth_backend.Jobs.Invariant.{IsValid, RowIsValid, claim-IsValid}
use complicatedauth_backend.Jobs.Calls.{
  Call, claims, completes, retries, reschedules, replays, inserts, closes, forgets, run,
  run-IsValid, Spares, run-Spares,
}

-- The row of a job under the lease that its worker holds.
pub record IsHeld (job : Job) (row : Row) : Type 0 where
  pub uid : row.uid ≡ job.uid
  pub status : row.status ≡ running
  pub lease : row.lease_uid ≡ some job.lease_uid
  pub expiry : row.lease_expires_at ≡ some job.lease_expires_at
  pub attempts : row.attempts ≡ job.attempt
  pub bound : row.max_attempts ≡ job.max_attempts
  pub queue : row.queue ≡ job.queue
  pub key : row.deduplication_key ≡ job.deduplication_key

leased-IsHeld :
    (at : Readings) (lease span : ℕ) (row : Row)
    → IsHeld (returned_job at lease span row) (lease_row at lease span row)
unfolding returned_job lease_row
leased-IsHeld at lease span row = ground arith

get-leased :
    (at : Readings) (lease span : ℕ) (row : Row) (t : List Row)
    → get row.uid t ≡ some row
    → get row.uid (update (λ x. x.uid == row.uid) (lease_row at lease span) t)
      ≡ some (lease_row at lease span row)
get-leased at lease span row t found = ground (
  arith,
  get-update (λ x. x.uid == row.uid) (lease_row at lease span) row.uid t
      (λ x. unfold lease_row in refl),
)

module _ (f : Faults) (at : Readings) (locked : ℕ → Bool) (queue : String) (duration : ℤ)
    (lease : ℕ) (t : List Row) where
  body-IsHeld :
      (job : Job) (new : List Row) (e : Error) (span : ℕ)
      → Unique t
      → claim_body f at locked queue lease span t ≡ ok (new, some job, e)
      → (row : Row) × (get job.uid new ≡ some row) × IsHeld job row × (job.lease_uid ≡ lease)
  unfolding claim_body
  body-IsHeld job new e span u h =
      elim (Option-cases (first_of_queue (candidates at locked queue t))) [
        | inl nothing ↦ absurd (ground arith)
        | inr (row, first) ↦
            let (found, good) = candidate-get at locked queue t u row first in
            let same : returned_job at lease span row ≡ job = ground arith in
            let table : update (λ x. x.uid == row.uid) (lease_row at lease span) (buried at queue t)
                ≡ new =
              ground arith in
            subst (λ j. (x : Row) × (get j.uid new ≡ some x) × IsHeld j x × (j.lease_uid ≡ lease))
              same
              (
                lease_row at lease span row,
                subst
                    (λ l.
                      get (returned_job at lease span row).uid l
                      ≡ some (lease_row at lease span row))
                    table
                    (unfold returned_job in get-leased at lease span row (buried at queue t) found),
                leased-IsHeld at lease span row,
                unfold returned_job in refl,
              )
      ]

  -- The job that Claim returns is running in the table under the lease of the call.
  pub claim-IsHeld :
      (job : Job)
      → Unique t
      → (claim false f at locked queue duration lease t).0 ≡ ok (some job)
      → (row : Row) × (get job.uid (claim false f at locked queue duration lease t).1 ≡ some row)
        × IsHeld job row
        × (job.lease_uid ≡ lease)
  claim-IsHeld job u h =
      let (new, e, body, table) = claim-eq-ok f at locked queue duration lease t (some job) h in
      rw table (body-IsHeld job new e (duration_seconds duration * second) u body)

-- Calls that others make while a worker has a job: none of them holds its lease, a Claim reads the
-- clock before the end of the lease, and no support case is closed whose purge the job is.
abbrev pub ByOthers : Job → Call → Type 0
ByOthers job (claims is_nil f at locked queue duration lease') =
    (at.exhausted_check < job.lease_expires_at) × (at.lease_check < job.lease_expires_at)
ByOthers job (completes exec now other) = other.lease_uid ≢ job.lease_uid
ByOthers job (retries exec now other available_at cause) = other.lease_uid ≢ job.lease_uid
ByOthers job (reschedules exec now other available_at) = other.lease_uid ≢ job.lease_uid
ByOthers job (replays is_nil f now action_uid r) = Unit
ByOthers job (inserts exec n) = Unit
ByOthers job (closes exec p) =
    names "retention" (purge_key p) job.queue job.deduplication_key ≡ false
ByOthers job (forgets exec selected) = Unit

module _ (job : Job) (row : Row) (h : IsHeld job row) where
  foreign : (other : Job) → other.lease_uid ≢ job.lease_uid → owned other row ≡ false
  foreign other n = ground (arith, h.lease)

  others_spare : (c : Call) → ByOthers job c → Spares row c
  others_spare (claims is_nil f at locked queue duration lease') b =
      (ground (arith, h.expiry), ground (arith, h.expiry), λ e. cc (h.status))
  others_spare (completes exec now other) b = foreign other b
  others_spare (retries exec now other available_at cause) b = foreign other b
  others_spare (reschedules exec now other available_at) b = foreign other b
  others_spare (replays is_nil f now action_uid r) b = inl (λ e. cc (h.status))
  others_spare (inserts exec n) b = tt
  others_spare (closes exec p) b = rw (h.queue, h.key) b
  others_spare (forgets exec selected) b = rw h.status refl

  All-spare : (cs : List Call) → All (ByOthers job) cs → All (Spares row) cs
  All-spare [] b = tt
  All-spare (c ∷ cs) b = (others_spare c b.0, All-spare cs b.1)

  owned-uid : (x : Row) → owned job x ≡ true → x.uid ≡ job.uid
  owned-uid x e = ground arith

  owned-held : owned job row ≡ true
  owned-held = ground (arith, h.uid, h.status, h.lease)

  -- A statement of the holder affects its row.
  pub exec_owned_held :
      {A : Type 0} (e : Error) (g : Row → Row) (a : A) (t : List Row)
      → Unique t
      → get job.uid t ≡ some row
      → exec_owned done e job g a t ≡ (ok a, update (owned job) g t)
  unfolding exec_owned settle
  exec_owned_held e g a t u found =
      ground (arith, count-get (owned job) job.uid t owned-uid u, owned-held)

  pub get-owned :
      (g : Row → Row) (t : List Row)
      → ((x : Row) → (g x).uid ≡ x.uid)
      → get job.uid t ≡ some row
      → get job.uid (update (owned job) g t) ≡ some (g row)
  get-owned g t same found = ground (arith, get-update (owned job) g job.uid t same, owned-held)

-- A held job stays held through the calls of others.
pub run-IsHeld :
    (cs : List Call) (tables : Tables) (row : Row) (job : Job)
    → IsValid tables.0
    → get job.uid tables.0 ≡ some row
    → IsHeld job row
    → All (ByOthers job) cs
    → IsValid (run tables cs).0 × (get job.uid (run tables cs).0 ≡ some row)
run-IsHeld cs tables row job v found held others = (
  run-IsValid cs tables v,
  subst (λ k. get k (run tables cs).0 ≡ some row) held.uid
      (run-Spares cs tables row v (subst (λ k. get k tables.0 ≡ some row) (sym held.uid) found)
        (All-spare job row held cs others)),
)

module _ (f : Faults) (at : Readings) (locked : ℕ → Bool) (queue : String) (duration : ℤ)
    (lease : ℕ) (t : List Row) (actions : List Action) (job : Job) (cs : List Call) (v : IsValid t)
    (claimed : (claim false f at locked queue duration lease t).0 ≡ ok (some job))
    (others : All (ByOthers job) cs) where
  -- The queue after the claim and the calls of others.
  abbrev later : List Row
  later = (run ((claim false f at locked queue duration lease t).1, actions) cs).0

  later-IsValid : IsValid later
  later-IsValid = run-IsValid cs _ (claim-IsValid false f at locked queue duration lease t v)

  later-IsHeld : (row : Row) × (get job.uid later ≡ some row) × IsHeld job row
  later-IsHeld =
      let (row, found, held, same) =
        claim-IsHeld f at locked queue duration lease t job v.unique claimed in
      (
        row,
        (run-IsHeld cs _ row job (claim-IsValid false f at locked queue duration lease t v) found
            held others).1,
        held,
      )

  -- No second worker gets a job while its lease runs: after a Claim on a valid queue, and whatever
  -- others, who do not hold the lease, have done to the queue before its end, other than closing the
  -- support case whose purge the job is, a Claim whose test of leases comes before the end of the
  -- lease does not return the job.
  pub no_second_claim :
      (f' : Faults) (at' : Readings) (locked' : ℕ → Bool) (queue' : String) (duration' : ℤ)
      (lease' : ℕ) (other : Job)
      → at'.lease_check < job.lease_expires_at
      → (claim false f' at' locked' queue' duration' lease' later).0 ≡ ok (some other)
      → other.uid ≢ job.uid
  no_second_claim f' at' locked' queue' duration' lease' other early again same =
      let (row, found, held) = later-IsHeld in
      let (taken, there, good, described, least) =
        claim_oldest f' at' locked' queue' duration' lease' later (some other) later-IsValid.unique
          again in
      let one : some taken ≡ some row = sym there ∙ rw same found in
      absurd (not_eligible row taken held one good)
    where
      not_eligible :
          (row taken : Row)
          → IsHeld job row
          → some taken ≡ some row
          → is_eligible at' locked' queue' taken ≡ true
          → ⊥
      not_eligible row taken held one good =
          unfold is_eligible in ground (arith, held.expiry, held.status)

  -- The holder of a lease can complete its job until the lease runs out, whatever others, who do not
  -- hold it, have done to the queue, other than closing the support case whose purge the job is: if
  -- its statement succeeds, the job is completed and has no lease.
  pub holder_completes :
      (now : Clock)
      → ((complete done now job later).0 ≡ ok tt)
        × ((row : Row) × (get job.uid (complete done now job later).1 ≡ some row)
            × (row.status ≡ completed)
            × (row.lease_uid ≡ none))
  unfolding complete
  holder_completes now =
      let (row, found, held) = later-IsHeld in
      let run =
        exec_owned_held job row held complete_failed (complete_row now) tt later
          later-IsValid.unique found in
      rw run (
        refl,
        (
          complete_row now row,
          get-owned job row held (complete_row now) later (λ x. unfold complete_row in refl) found,
          unfold complete_row in refl,
          unfold complete_row in refl,
        ),
      )

  -- Retry by the holder, after such calls of others before the end of the lease: if the statement
  -- succeeds and the text of the error can be stored, the answer tells whether the job's
  -- attempts are used up, and the row agrees: it is dead-lettered, or else pending and available at
  -- the given time with the attempts that it had.
  pub holder_retries :
      (now : Clock) (available_at : ℕ) (cause : Option String) (message : String)
      → stored_message cause ≡ some message
      → let exhausted = leb job.max_attempts job.attempt in
        ((retry done now job available_at cause later).0 ≡ ok exhausted)
        × ((row : Row) × (get job.uid (retry done now job available_at cause later).1 ≡ some row)
            × (row.status ≡ (if exhausted then dead_lettered else pending))
            × (exhausted ≡ false → row.available_at ≡ available_at)
            × (row.attempts ≡ job.attempt)
            × (row.lease_uid ≡ none)
            × (row.last_error ≡ some message))
  unfolding retry
  holder_retries now available_at cause message m =
      let (row, found, held) = later-IsHeld in
      let run =
        exec_owned_held job row held retry_failed (retry_row now available_at message)
          (leb job.max_attempts job.attempt) later later-IsValid.unique found in
      let answer : retry done now job available_at cause later ≡ (
        ok (leb job.max_attempts job.attempt),
        update (owned job) (retry_row now available_at message) later,
      ) =
        rw (m, retry) run in
      (
        ap (λ (x : Result Error Bool × List Row). x.0) answer,
        (
          retry_row now available_at message row,
          ap (λ (x : Result Error Bool × List Row). get job.uid x.1) answer
              ∙ get-owned job row held (retry_row now available_at message) later
                  (λ x. unfold retry_row in refl) found,
          unfold retry_row in ground (arith, held.attempts, held.bound),
          unfold retry_row in ground (arith, held.attempts, held.bound),
          unfold retry_row in held.attempts,
          unfold retry_row in refl,
          unfold retry_row in refl,
        ),
      )

  -- Reschedule by the holder gives the attempt of the claim back: the job is pending at the given
  -- time with one attempt less than the claim had counted.
  pub holder_reschedules :
      (now : Clock) (available_at : ℕ)
      → ((reschedule done now job available_at later).0 ≡ ok tt)
        × ((row : Row) × (get job.uid (reschedule done now job available_at later).1 ≡ some row)
            × (row.status ≡ pending)
            × (row.available_at ≡ available_at)
            × (row.attempts + 1 ≡ job.attempt))
  unfolding reschedule
  holder_reschedules now available_at =
      let (row, found, held) = later-IsHeld in
      let run =
        exec_owned_held job row held reschedule_failed (reschedule_row now available_at) tt later
          later-IsValid.unique found in
      let begun : 1 ≤ row.attempts =
        (All-get RowIsValid job.uid later row later-IsValid.rows found).running_has_begun
          held.status in
      rw run (
        refl,
        (
          reschedule_row now available_at row,
          get-owned job row held (reschedule_row now available_at) later
              (λ x. unfold reschedule_row in refl) found,
          unfold reschedule_row in refl,
          unfold reschedule_row in refl,
          unfold reschedule_row in omega (arith, held.attempts),
        ),
      )
