-- ===== src/Maintenance/Laws.antt =====
-- What runMaintenanceCleanup deletes and what it leaves for the next run.
use complicatedauth_backend.Prelude.{
  ℕ, suc, ◌+◌, ◌≤◌, ◌<◌, ◌≡◌, refl, String, Bool, true, false, List, [], ◌∷◌, some, arith, inl, inr,
  ◌⊎◌, ◌==◌,
}
use complicatedauth_backend.Table.{get, Unique}
use complicatedauth_backend.Cleanup.Laws.{cleanup-count, cleanup_drains}
use complicatedauth_backend.Db.{Result, ok, err, Outcome, done, rejected, lost}
use complicatedauth_backend.Duration.{minute, hour}
use complicatedauth_backend.Idempotency
use complicatedauth_backend.Idempotency.{row_keyed}
use complicatedauth_backend.Prelude.Int.{pos}
use complicatedauth_backend.Maintenance.Records.{remaining, DrainedRecords, remaining-Drained}
use complicatedauth_backend.Maintenance.{
  Call, cleanups, schedule_next, clean_tables, run_maintenance_cleanup,
}
use complicatedauth_backend.Maintenance.Batches.{
  MaintenanceCleanup, Store, clean, after, is_full, run_cleanups, maintenance_cleanup_batch,
}

-- No two rows of a table share their key.
abbrev pub HasKeys : (cs : List MaintenanceCleanup) → Store cs → Type 0
HasKeys [] t = Unit
HasKeys (c ∷ cs) (xs, t) = Unique ⦃t = c.keyed⦄ xs × HasKeys cs t

-- In each table a row that is not due by the time `latest` is kept, and no row comes to be.
abbrev pub Spares : ℕ → (cs : List MaintenanceCleanup) → Store cs → Store cs → Type 0
Spares latest [] t t' = Unit
Spares latest (c ∷ cs) (xs, t) (xs', t') =
    ((k : c.keyed.Key) (x : c.Row)
      → get ⦃t = c.keyed⦄ k xs ≡ some x
      → c.due latest x ≡ false
      → get ⦃t = c.keyed⦄ k xs' ≡ some x)
    × ((k : c.keyed.Key) (x : c.Row)
        → get ⦃t = c.keyed⦄ k xs' ≡ some x
        → get ⦃t = c.keyed⦄ k xs ≡ some x)
    × Spares latest cs t t'

-- In each table no row is left that was due when its statement, the n-th, ran.
abbrev pub Drained : (ℕ → ℕ) → ℕ → (cs : List MaintenanceCleanup) → Store cs → Type 0
Drained clock n [] t = Unit
Drained clock n (c ∷ cs) (xs, t) =
    ((k : c.keyed.Key) (x : c.Row) → get ⦃t = c.keyed⦄ k xs ≡ some x → c.due (clock n) x ≡ false)
    × Drained clock (suc n) cs t

-- A row that is due stays due.
abbrev IsMonotone : MaintenanceCleanup → Type 0
IsMonotone c =
    (now later : ℕ) (x : c.Row) → now ≤ later → c.due later x ≡ false → c.due now x ≡ false

full_stays :
    (exec : ℕ → Outcome) (clock : ℕ → ℕ) (n : ℕ) (cs : List MaintenanceCleanup) (full : Bool)
    (t : Store cs)
    → (run_cleanups exec clock n cs full t).0 ≡ ok false
    → full ≡ false
unfolding run_cleanups
full_stays exec clock n [] full t h = ground arith
full_stays exec clock n (c ∷ cs) full (xs, t) h =
    by_outcome (exec n) _ h
      (full_stays exec clock (suc n) cs (is_full full (clean c (clock n) xs).1) t)
  where
    by_outcome :
        (o : Outcome) (rest : Result String Bool × Store cs)
        → (after c cs o xs (clean c (clock n) xs).0 t rest).0 ≡ ok false
        → (rest.0 ≡ ok false → is_full full (clean c (clock n) xs).1 ≡ false)
        → full ≡ false
    by_outcome done rest h k = let no = k h in ground arith
    by_outcome rejected rest h k = absurd (ground arith)
    by_outcome lost rest h k = absurd (ground arith)

-- A run that ends with no full batch has drained every table.
run_cleanups-Drained :
    (exec : ℕ → Outcome) (clock : ℕ → ℕ) (n : ℕ) (cs : List MaintenanceCleanup) (full : Bool)
    (t : Store cs)
    → HasKeys cs t
    → (run_cleanups exec clock n cs full t).0 ≡ ok false
    → Drained clock n cs (run_cleanups exec clock n cs full t).1
unfolding run_cleanups
run_cleanups-Drained exec clock n [] full t u h = tt
run_cleanups-Drained exec clock n (c ∷ cs) full (xs, t) u h =
    by_outcome (exec n) _ h
      (full_stays exec clock (suc n) cs (is_full full (clean c (clock n) xs).1) t)
      (run_cleanups-Drained exec clock (suc n) cs (is_full full (clean c (clock n) xs).1) t u.1)
  where
    by_outcome :
        (o : Outcome) (rest : Result String Bool × Store cs)
        → (after c cs o xs (clean c (clock n) xs).0 t rest).0 ≡ ok false
        → (rest.0 ≡ ok false → is_full full (clean c (clock n) xs).1 ≡ false)
        → (rest.0 ≡ ok false → Drained clock (suc n) cs rest.1)
        → Drained clock n (c ∷ cs) (after c cs o xs (clean c (clock n) xs).0 t rest).1
    by_outcome rejected rest h k d = absurd (ground arith)
    by_outcome lost rest h k d = absurd (ground arith)
    by_outcome done rest h k d =
        let no = k h in
        let few : (clean c (clock n) xs).1 < maintenance_cleanup_batch = ground (
          arith,
          cleanup-count ⦃t = c.keyed⦄ (c.due (clock n)) c.order maintenance_cleanup_batch xs u.0,
        ) in
        (
          cleanup_drains ⦃t = c.keyed⦄ (c.due (clock n)) c.order maintenance_cleanup_batch xs u.0
              few,
          d h,
        )

next_cases :
    (call : Call) (full : Result String Bool) (next : ℕ)
    → schedule_next call full ≡ ok next
    → (next ≡ call.schedule_clock + minute) ⊎ (next ≡ call.schedule_clock + hour)
unfolding schedule_next
next_cases call (err e) next h = absurd (ground arith)
next_cases call (ok true) next h = inl (ground arith)
next_cases call (ok false) next h = inr (ground arith)

hour_means_no_full_batch :
    (call : Call) (full : Result String Bool) (next : ℕ)
    → schedule_next call full ≡ ok next
    → next ≡ call.schedule_clock + hour
    → full ≡ ok false
unfolding schedule_next
hour_means_no_full_batch call (err e) next h k = absurd (ground arith)
hour_means_no_full_batch call (ok true) next h k = absurd (ground arith)
hour_means_no_full_batch call (ok false) next h k = refl

clean_tables-Drained :
    (call : Call) (deleted : Result Idempotency.Error ℕ) (records : List Idempotency.Row)
    (t : Store cleanups) (next : ℕ)
    → HasKeys cleanups t
    → (clean_tables call deleted records t).0 ≡ ok next
    → (next ≡ call.schedule_clock + minute)
      ⊎ ((next ≡ call.schedule_clock + hour)
          × Drained call.clock 0 cleanups (clean_tables call deleted records t).1.1)
unfolding clean_tables
clean_tables-Drained call (err e) records t next u h = absurd (ground arith)
clean_tables-Drained call (ok count) records t next u h =
    let full =
      run_cleanups call.exec call.clock 0 cleanups (count == maintenance_cleanup_batch) t in
    elim (next_cases call full.0 next h) [
      | inl soon ↦ inl soon
      | inr later ↦ inr (
        later,
        run_cleanups-Drained call.exec call.clock 0 cleanups (count == maintenance_cleanup_batch) t
            u (hour_means_no_full_batch call full.0 next h later),
      )
    ]

-- What an hourly run says of the batch of idempotency_records.
hour_means_few_records :
    (call : Call) (count next : ℕ) (records : List Idempotency.Row) (t : Store cleanups)
    → (clean_tables call (ok count) records t).0 ≡ ok next
    → next ≡ call.schedule_clock + hour
    → (count == maintenance_cleanup_batch) ≡ false
unfolding clean_tables
hour_means_few_records call count next records t h later =
    full_stays call.exec call.clock 0 cleanups (count == maintenance_cleanup_batch) t
      (hour_means_no_full_batch call _ next h later)

clean_tables_records :
    (call : Call) (deleted : Result Idempotency.Error ℕ) (records : List Idempotency.Row)
    (t : Store cleanups)
    → (clean_tables call deleted records t).1.0 ≡ records
unfolding clean_tables
clean_tables_records call (err e) records t = refl
clean_tables_records call (ok count) records t = refl

-- The next run follows in a minute or in an hour, and in an hour only if this run has drained
-- every table: no record of idempotency_records is left that had expired when its statement ran, and in
-- no other table a row that was due when the statement on the table ran.
pub hourly_run_leaves_nothing_due :
    (call : Call) (records : List Idempotency.Row) (t : Store cleanups) (next : ℕ)
    → Unique records
    → HasKeys cleanups t
    → (run_maintenance_cleanup call (records, t)).0 ≡ ok next
    → (next ≡ call.schedule_clock + minute)
      ⊎ ((next ≡ call.schedule_clock + hour)
          × DrainedRecords call.idempotency_clock (run_maintenance_cleanup call (records, t)).1.0
          × Drained call.clock 0 cleanups (run_maintenance_cleanup call (records, t)).1.1)
unfolding run_maintenance_cleanup
hourly_run_leaves_nothing_due call records t next unique u h =
    elim (clean_tables-Drained call _ _ t next u h) [
      | inl soon ↦ inl soon
      | inr (later, drained) ↦
          inr (later, rw (clean_tables_records call _ _ t) (by_answer _ refl _ h later), drained)
    ]
  where
    by_answer :
        (answer : Result Idempotency.Error ℕ)
        → (Idempotency.delete_expired call.idempotency_exec call.idempotency_clock
            (pos maintenance_cleanup_batch)
            records).0
          ≡ answer
        → (records' : List Idempotency.Row) → (clean_tables call answer records' t).0 ≡ ok next
        → next ≡ call.schedule_clock + hour
        → DrainedRecords call.idempotency_clock
            (remaining call.idempotency_exec call.idempotency_clock records)
    by_answer (err e) made records' h later = absurd (unfold clean_tables in ground arith)
    by_answer (ok n) made records' h later =
        remaining-Drained call.idempotency_clock records unique call.idempotency_exec n made
          (hour_means_few_records call n next records' t h later)
