-- ===== src/Maintenance/Records.antt =====
-- What the first statement of runMaintenanceCleanup, IdempotencyStore.DeleteExpired on
-- idempotency_records, deletes.
use complicatedauth_backend.Prelude.{ℕ, ◌≡◌, ◌≤◌, ◌<◌, false, List, some, arith, leb, ◌==◌}
use complicatedauth_backend.Prelude.Int.{pos}
use complicatedauth_backend.Table.{get, Unique}
use complicatedauth_backend.Cleanup.{cleanup}
use complicatedauth_backend.Cleanup.Laws.{
  cleanup_keeps, cleanup_only_deletes, cleanup-count, cleanup_drains,
}
use complicatedauth_backend.Db.{Outcome, done, rejected, lost, ok, settle}
use complicatedauth_backend.Idempotency.{Row, row_keyed, delete_expired}
use complicatedauth_backend.Idempotency.Validate.{Key}
use complicatedauth_backend.Maintenance.Batches.{maintenance_cleanup_batch}

-- The records that DeleteExpired leaves.
abbrev pub remaining : Outcome → ℕ → List Row → List Row
remaining exec now t = (delete_expired exec now (pos maintenance_cleanup_batch) t).1

-- A record that does not expire by the time `latest` is kept, and no record comes to be.
abbrev pub SparesRecords : ℕ → List Row → List Row → Type 0
SparesRecords latest t t' =
    ((k : Key) (row : Row) → get k t ≡ some row → latest < row.expires_at → get k t' ≡ some row)
    × ((k : Key) (row : Row) → get k t' ≡ some row → get k t ≡ some row)

-- No record is left that had expired at a time.
abbrev pub DrainedRecords : ℕ → List Row → Type 0
DrainedRecords now t = (k : Key) (row : Row) → get k t ≡ some row → now < row.expires_at

module _ (now : ℕ) (t : List Row) (u : Unique t) where
  cleaned-Spares :
      (latest : ℕ)
      → now ≤ latest
      → SparesRecords latest t
          (cleanup (λ r. leb r.expires_at now) (λ r. r.expires_at) maintenance_cleanup_batch t).0
  cleaned-Spares latest le = (
    (λ k row found live.
        cleanup_keeps (λ r. leb r.expires_at now) (λ r. r.expires_at) maintenance_cleanup_batch t u
          k row found (ground arith)),
    (λ k row found.
        cleanup_only_deletes (λ r. leb r.expires_at now) (λ r. r.expires_at)
          maintenance_cleanup_batch t u k row found),
  )

  pub remaining-Spares :
      (exec : Outcome) (latest : ℕ) → now ≤ latest → SparesRecords latest t (remaining exec now t)
  unfolding delete_expired settle
  remaining-Spares done latest le = cleaned-Spares latest le
  remaining-Spares rejected latest le = ((λ k row found live. found), (λ k row found. found))
  remaining-Spares lost latest le = cleaned-Spares latest le

  -- A batch that succeeds and is not full has drained the table.
  pub remaining-Drained :
      (exec : Outcome) (n : ℕ)
      → (delete_expired exec now (pos maintenance_cleanup_batch) t).0 ≡ ok n
      → (n == maintenance_cleanup_batch) ≡ false
      → DrainedRecords now (remaining exec now t)
  unfolding delete_expired settle
  remaining-Drained done n h few k row found =
      let made =
        cleanup-count (λ r. leb r.expires_at now) (λ r. r.expires_at) maintenance_cleanup_batch t
          u in
      let counted : (cleanup (λ r. leb r.expires_at now) (λ r. r.expires_at)
            maintenance_cleanup_batch t).1
          ≡ n =
        ground arith in
      ground (
        arith,
        cleanup_drains (λ r. leb r.expires_at now) (λ r. r.expires_at) maintenance_cleanup_batch t u
            (ground (arith, made, counted)) k row found,
      )
  remaining-Drained rejected n h few k row found = absurd (ground arith)
  remaining-Drained lost n h few k row found = absurd (ground arith)
