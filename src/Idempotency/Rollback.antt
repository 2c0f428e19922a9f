-- ===== src/Idempotency/Rollback.antt =====
-- Errors of IdempotencyStore leave the table as it was, calls keep to their own key, and only the
-- holder of a lease completes it.
use complicatedauth_backend.Prelude.{
  ℕ, ◌<◌, ◌≤◌, ◌≡◌, refl, ap, ◌≢◌, sym, ◌∙◌, inl, inr, true, List, some, arith, Option-cases, leb,
  min,
}
use complicatedauth_backend.Prelude.Int.{pos}
use complicatedauth_backend.Table.{get, Unique, count}
use complicatedauth_backend.Table.Laws.{get-update, get-key, get-insert, count-get}
use complicatedauth_backend.Cleanup.{cleanup}
use complicatedauth_backend.Cleanup.Laws.{cleanup-count, cleanup_drains, cleanup_keeps}
use complicatedauth_backend.Db.{Outcome, done, lost, ok, err, settle, transact_error_unchanged}
use complicatedauth_backend.Idempotency.Validate.{Key, Request, validate, same_key, same_key_iff}
use complicatedauth_backend.Idempotency.{
  processing, Codec, StoredHttpResponse, Row, row_keyed, Readings, or_empty, Claim, Error, Faults,
  begin, begin_body, complete, complete_idempotency, delete_expired, new_row, reclaim_row, owned,
  complete_row, begin_failed,
}
use complicatedauth_backend.Idempotency.Calls.{Begun, begin-Begun, Stored, complete-Stored, cleaned}
use complicatedauth_backend.Idempotency.Invariant.{
  IsValid, IsDigest, begin-IsValid, reclaim_row-key,
}
use complicatedauth_backend.Idempotency.Rows.{new_row-key}
use complicatedauth_backend.Idempotency.Leases.{InOrder, begin-IsHeld}

-- Begin is atomic: unless the answer of its commit is lost, a call that returns an error, by
-- validation, a conflict or any failing statement, leaves the table as it was.
pub begin_error_unchanged :
    (codec : Codec) (f : Faults) (at : Readings) (uid : ℕ) (r : Request) (t : List Row) (e : Error)
    → f.commit ≢ lost
    → (begin codec f at uid r t).0 ≡ err e
    → (begin codec f at uid r t).1 ≡ t
unfolding begin
begin_error_unchanged codec f at uid r t e h k = elim (Option-cases (validate r)) [
  | inl valid ↦ ground (
    arith,
    transact_error_unchanged f.begin begin_failed f.commit (begin_body codec f at uid r t) t e,
  )
  | inr (x, bad) ↦ ground arith
]

-- Begin changes no row but that of its own key.
pub begin_frame :
    (codec : Codec) (f : Faults) (at : Readings) (uid : ℕ) (r : Request) (t : List Row) (j : Key)
    → j ≢ r.key
    → get j (begin codec f at uid r t).1 ≡ get j t
begin_frame codec f at uid r t j n = by_effect _ (begin-Begun codec f at uid r t)
  where
    by_effect : (t' : List Row) → Begun at uid r t t' → get j t' ≡ get j t
    by_effect t' (Begun.kept e) = rw e
    by_effect t' (Begun.inserted absent e) = rw e (
        ground (
          arith,
          get-insert (new_row at uid r) j t (rw new_row-key absent),
          new_row-key at uid r,
          same_key_iff (new_row at uid r).key j,
        ))
    by_effect t' (Begun.took_over old found free e) = rw e (elim (Option-cases (get j t)) [
      | inl none_there ↦ ground (
        arith,
        get-update (λ x. same_key x.key r.key) (reclaim_row at uid r) j t
            (reclaim_row-key at uid r),
      )
      | inr (row, there) ↦ ground (
        arith,
        get-update (λ x. same_key x.key r.key) (reclaim_row at uid r) j t
            (reclaim_row-key at uid r),
        same_key_iff row.key r.key,
        get-key j t row there,
      )
    ])

-- Complete changes no row but that of its own key.
pub complete_frame :
    (codec : Codec) (exec : Outcome) (now : ℕ) (r : Request) (uid : ℕ)
    (response : StoredHttpResponse) (t : List Row) (j : Key)
    → j ≢ r.key
    → get j (complete codec exec now r uid response t).1 ≡ get j t
complete_frame codec exec now r uid response t j n =
    by_effect _ (complete-Stored codec exec now r uid response t)
  where
    by_effect : (t' : List Row) → Stored codec now r uid response t t' → get j t' ≡ get j t
    by_effect t' (Stored.kept e) = rw e
    by_effect t' (Stored.stored headers m low high one e) = rw e (elim (Option-cases (get j t)) [
      | inl none_there ↦ ground (
        arith,
        get-update (owned r uid) (complete_row now response.status headers (or_empty response.body))
            j t (λ x. refl),
      )
      | inr (row, there) ↦ ground (
        arith,
        get-update (owned r uid) (complete_row now response.status headers (or_empty response.body))
            j t (λ x. refl),
        same_key_iff row.key r.key,
        get-key j t row there,
      )
    ])

owned-key : (r : Request) (uid : ℕ) (x : Row) → owned r uid x ≡ true → x.key ≡ r.key
owned-key r uid x e = ground (arith, same_key_iff x.key r.key)

module _ (codec : Codec) (exec : Outcome) (now : ℕ) (r : Request) (uid : ℕ)
    (response : StoredHttpResponse) (t : List Row) (u : Unique t) where
  complete_owns : (complete codec exec now r uid response t).0 ≡ ok tt → count (owned r uid) t ≡ 1
  unfolding complete complete_idempotency settle
  complete_owns h = ground arith

  -- With unique keys Complete succeeds only for the current owner: the key's record is being processed under the
  -- lease that is given.
  pub complete_needs_lease :
      (complete codec exec now r uid response t).0 ≡ ok tt
      → (row : Row) × (get r.key t ≡ some row) × (row.lease_uid ≡ uid) × (row.state ≡ processing)
  complete_needs_lease h = elim (Option-cases (get r.key t)) [
    | inl absent ↦
        absurd
          (ground (arith, complete_owns h, count-get (owned r uid) r.key t (owned-key r uid) u))
    | inr (row, found) ↦ (
      row,
      found,
      ground (arith, complete_owns h, count-get (owned r uid) r.key t (owned-key r uid) u),
      ground (arith, complete_owns h, count-get (owned r uid) r.key t (owned-key r uid) u),
    )
  ]

  complete_other :
      (row : Row) → get r.key t ≡ some row → row.lease_uid ≢ uid → count (owned r uid) t ≡ 0
  complete_other row found other =
      ground (arith, count-get (owned r uid) r.key t (owned-key r uid) u)

  complete_unowned :
      count (owned r uid) t ≡ 0
      → ((complete codec exec now r uid response t).0 ≢ ok tt)
        × ((complete codec exec now r uid response t).1 ≡ t)
  unfolding complete complete_idempotency settle
  complete_unowned h = ((λ k. ground arith), ground arith)

  pub complete_stale :
      (row : Row)
      → get r.key t ≡ some row
      → row.lease_uid ≢ uid
      → ((complete codec exec now r uid response t).0 ≢ ok tt)
        × ((complete codec exec now r uid response t).1 ≡ t)
  complete_stale row found other = complete_unowned (complete_other row found other)

-- A worker that was superseded cannot overwrite: once a Begin has claimed the key under a new lease,
-- on a valid table and with a clock that does not go back, Complete under any other lease fails and
-- leaves the table as it is.
pub superseded_cannot_complete :
    (codec : Codec) (f : Faults) (at : Readings) (uid : ℕ) (r : Request) (t : List Row) (c : Claim)
    → IsValid t
    → IsDigest r.request_hash
    → InOrder at
    → (begin codec f at uid r t).0 ≡ ok c
    → c.lease_uid ≢ 0
    → (exec : Outcome) (now : ℕ) (r' : Request) (old : ℕ) (response : StoredHttpResponse)
    → r'.key ≡ r.key
    → old ≢ uid
    → let t' = (begin codec f at uid r t).1 in
      ((complete codec exec now r' old response t').0 ≢ ok tt)
      × ((complete codec exec now r' old response t').1 ≡ t')
superseded_cannot_complete codec f at uid r t c v d o claimed leased exec now r' old response same
      n =
    let (row, found, held, lease, valid) = begin-IsHeld codec f at uid r t c o claimed leased in
    complete_stale codec exec now r' old response (begin codec f at uid r t).1
      (begin-IsValid codec f at uid r t d v).unique row (rw same found)
      (λ e. n (sym e ∙ held.lease))

-- A DeleteExpired whose statement succeeds, with a limit from 1 to 10000 and a table with unique
-- keys, deletes the expired records, at most `limit` of them, and no other: it reports how many, a record that has not expired stays, and below the limit no expired record is left.
pub delete_expired_lem :
    (now limit : ℕ) (t : List Row)
    → Unique t
    → 1 ≤ limit
    → limit ≤ 10000
    → ((delete_expired done now (pos limit) t).0
        ≡ ok (min limit (count (λ r. leb r.expires_at now) t)))
      × ((k : Key) (row : Row)
          → get k t ≡ some row
          → now < row.expires_at
          → get k (delete_expired done now (pos limit) t).1 ≡ some row)
      × (count (λ r. leb r.expires_at now) t < limit
          → (k : Key) (row : Row) → get k (delete_expired done now (pos limit) t).1 ≡ some row
          → now < row.expires_at)
delete_expired_lem now limit t u low high =
    let e = runs in
    let n = cleanup-count (λ r. leb r.expires_at now) (λ r. r.expires_at) limit t u in
    (
      rw e (ap ok n),
      (λ k row found live. rw e (
          cleanup_keeps (λ r. leb r.expires_at now) (λ r. r.expires_at) limit t u k row found
            (ground arith))),
      (λ few k row found. ground (
        arith,
        cleanup_drains (λ r. leb r.expires_at now) (λ r. r.expires_at) limit t u (omega (arith, n))
            k row (rw e at found),
      )),
    )
  where
    runs : delete_expired done now (pos limit) t ≡ (
      ok (cleanup (λ r. leb r.expires_at now) (λ r. r.expires_at) limit t).1,
      cleaned now (pos limit) t,
    )
    runs = unfold delete_expired settle in ground arith
