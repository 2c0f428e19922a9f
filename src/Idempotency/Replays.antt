-- ===== src/Idempotency/Replays.antt =====
-- The promises of IdempotencyStore across calls: between a Begin that gives a lease and the lease's
-- end, other requests wait, the holder can complete, and the response is then replayed until the
-- record expires.
use complicatedauth_backend.Prelude.{
  ℕ, ◌-◌, ◌<◌, ◌≤◌, ◌≡◌, refl, ap, ◌≢◌, ◌∙◌, inl, inr, true, false, List, [], ◌∷◌, none, some,
  String, arith, All, if◌then◌else◌, Bool-cases, ◌==◌,
}
use complicatedauth_backend.Prelude.Int.{pos, ltb_ℤ}
use complicatedauth_backend.Table.{get, insert}
use complicatedauth_backend.Table.Laws.{get-update}
use complicatedauth_backend.Db.{done, Result, ok, err, transact}
use complicatedauth_backend.Idempotency.Validate.{Request, validate}
use complicatedauth_backend.Idempotency.Digest.{equal_digest, equal_digest_iff}
use complicatedauth_backend.Idempotency.{
  completed, Codec, StoredHttpResponse, Headers, Row, row_keyed, Readings, or_empty, Claim, Error,
  conflict, Faults, begin, begin_body, decide, replay_or_wait, stored_response, complete, new_row,
  owned, complete_row, begin_failed, copy_bytes,
}
use complicatedauth_backend.Idempotency.Calls.{Call, begins, completes, deletes, run, insert_new}
use complicatedauth_backend.Idempotency.Invariant.{
  IsValid, CallIsTyped, run-IsValid, begin-IsValid, complete-IsValid, IsDigest,
}
use complicatedauth_backend.Idempotency.Rows.{Spares, run-Spares}
use complicatedauth_backend.Idempotency.Leases.{
  InOrder, IsHeld, ByOthers, ByOthers-Spares, lease_end, retention_end, begin-IsHeld, complete_held,
  owner,
}

-- No statement fails.
abbrev pub no_faults : Faults
no_faults = record { begin = false; insert = false; read = false; reclaim = false; commit = done }

All-Spares :
    (at : Readings) (uid : ℕ) (r : Request) (row : Row) (h : IsHeld at uid r row) (cs : List Call)
    → All (ByOthers uid (lease_end at r)) cs
    → All (Spares row) cs
All-Spares at uid r row h [] b = tt
All-Spares at uid r row h (c ∷ cs) b =
    (ByOthers-Spares at uid r row h c b.0, All-Spares at uid r row h cs b.1)

-- Begin on a row that it finds.
begin_found :
    (codec : Codec) (at : Readings) (uid : ℕ) (r : Request) (row : Row) (t : List Row)
    → validate r ≡ none
    → get r.key t ≡ some row
    → begin codec no_faults at uid r t
      ≡ transact false begin_failed done (decide codec no_faults at uid r row t) t
unfolding begin begin_body
begin_found codec at uid r row t v found =
    elim (Bool-cases ((insert (new_row at uid r) t).1 == 1)) [
      | inl one ↦ absurd (ground (arith, insert_new codec no_faults at uid r t))
      | inr other ↦ ground arith
    ]

-- What the JSON codec promises: what was encoded decodes to the same headers.
abbrev pub IsRoundTrip : Codec → Type 0
IsRoundTrip codec =
    (h : Headers) (j : String) → codec.marshal h ≡ some j → codec.unmarshal j ≡ some h

-- Calls made before a deadline.
abbrev pub IsBefore : ℕ → Call → Type 0
IsBefore deadline (begins f at uid r) = at.selected < deadline
IsBefore deadline (completes exec now r uid response) = Unit
IsBefore deadline (deletes exec now limit) = now < deadline

completed_spared :
    (row : Row) (deadline : ℕ) (cs : List Call)
    → row.state ≡ completed
    → deadline ≤ row.expires_at
    → All (IsBefore deadline) cs
    → All (Spares row) cs
completed_spared row deadline [] e le h = tt
completed_spared row deadline (begins f at uid r ∷ cs) e le h =
    ((omega arith, λ p. cc), completed_spared row deadline cs e le h.1)
completed_spared row deadline (completes exec now r uid response ∷ cs) e le h =
    (ground arith, completed_spared row deadline cs e le h.1)
completed_spared row deadline (deletes exec now limit ∷ cs) e le h =
    (omega arith, completed_spared row deadline cs e le h.1)

module _ (codec : Codec) (f : Faults) (at : Readings) (uid : ℕ) (r : Request) (t : List Row)
    (c : Claim) (cs : List Call) (v : IsValid t) (d : IsDigest r.request_hash) (o : InOrder at)
    (claimed : (begin codec f at uid r t).0 ≡ ok c) (leased : c.lease_uid ≢ 0)
    (typed : All CallIsTyped cs) (others : All (ByOthers uid (lease_end at r)) cs) where
  -- The table after the claim and the calls of others.
  abbrev later : List Row
  later = run codec (begin codec f at uid r t).1 cs

  later-IsValid : IsValid later
  later-IsValid =
      run-IsValid codec cs (begin codec f at uid r t).1 typed (begin-IsValid codec f at uid r t d v)

  later-IsHeld :
      (row : Row) × (get r.key later ≡ some row)
      × IsHeld at uid r row
      × (validate r ≡ none)
      × (uid ≢ 0)
  later-IsHeld =
      let (row, found, held, same, valid) = begin-IsHeld codec f at uid r t c o claimed leased in
      (
        row,
        run-Spares codec r.key row cs (begin codec f at uid r t).1
            (begin-IsValid codec f at uid r t d v) typed (All-Spares at uid r row held cs others)
            found,
        held,
        valid,
        λ z. leased (same ∙ z),
      )

  -- A lease that Begin has given can be completed until it runs out: on a valid table, if the clock
  -- does not go back within Begin, then whatever other requests call before the end of the lease, its
  -- holder's Complete succeeds if its statement does, for a status from 100 to 599 and headers that
  -- can be encoded.
  pub leaseholder_completes :
      (now : ℕ) (response : StoredHttpResponse) (headers : String)
      → ltb_ℤ response.status (pos 100) ≡ false
      → ltb_ℤ (pos 599) response.status ≡ false
      → codec.marshal (or_empty response.headers) ≡ some headers
      → (complete codec done now r uid response later).0 ≡ ok tt
  leaseholder_completes now response headers low high m =
      let (row, found, held, valid, n) = later-IsHeld in
      rw (
        complete_held at uid r row held codec now response headers later later-IsValid.unique found
          valid n low high m)

  -- After a Begin that gave a lease on a valid table, its clock not going back, and whatever other
  -- requests call before the end of the lease: until then every other valid Begin for the key, none of
  -- whose calls fails, changes nothing: it is told to wait for at
  -- least what is left of the lease, if its digest is that of the holder's request, and fails with a
  -- conflict if it is not.
  pub others_wait :
      (at' : Readings) (uid' : ℕ) (r' : Request)
      → validate r' ≡ none
      → r'.key ≡ r.key
      → at'.selected < lease_end at r
      → (wait : ℕ) × (lease_end at r - at'.selected ≤ wait)
        × (begin codec no_faults at' uid' r' later ≡ (
          (if equal_digest r.request_hash r'.request_hash
              then ok (record { lease_uid = 0; retry_after = wait; replay = none })
              else err conflict),
          later,
        ))
  unfolding decide replay_or_wait transact
  others_wait at' uid' r' valid' same early =
      let (row, found, held, valid, n) = later-IsHeld in
      (
        row.lease_expires_at - at'.selected,
        omega (arith, held.lease_lasts),
        rw (begin_found codec at' uid' r' row later valid' (rw same found))
            (ground (arith, held.hash, held.state, held.lease_lasts, held.in_retention)),
      )

  abbrev completed_later : ℕ → StoredHttpResponse → List Row
  completed_later now response = (complete codec done now r uid response later).1

  -- The record after its holder has completed it.
  completed_row :
      (now : ℕ) (response : StoredHttpResponse) (headers : String)
      → ltb_ℤ response.status (pos 100) ≡ false
      → ltb_ℤ (pos 599) response.status ≡ false
      → codec.marshal (or_empty response.headers) ≡ some headers
      → (row : Row) × (get r.key (completed_later now response)
          ≡ some (complete_row now response.status headers (or_empty response.body) row))
        × IsHeld at uid r row
  completed_row now response headers low high m =
      let (row, found, held, valid, n) = later-IsHeld in
      (
        row,
        ap (λ (x : Result Error (Unit {0}) × List Row). get r.key x.1)
              (complete_held at uid r row held codec now response headers later later-IsValid.unique
                found valid n low high m)
            ∙ (ground (
              arith,
              get-update (owned r uid)
                  (complete_row now response.status headers (or_empty response.body)) r.key later
                  (λ x. refl),
              owner at uid r row held,
            )),
        held,
      )

  -- The response that the holder of a lease stores is replayed exactly. On a valid table, if the clock
  -- does not go back within the first Begin, other requests call what they like before the end of the
  -- lease, the codec decodes what it encodes and Complete gets a status from 100 to 599: whatever is
  -- then called before the record expires, a valid Begin with the same key and digest, none of whose
  -- calls fails, returns the status, the headers and the body's bytes (nil and empty are stored
  -- alike), and changes nothing.
  pub replay_exact :
      IsRoundTrip codec
      → (now : ℕ) (response : StoredHttpResponse) (headers : String)
      → ltb_ℤ response.status (pos 100) ≡ false
      → ltb_ℤ (pos 599) response.status ≡ false
      → codec.marshal (or_empty response.headers) ≡ some headers
      → (ds : List Call) → All CallIsTyped ds
      → All (IsBefore (retention_end at r)) ds
      → (at' : Readings) (uid' : ℕ) (r' : Request) → validate r' ≡ none
      → r'.key ≡ r.key
      → r'.request_hash ≡ r.request_hash
      → at'.selected < retention_end at r
      → begin codec no_faults at' uid' r' (run codec (completed_later now response) ds) ≡ (
        ok (record {
          lease_uid = 0;
          retry_after = 0;
          replay = some (record {
            status = response.status;
            headers = some (or_empty response.headers);
            body = copy_bytes (or_empty response.body);
          });
        }),
        run codec (completed_later now response) ds,
      )
  unfolding decide replay_or_wait stored_response transact
  replay_exact trip now response headers low high m ds typed' before at' uid' r' valid' same hash
        early =
      let (row, found, held) = completed_row now response headers low high m in
      let row' = complete_row now response.status headers (or_empty response.body) row in
      let end : get r.key (run codec (completed_later now response) ds) ≡ some row' =
        run-Spares codec r.key row' ds (completed_later now response)
          (complete-IsValid codec done now r uid response later later-IsValid) typed'
          (completed_spared row' (retention_end at r) ds refl held.record_lasts before) found in
      let agree : equal_digest r.request_hash r'.request_hash ≡ true =
        rw hash ((equal_digest_iff r.request_hash r.request_hash d.0 d.0 d.1).1 refl) in
      rw
        (begin_found codec at' uid' r' row' (run codec (completed_later now response) ds) valid'
          (rw same end))
        (ground
          (arith, trip (or_empty response.headers) headers m, held.hash, held.record_lasts, agree))
