-- ===== src/Idempotency/Calls.antt =====
-- The calls of IdempotencyStore as steps on the table, and what each does to the row of a key.
use complicatedauth_backend.Prelude.{
  ℕ, ◌≡◌, refl, subst, ◌⊎◌, inl, inr, false, ◌||◌, List, [], ◌∷◌, String, none, some, arith, ltb,
  leb, ◌==◌, Bool-cases, Option-cases,
}
use complicatedauth_backend.Prelude.Int.{ℤ, pos, ltb_ℤ, pos_part}
use complicatedauth_backend.Table.{get, insert, update, count}
use complicatedauth_backend.Db.{
  done, rejected, lost, ok, Outcome, settle, transact_cases, settle_cases,
}
use complicatedauth_backend.Cleanup.{cleanup}
use complicatedauth_backend.Idempotency.Validate.{Request, validate, same_key}
use complicatedauth_backend.Idempotency.{
  State, processing, completed, Codec, StoredHttpResponse, Row, row_keyed, Claim, Error, Readings,
  Faults, begin, begin_body, decide, replay_or_wait, complete, complete_idempotency, delete_expired,
  begin_failed, or_empty, cleanup_failed, new_row, reclaim_row, owned, complete_row,
}

-- A lease or a record that Begin may take over.
abbrev pub IsReclaimable : Readings → Row → Type 0
IsReclaimable at row =
    (ltb at.selected row.expires_at ≡ false)
    ⊎ ((row.state ≡ processing) × (ltb at.selected row.lease_expires_at ≡ false))

abbrev pub reclaimed : Readings → ℕ → Request → List Row → List Row
reclaimed at uid r = update (λ x. same_key x.key r.key) (reclaim_row at uid r)

-- What Begin does to the table: nothing, a new row, or a row that it takes over.
pub data Begun (at : Readings) (uid : ℕ) (r : Request) (t t' : List Row) : Type 0 where
  kept : t' ≡ t → Begun at uid r t t'
  inserted : get r.key t ≡ none → t' ≡ (insert (new_row at uid r) t).0 → Begun at uid r t t'
  took_over :
      (row : Row)
      → get r.key t ≡ some row
      → IsReclaimable at row
      → t' ≡ reclaimed at uid r t
      → Begun at uid r t t'

module _ (codec : Codec) (f : Faults) (at : Readings) (uid : ℕ) (r : Request) where
  replay_or_wait-table :
      (row : Row) (s : State) (t t' : List Row) (c : Claim) (e : Error)
      → replay_or_wait codec at row s t ≡ ok (t', c, e)
      → t' ≡ t
  unfolding replay_or_wait
  replay_or_wait-table row completed t t' c e h = ground arith
  replay_or_wait-table row processing t t' c e h = ground arith

  -- What Begin does with a row that it finds.
  decide-table :
      (row : Row) (t t' : List Row) (c : Claim) (e : Error)
      → decide codec f at uid r row t ≡ ok (t', c, e)
      → (t' ≡ t) ⊎ (IsReclaimable at row × (t' ≡ reclaimed at uid r t))
  unfolding decide
  decide-table row t t' c e h = ground (arith, replay_or_wait-table row row.state t t' c e)

  pub insert_new : (t : List Row) → (insert (new_row at uid r) t).1 ≡ 1 → get r.key t ≡ none
  unfolding insert new_row
  insert_new t h = ground arith

  begin_body-Begun :
      (t t' : List Row) (c : Claim) (e : Error)
      → begin_body codec f at uid r t ≡ ok (t', c, e)
      → Begun at uid r t t'
  unfolding begin_body
  begin_body-Begun t t' c e h = elim (Bool-cases ((insert (new_row at uid r) t).1 == 1)) [
    | inl one ↦ inserted (insert_new t (ground arith)) (ground arith)
    | inr found_row ↦ elim (Option-cases (get r.key t)) [
      | inl absent ↦ absurd (ground arith)
      | inr (row, found) ↦ elim (decide-table row t t' c e (ground arith)) [
        | inl same ↦ kept same
        | inr (free, new) ↦ took_over row found free new
      ]
    ]
  ]

  pub begin-Begun : (t : List Row) → Begun at uid r t (begin codec f at uid r t).1
  unfolding begin
  begin-Begun t = elim (Option-cases (validate r)) [
    | inl e ↦
        rw (e, begin)
          (transact_cases (λ t'. Begun at uid r t t') f.begin begin_failed f.commit
            (begin_body codec f at uid r t) t (kept refl) (begin_body-Begun t))
    | inr (x, e) ↦ kept (ground arith)
  ]

-- What Complete does to the table: nothing, or it stores a response in the row that it owns.
pub data Stored (codec : Codec) (now : ℕ) (r : Request) (uid : ℕ) (response : StoredHttpResponse)
    (t t' : List Row) : Type 0 where
  kept : t' ≡ t → Stored codec now r uid response t t'
  stored :
      (headers : String)
      → codec.marshal (or_empty response.headers) ≡ some headers
      → ltb_ℤ response.status (pos 100) ≡ false
      → ltb_ℤ (pos 599) response.status ≡ false
      → count (owned r uid) t ≡ 1
      → t'
        ≡ update (owned r uid) (complete_row now response.status headers (or_empty response.body)) t
      → Stored codec now r uid response t t'

module _ (codec : Codec) (exec : Outcome) (now : ℕ) (r : Request) (uid : ℕ)
    (response : StoredHttpResponse) (t : List Row) where
  complete_idempotency-Stored :
      (headers : String)
      → codec.marshal (or_empty response.headers) ≡ some headers
      → ltb_ℤ response.status (pos 100) ≡ false
      → ltb_ℤ (pos 599) response.status ≡ false
      → Stored codec now r uid response t (complete_idempotency exec now r uid response headers t).1
  unfolding complete_idempotency settle
  complete_idempotency-Stored headers h low high = elim (Bool-cases (count (owned r uid) t == 1)) [
    | inl one ↦
        elim exec
          as (λ x.
            Stored codec now r uid response t
              (complete_idempotency x now r uid response headers t).1) [
                | done ↦ stored headers h low high (ground arith) (ground arith)
                | rejected ↦ kept (ground arith)
                | lost ↦ stored headers h low high (ground arith) (ground arith)
              ]
    | inr other ↦ kept (ground arith)
  ]

  pub complete-Stored :
      Stored codec now r uid response t (complete codec exec now r uid response t).1
  unfolding complete
  complete-Stored = elim (Option-cases (codec.marshal (or_empty response.headers))) [
    | inl e ↦ kept (ground arith)
    | inr (headers, e) ↦ elim (Option-cases (validate r)) [
      | inr (x, bad) ↦ kept (ground arith)
      | inl valid ↦
          elim (Bool-cases
            (uid == 0 || ltb_ℤ response.status (pos 100) || ltb_ℤ (pos 599) response.status)) [
              | inl refused ↦ kept (ground arith)
              | inr fine ↦
                  subst (λ t'. Stored codec now r uid response t t') (ground arith)
                    (complete_idempotency-Stored headers e (ground arith) (ground arith))
            ]
    ]
  ]

-- The table after a deletion that took effect.
abbrev pub cleaned : ℕ → ℤ → List Row → List Row
cleaned now limit t = (cleanup (λ r. leb r.expires_at now) (λ r. r.expires_at) (pos_part limit) t).0

-- DeleteExpired leaves the table alone, or runs its deletion.
pub delete_expired_cases {ℓ} :
    (P : List Row → Type ℓ) (exec : Outcome) (now : ℕ) (limit : ℤ) (t : List Row)
    → P t
    → P (cleaned now limit t)
    → P (delete_expired exec now limit t).1
unfolding delete_expired
delete_expired_cases P exec now limit t unchanged changed =
    elim (Bool-cases (ltb_ℤ limit (pos 1) || ltb_ℤ (pos 10000) limit)) [
      | inl bad ↦ subst P (ground arith) unchanged
      | inr fine ↦ subst P (ground arith) (
          settle_cases P exec cleanup_failed
            (cleanup (λ r. leb r.expires_at now) (λ r. r.expires_at) (pos_part limit) t).1
            (cleaned now limit t) t unchanged changed)
    ]

-- The calls of the store.
pub data Call : Type 0 where
  begins : Faults → Readings → ℕ → Request → Call
  completes : Outcome → ℕ → Request → ℕ → StoredHttpResponse → Call
  deletes : Outcome → ℕ → ℤ → Call

-- The table after a call, and after a sequence of calls.
unfoldable pub step : Codec → List Row → Call → List Row
step codec t (begins f at uid r) = (begin codec f at uid r t).1
step codec t (completes exec now r uid response) = (complete codec exec now r uid response t).1
step codec t (deletes exec now limit) = (delete_expired exec now limit t).1

unfoldable pub run : Codec → List Row → List Call → List Row
run codec t [] = t
run codec t (c ∷ cs) = run codec (step codec t c) cs
