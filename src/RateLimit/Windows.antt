-- ===== src/RateLimit/Windows.antt =====
-- How many calls of Take pass in one window.
use complicatedauth_backend.Prelude.{
  ℕ, suc, ◌+◌, ◌*◌, ◌<◌, ◌≤◌, ◌≡◌, refl, ◌∙◌, ap, List, [], ◌∷◌, none, some, arith, leb,
  if◌then◌else◌, ◌⊎◌, inl, inr, Option-cases, length, All, min,
}
use complicatedauth_backend.Prelude.Int.{ℤ, pos_part}
use complicatedauth_backend.Table.{get}
use complicatedauth_backend.Table.Laws.{get-update, get-key, get-append}
use complicatedauth_backend.Db.{Result, ok, err, done, settle}
use complicatedauth_backend.Duration.{second, duration_seconds}
use complicatedauth_backend.RateLimit.{
  Key, Bucket, bucket_keyed, Readings, RateLimitResult, Error, same_key, same_key_iff, fresh, bump,
  upsert, verdict, check_take, take,
}

-- Every test of the expiry, at any reading, comes before `deadline`.
abbrev pub IsWithin : ℕ → Readings → Type 0
IsWithin deadline at =
    (at.count_check < deadline) × (at.start_check < deadline) × (at.expiry_check < deadline)

-- The bucket of the key, if there is one, has expired at every reading of the call.
abbrev pub Opens : Readings → Key → List Bucket → Type 0
Opens at key t =
    (get key t ≡ none)
    ⊎ ((b : Bucket) × (get key t ≡ some b)
        × (b.expires_at ≤ at.count_check)
        × (b.expires_at ≤ at.start_check)
        × (b.expires_at ≤ at.expiry_check))

pub fresh-key : (at : Readings) (key : Key) (span : ℕ) → (fresh at key span).key ≡ key
unfolding fresh
fresh-key at key span = refl

get-fresh :
    (at : Readings) (key : Key) (span : ℕ)
    → get key (fresh at key span ∷ []) ≡ some (fresh at key span)
unfolding get fresh
get-fresh at key span = ground (arith, same_key_iff key key)

pub bump-key : (at : Readings) (limit span : ℕ) (b : Bucket) → (bump at limit span b).key ≡ b.key
unfolding bump
bump-key at limit span b = refl

-- The upsert returns the bucket that it leaves in the table.
pub get-upsert :
    (at : Readings) (key : Key) (limit span : ℕ) (t : List Bucket)
    → get key (upsert at key limit span t).0 ≡ some (upsert at key limit span t).1
unfolding upsert
get-upsert at key limit span t = elim (Option-cases (get key t)) [
  | inl e ↦ ground (
    arith,
    get-append key t (fresh at key limit ∷ []),
    get-append key t (fresh at key span ∷ []),
    get-fresh at key span,
  )
  | inr (b, e) ↦ ground (
    arith,
    get-update (λ x. same_key x.key key) (bump at limit span) key t (bump-key at limit span),
    get-key key t b e,
    same_key_iff b.key key,
  )
]

module _ (key : Key) (limit window : ℤ) (valid : check_take key limit window ≡ none) where
  abbrev cap : ℕ
  cap = pos_part limit

  abbrev span : ℕ
  span = duration_seconds window * second

  pub take_valid :
      (at : Readings) (t : List Bucket)
      → take done at key limit window t
        ≡ (ok (verdict at cap (upsert at key cap span t).1), (upsert at key cap span t).0)
  unfolding take settle
  take_valid at t = ground (arith, valid)

  -- The bucket after `n` calls in a window that ends at `deadline`.
  abbrev Counts : ℕ → ℕ → List Bucket → Type 0
  Counts n deadline t =
      (b : Bucket) × (get key t ≡ some b)
      × (b.request_count ≡ min n (cap + 1))
      × (b.expires_at ≡ deadline)

  bump_within :
      (at : Readings) (n deadline : ℕ) (b : Bucket)
      → IsWithin deadline at
      → b.request_count ≡ min n (cap + 1)
      → b.expires_at ≡ deadline
      → ((bump at cap span b).request_count ≡ min (suc n) (cap + 1))
        × ((bump at cap span b).expires_at ≡ deadline)
  unfolding bump
  bump_within at n deadline b w c e = ground arith

  upsert_found :
      (at : Readings) (t : List Bucket) (b : Bucket)
      → get key t ≡ some b
      → (upsert at key cap span t).1 ≡ bump at cap span b
  unfolding upsert
  upsert_found at t b e = ground arith

  Counts-suc :
      (at : Readings) (n deadline : ℕ) (t : List Bucket)
      → IsWithin deadline at
      → Counts n deadline t
      → Counts (suc n) deadline (upsert at key cap span t).0
        × ((upsert at key cap span t).1.request_count ≡ min (suc n) (cap + 1))
  Counts-suc at n deadline t w (b, found, c, e) =
      let (c', e') = bump_within at n deadline b w c e in
      let same = upsert_found at t b found in
      ((bump at cap span b, get-upsert at key cap span t ∙ ap some same, c', e'), rw same c')

  Counts-one :
      (at : Readings) (t : List Bucket)
      → Opens at key t
      → Counts 1 (upsert at key cap span t).1.expires_at (upsert at key cap span t).0
        × ((upsert at key cap span t).1.request_count ≡ 1)
  unfolding upsert fresh bump
  Counts-one at t o =
      let one : (upsert at key cap span t).1.request_count ≡ 1 = ground arith in
      (((upsert at key cap span t).1, get-upsert at key cap span t, omega arith, refl), one)

  cap_positive : 1 ≤ cap
  unfolding check_take
  cap_positive = ground arith

  abbrev passes : Result Error RateLimitResult → ℕ
  passes (ok r) = if r.allowed then 1 else 0
  passes (err e) = 0

  -- The calls of Take that pass, of those made at the given readings.
  pub admitted : List Readings → List Bucket → ℕ
  admitted [] t = 0
  admitted (at ∷ ats) t =
      passes (take done at key limit window t).0 + admitted ats (take done at key limit window t).1

  admitted-step :
      (at : Readings) (ats : List Readings) (t : List Bucket)
      → admitted (at ∷ ats) t
        ≡ (if leb (upsert at key cap span t).1.request_count cap then 1 else 0)
          + admitted ats (upsert at key cap span t).0
  unfolding admitted verdict
  admitted-step at ats t = rw (take_valid at t)

  admitted_within :
      (ats : List Readings) (n deadline : ℕ) (t : List Bucket)
      → Counts n deadline t
      → All (IsWithin deadline) ats
      → min n cap + admitted ats t ≡ min (n + length ats) cap
  admitted_within [] n deadline t c w = unfold admitted in omega arith
  admitted_within (at ∷ ats) n deadline t c w =
      let (c', count) = Counts-suc at n deadline t w.0 c in
      ground (
        arith,
        admitted-step at ats t,
        admitted_within ats (suc n) deadline (upsert at key cap span t).0 c' w.1,
      )

  -- A window admits its limit: for a key, a limit and a window that Take accepts, and statements that
  -- succeed, of a call that opens a window, for a key with no bucket or with one
  -- that has expired at every reading, and of any calls made before that window expires, as many pass
  -- as the limit allows.
  pub admitted_in_window :
      (at : Readings) (ats : List Readings) (t : List Bucket)
      → Opens at key t
      → All (IsWithin (upsert at key cap span t).1.expires_at) ats
      → admitted (at ∷ ats) t ≡ min (suc (length ats)) cap
  admitted_in_window at ats t o w =
      let (c, one) = Counts-one at t o in
      ground (
        arith,
        admitted-step at ats t,
        cap_positive,
        admitted_within ats 1 (upsert at key cap span t).1.expires_at (upsert at key cap span t).0 c
            w,
      )
