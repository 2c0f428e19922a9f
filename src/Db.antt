-- ===== src/Db.antt =====
-- What the store package sees of PostgreSQL through pgx: results with errors, statements and
-- commits that can fail, and transactions that roll back. Which calls fail is an argument of each
-- operation. A failed commit, or a failed statement outside a transaction, may or may not have
-- taken effect: the connection can break before or after the server has done its work.
use complicatedauth_backend.Prelude.{
  Bool, true, false, ◌≡◌, ◌≢◌, refl, ◌⊎◌, inl, inr, arith, if◌then◌else◌,
}

pub data Result (E A : Type 0) : Type 0 where
  ok : A → Result E A
  err : E → Result E A

-- `done`: the call succeeds. `rejected`: it fails without effect. `lost`: it took effect, and the
-- caller gets an error all the same.
pub data Outcome : Type 0 where
  done rejected lost : Outcome

module _ {E A : Type 0} where
  pub result_cases : (r : Result E A) → ((e : E) × (r ≡ err e)) ⊎ ((a : A) × (r ≡ ok a))
  result_cases (ok a) = inr (a, refl)
  result_cases (err e) = inl (e, refl)

module _ {E S A : Type 0} where
  -- The end of a call that was to leave the state `new`.
  unfoldable pub settle : Outcome → E → A → S → S → Result E A × S
  settle done e a new old = (ok a, new)
  settle rejected e a new old = (err e, old)
  settle lost e a new old = (err e, new)

  -- What remains of a transaction whose statements have run: an error is returned after a rollback,
  -- and any other path commits. The body names the error of its own commit.
  unfoldable pub finish : Outcome → Result E (S × A × E) → S → Result E A × S
  unfolding settle
  finish commit (err e) old = (err e, old)
  finish commit (ok (new, a, e)) old = settle commit e a new old

  -- BeginTx, the statements, and the deferred Rollback or the Commit.
  unfoldable pub transact : Bool → E → Outcome → Result E (S × A × E) → S → Result E A × S
  unfolding finish
  transact begin_fails e commit body old =
      if begin_fails then (err e, old) else finish commit body old

module _ {E S A : Type 0} where
  -- A call leaves the state as it was, or as its statements made it; what it returns as a success
  -- is what they returned.
  pub transact_cases {ℓ} :
      (P : S → Type ℓ) (b : Bool) (e : E) (commit : Outcome) (body : Result E (S × A × E)) (old : S)
      → P old
      → ((new : S) (a : A) (e' : E) → body ≡ ok (new, a, e') → P new)
      → P (transact b e commit body old).1
  unfolding transact
  transact_cases P true e commit body old unchanged changed = unchanged
  transact_cases P false e commit (err x) old unchanged changed = unchanged
  transact_cases P false e done (ok (new, a, e')) old unchanged changed = changed new a e' refl
  transact_cases P false e rejected (ok (new, a, e')) old unchanged changed = unchanged
  transact_cases P false e lost (ok (new, a, e')) old unchanged changed = changed new a e' refl

  pub transact-eq-ok :
      (b : Bool) (e : E) (commit : Outcome) (body : Result E (S × A × E)) (old : S) (a : A)
      → (transact b e commit body old).0 ≡ ok a
      → (new : S) × (e' : E) × (body ≡ ok (new, a, e')) × ((transact b e commit body old).1 ≡ new)
  unfolding transact
  transact-eq-ok true e commit body old a h = cc
  transact-eq-ok false e commit (err x) old a h = cc
  transact-eq-ok false e done (ok (new, a', e')) old a h = (new, e', ground arith, refl)
  transact-eq-ok false e rejected (ok (new, a', e')) old a h = cc
  transact-eq-ok false e lost (ok (new, a', e')) old a h = cc

  -- Unless the answer of the commit is lost, an error leaves the state as it was.
  pub transact_error_unchanged :
      (b : Bool) (e : E) (commit : Outcome) (body : Result E (S × A × E)) (old : S) (x : E)
      → commit ≢ lost
      → (transact b e commit body old).0 ≡ err x
      → (transact b e commit body old).1 ≡ old
  unfolding transact
  transact_error_unchanged true e commit body old x h k = refl
  transact_error_unchanged false e commit (err y) old x h k = refl
  transact_error_unchanged false e done (ok (new, a, e')) old x h k = cc
  transact_error_unchanged false e rejected (ok (new, a, e')) old x h k = refl
  transact_error_unchanged false e lost (ok (new, a, e')) old x h k = absurd (h refl)

  pub settle_cases {ℓ} :
      (P : S → Type ℓ) (exec : Outcome) (e : E) (a : A) (new old : S)
      → P old
      → P new
      → P (settle exec e a new old).1
  unfolding settle
  settle_cases P done e a new old unchanged changed = changed
  settle_cases P rejected e a new old unchanged changed = unchanged
  settle_cases P lost e a new old unchanged changed = changed
