-- ===== src/Jobs/Selection.antt =====
-- Which job Claim gives: the first of the queue among those that are eligible.
use complicatedauth_backend.Prelude.{
  ℕ, ◌*◌, ◌≡◌, refl, ap, inl, inr, Bool, true, false, ◌||◌, List, [], ◌∷◌, Option, none, some,
  arith, Option-cases, Bool-cases, if◌then◌else◌, All, All-imp, subst, String, not,
}
use complicatedauth_backend.Prelude.Int.{ℤ, pos, leb_ℤ}
use complicatedauth_backend.Duration.{second, duration_seconds}
use complicatedauth_backend.Table.{get, update, select, Unique}
use complicatedauth_backend.Table.Laws.{get-update, All-get, Unique-update}
use complicatedauth_backend.Db.{ok, transact, transact-eq-ok}
use mathlib.Core.Option
use complicatedauth_backend.Prelude.Text.{matches, is_lower, is_word}
use complicatedauth_backend.Cleanup.Laws.{All-found}
use complicatedauth_backend.Cleanup.Order.{get-select, Unique-select}
use complicatedauth_backend.Jobs.Rows.{Row, row_keyed}
use complicatedauth_backend.Jobs.{
  Error, Job, Readings, Faults, is_exhausted, bury, is_eligible, precedes, first_of_queue,
  returned_job, claim_body, claim, claim_begin_failed,
}

precedes_total : (x y : Row) → precedes x y ≡ false → precedes y x ≡ true
unfolding precedes
precedes_total x y h = ground arith

precedes_trans : (x y z : Row) → precedes x y ≡ true → precedes y z ≡ true → precedes x z ≡ true
unfolding precedes
precedes_trans x y z h k = ground arith

precedes_refl : (x : Row) → precedes x x ≡ true
unfolding precedes
precedes_refl x = ground arith

first_none : (xs : List Row) → first_of_queue xs ≡ none → xs ≡ []
unfolding first_of_queue
first_none [] h = refl
first_none (y ∷ ys) h = absurd (ground arith)

below-All :
    (x z : Row) (ys : List Row)
    → precedes x z ≡ true
    → All (λ y. precedes z y ≡ true) ys
    → All (λ y. precedes x y ≡ true) ys
below-All x z ys h = All-imp (λ y k. precedes_trans x z y h k) ys

-- The first of the queue comes no later than any other.
first_le :
    (xs : List Row) (x : Row) → first_of_queue xs ≡ some x → All (λ y. precedes x y ≡ true) xs
unfolding first_of_queue
first_le [] x h = tt
first_le (y ∷ ys) x h = elim (Option-cases (first_of_queue ys)) [
  | inl e ↦
      subst (λ w. All (λ v. precedes w v ≡ true) (y ∷ ys)) (ground arith)
        (precedes_refl y, rw (first_none ys e) tt)
  | inr (z, e) ↦ elim (Bool-cases (precedes y z)) [
    | inl p ↦
        subst (λ w. All (λ v. precedes w v ≡ true) (y ∷ ys)) (ground arith)
          (precedes_refl y, below-All y z ys p (first_le ys z e))
    | inr p ↦
        subst (λ w. All (λ v. precedes w v ≡ true) (y ∷ ys)) (ground arith)
          (precedes_total y z p, first_le ys z e)
  ]
]

first_All {ℓ} :
    (P : Row → Type ℓ) (xs : List Row) (x : Row) → All P xs → first_of_queue xs ≡ some x → P x
unfolding first_of_queue
first_All P [] x h e = cc
first_All P (y ∷ ys) x h e = elim (Option-cases (first_of_queue ys)) [
  | inl n ↦ subst P (ground arith) h.0
  | inr (z, s) ↦ elim (Bool-cases (precedes y z)) [
    | inl p ↦ subst P (ground arith) h.0
    | inr p ↦ subst P (ground arith) (first_All P ys z h.1 s)
  ]
]

pub bury-uid : (at : Readings) (x : Row) → (bury at x).uid ≡ x.uid
unfolding bury
bury-uid at x = refl

-- The table after the first statement of Claim, and the rows that its second one selects.
abbrev pub buried : Readings → String → List Row → List Row
buried at queue t = update (is_exhausted at queue) (bury at) t

abbrev pub candidates : Readings → (ℕ → Bool) → String → List Row → List Row
candidates at locked queue t = select (is_eligible at locked queue) (buried at queue t)

module _ (at : Readings) (locked : ℕ → Bool) (queue : String) (t : List Row) (u : Unique t) where
  buried-Unique : Unique (buried at queue t)
  buried-Unique = Unique-update (is_exhausted at queue) (bury at) t (bury-uid at) u

  -- Burying exhausted jobs makes no job eligible, and takes none from those that are.
  eligible_buried :
      (x : Row)
      → is_eligible at locked queue (if is_exhausted at queue x then bury at x else x)
        ≡ is_eligible at locked queue x
  unfolding is_eligible is_exhausted bury
  eligible_buried x = ground arith

  eligible_kept :
      (x : Row)
      → is_eligible at locked queue x ≡ true
      → (if is_exhausted at queue x then bury at x else x) ≡ x
  unfolding is_eligible is_exhausted
  eligible_kept x e = ground arith

  get-buried :
      (k : ℕ)
      → get k (buried at queue t)
        ≡ Option.map (λ x. if is_exhausted at queue x then bury at x else x) (get k t)
  get-buried k = get-update (is_exhausted at queue) (bury at) k t (bury-uid at)

  -- The candidates are the eligible rows of the table.
  pub get-candidates :
      (k : ℕ)
      → get k (candidates at locked queue t) ≡ elim (get k t) [
        | none ↦ none
        | some x ↦ if is_eligible at locked queue x then some x else none
      ]
  get-candidates k = elim (Option-cases (get k t)) [
    | inl e ↦ ground (
      arith,
      get-select (is_eligible at locked queue) k (buried at queue t) buried-Unique,
      get-buried k,
    )
    | inr (x, e) ↦ ground (
      arith,
      get-select (is_eligible at locked queue) k (buried at queue t) buried-Unique,
      get-buried k,
      eligible_buried x,
      eligible_kept x,
    )
  ]

  -- The candidate that Claim takes, as the second statement finds it.
  pub candidate-get :
      (row : Row)
      → first_of_queue (candidates at locked queue t) ≡ some row
      → (get row.uid (buried at queue t) ≡ some row) × (is_eligible at locked queue row ≡ true)
  candidate-get row h =
      let unique = Unique-select (is_eligible at locked queue) (buried at queue t) buried-Unique in
      let found =
        first_All (λ y. get y.uid (candidates at locked queue t) ≡ some y)
          (candidates at locked queue t) row (All-found (candidates at locked queue t) unique) h in
      (
        ground (
          arith,
          get-select (is_eligible at locked queue) row.uid (buried at queue t) buried-Unique,
        ),
        ground (
          arith,
          get-select (is_eligible at locked queue) row.uid (buried at queue t) buried-Unique,
        ),
      )

  -- The candidate that Claim takes.
  pub first-candidate :
      (row : Row)
      → first_of_queue (candidates at locked queue t) ≡ some row
      → (get row.uid t ≡ some row)
        × (is_eligible at locked queue row ≡ true)
        × ((k : ℕ) (y : Row)
            → get k t ≡ some y
            → is_eligible at locked queue y ≡ true
            → precedes row y ≡ true)
  first-candidate row h =
      let unique = Unique-select (is_eligible at locked queue) (buried at queue t) buried-Unique in
      let found =
        first_All (λ y. get y.uid (candidates at locked queue t) ≡ some y)
          (candidates at locked queue t) row (All-found (candidates at locked queue t) unique) h in
      let below = first_le (candidates at locked queue t) row h in
      (
        ground (arith, get-candidates row.uid),
        ground (arith, get-candidates row.uid),
        λ k y there ok.
            All-get (λ z. precedes row z ≡ true) k (candidates at locked queue t) y below
              (ground (arith, get-candidates k)),
      )

  pub no-candidate :
      first_of_queue (candidates at locked queue t) ≡ none
      → (k : ℕ) (y : Row) → get k t ≡ some y
      → is_eligible at locked queue y ≡ false
  no-candidate h k y there = ground (
    arith,
    get-candidates k,
    ap (λ (l : List Row). get k l) (first_none (candidates at locked queue t) h),
    nothing k,
  )
    where
      nothing : (k : ℕ) → get {A = Row} k [] ≡ none
      nothing k = unfold get in refl

module _ (f : Faults) (at : Readings) (locked : ℕ → Bool) (queue : String) (duration : ℤ)
    (lease : ℕ) (t : List Row) where
  abbrev span : ℕ
  span = duration_seconds duration * second

  pub claim-eq-ok :
      (o : Option Job)
      → (claim false f at locked queue duration lease t).0 ≡ ok o
      → (new : List Row) × (e : Error) × (claim_body f at locked queue lease span t
          ≡ ok (new, o, e))
        × ((claim false f at locked queue duration lease t).1 ≡ new)
  unfolding claim
  claim-eq-ok o h =
      elim (Bool-cases (not (matches is_lower is_word 62 queue) || leb_ℤ duration (pos 0))) [
        | inl bad ↦ absurd (ground arith)
        | inr fine ↦
            let run : claim false f at locked queue duration lease t
                ≡ transact f.begin claim_begin_failed f.commit
                    (claim_body f at locked queue lease span t) t =
              ground arith in
            rw run (
              transact-eq-ok f.begin claim_begin_failed f.commit
                (claim_body f at locked queue lease span t) t o (rw run at h))
      ]

  -- What the answer of Claim says of the table.
  abbrev pub Answers : Option Job → Type 0
  Answers none = (k : ℕ) (y : Row) → get k t ≡ some y → is_eligible at locked queue y ≡ false
  Answers (some job) =
      (row : Row) × (get job.uid t ≡ some row)
      × (is_eligible at locked queue row ≡ true)
      × (job ≡ returned_job at lease span row)
      × ((k : ℕ) (y : Row)
          → get k t ≡ some y
          → is_eligible at locked queue y ≡ true
          → precedes row y ≡ true)

  body_Answers :
      (o : Option Job) (new : List Row) (e : Error)
      → Unique t
      → claim_body f at locked queue lease span t ≡ ok (new, o, e)
      → Answers o
  unfolding claim_body returned_job
  body_Answers none new e u h = no-candidate at locked queue t u (ground arith)
  body_Answers (some job) new e u h =
      elim (Option-cases (first_of_queue (candidates at locked queue t))) [
        | inl nothing ↦ absurd (ground arith)
        | inr (row, first) ↦
            let same : job ≡ returned_job at lease span row = ground arith in
            let (found, good, least) = first-candidate at locked queue t u row first in
            (row, rw same found, good, same, least)
      ]

  pub claim_oldest :
      (o : Option Job)
      → Unique t
      → (claim false f at locked queue duration lease t).0 ≡ ok o
      → Answers o
  claim_oldest o u h = let (new, e, body, table) = claim-eq-ok o h in body_Answers o new e u body
