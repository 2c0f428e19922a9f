-- ===== src/Workers/Purge.antt =====
-- purgeSupportCase of internal/api/background_jobs.go, on the columns of support_cases that it reads.
use complicatedauth_backend.Prelude.{
  ℕ, ◌≤◌, ◌≡◌, refl, String, str_eq, Bool, true, false, not, ◌||◌, List, [], ◌∷◌, ◌++◌, Option,
  none, some, ltb, ◌==◌, ==_iff, arith, inl, inr, Bool-cases, Option-cases, ◌⊎◌, if◌then◌else◌,
}
use complicatedauth_backend.Table.{Keyed, get, delete, Unique}
use complicatedauth_backend.Table.Laws.{get-delete, get-key}
use complicatedauth_backend.Db.{Result, ok, err, Outcome, done, transact, transact_cases}

-- support_cases
pub record SupportCase : Type 0 where
  pub uid : ℕ
  pub tenant_uid : ℕ
  pub project_uid : Option ℕ
  pub case_reference : String
  pub category : String
  pub status : String
  pub retention_until : Option ℕ

instance abbrev pub case_keyed : Keyed SupportCase
case_keyed = record { Key = ℕ; key = λ c. c.uid; same = λ j k. j == k; same_iff = ==_iff }

-- The audit event of a purge.
pub record Event : Type 0 where
  pub tenant_uid : ℕ
  pub project_uid : Option ℕ
  pub action : String
  pub target_uid : ℕ
  pub case_reference : String
  pub category : String
  pub retention_until : ℕ

pub record Cases : Type 0 where
  pub cases : List SupportCase
  pub events : List Event

-- The reading of the clock and the calls that fail.
pub record Call : Type 0 where
  pub begin_fails : Bool
  pub read_fails : Bool
  pub now : ℕ
  pub audit_fails : Bool
  pub delete_fails : Bool
  pub commit : Outcome

-- The purge of a case whose retention is over.
unfoldable pub purged : Call → SupportCase → ℕ → Cases → Result String (Cases × Option ℕ × String)
purged call c until t =
    if call.audit_fails || call.delete_fails
    then err "purge support case"
    else ok (
      record {
        cases = delete (λ x. x.uid == c.uid) t.cases;
        events =
            t.events
            ++ record {
              tenant_uid = c.tenant_uid;
              project_uid = c.project_uid;
              action = "support_case.purged";
              target_uid = c.uid;
              case_reference = c.case_reference;
              category = c.category;
              retention_until = until;
            }
              ∷ [];
      },
      none,
      "commit support case purge",
    )

-- The transaction of purgeSupportCase: the answer is when the job runs again.
unfoldable pub purge_body : Call → ℕ → Cases → Result String (Cases × Option ℕ × String)
unfolding purged
purge_body call uid t =
    if call.read_fails then err "lock support case for purge" else elim (get uid t.cases) [
      | none ↦ ok (t, none, "commit missing support case purge")
      | some c ↦ elim c.retention_until [
        | none ↦ ok (t, none, "commit cancelled support case purge")
        | some until ↦
            if not (str_eq c.status "closed")
            then ok (t, none, "commit cancelled support case purge")
            else if ltb call.now until
            then ok (t, some until, "commit deferred support case purge")
            else purged call c until t
      ]
    ]

-- purgeSupportCase, once its payload is decoded.
unfoldable pub purge_support_case : Call → ℕ → Cases → Result String (Option ℕ) × Cases
unfolding purge_body
purge_support_case call uid t =
    transact call.begin_fails "begin support case purge" call.commit (purge_body call uid t) t

-- A call in which nothing fails.
abbrev pub Succeeds : Call → Type 0
Succeeds call =
    (call.begin_fails ≡ false)
    × (call.read_fails ≡ false)
    × (call.audit_fails ≡ false)
    × (call.delete_fails ≡ false)
    × (call.commit ≡ done)

deletes_one :
    (c : SupportCase) (cases : List SupportCase) (j : ℕ)
    → Unique cases
    → get j (delete (λ x. x.uid == c.uid) cases) ≡ (if j == c.uid then none else get j cases)
deletes_one c cases j u = elim (Option-cases (get j cases)) [
  | inl absent ↦ ground (arith, get-delete (λ x. x.uid == c.uid) j cases u)
  | inr (x, found) ↦
      ground (arith, get-delete (λ x. x.uid == c.uid) j cases u, get-key j cases x found)
]

-- What the statements of a purge leave.
abbrev Left : Call → ℕ → SupportCase → Cases → Cases → Type 0
Left call uid c t new =
    (new ≡ t)
    ⊎ ((until : ℕ) × (c.retention_until ≡ some until)
        × (until ≤ call.now)
        × (str_eq c.status "closed" ≡ true)
        × ((j : ℕ) → get j new.cases ≡ (if j == uid then none else get j t.cases)))

purge_body-Left :
    (call : Call) (uid : ℕ) (t : Cases) (c : SupportCase) (new : Cases) (a : Option ℕ) (e : String)
    → Unique t.cases
    → get uid t.cases ≡ some c
    → purge_body call uid t ≡ ok (new, a, e)
    → Left call uid c t new
unfolding purge_body
purge_body-Left call uid t c new a e u h k = elim (Option-cases c.retention_until) [
  | inl kept ↦ inl (ground arith)
  | inr (until, set) ↦ elim (Bool-cases (str_eq c.status "closed")) [
    | inr ongoing ↦ inl (ground arith)
    | inl closed ↦ elim (Bool-cases (ltb call.now until)) [
      | inl early ↦ inl (ground arith)
      | inr late ↦
          let here : c.uid ≡ uid = get-key uid t.cases c h in
          let left : new.cases ≡ delete (λ x. x.uid == uid) t.cases =
            unfold purged in ground (arith, here) in
          inr (until, set, ground arith, closed, λ j. rw (left, ← here) (deletes_one c t.cases j u))
    ]
  ]
]

-- A purge respects the retention: however its calls end, either it changes nothing, or the case was
-- closed and its retention had run out, and it alone is deleted.
pub purge_respects_retention :
    (call : Call) (uid : ℕ) (t : Cases) (c : SupportCase)
    → Unique t.cases
    → get uid t.cases ≡ some c
    → ((purge_support_case call uid t).1 ≡ t)
      ⊎ ((until : ℕ) × (c.retention_until ≡ some until)
          × (until ≤ call.now)
          × (str_eq c.status "closed" ≡ true)
          × ((j : ℕ)
              → get j (purge_support_case call uid t).1.cases
                ≡ (if j == uid then none else get j t.cases)))
unfolding purge_support_case
purge_respects_retention call uid t c u h =
    transact_cases (Left call uid c t) call.begin_fails "begin support case purge" call.commit
      (purge_body call uid t) t (inl refl) (λ new a e k. purge_body-Left call uid t c new a e u h k)

-- The purge of a closed case comes about: when its calls succeed, the job comes back at the end of
-- the retention if that has not passed, and else the case is gone.
pub purge_comes_about :
    (call : Call) (uid until : ℕ) (t : Cases) (c : SupportCase)
    → Unique t.cases
    → get uid t.cases ≡ some c
    → Succeeds call
    → str_eq c.status "closed" ≡ true
    → c.retention_until ≡ some until
    → ((purge_support_case call uid t).0 ≡ ok (if ltb call.now until then some until else none))
      × (get uid (purge_support_case call uid t).1.cases
          ≡ (if ltb call.now until then some c else none))
unfolding purge_support_case purge_body purged transact
purge_comes_about call uid until t c u h (b, r, a, d, o) closed set =
    let gone = deletes_one c t.cases uid u in
    let here = get-key uid t.cases c h in (ground arith, ground (arith, gone, here))
