-- ===== src/Maintenance/Batches.antt =====
-- The loop of runMaintenanceCleanup of internal/api/maintenance.go over statements, each on a table of
-- its own.
use complicatedauth_backend.Prelude.{ℕ, suc, String, Bool, true, List, [], ◌∷◌, ◌==◌, if◌then◌else◌}
use complicatedauth_backend.Table.{Keyed}
use complicatedauth_backend.Cleanup.{cleanup}
use complicatedauth_backend.Db.{Result, ok, err, Outcome, done, rejected, lost}

-- maintenanceCleanup: the query is what its WITH clause selects, and its order.
pub record MaintenanceCleanup : Type 1 where
  pub name : String
  pub Row : Type 0
  pub keyed : Keyed Row
  pub due : ℕ → Row → Bool
  pub order : Row → ℕ

-- maintenanceCleanupBatch
abbrev pub maintenance_cleanup_batch : ℕ
maintenance_cleanup_batch = 1000

-- The tables of a sequence of statements.
abbrev pub Store : List MaintenanceCleanup → Type 0
Store [] = Unit
Store (c ∷ cs) = List c.Row × Store cs

-- One statement: the table afterwards, and RowsAffected().
abbrev pub clean : (c : MaintenanceCleanup) → ℕ → List c.Row → List c.Row × ℕ
clean c now xs = cleanup ⦃t = c.keyed⦄ (c.due now) c.order maintenance_cleanup_batch xs

-- What a statement that ends so leaves: xs' is its table when it has run, and `rest` is what the
-- later statements make of the other tables t.
abbrev pub after :
    (c : MaintenanceCleanup) (cs : List MaintenanceCleanup)
    → Outcome
    → List c.Row
    → List c.Row
    → Store cs
    → Result String Bool × Store cs
    → Result String Bool × Store (c ∷ cs)
after c cs done xs xs' t rest = (rest.0, (xs', rest.1))
after c cs rejected xs xs' t rest = (err c.name, (xs, t))
after c cs lost xs xs' t rest = (err c.name, (xs', t))

-- batchWasFull
abbrev pub is_full : Bool → ℕ → Bool
is_full full count = if count == maintenance_cleanup_batch then true else full

-- The loop over the statements: the n-th reads the clock and may fail. It tells whether a batch was
-- full.
unfoldable pub run_cleanups :
    (ℕ → Outcome)
    → (ℕ → ℕ)
    → ℕ
    → (cs : List MaintenanceCleanup) → Bool
    → Store cs
    → Result String Bool × Store cs
run_cleanups exec clock n [] full t = (ok full, t)
run_cleanups exec clock n (c ∷ cs) full (xs, t) =
    let (xs', count) = clean c (clock n) xs in
    after c cs (exec n) xs xs' t (run_cleanups exec clock (suc n) cs (is_full full count) t)
