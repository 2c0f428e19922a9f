-- ===== src/Cleanup.antt =====
-- The bounded deletion that internal/store/idempotency.go, internal/store/rate_limits.go and
-- internal/api/maintenance.go share: a WITH clause selects the rows that are due, ordered by a
-- timestamp and cut by LIMIT, and the DELETE removes the rows with their keys. Rows with the same
-- timestamp stand in the table's order.
pub mod Order
pub mod Laws
use complicatedauth_backend.Prelude.{
  ℕ, ◌+◌, Bool, true, false, List, [], ◌∷◌, Option, none, some, leb, if◌then◌else◌, take,
}
use complicatedauth_backend.Table.{Keyed, get, select, delete, count}

abbrev pub is_some : {A : Type 0} → Option A → Bool
is_some none = false
is_some (some x) = true

module _ {A : Type 0} where
  unfoldable pub insert_by : (A → ℕ) → A → List A → List A
  insert_by order x [] = x ∷ []
  insert_by order x (y ∷ ys) =
      if leb (order x) (order y) then x ∷ y ∷ ys else y ∷ insert_by order x ys

  -- ORDER BY order
  unfoldable pub sort_by : (A → ℕ) → List A → List A
  unfolding insert_by
  sort_by order [] = []
  sort_by order (x ∷ xs) = insert_by order x (sort_by order xs)

  -- SELECT ... WHERE due ORDER BY order LIMIT limit
  unfoldable pub batch : (A → Bool) → (A → ℕ) → ℕ → List A → List A
  unfolding sort_by select
  batch due order limit xs = take limit (sort_by order (select due xs))

module _ {A : Type 0} ⦃t : Keyed A⦄ where
  -- DELETE ... USING expired WHERE the keys agree
  unfoldable pub is_in : List A → A → Bool
  unfolding get
  is_in doomed x = is_some (get (t.key x) doomed)

  -- The table afterwards, and RowsAffected().
  unfoldable pub cleanup : (A → Bool) → (A → ℕ) → ℕ → List A → List A × ℕ
  unfolding is_in batch delete count
  cleanup due order limit xs =
      let doomed = batch due order limit xs in (delete (is_in doomed) xs, count (is_in doomed) xs)
