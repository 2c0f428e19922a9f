-- ===== src/Table.antt =====
-- A database table as the list of its rows, with a key for each row. The statements of the store
-- package are written with these operations: SELECT by key, INSERT ... ON CONFLICT DO NOTHING,
-- UPDATE ... WHERE and DELETE ... WHERE, each with the count that RowsAffected() reports.
pub mod Laws
use complicatedauth_backend.Prelude.{
  ℕ, suc, ◌≡◌, ◌↔◌, Bool, true, false, ◌||◌, List, [], ◌∷◌, ◌++◌, Option, none, some, if◌then◌else◌,
}

-- Rows of type A have a primary key.
pub record Keyed (A : Type 0) : Type 1 where
  pub Key : Type 0
  pub key : A → Key
  pub same : Key → Key → Bool
  pub same_iff : (j k : Key) → (same j k ≡ true) ↔ (j ≡ k)

module _ {A : Type 0} ⦃t : Keyed A⦄ where
  -- SELECT ... WHERE key = k
  unfoldable pub get : t.Key → List A → Option A
  get k [] = none
  get k (x ∷ xs) = if t.same (t.key x) k then some x else get k xs

  -- INSERT ... ON CONFLICT DO NOTHING: the count says whether the row is new.
  unfoldable pub insert : A → List A → List A × ℕ
  unfolding get
  insert x xs = elim (get (t.key x) xs) [ none ↦ (xs ++ x ∷ [], 1) | some _ ↦ (xs, 0) ]

  -- The primary key: no two rows share one.
  abbrev pub Unique : List A → Type 0
  Unique [] = Unit
  Unique (x ∷ xs) = (get (t.key x) xs ≡ none) × Unique xs

module _ {A : Type 0} where
  -- UPDATE ... SET f WHERE p
  unfoldable pub update : (A → Bool) → (A → A) → List A → List A
  update p f [] = []
  update p f (x ∷ xs) = (if p x then f x else x) ∷ update p f xs

  -- DELETE ... WHERE p
  unfoldable pub delete : (A → Bool) → List A → List A
  delete p [] = []
  delete p (x ∷ xs) = let rest = delete p xs in if p x then rest else x ∷ rest

  -- The number of rows that a WHERE clause selects.
  unfoldable pub count : (A → Bool) → List A → ℕ
  count p [] = 0
  count p (x ∷ xs) = let rest = count p xs in if p x then suc rest else rest

  -- The rows that a WHERE clause selects, in the table's order.
  unfoldable pub select : (A → Bool) → List A → List A
  select p [] = []
  select p (x ∷ xs) = let rest = select p xs in if p x then x ∷ rest else rest

  -- QueryRow(SELECT ... WHERE p).Scan: the first row that the clause selects.
  unfoldable pub find : (A → Bool) → List A → Option A
  find p [] = none
  find p (x ∷ xs) = if p x then some x else find p xs

  -- SELECT EXISTS(SELECT 1 ... WHERE p)
  unfoldable pub exists : (A → Bool) → List A → Bool
  exists p [] = false
  exists p (x ∷ xs) = p x || exists p xs
