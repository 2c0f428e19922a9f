-- ===== src/Cleanup/Laws.antt =====
-- What a bounded deletion removes: due rows only, the oldest first, and as many as the limit allows.
use complicatedauth_backend.Prelude.{
  ℕ, suc, zero, ◌+◌, ◌≤◌, ◌<◌, ◌≡◌, refl, ◌∙◌, sym, Bool, true, false, ◌||◌, List, [], ◌∷◌, none,
  some, arith, min, if◌then◌else◌, Bool-cases, Option-cases, ◌⊎◌, inl, inr, length, drop, All,
}
use complicatedauth_backend.Table.{Keyed, get, Unique, select, count}
use complicatedauth_backend.Table.Laws.{get-key, get-delete, Unique-delete, count-get, All-delete}
use complicatedauth_backend.Cleanup.{is_in, sort_by, batch, cleanup}
use complicatedauth_backend.Cleanup.Order.{
  sort_by_lookups, sort_by-IsSorted, length-sort_by, length-select, length-take, get-select,
  Unique-select, get-take, get-drop, Unique-take, cut_is_oldest,
}

module _ {A : Type 0} ⦃t : Keyed A⦄ where
  -- Both parts of a disjunction that never hold together are counted apart.
  count-or :
      (p q : A → Bool) (xs : List A)
      → ((x : A) → p x ≡ true → q x ≡ false)
      → count (λ x. p x || q x) xs ≡ count p xs + count q xs
  unfolding count
  count-or p q [] apart = omega arith
  count-or p q (x ∷ xs) apart = ground (arith, apart x, count-or p q xs apart)

  count-cong : (p q : A → Bool) (xs : List A) → ((x : A) → p x ≡ q x) → count p xs ≡ count q xs
  unfolding count
  count-cong p q [] same = refl
  count-cong p q (x ∷ xs) same = ground (arith, same x, count-cong p q xs same)

  is_in-cons :
      (y : A) (ys : List A) (x : A) → is_in (y ∷ ys) x ≡ (t.same (t.key y) (t.key x) || is_in ys x)
  unfolding is_in
  is_in-cons y ys x = ground arith

  count-is_in_nil : (xs : List A) → count (is_in []) xs ≡ 0
  unfolding count is_in
  count-is_in_nil [] = refl
  count-is_in_nil (x ∷ xs) = count-is_in_nil xs

  count-same :
      (k : t.Key) (xs : List A) (x : A)
      → Unique xs
      → get k xs ≡ some x
      → count (λ y. t.same k (t.key y)) xs ≡ 1
  count-same k xs x u h = ground (
    arith,
    count-get (λ y. t.same k (t.key y)) k xs (λ y e. sym ((t.same_iff k (t.key y)).0 e)) u,
    h,
    get-key k xs x,
    t.same_iff k (t.key x),
  )

  apart :
      (y : A) (ys : List A)
      → get (t.key y) ys ≡ none
      → (x : A) → t.same (t.key y) (t.key x) ≡ true
      → is_in ys x ≡ false
  unfolding is_in
  apart y ys h x e = let k : t.key y ≡ t.key x = (t.same_iff _ _).0 e in rw (← k, h)

  -- A list of rows of the table, no two with one key, selects as many rows as it has.
  count-is_in :
      (xs ys : List A)
      → Unique xs
      → Unique ys
      → All (λ y. get (t.key y) xs ≡ some y) ys
      → count (is_in ys) xs ≡ length ys
  count-is_in xs [] ux uy h = count-is_in_nil xs
  count-is_in xs (y ∷ ys) ux uy h = omega (
    arith,
    count-cong (is_in (y ∷ ys)) (λ x. t.same (t.key y) (t.key x) || is_in ys x) xs
        (is_in-cons y ys),
    count-or (λ x. t.same (t.key y) (t.key x)) (is_in ys) xs (apart y ys uy.0),
    count-same (t.key y) xs y ux h.0,
    count-is_in xs ys ux uy.1 h.1,
  )

  -- Every row of a table with unique keys is found by its key.
  pub All-found : (xs : List A) → Unique xs → All (λ y. get (t.key y) xs ≡ some y) xs
  unfolding get
  All-found [] u = tt
  All-found (x ∷ xs) u =
      (ground (arith, t.same_iff (t.key x) (t.key x)), found_in_tail xs (All-found xs u.1) u.0)
    where
      found_in_tail :
          (ys : List A)
          → All (λ y. get (t.key y) xs ≡ some y) ys
          → get (t.key x) xs ≡ none
          → All (λ y. (if t.same (t.key x) (t.key y) then some x else get (t.key y) xs) ≡ some y) ys
      found_in_tail [] h e = tt
      found_in_tail (y ∷ ys) h e = (
        elim (Bool-cases (t.same (t.key x) (t.key y))) [
          | inl s ↦
              let k : t.key x ≡ t.key y = (t.same_iff _ _).0 s in ground (arith, h.0, rw k at e)
          | inr s ↦ rw s h.0
        ],
        found_in_tail ys h.1 e,
      )

module _ {A : Type 0} ⦃t : Keyed A⦄ (due : A → Bool) (order : A → ℕ) (limit : ℕ) (xs : List A)
    (u : Unique xs) where
  batch-Unique : Unique (batch due order limit xs)
  unfolding batch
  batch-Unique =
      Unique-take limit _ (sort_by_lookups order (select due xs) (Unique-select due xs u)).0

  -- The selected rows are rows of the table that are due.
  batch-get :
      (k : t.Key) (x : A)
      → get k (batch due order limit xs) ≡ some x
      → (get k xs ≡ some x) × (due x ≡ true)
  unfolding batch
  batch-get k x h =
      let sorted = get-take limit k (sort_by order (select due xs)) x h in
      let lookups = (sort_by_lookups order (select due xs) (Unique-select due xs u)).1 in
      ground (arith, sorted, lookups k, get-select due k xs u)

  length-batch : length (batch due order limit xs) ≡ min limit (count due xs)
  unfolding batch
  length-batch = omega (
    arith,
    length-take limit (sort_by order (select due xs)),
    length-sort_by order (select due xs),
    length-select due xs,
  )

  rows_found :
      (ys : List A)
      → All (λ y. get (t.key y) (batch due order limit xs) ≡ some y) ys
      → All (λ y. get (t.key y) xs ≡ some y) ys
  rows_found [] h = tt
  rows_found (y ∷ ys) h = ((batch-get (t.key y) y h.0).0, rows_found ys h.1)

  pub cleanup-count : (cleanup due order limit xs).1 ≡ min limit (count due xs)
  unfolding cleanup
  cleanup-count =
      let doomed = batch due order limit xs in
      omega (
        arith,
        count-is_in xs doomed u batch-Unique (rows_found doomed (All-found doomed batch-Unique)),
        length-batch,
      )

  pub cleanup-Unique : Unique (cleanup due order limit xs).0
  unfolding cleanup
  cleanup-Unique = Unique-delete _ xs u

  pub cleanup-All {ℓ} : (P : A → Type ℓ) → All P xs → All P (cleanup due order limit xs).0
  unfolding cleanup
  cleanup-All P h = All-delete P _ xs h

  pub get-cleanup :
      (k : t.Key)
      → get k (cleanup due order limit xs).0 ≡ elim (get k xs) [
        | none ↦ none
        | some x ↦ if is_in (batch due order limit xs) x then none else some x
      ]
  unfolding cleanup
  get-cleanup k = get-delete (is_in (batch due order limit xs)) k xs u

  -- A row that is not due stays.
  pub cleanup_keeps :
      (k : t.Key) (x : A)
      → get k xs ≡ some x
      → due x ≡ false
      → get k (cleanup due order limit xs).0 ≡ some x
  unfolding is_in
  cleanup_keeps k x h d =
      let here = get-key k xs x h in
      elim (Option-cases (get (t.key x) (batch due order limit xs))) [
        | inl e ↦ ground (arith, get-cleanup k)
        | inr (y, e) ↦
            let (found, dy) = batch-get (t.key x) y e in
            let same : some y ≡ some x = sym found ∙ (rw here h) in ground (arith, same)
      ]

  -- No row comes back, and a row that stays is unchanged.
  pub cleanup_only_deletes :
      (k : t.Key) (x : A) → get k (cleanup due order limit xs).0 ≡ some x → get k xs ≡ some x
  cleanup_only_deletes k x h = ground (arith, get-cleanup k)

  deleted_in_batch :
      (j : t.Key) (x : A)
      → get j xs ≡ some x
      → get j (cleanup due order limit xs).0 ≡ none
      → get j (batch due order limit xs) ≡ some x
  unfolding is_in
  deleted_in_batch j x hx gone =
      let here = get-key j xs x hx in
      elim (Option-cases (get j (batch due order limit xs))) [
        | inl e ↦ ground (arith, get-cleanup j, rw (← here) at e)
        | inr (y, e) ↦ e ∙ (sym (batch-get j y e).0 ∙ hx)
      ]

  kept_not_in_batch :
      (k : t.Key) (z : A)
      → get k (cleanup due order limit xs).0 ≡ some z
      → get k (batch due order limit xs) ≡ none
  unfolding is_in
  kept_not_in_batch k z hz =
      let here = get-key k xs z (cleanup_only_deletes k z hz) in
      elim (Option-cases (get k (batch due order limit xs))) [
        | inl e ↦ e
        | inr (y, e) ↦ ground (arith, get-cleanup k, cleanup_only_deletes k z hz, rw (← here) at e)
      ]

  -- What is deleted was due, and no due row that stays is older.
  pub cleanup_oldest_first :
      (j k : t.Key) (x z : A)
      → get j xs ≡ some x
      → get j (cleanup due order limit xs).0 ≡ none
      → get k (cleanup due order limit xs).0 ≡ some z
      → due z ≡ true
      → (due x ≡ true) × (order x ≤ order z)
  unfolding batch
  cleanup_oldest_first j k x z hx gone hz dz =
      let sorted = sort_by order (select due xs) in
      let above = deleted_in_batch j x hx gone in
      let lookups = (sort_by_lookups order (select due xs) (Unique-select due xs u)).1 in
      let below : get k (drop limit sorted) ≡ some z = ground (
        arith,
        get-drop limit k sorted (kept_not_in_batch k z hz),
        lookups k,
        get-select due k xs u,
        cleanup_only_deletes k z hz,
      ) in
      (
        (batch-get j x above).1,
        cut_is_oldest order limit j k sorted x z (sort_by-IsSorted order (select due xs)) above
            below,
      )

  get_beyond : (n : ℕ) (k : t.Key) (ys : List A) → length ys ≤ n → get k (drop n ys) ≡ none
  unfolding get
  get_beyond zero k [] h = refl
  get_beyond zero k (y ∷ ys) h = absurd (omega arith)
  get_beyond (suc n) k [] h = refl
  get_beyond (suc n) k (y ∷ ys) h = get_beyond n k ys (omega arith)

  -- A deletion below its limit leaves no row that is due.
  pub cleanup_drains :
      (cleanup due order limit xs).1 < limit
      → (k : t.Key) (z : A) → get k (cleanup due order limit xs).0 ≡ some z
      → due z ≡ false
  unfolding batch
  cleanup_drains few k z hz =
      let sorted = sort_by order (select due xs) in
      let lookups = (sort_by_lookups order (select due xs) (Unique-select due xs u)).1 in
      let short : length sorted ≤ limit =
        omega (arith, cleanup-count, length-sort_by order (select due xs), length-select due xs) in
      ground (
        arith,
        get-drop limit k sorted (kept_not_in_batch k z hz),
        get_beyond limit k sorted short,
        lookups k,
        get-select due k xs u,
        cleanup_only_deletes k z hz,
      )

  -- A row that is looked up afterwards is there still, or was due.
  pub cleanup_cases :
      (k : t.Key) (x : A)
      → get k xs ≡ some x
      → (get k (cleanup due order limit xs).0 ≡ some x)
        ⊎ ((get k (cleanup due order limit xs).0 ≡ none) × (due x ≡ true))
  cleanup_cases k x h = elim (Option-cases (get k (cleanup due order limit xs).0)) [
    | inl e ↦ inr (e, (batch-get k x (deleted_in_batch k x h e)).1)
    | inr (y, e) ↦ inl (e ∙ (sym (cleanup_only_deletes k y e) ∙ h))
  ]

  pub cleanup_absent : (k : t.Key) → get k xs ≡ none → get k (cleanup due order limit xs).0 ≡ none
  cleanup_absent k h = ground (arith, get-cleanup k)
