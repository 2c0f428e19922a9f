-- ===== src/Cleanup/Order.antt =====
-- Sorting a table by a timestamp keeps its rows, and the rows below a cut are the oldest.
use complicatedauth_backend.Prelude.{
  ℕ, suc, zero, ◌≤◌, ◌≡◌, refl, subst, Bool, List, [], ◌∷◌, none, some, arith, min, if◌then◌else◌,
  Bool-cases, inl, inr, length, take, drop, All, All-imp, leb,
}
use complicatedauth_backend.Table.{Keyed, get, Unique, select, count}
use complicatedauth_backend.Table.Laws.{All-get}
use complicatedauth_backend.Cleanup.{insert_by, sort_by}

module _ {A : Type 0} (order : A → ℕ) where
  abbrev pub IsSorted : List A → Type 0
  IsSorted [] = Unit
  IsSorted (x ∷ xs) = All (λ y. order x ≤ order y) xs × IsSorted xs

  All-insert_by {ℓ} :
      (P : A → Type ℓ) (x : A) (ys : List A) → P x → All P ys → All P (insert_by order x ys)
  unfolding insert_by
  All-insert_by P x [] h k = (h, tt)
  All-insert_by P x (y ∷ ys) h k = elim (Bool-cases (leb (order x) (order y))) [
    | inl e ↦ rw e (h, k)
    | inr e ↦ rw e (k.0, All-insert_by P x ys h k.1)
  ]

  insert_by-IsSorted : (x : A) (ys : List A) → IsSorted ys → IsSorted (insert_by order x ys)
  unfolding insert_by
  insert_by-IsSorted x [] h = (tt, tt)
  insert_by-IsSorted x (y ∷ ys) h = elim (Bool-cases (leb (order x) (order y))) [
    | inl e ↦
        let below : order x ≤ order y = ground arith in
        rw e ((below, All-imp (λ z (le : order y ≤ order z). omega arith) ys h.0), h)
    | inr e ↦ rw e (
      All-insert_by (λ z. order y ≤ order z) x ys (ground arith) h.0,
      insert_by-IsSorted x ys h.1,
    )
  ]

  pub sort_by-IsSorted : (xs : List A) → IsSorted (sort_by order xs)
  unfolding sort_by
  sort_by-IsSorted [] = tt
  sort_by-IsSorted (x ∷ xs) = insert_by-IsSorted x (sort_by order xs) (sort_by-IsSorted xs)

  length-insert_by : (x : A) (ys : List A) → length (insert_by order x ys) ≡ suc (length ys)
  unfolding insert_by
  length-insert_by x [] = refl
  length-insert_by x (y ∷ ys) = ground (arith, length-insert_by x ys)

  pub length-sort_by : (xs : List A) → length (sort_by order xs) ≡ length xs
  unfolding sort_by
  length-sort_by [] = refl
  length-sort_by (x ∷ xs) = omega (arith, length-insert_by x (sort_by order xs), length-sort_by xs)

module _ {A : Type 0} where
  pub length-select : (p : A → Bool) (xs : List A) → length (select p xs) ≡ count p xs
  unfolding select count
  length-select p [] = refl
  length-select p (x ∷ xs) = ground (arith, length-select p xs)

  pub length-take : (n : ℕ) (xs : List A) → length (take n xs) ≡ min n (length xs)
  length-take zero xs = omega arith
  length-take (suc n) [] = omega arith
  length-take (suc n) (x ∷ xs) = omega (arith, length-take n xs)

module _ {A : Type 0} ⦃t : Keyed A⦄ where
  get-insert_by :
      (order : A → ℕ) (x : A) (k : t.Key) (ys : List A)
      → get (t.key x) ys ≡ none
      → get k (insert_by order x ys) ≡ (if t.same (t.key x) k then some x else get k ys)
  unfolding get insert_by
  get-insert_by order x k [] h = refl
  get-insert_by order x k (y ∷ ys) h = ground (
    arith,
    get-insert_by order x k ys,
    t.same_iff (t.key x) k,
    t.same_iff (t.key y) k,
    t.same_iff (t.key y) (t.key x),
  )

  Unique-insert_by :
      (order : A → ℕ) (x : A) (ys : List A)
      → get (t.key x) ys ≡ none
      → Unique ys
      → Unique (insert_by order x ys)
  unfolding get insert_by
  Unique-insert_by order x [] h u = (h, tt)
  Unique-insert_by order x (y ∷ ys) h u = elim (Bool-cases (leb (order x) (order y))) [
    | inl e ↦ rw e (h, u)
    | inr e ↦ rw e (
      ground (
        arith,
        get-insert_by order x (t.key y) ys,
        t.same_iff (t.key x) (t.key y),
        t.same_iff (t.key y) (t.key x),
      ),
      Unique-insert_by order x ys (ground arith) u.1,
    )
  ]

  -- With unique keys sorting changes no lookup.
  pub sort_by_lookups :
      (order : A → ℕ) (xs : List A)
      → Unique xs
      → Unique (sort_by order xs) × ((k : t.Key) → get k (sort_by order xs) ≡ get k xs)
  unfolding get sort_by
  sort_by_lookups order [] u = (tt, λ k. refl)
  sort_by_lookups order (x ∷ xs) u =
      let (unique, same) = sort_by_lookups order xs u.1 in
      let h : get (t.key x) (sort_by order xs) ≡ none = rw (same (t.key x)) u.0 in
      (
        Unique-insert_by order x (sort_by order xs) h unique,
        λ k. ground (arith, get-insert_by order x k (sort_by order xs), h, same k),
      )

  get-select_absent :
      (p : A → Bool) (k : t.Key) (xs : List A) → get k xs ≡ none → get k (select p xs) ≡ none
  unfolding get select
  get-select_absent p k [] h = refl
  get-select_absent p k (x ∷ xs) h = ground (arith, get-select_absent p k xs)

  pub get-select :
      (p : A → Bool) (k : t.Key) (xs : List A)
      → Unique xs
      → get k (select p xs)
        ≡ elim (get k xs) [ none ↦ none | some x ↦ if p x then some x else none ]
  unfolding get select
  get-select p k [] u = refl
  get-select p k (x ∷ xs) u = elim (Bool-cases (t.same (t.key x) k)) [
    | inl s ↦
        let e : t.key x ≡ k = (t.same_iff _ _).0 s in
        ground (arith, get-select_absent p k xs (rw (← e) u.0))
    | inr s ↦ ground (arith, get-select p k xs u.1)
  ]

  pub Unique-select : (p : A → Bool) (xs : List A) → Unique xs → Unique (select p xs)
  unfolding select
  Unique-select p [] u = tt
  Unique-select p (x ∷ xs) u = elim (Bool-cases (p x)) [
    | inl e ↦ rw e (get-select_absent p (t.key x) xs u.0, Unique-select p xs u.1)
    | inr e ↦ rw e (Unique-select p xs u.1)
  ]

  -- A row of the first n is found in the whole list, and a row beyond them in the rest.
  pub get-take :
      (n : ℕ) (k : t.Key) (xs : List A) (x : A) → get k (take n xs) ≡ some x → get k xs ≡ some x
  unfolding get
  get-take zero k xs x h = cc
  get-take (suc n) k [] x h = h
  get-take (suc n) k (y ∷ xs) x h = ground (arith, get-take n k xs x)

  pub get-drop :
      (n : ℕ) (k : t.Key) (xs : List A) → get k (take n xs) ≡ none → get k (drop n xs) ≡ get k xs
  unfolding get
  get-drop zero k xs h = refl
  get-drop (suc n) k [] h = refl
  get-drop (suc n) k (y ∷ xs) h = ground (arith, get-drop n k xs)

  pub Unique-take : (n : ℕ) (xs : List A) → Unique xs → Unique (take n xs)
  unfolding get
  Unique-take zero xs u = tt
  Unique-take (suc n) [] u = tt
  Unique-take (suc n) (x ∷ xs) u = (get-take_absent n xs u.0, Unique-take n xs u.1)
    where
      get-take_absent :
          (n : ℕ) (xs : List A) → get (t.key x) xs ≡ none → get (t.key x) (take n xs) ≡ none
      get-take_absent zero xs h = refl
      get-take_absent (suc n) [] h = refl
      get-take_absent (suc n) (y ∷ xs) h = ground (arith, get-take_absent n xs)

  All-drop {ℓ} : (P : A → Type ℓ) (n : ℕ) (xs : List A) → All P xs → All P (drop n xs)
  All-drop P zero xs h = h
  All-drop P (suc n) [] h = tt
  All-drop P (suc n) (x ∷ xs) h = All-drop P n xs h.1

  -- In a sorted list a row above the cut is no younger than a row below it.
  pub cut_is_oldest :
      (order : A → ℕ) (n : ℕ) (j k : t.Key) (xs : List A) (x z : A)
      → IsSorted order xs
      → get j (take n xs) ≡ some x
      → get k (drop n xs) ≡ some z
      → order x ≤ order z
  unfolding get
  cut_is_oldest order zero j k xs x z s h e = cc
  cut_is_oldest order (suc n) j k [] x z s h e = cc
  cut_is_oldest order (suc n) j k (y ∷ xs) x z s h e = elim (Bool-cases (t.same (t.key y) j)) [
    | inl hit ↦
        let first : y ≡ x = ground arith in
        let below : order y ≤ order z =
          All-get (λ w. order y ≤ order w) k (drop n xs) z
            (All-drop (λ w. order y ≤ order w) n xs s.0) e in
        subst (λ w. order w ≤ order z) first below
    | inr miss ↦ cut_is_oldest order n j k xs x z s.1 (ground arith) e
  ]
