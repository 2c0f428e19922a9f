-- ===== src/Table/Laws.antt =====
-- What the statements on a table do to the rows that another statement reads.
use complicatedauth_backend.Prelude.{
  ◌+◌, ◌≡◌, refl, subst, Bool, true, false, List, [], ◌∷◌, ◌++◌, none, some, arith, if◌then◌else◌,
  Bool-cases, Option-cases, inl, inr, length, All,
}
use complicatedauth_backend.Table.{exists, Keyed, get, insert, Unique, update, delete, count}
use mathlib.Core.Option

module _ {A : Type 0} where
  -- A predicate that an update gives back holds of every row after it.
  pub All-update {ℓ} :
      (P : A → Type ℓ) (p : A → Bool) (f : A → A) (xs : List A)
      → ((x : A) → p x ≡ true → P x → P (f x))
      → All P xs
      → All P (update p f xs)
  unfolding update
  All-update P p f [] keep h = tt
  All-update P p f (x ∷ xs) keep h = (
    elim (Bool-cases (p x)) [ inl e ↦ rw e (keep x e h.0) | inr e ↦ rw e h.0 ],
    All-update P p f xs keep h.1,
  )

  -- The same, from one predicate to another.
  pub All-update_to {ℓ κ} :
      (P : A → Type ℓ) (Q : A → Type κ) (p : A → Bool) (f : A → A) (xs : List A)
      → ((x : A) → p x ≡ true → P x → Q (f x))
      → ((x : A) → p x ≡ false → P x → Q x)
      → All P xs
      → All Q (update p f xs)
  unfolding update
  All-update_to P Q p f [] hit miss h = tt
  All-update_to P Q p f (x ∷ xs) hit miss h = (
    elim (Bool-cases (p x)) [ inl e ↦ rw e (hit x e h.0) | inr e ↦ rw e (miss x e h.0) ],
    All-update_to P Q p f xs hit miss h.1,
  )

  pub All-and {ℓ κ} :
      (P : A → Type ℓ) (Q : A → Type κ) (xs : List A)
      → All P xs
      → All Q xs
      → All (λ x. P x × Q x) xs
  All-and P Q [] h k = tt
  All-and P Q (x ∷ xs) h k = ((h.0, k.0), All-and P Q xs h.1 k.1)

  pub All-delete {ℓ} :
      (P : A → Type ℓ) (p : A → Bool) (xs : List A) → All P xs → All P (delete p xs)
  unfolding delete
  All-delete P p [] h = tt
  All-delete P p (x ∷ xs) h = elim (Bool-cases (p x)) [
    | inl e ↦ rw e (All-delete P p xs h.1)
    | inr e ↦ rw e (h.0, All-delete P p xs h.1)
  ]

  pub All-append {ℓ} : (P : A → Type ℓ) (xs ys : List A) → All P xs → All P ys → All P (xs ++ ys)
  All-append P [] ys h k = k
  All-append P (x ∷ xs) ys h k = (h.0, All-append P xs ys h.1 k)

  pub length-delete : (p : A → Bool) (xs : List A) → length (delete p xs) + count p xs ≡ length xs
  unfolding delete count
  length-delete p [] = omega arith
  length-delete p (x ∷ xs) = ground (arith, length-delete p xs)

module _ {A : Type 0} ⦃t : Keyed A⦄ where
  pub get-key : (k : t.Key) (xs : List A) (x : A) → get k xs ≡ some x → t.key x ≡ k
  unfolding get
  get-key k [] x h = cc
  get-key k (y ∷ xs) x h = ground (arith, t.same_iff (t.key y) k, get-key k xs x)

  pub All-get {ℓ} :
      (P : A → Type ℓ) (k : t.Key) (xs : List A) (x : A) → All P xs → get k xs ≡ some x → P x
  unfolding get
  All-get P k [] x h e = cc
  All-get P k (y ∷ xs) x h e = elim (Bool-cases (t.same (t.key y) k)) [
    | inl s ↦ subst P (ground arith) h.0
    | inr s ↦ All-get P k xs x h.1 (ground arith)
  ]

  -- An update that keeps keys is seen through the key.
  pub get-update :
      (p : A → Bool) (f : A → A) (k : t.Key) (xs : List A)
      → ((x : A) → t.key (f x) ≡ t.key x)
      → get k (update p f xs) ≡ Option.map (λ x. if p x then f x else x) (get k xs)
  unfolding get update
  get-update p f k [] same = refl
  get-update p f k (x ∷ xs) same = ground (arith, same x, get-update p f k xs same)

  pub Unique-update :
      (p : A → Bool) (f : A → A) (xs : List A)
      → ((x : A) → t.key (f x) ≡ t.key x)
      → Unique xs
      → Unique (update p f xs)
  unfolding update
  Unique-update p f [] same u = tt
  Unique-update p f (x ∷ xs) same u =
      let e : t.key (if p x then f x else x) ≡ t.key x = ground (arith, same x) in
      (rw (e, get-update p f (t.key x) xs same, u.0), Unique-update p f xs same u.1)

  count-absent :
      (p : A → Bool) (k : t.Key) (xs : List A)
      → ((x : A) → p x ≡ true → t.key x ≡ k)
      → get k xs ≡ none
      → count p xs ≡ 0
  unfolding count get
  count-absent p k [] only h = refl
  count-absent p k (x ∷ xs) only h =
      ground (arith, only x, t.same_iff (t.key x) k, count-absent p k xs only)

  -- A WHERE clause that names the key selects one row at most.
  pub count-get :
      (p : A → Bool) (k : t.Key) (xs : List A)
      → ((x : A) → p x ≡ true → t.key x ≡ k)
      → Unique xs
      → count p xs ≡ elim (get k xs) [ none ↦ 0 | some x ↦ if p x then 1 else 0 ]
  unfolding count get
  count-get p k [] only u = refl
  count-get p k (x ∷ xs) only u = elim (Bool-cases (t.same (t.key x) k)) [
    | inl s ↦
        let e : t.key x ≡ k = (t.same_iff _ _).0 s in
        ground (arith, count-absent p k xs only (rw (← e) u.0))
    | inr s ↦ ground (arith, only x, t.same_iff (t.key x) k, count-get p k xs only u.1)
  ]

  pub get-append :
      (k : t.Key) (xs ys : List A)
      → get k (xs ++ ys) ≡ elim (get k xs) [ none ↦ get k ys | some x ↦ some x ]
  unfolding get
  get-append k [] ys = refl
  get-append k (x ∷ xs) ys = ground (arith, get-append k xs ys)

  -- A new row is found under its key.
  pub get_appended :
      (xs : List A) (x : A) → get (t.key x) xs ≡ none → get (t.key x) (xs ++ x ∷ []) ≡ some x
  unfolding get
  get_appended xs x h =
      ground (arith, get-append (t.key x) xs (x ∷ []), t.same_iff (t.key x) (t.key x))

  -- A row that is inserted is found, and no other key is.
  pub get-insert :
      (x : A) (k : t.Key) (xs : List A)
      → get (t.key x) xs ≡ none
      → get k (insert x xs).0 ≡ (if t.same (t.key x) k then some x else get k xs)
  unfolding get insert
  get-insert x k xs h = elim (Bool-cases (t.same (t.key x) k)) [
    | inl s ↦
        let e : t.key x ≡ k = (t.same_iff _ _).0 s in
        ground (arith, h, get-append k xs (x ∷ []), rw e at h)
    | inr s ↦ ground (arith, h, get-append k xs (x ∷ []))
  ]

  Unique-append :
      (x : A) (xs : List A) → get (t.key x) xs ≡ none → Unique xs → Unique (xs ++ x ∷ [])
  unfolding get
  Unique-append x [] h u = (refl, tt)
  Unique-append x (y ∷ xs) h u = (
    ground (
      arith,
      get-append (t.key y) xs (x ∷ []),
      t.same_iff (t.key x) (t.key y),
      t.same_iff (t.key y) (t.key x),
    ),
    Unique-append x xs (ground arith) u.1,
  )

  pub Unique-insert : (x : A) (xs : List A) → Unique xs → Unique (insert x xs).0
  unfolding insert
  Unique-insert x xs u = elim (Option-cases (get (t.key x) xs)) [
    | inl e ↦ rw (e, insert) (Unique-append x xs e u)
    | inr (y, e) ↦ rw (e, insert) u
  ]

  get-delete_absent :
      (p : A → Bool) (k : t.Key) (xs : List A) → get k xs ≡ none → get k (delete p xs) ≡ none
  unfolding get delete
  get-delete_absent p k [] h = refl
  get-delete_absent p k (x ∷ xs) h = ground (arith, get-delete_absent p k xs)

  pub Unique-delete : (p : A → Bool) (xs : List A) → Unique xs → Unique (delete p xs)
  unfolding delete
  Unique-delete p [] u = tt
  Unique-delete p (x ∷ xs) u = elim (Bool-cases (p x)) [
    | inl e ↦ rw e (Unique-delete p xs u.1)
    | inr e ↦ rw e (get-delete_absent p (t.key x) xs u.0, Unique-delete p xs u.1)
  ]

  -- With unique keys a key's row goes exactly if the WHERE clause selects it.
  pub get-delete :
      (p : A → Bool) (k : t.Key) (xs : List A)
      → Unique xs
      → get k (delete p xs)
        ≡ elim (get k xs) [ none ↦ none | some x ↦ if p x then none else some x ]
  unfolding get delete
  get-delete p k [] u = refl
  get-delete p k (x ∷ xs) u = elim (Bool-cases (t.same (t.key x) k)) [
    | inl s ↦
        let e : t.key x ≡ k = (t.same_iff _ _).0 s in
        ground (arith, get-delete_absent p k xs (rw (← e) u.0))
    | inr s ↦ ground (arith, get-delete p k xs u.1)
  ]

  pub exists-get :
      (p : A → Bool) (k : t.Key) (xs : List A) (x : A)
      → get k xs ≡ some x
      → p x ≡ true
      → exists p xs ≡ true
  unfolding get exists
  exists-get p k [] x h e = absurd (ground arith)
  exists-get p k (y ∷ xs) x h e = elim (Bool-cases (t.same (t.key y) k)) [
    | inl s ↦ ground arith
    | inr s ↦ ground (arith, exists-get p k xs x (ground arith) e)
  ]
