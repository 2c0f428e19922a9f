-- ===== src/OAuth/Verifiable.antt =====
-- Tokens stay verifiable while signing keys rotate.
use complicatedauth_backend.Prelude.{
  ℕ, ◌+◌, ◌*◌, ◌≤◌, ◌<◌, ◌≡◌, refl, String, str_eq, eq_iff, true, false, ◌&&◌, ◌||◌, List, [], ◌∷◌,
  ◌++◌, none, some, ltb, ◌==◌, arith, inl, inr, ◌⊎◌, ◌∙◌, subst, All, All-imp, Bool-cases,
  Option-cases,
}
use complicatedauth_backend.Prelude.Int.{ℤ}
use complicatedauth_backend.Table.{get, find, exists, select}
use complicatedauth_backend.Table.Laws.{get-update, get-append}
use complicatedauth_backend.Db.{ok, result_cases, transact_cases}
use complicatedauth_backend.Duration.{minute}
use complicatedauth_backend.Keyring.{seal}
use complicatedauth_backend.OAuth.Exchange.{duration_or}
use complicatedauth_backend.OAuth.Signing.{
  active, retiring, retired, SigningKey, signing_key_keyed, is_active, is_retiring, KeyConfig,
  KeyCall, key_max_age, publication_window, retire, is_over, expire, insert_oauth_signing_key,
  install, ensure_body, ensure_oauth_signing_key, ensure_all, is_published, insert_newest,
  newest_first, jwks_of, oauth_jwks,
}

-- A key that is published until a deadline at least.
abbrev IsKept : ℕ → SigningKey → Type 0
IsKept deadline k =
    (k.status ≡ active)
    ⊎ ((k.status ≡ retiring) × (until : ℕ) × (k.publish_until ≡ some until) × (deadline ≤ until))

abbrev Keeps : ℕ → ℕ → String → List SigningKey → Type 0
Keeps deadline uid jwk t =
    (k : SigningKey) × (get uid t ≡ some k) × (k.public_jwk ≡ jwk) × IsKept deadline k

window_covers : (ttl : ℤ) → duration_or ttl (10 * minute) ≤ publication_window ttl
unfolding duration_or publication_window
window_covers ttl = ground arith

retire-Keeps :
    (deadline uid until other : ℕ) (jwk : String) (t : List SigningKey)
    → deadline ≤ until
    → Keeps deadline uid jwk t
    → Keeps deadline uid jwk (retire other until t)
unfolding retire
retire-Keeps deadline uid until other jwk t long (k, found, same, kept) =
    let seen =
      get-update (λ k. k.uid == other && is_active k.status)
        (λ k. record k { status = retiring; publish_until = some until }) uid t (λ y. refl) in
    elim (Bool-cases (k.uid == other && is_active k.status)) [
      | inl hit ↦ (
        record k { status = retiring; publish_until = some until },
        ground (arith, seen),
        same,
        inr (refl, until, refl, long),
      )
      | inr miss ↦ (k, ground (arith, seen), same, kept)
    ]

not_over :
    (deadline now : ℕ) (k : SigningKey)
    → now < deadline
    → IsKept deadline k
    → (is_retiring k.status && is_over now k.publish_until) ≡ false
not_over deadline now k early (inl e) = rw e refl
not_over deadline now k early (inr (e, until, set, long)) = rw (e, set) (ground arith)

shown :
    (deadline now : ℕ) (k : SigningKey)
    → now < deadline
    → IsKept deadline k
    → is_published now k ≡ true
shown deadline now k early (inl e) = rw e refl
shown deadline now k early (inr (e, until, set, long)) = rw (e, set) (ground arith)

expire-Keeps :
    (deadline uid now : ℕ) (jwk : String) (t : List SigningKey)
    → now < deadline
    → Keeps deadline uid jwk t
    → Keeps deadline uid jwk (expire now t)
unfolding expire
expire-Keeps deadline uid now jwk t early (k, found, same, kept) =
    let seen =
      get-update (λ k. is_retiring k.status && is_over now k.publish_until)
        (λ k. record k { status = retired; retired_at = some now }) uid t (λ y. refl) in
    let miss = not_over deadline now k early kept in (k, ground (arith, seen), same, kept)

append-Keeps :
    (deadline uid : ℕ) (jwk : String) (t more : List SigningKey)
    → Keeps deadline uid jwk t
    → Keeps deadline uid jwk (t ++ more)
append-Keeps deadline uid jwk t more (k, found, same, kept) =
    (k, ground (arith, get-append uid t more), same, kept)

insert-appends :
    (config : KeyConfig) (call : KeyCall) (t new : List SigningKey)
    → insert_oauth_signing_key config call t ≡ ok new
    → (row : SigningKey) × (new ≡ t ++ row ∷ [])
unfolding insert_oauth_signing_key
insert-appends config call t new h = elim (Option-cases call.new_key) [
  | inl failed ↦ absurd (ground arith)
  | inr (key, drawn) ↦
      elim (result_cases
        (seal config.crypto config.keyring call.nonce key.private_der (config.context key.uid))) [
          | inl (e, failed) ↦ absurd (ground arith)
          | inr (value, sealed) ↦ (
            record {
              uid = key.uid;
              kid = key.kid;
              status = active;
              public_jwk = key.public_json;
              private_key = value;
              created_at = call.now;
              publish_until = none;
              retired_at = none;
            },
            ground arith,
          )
        ]
]

module _ (config : KeyConfig) (deadline uid : ℕ) (jwk : String) where
  install-Keeps :
      (call : KeyCall) (t new : List SigningKey) (u : Unit {0}) (e : String)
      → call.now < deadline
      → Keeps deadline uid jwk t
      → install config call t ≡ ok (new, u, e)
      → Keeps deadline uid jwk new
  unfolding install
  install-Keeps call t new u e early kept h =
      elim (result_cases (insert_oauth_signing_key config call t)) [
        | inl (e', failed) ↦ absurd (ground arith)
        | inr (t', inserted) ↦
            let (row, made) = insert-appends config call t t' inserted in
            let end : new ≡ expire call.now t' = ground arith in
            rw (end, made)
              (expire-Keeps deadline uid call.now jwk (t ++ row ∷ []) early
                (append-Keeps deadline uid jwk t (row ∷ []) kept))
      ]

  ensure-Keeps :
      (call : KeyCall) (t : List SigningKey)
      → call.now < deadline
      → deadline ≤ call.now + publication_window config.token_ttl
      → Keeps deadline uid jwk t
      → Keeps deadline uid jwk (ensure_oauth_signing_key config call t).1
  unfolding ensure_oauth_signing_key
  ensure-Keeps call t early long kept =
      transact_cases (Keeps deadline uid jwk) call.begin_fails
        "begin OAuth signing-key initialization" call.commit (ensure_body config call t) t kept
        (λ new u e h. by_body new u e h)
    where
      by_body :
          (new : List SigningKey) (u : Unit {0}) (e : String)
          → ensure_body config call t ≡ ok (new, u, e)
          → Keeps deadline uid jwk new
      by_body new u e h = elim (Option-cases (find (λ k. is_active k.status) t)) [
        | inl none_active ↦
            install-Keeps call t new u e early kept (unfold ensure_body in ground arith)
        | inr (k, found) ↦
            elim (Bool-cases (ltb call.now (k.created_at + key_max_age config.max_age))) [
              | inl young ↦
                  let same : t ≡ new = unfold ensure_body in ground arith in
                  subst (Keeps deadline uid jwk) same kept
              | inr old ↦
                  install-Keeps call
                    (retire k.uid (call.now + publication_window config.token_ttl) t) new u e early
                    (retire-Keeps deadline uid (call.now + publication_window config.token_ttl)
                      k.uid jwk t long kept)
                    (unfold ensure_body in ground arith)
            ]
      ]

  ensure_all-Keeps :
      (calls : List KeyCall) (t : List SigningKey)
      → All
          (λ call.
            (call.now < deadline) × (deadline ≤ call.now + publication_window config.token_ttl))
          calls
      → Keeps deadline uid jwk t
      → Keeps deadline uid jwk (ensure_all config calls t)
  unfolding ensure_all
  ensure_all-Keeps [] t times kept = kept
  ensure_all-Keeps (call ∷ calls) t times kept =
      ensure_all-Keeps calls (ensure_oauth_signing_key config call t).1 times.1
        (ensure-Keeps call t times.0.0 times.0.1 kept)

module _ (jwk : String) where
  jwks-insert_newest :
      (k : SigningKey) (ks : List SigningKey)
      → exists (λ x. str_eq x jwk) (jwks_of (insert_newest k ks))
        ≡ (str_eq k.public_jwk jwk || exists (λ x. str_eq x jwk) (jwks_of ks))
  unfolding insert_newest jwks_of exists
  jwks-insert_newest k [] = refl
  jwks-insert_newest k (x ∷ xs) = ground (arith, jwks-insert_newest k xs)

  jwks-newest_first :
      (ks : List SigningKey)
      → exists (λ x. str_eq x jwk) (jwks_of (newest_first ks))
        ≡ exists (λ x. str_eq x jwk) (jwks_of ks)
  unfolding newest_first jwks_of exists
  jwks-newest_first [] = refl
  jwks-newest_first (k ∷ ks) =
      ground (arith, jwks-insert_newest k (newest_first ks), jwks-newest_first ks)

  jwks-select :
      (now uid : ℕ) (t : List SigningKey) (k : SigningKey)
      → get uid t ≡ some k
      → is_published now k ≡ true
      → str_eq k.public_jwk jwk ≡ true
      → exists (λ x. str_eq x jwk) (jwks_of (select (is_published now) t)) ≡ true
  unfolding get select jwks_of exists
  jwks-select now uid [] k found shown same = absurd (ground arith)
  jwks-select now uid (x ∷ xs) k found shown same = elim (Bool-cases (x.uid == uid)) [
    | inl here ↦ let one : x ≡ k = ground arith in rw one (ground arith)
    | inr other ↦ ground (arith, jwks-select now uid xs k)
  ]

-- Tokens stay verifiable: the key that was active when a token was signed is published at every
-- moment before the token ends, whatever calls of ensureOAuthSigningKey, with whatever failures, are
-- made in between.
pub tokens_stay_verifiable :
    (config : KeyConfig) (t : List SigningKey) (k : SigningKey) (signed_at now : ℕ)
    (calls : List KeyCall)
    → get k.uid t ≡ some k
    → k.status ≡ active
    → All (λ call. (signed_at ≤ call.now) × (call.now ≤ now)) calls
    → now < signed_at + duration_or config.token_ttl (10 * minute)
    → exists (λ x. str_eq x k.public_jwk) (oauth_jwks now (ensure_all config calls t)) ≡ true
unfolding oauth_jwks
tokens_stay_verifiable config t k signed_at now calls found signs times early =
    let covers = window_covers config.token_ttl in
    let (k', found', same, kept) =
      ensure_all-Keeps config (signed_at + duration_or config.token_ttl (10 * minute)) k.uid
        k.public_jwk calls t
        (All-imp (λ call h. (omega (arith, h.0, h.1, early), omega (arith, h.0, h.1, covers))) calls
          times)
        (k, found, refl, inl signs) in
    jwks-newest_first k.public_jwk (select (is_published now) (ensure_all config calls t))
    ∙ jwks-select k.public_jwk now k.uid (ensure_all config calls t) k' found'
        (shown (signed_at + duration_or config.token_ttl (10 * minute)) now k' early kept)
        ((eq_iff k'.public_jwk k.public_jwk).1 same)
