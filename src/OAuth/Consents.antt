-- ===== src/OAuth/Consents.antt =====
-- What a token request sees of revoked consents.
use complicatedauth_backend.Prelude.{
  ℕ, ◌≡◌, refl, ◌∙◌, sym, ap, Option, none, some, Bool, true, false, List, [], ◌∷◌, arith, inl, inr,
  String, Option-cases, ◌==◌, ◌||◌,
}
use complicatedauth_backend.Table.{get, update, exists, find}
use complicatedauth_backend.Table.Laws.{get-update}
use complicatedauth_backend.Cleanup.{is_some}
use complicatedauth_backend.Db.{
  Result, ok, err, Outcome, done, rejected, lost, transact, transact_cases,
}
use complicatedauth_backend.OAuth.Tables.{
  Member, Code, Subject, Token, token_keyed, Consent, Registry, Tables,
}
use complicatedauth_backend.OAuth.Client.{
  Reply, refuses, returns, Body, Client, ClientCall, parse_oauth_form, single_form_value,
  matching_secret, check_secret, authenticate_oauth_client,
}
use complicatedauth_backend.OAuth.Exchange.{
  Env, ExchangeCall, Refusal, unavailable, is_taken, access_claims, id_claims, token_row, issue,
  load_code, audience, redeem_body, redeem, exchange_for, answer_form, oauth_token,
}
use complicatedauth_backend.OAuth.Access.{
  Principal, same_option, revoked, revoke_row, is_own, is_of_consent, revoke_token,
  revoke_consent_body, revocation_failed, revoke_oauth_consent,
}
use complicatedauth_backend.OAuth.Changes.{authenticate_keeps}

exists-revoke :
    (p : Token → Bool) (now : ℕ) (row : Token) (xs : List Token)
    → exists (λ x. x.uid == row.uid || x.jti == row.jti) (update p (revoke_token now) xs)
      ≡ exists (λ x. x.uid == row.uid || x.jti == row.jti) xs
unfolding exists update
exists-revoke p now row [] = refl
exists-revoke p now row (x ∷ xs) = ground (arith, exists-revoke p now row xs)

-- Tables in which an exchange finds the same: tokens may differ in when they were revoked.
record Alike (t t' : Tables) : Type 0 where
  codes : t'.codes ≡ t.codes
  taken : (row : Token) → is_taken row t'.tokens ≡ is_taken row t.tokens

is_taken-revoke :
    (p : Token → Bool) (now : ℕ) (row : Token) (xs : List Token)
    → is_taken row (update p (revoke_token now) xs) ≡ is_taken row xs
unfolding is_taken
is_taken-revoke p now row xs = ground (
  arith,
  exists-revoke p now row xs,
  get-update p (revoke_token now) row.token_hash xs (λ x. refl),
)

-- What a transaction's statements answer, without the tables they leave.
abbrev answer_of :
    {A : Type 0} → Result Refusal (Tables × A × Refusal) → Result Refusal (A × Refusal)
answer_of (ok (t, a, e)) = ok (a, e)
answer_of (err e) = err e

module _ {A : Type 0} where
  transact_agrees :
      (b : Bool) (e : Refusal) (commit : Outcome) (x y : Result Refusal (Tables × A × Refusal))
      (t t' : Tables)
      → answer_of x ≡ answer_of y
      → (transact b e commit x t).0 ≡ (transact b e commit y t').0
  unfolding transact
  transact_agrees true e commit x y t t' h = refl
  transact_agrees false e commit (err x) (err y) t t' h = ground arith
  transact_agrees false e commit (err x) (ok y) t t' h = absurd (ground arith)
  transact_agrees false e commit (ok x) (err y) t t' h = absurd (ground arith)
  transact_agrees false e done (ok x) (ok y) t t' h = ground arith
  transact_agrees false e rejected (ok x) (ok y) t t' h = ground arith
  transact_agrees false e lost (ok x) (ok y) t t' h = ground arith

module _ (env : Env) (call : ExchangeCall) (reg : Registry) where
  issue-Alike :
      (client : Client) (c : Code) (s : Subject) (m : Member) (aud : String) (t t' : Tables)
      → Alike t t'
      → answer_of (issue env call client c s m aud t')
        ≡ answer_of (issue env call client c s m aud t)
  unfolding issue
  issue-Alike client c s m aud t t' a =
      elim (Option-cases (env.sign_access (access_claims env call client c s aud))) [
        | inl failed ↦ ground arith
        | inr (access_token, signed) ↦
            let same = a.taken (token_row env call c s access_token) in
            elim (Option-cases (env.sign_id (id_claims env call client c s m))) [
              | inl failed ↦ ground arith
              | inr (id_token, signed_id) ↦ ground arith
            ]
      ]

  redeem_body-Alike :
      (client : Client) (code redirect_uri verifier : String) (t t' : Tables)
      → Alike t t'
      → answer_of (redeem_body env call reg client code redirect_uri verifier t')
        ≡ answer_of (redeem_body env call reg client code redirect_uri verifier t)
  unfolding redeem_body
  redeem_body-Alike client code redirect_uri verifier t t' a =
      let same = a.codes in
      elim (Option-cases (load_code reg (env.session_hash code) t.codes)) [
        | inl absent ↦ ground arith
        | inr ((c, s, m), found) ↦ elim (Option-cases (audience env call reg c)) [
          | inl changed ↦ ground arith
          | inr (aud, known) ↦ let made = issue-Alike client c s m aud t t' a in ground arith
        ]
      ]

  redeem-Alike :
      (client : Client) (code redirect_uri verifier : String) (t t' : Tables)
      → Alike t t'
      → (redeem env call reg client code redirect_uri verifier t').0
        ≡ (redeem env call reg client code redirect_uri verifier t).0
  unfolding redeem
  redeem-Alike client code redirect_uri verifier t t' a =
      let same =
        transact_agrees call.begin_fails unavailable call.commit _ _ t' t
          (redeem_body-Alike client code redirect_uri verifier t t' a) in
      ground arith

authenticate_agrees :
    (call : ClientCall) (reg : Registry) (form : List (String × List String)) (t t' : Tables)
    → t'.secrets ≡ t.secrets
    → (authenticate_oauth_client call reg form t').0 ≡ (authenticate_oauth_client call reg form t).0
unfolding authenticate_oauth_client check_secret matching_secret
authenticate_agrees call reg form t t' same = ground arith

authenticate-Alike :
    (call : ClientCall) (reg : Registry) (form : List (String × List String)) (t t' : Tables)
    → Alike t t'
    → Alike
        (authenticate_oauth_client call reg form t).1
        (authenticate_oauth_client call reg form t').1
authenticate-Alike call reg form t t' a =
    let kept = authenticate_keeps call reg form t in
    let kept' = authenticate_keeps call reg form t' in
    record {
      codes = kept'.0 ∙ a.codes ∙ sym kept.0;
      taken = λ row. rw (kept.1, kept'.1) (a.taken row);
    }

module _ (env : Env) (call : ExchangeCall) (reg : Registry) where
  exchange_for-Alike :
      (form : List (String × List String)) (client : Reply Client) (t t' : Tables)
      → Alike t t'
      → (exchange_for env call reg form client t').0 ≡ (exchange_for env call reg form client t).0
  unfolding exchange_for
  exchange_for-Alike form (refuses status code) t t' a = refl
  exchange_for-Alike form (returns client) t t' a =
      redeem-Alike env call reg client (single_form_value form "code")
        (single_form_value form "redirect_uri") (single_form_value form "code_verifier") t t' a

  answer_form-Alike :
      (form : List (String × List String)) (t t' : Tables)
      → Alike t t'
      → t'.secrets ≡ t.secrets
      → (answer_form env call reg form t').0 ≡ (answer_form env call reg form t).0
  unfolding answer_form
  answer_form-Alike form t t' a same =
      let who = authenticate_agrees call.client reg form t t' same in
      let answer =
        exchange_for-Alike form (authenticate_oauth_client call.client reg form t).0 _ _
          (authenticate-Alike call.client reg form t t' a) in
      ground arith

  oauth_token-Alike :
      (body : Body) (t t' : Tables)
      → Alike t t'
      → t'.secrets ≡ t.secrets
      → (oauth_token env call reg body t').0 ≡ (oauth_token env call reg body t).0
  unfolding oauth_token
  oauth_token-Alike body t t' a same = by_form (parse_oauth_form body) refl
    where
      by_form :
          (r : Reply (List (String × List String)))
          → parse_oauth_form body ≡ r
          → (oauth_token env call reg body t').0 ≡ (oauth_token env call reg body t).0
      by_form (refuses status code) e = ground arith
      by_form (returns form) e = let answer = answer_form-Alike form t t' a same in ground arith

-- However the revocation of a consent ends, a token request is answered as if there had been none.
oauth_token-consent :
    (env : Env) (call : ExchangeCall) (reg : Registry) (body : Body) (b c f a : Bool)
    (commit : Outcome) (p : Principal) (uid now : ℕ) (t : Tables)
    → (oauth_token env call reg body (revoke_oauth_consent b c f a commit p uid now t).1).0
      ≡ (oauth_token env call reg body t).0
unfolding revoke_oauth_consent
oauth_token-consent env call reg body b c f a commit p uid now t =
    transact_cases
      (λ t'. (oauth_token env call reg body t').0 ≡ (oauth_token env call reg body t).0) b
      revocation_failed commit (revoke_consent_body c f a p uid now t) t refl
      (λ new u e h. elim (Option-cases (find (is_own p uid) t.consents)) [
        | inl absent ↦ absurd (unfold revoke_consent_body in ground arith)
        | inr (row, found) ↦
            let tokens : new.tokens ≡ update (is_of_consent p row) (revoke_token now) t.tokens =
              unfold revoke_consent_body in ground arith in
            oauth_token-Alike env call reg body t new
              (record {
                codes = unfold revoke_consent_body in ground arith;
                taken = λ x. rw tokens (is_taken-revoke (is_of_consent p row) now x t.tokens);
              })
              (unfold revoke_consent_body in ground arith)
      ])

-- What a revocation that is answered with success has done.
revoked_tables :
    (p : Principal) (uid now : ℕ) (t : Tables) (c : Consent)
    → find (is_own p uid) t.consents ≡ some c
    → revoke_oauth_consent false false false false done p uid now t ≡ (
      returns tt,
      record t {
        consents = update (is_own p uid) (revoke_row now) t.consents;
        tokens = update (is_of_consent p c) (revoke_token now) t.tokens;
      },
    )
unfolding revoke_oauth_consent transact
revoked_tables p uid now t c found = unfold revoke_consent_body in ground arith

same_option_refl : (o : Option ℕ) → same_option o o ≡ true
same_option_refl none = refl
same_option_refl (some x) = ground arith

-- Revoking a consent takes the tokens issued under it away, but not the codes: if a member's consent
-- is found and no statement fails, the revocation succeeds and each token of that member and
-- application for the consent's resource server is revoked afterwards, while a token request is
-- answered as if the consent had not been revoked, so a code issued under it is still redeemed.
pub consent_revocation_ignores_codes :
    (env : Env) (call : ExchangeCall) (reg : Registry) (body : Body) (p : Principal) (uid now : ℕ)
    (t : Tables) (c : Consent) (h : List ℕ) (x : Token)
    → find (is_own p uid) t.consents ≡ some c
    → get h t.tokens ≡ some x
    → x.member_uid ≡ p.member_uid
    → x.application_uid ≡ c.application_uid
    → x.resource_server_uid ≡ c.resource_server_uid
    → ((revoke_oauth_consent false false false false done p uid now t).0 ≡ returns tt)
      × ((x' : Token) × (get h
              (revoke_oauth_consent false false false false done p uid now t).1.tokens
            ≡ some x')
          × (is_some x'.revoked_at ≡ true))
      × ((oauth_token env call reg body
            (revoke_oauth_consent false false false false done p uid now t).1).0
          ≡ (oauth_token env call reg body t).0)
consent_revocation_ignores_codes env call reg body p uid now t c h x found here member app server =
    (
      ap (λ (y : Reply (Unit {0}) × Tables). y.0) made,
      (
        revoke_token now x,
        ap (λ (y : Reply (Unit {0}) × Tables). get h y.1.tokens) made
            ∙ ground (
              arith,
              get-update (is_of_consent p c) (revoke_token now) h t.tokens (λ y. refl),
              same_option_refl c.resource_server_uid,
            ),
        is_revoked x.revoked_at,
      ),
      oauth_token-consent env call reg body false false false false done p uid now t,
    )
  where
    made : revoke_oauth_consent false false false false done p uid now t ≡ (
      returns tt,
      record t {
        consents = update (is_own p uid) (revoke_row now) t.consents;
        tokens = update (is_of_consent p c) (revoke_token now) t.tokens;
      },
    )
    made = revoked_tables p uid now t c found

    is_revoked : (o : Option ℕ) → is_some (revoked o now) ≡ true
    is_revoked none = refl
    is_revoked (some y) = refl
