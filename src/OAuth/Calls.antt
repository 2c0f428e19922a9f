-- ===== src/OAuth/Calls.antt =====
-- What the calls of the authorization server do to its tables.
use complicatedauth_backend.Prelude.{
  ℕ, ◌≡◌, refl, String, str_eq, Bool, ◌&&◌, List, arith, inl, inr, Bool-cases, Option-cases, ◌==◌,
  subst,
}
use complicatedauth_backend.Prelude.Bytes.{bytes_eq}
use complicatedauth_backend.Table.{find, update}
use complicatedauth_backend.Db.{ok, Outcome, done, rejected, lost, transact_cases}
use complicatedauth_backend.OAuth.Tables.{code_keyed, token_keyed, Registry, Tables}
use complicatedauth_backend.OAuth.Client.{
  Reply, refuses, returns, Body, Client, ClientCall, parse_oauth_form, single_form_value,
  authenticate_oauth_client,
}
use complicatedauth_backend.OAuth.Exchange.{
  Env, ExchangeCall, TokenAnswer, Refusal, oauth_token, answer_form, exchange_for,
}
use complicatedauth_backend.OAuth.Access.{
  Principal, is_own, oauth_revoke, revoke_for, attempt, revoke_token, revoke_oauth_consent,
  revoke_consent_body, is_of_consent, revocation_failed,
}
use complicatedauth_backend.OAuth.Changes.{
  Changed, kept, revoked_where, authenticate_keeps, authenticate-Changed,
}
use complicatedauth_backend.OAuth.Exchanges.{
  Exchanged, redeem-Changed, redeem-returns, authenticate-Exchanged,
}

-- A parsed form, or the refusal of one that is not.
parse_cases {ℓ} :
    (P : Reply (List (String × List String)) → Type ℓ) (r : Reply (List (String × List String)))
    → ((status : ℕ) (code : String) → P (refuses status code))
    → ((form : List (String × List String)) → P (returns form))
    → P r
parse_cases P (refuses status code) a b = a status code
parse_cases P (returns form) a b = b form

module _ (env : Env) (reg : Registry) where
  exchange_for-Changed :
      (call : ExchangeCall) (form : List (String × List String)) (a : Reply Client) (t : Tables)
      → Changed t (exchange_for env call reg form a t).1
  unfolding exchange_for
  exchange_for-Changed call form (refuses status code) t = kept refl refl
  exchange_for-Changed call form (returns client) t =
      redeem-Changed env call reg client (single_form_value form "code")
        (single_form_value form "redirect_uri") (single_form_value form "code_verifier") t

  answer_form-Changed :
      (call : ExchangeCall) (form : List (String × List String)) (t : Tables)
      → Changed t (answer_form env call reg form t).1
  unfolding answer_form
  answer_form-Changed call form t =
      elim (Bool-cases (str_eq (single_form_value form "grant_type") "authorization_code")) [
        | inr other ↦ kept (ground arith) (ground arith)
        | inl same ↦
            let (client, t') = authenticate_oauth_client call.client reg form t in
            rw same (
              authenticate-Changed t t' (exchange_for env call reg form client t').1
                (authenticate_keeps call.client reg form t)
                (exchange_for-Changed call form client t'))
      ]

  pub oauth_token-Changed :
      (call : ExchangeCall) (body : Body) (t : Tables)
      → Changed t (oauth_token env call reg body t).1
  unfolding oauth_token
  oauth_token-Changed call body t =
      parse_cases
        (λ r.
          Changed t
            (elim r as (λ x. Reply TokenAnswer × Tables) [
              | refuses status code ↦ (refuses status code, t)
              | returns form ↦ answer_form env call reg form t
            ]).1)
        (parse_oauth_form body) (λ status code. kept refl refl)
        (λ form. answer_form-Changed call form t)

  -- A token request that succeeds is an exchange for its client.
  pub record Answered (call : ExchangeCall) (form : List (String × List String)) (t new : Tables)
      (answer : TokenAnswer) : Type 0 where
    pub client : Client
    pub authenticated : (authenticate_oauth_client call.client reg form t).0 ≡ returns client
    pub exchange :
        Exchanged env call reg client
          (single_form_value form "code")
          (single_form_value form "redirect_uri")
          (single_form_value form "code_verifier")
          t
          new
          answer

  exchange_for-returns :
      (call : ExchangeCall) (form : List (String × List String)) (a : Reply Client) (t : Tables)
      (answer : TokenAnswer)
      → (exchange_for env call reg form a t).0 ≡ returns answer
      → (client : Client) × (a ≡ returns client)
        × Exchanged env call reg client
            (single_form_value form "code")
            (single_form_value form "redirect_uri")
            (single_form_value form "code_verifier")
            t
            (exchange_for env call reg form a t).1
            answer
  unfolding exchange_for
  exchange_for-returns call form (refuses status code) t answer h = absurd (ground arith)
  exchange_for-returns call form (returns client) t answer h =
      (client, refl, redeem-returns env call reg client _ _ _ t answer h)

  pub oauth_token-returns :
      (call : ExchangeCall) (body : Body) (form : List (String × List String)) (t : Tables)
      (answer : TokenAnswer)
      → parse_oauth_form body ≡ returns form
      → (oauth_token env call reg body t).0 ≡ returns answer
      → Answered call form t (oauth_token env call reg body t).1 answer
  unfolding oauth_token answer_form
  oauth_token-returns call body form t answer p h =
      elim (Bool-cases (str_eq (single_form_value form "grant_type") "authorization_code")) [
        | inr other ↦ absurd (ground arith)
        | inl same ↦
            let (client, t') = authenticate_oauth_client call.client reg form t in
            let run : oauth_token env call reg body t ≡ exchange_for env call reg form client t' =
              ground arith in
            let (c, q, x) = exchange_for-returns call form client t' answer (rw run at h) in
            rw run (record {
              client = c;
              authenticated = q;
              exchange =
                  authenticate-Exchanged env call reg c (single_form_value form "code")
                    (single_form_value form "redirect_uri") (single_form_value form "code_verifier")
                    t t' (exchange_for env call reg form client t').1 answer
                    (authenticate_keeps call.client reg form t) x;
            })
      ]

  revoke_for-Changed :
      (exec : Outcome) (now : ℕ) (token : String) (a : Reply Client) (t : Tables)
      → Changed t (revoke_for env exec now token a t).1
  unfolding revoke_for
  revoke_for-Changed exec now token (refuses status code) t = kept refl refl
  revoke_for-Changed exec now token (returns c) t = elim (Bool-cases (str_eq token "")) [
    | inl empty ↦ kept (ground arith) (ground arith)
    | inr named ↦ subst (λ t'. Changed t t') (ground arith) (by_outcome exec)
  ]
    where
      by_outcome :
          (o : Outcome)
          → Changed t (
              attempt o
                (record t {
                  tokens =
                      update
                        (λ x.
                          x.application_uid == c.uid
                          && bytes_eq x.token_hash (env.session_hash token))
                        (revoke_token now)
                        t.tokens;
                })
                t)
      by_outcome done = revoked_where _ now refl refl
      by_outcome rejected = kept refl refl
      by_outcome lost = revoked_where _ now refl refl

  pub oauth_revoke-Changed :
      (call : ClientCall) (exec : Outcome) (now : ℕ) (body : Body) (t : Tables)
      → Changed t (oauth_revoke env call exec now reg body t).1
  unfolding oauth_revoke
  oauth_revoke-Changed call exec now body t =
      parse_cases
        (λ r.
          Changed t
            (elim r as (λ x. Reply (Unit {0}) × Tables) [
              | refuses status code ↦ (refuses status code, t)
              | returns form ↦
                  let (client, t') = authenticate_oauth_client call reg form t in
                  revoke_for env exec now (single_form_value form "token") client t'
            ]).1)
        (parse_oauth_form body) (λ status code. kept refl refl)
        (λ form.
          let (client, t') = authenticate_oauth_client call reg form t in
          authenticate-Changed t t'
            (revoke_for env exec now (single_form_value form "token") client t').1
            (authenticate_keeps call reg form t)
            (revoke_for-Changed exec now (single_form_value form "token") client t'))

pub revoke_oauth_consent-Changed :
    (b c f a : Bool) (commit : Outcome) (p : Principal) (uid now : ℕ) (t : Tables)
    → Changed t (revoke_oauth_consent b c f a commit p uid now t).1
unfolding revoke_oauth_consent
revoke_oauth_consent-Changed b c f a commit p uid now t =
    transact_cases (λ t'. Changed t t') b revocation_failed commit
      (revoke_consent_body c f a p uid now t) t (kept refl refl) (λ new u e h. by_body new u e h)
  where
    by_body :
        (new : Tables) (u : Unit {0}) (e : Refusal)
        → revoke_consent_body c f a p uid now t ≡ ok (new, u, e)
        → Changed t new
    by_body new u e h = elim (Option-cases (find (is_own p uid) t.consents)) [
      | inl absent ↦ absurd (unfold revoke_consent_body in ground arith)
      | inr (row, found) ↦
          revoked_where (is_of_consent p row) now (unfold revoke_consent_body in ground arith)
            (unfold revoke_consent_body in ground arith)
    ]
