-- ===== src/OAuth/Exchanges.antt =====
-- The transaction of the token endpoint: what a successful exchange has found and done.
use complicatedauth_backend.Prelude.{
  ◌≡◌, refl, String, str_eq, true, not, ◌||◌, [], ◌∷◌, ◌++◌, none, some, arith, inl, inr,
  Bool-cases, Option-cases, subst,
}
use complicatedauth_backend.Table.{get, update}
use complicatedauth_backend.Db.{Result, ok, err, transact, transact_cases, transact-eq-ok}
use complicatedauth_backend.OAuth.Tables.{
  Member, Code, code_keyed, token_keyed, Subject, Registry, Tables,
}
use complicatedauth_backend.OAuth.Client.{returns, Client}
use complicatedauth_backend.OAuth.Exchange.{
  Env, ExchangeCall, TokenAnswer, Refusal, load_code, is_redeemable, audience, issue, redeem_body,
  redeem, is_verifier, is_taken, access_claims, id_claims, is_open, consume, token_row, unavailable,
}
use complicatedauth_backend.OAuth.Changes.{Changed, kept, exchanged}

module _ (env : Env) (call : ExchangeCall) (reg : Registry) (client : Client) where
  -- What a successful exchange has found and done.
  pub record Exchanged (code redirect_uri verifier : String) (t new : Tables) (answer : TokenAnswer)
      : Type 0 where
    pub c : Code
    pub s : Subject
    pub m : Member
    pub aud : String
    pub found : load_code reg (env.session_hash code) t.codes ≡ some (c, s, m)
    pub allowed :
        is_redeemable client redirect_uri (env.challenge_of verifier) call.checked_at c m ≡ true
    pub audience_found : audience env call reg c ≡ some aud
    pub fresh : get (env.session_hash answer.access_token) t.tokens ≡ none
    pub codes : new.codes ≡ update (is_open c.uid) (consume call.now) t.codes
    pub tokens : new.tokens ≡ t.tokens ++ token_row env call c s answer.access_token ∷ []

  issue-ok :
      (c : Code) (s : Subject) (m : Member) (aud : String) (t new : Tables) (answer : TokenAnswer)
      (e : Refusal)
      → issue env call client c s m aud t ≡ ok (new, answer, e)
      → (get (env.session_hash answer.access_token) t.tokens ≡ none)
        × (new.codes ≡ update (is_open c.uid) (consume call.now) t.codes)
        × (new.tokens ≡ t.tokens ++ token_row env call c s answer.access_token ∷ [])
  unfolding issue is_taken token_row
  issue-ok c s m aud t new answer e h =
      elim (Option-cases (env.sign_access (access_claims env call client c s aud))) [
        | inl failed ↦ absurd (ground arith)
        | inr (access_token, signed) ↦
            elim (Option-cases (env.sign_id (id_claims env call client c s m))) [
              | inl failed ↦ absurd (ground arith)
              | inr (id_token, signed_id) ↦
                  let same : answer.access_token ≡ access_token = ground arith in
                  elim (Option-cases (get (env.session_hash answer.access_token) t.tokens)) [
                    | inr (old, taken) ↦ absurd (ground arith)
                    | inl fresh ↦ (fresh, ground arith, ground arith)
                  ]
            ]
      ]

  redeem_body-ok :
      (code redirect_uri verifier : String) (t new : Tables) (answer : TokenAnswer) (e : Refusal)
      → redeem_body env call reg client code redirect_uri verifier t ≡ ok (new, answer, e)
      → Exchanged code redirect_uri verifier t new answer
  unfolding redeem_body
  redeem_body-ok code redirect_uri verifier t new answer e h =
      elim (Option-cases (load_code reg (env.session_hash code) t.codes)) [
        | inl absent ↦ absurd (ground arith)
        | inr ((c, s, m), found) ↦
            elim (Bool-cases
              (is_redeemable client redirect_uri (env.challenge_of verifier) call.checked_at c m)) [
                | inr refused ↦ absurd (ground arith)
                | inl fine ↦ elim (Option-cases (audience env call reg c)) [
                  | inl changed ↦ absurd (ground arith)
                  | inr (aud, known) ↦
                      let (fresh, codes, tokens) =
                        issue-ok c s m aud t new answer e (ground arith) in
                      record {
                        c = c;
                        s = s;
                        m = m;
                        aud = aud;
                        found = found;
                        allowed = fine;
                        audience_found = known;
                        fresh = fresh;
                        codes = codes;
                        tokens = tokens;
                      }
                ]
              ]
      ]

  Exchanged-Changed :
      (code redirect_uri verifier : String) (t new : Tables) (answer : TokenAnswer)
      → Exchanged code redirect_uri verifier t new answer
      → Changed t new
  unfolding token_row
  Exchanged-Changed code redirect_uri verifier t new answer x =
      exchanged x.c.uid call.now (token_row env call x.c x.s answer.access_token) x.fresh x.codes
        x.tokens

  pub redeem-Changed :
      (code redirect_uri verifier : String) (t : Tables)
      → Changed t (redeem env call reg client code redirect_uri verifier t).1
  unfolding redeem
  redeem-Changed code redirect_uri verifier t =
      elim (Bool-cases (str_eq code "" || (str_eq redirect_uri "" || not (is_verifier verifier)))) [
        | inl bad ↦ kept (ground arith) (ground arith)
        | inr good ↦
            subst (λ t'. Changed t t') (ground arith)
              (transact_cases (λ t'. Changed t t') call.begin_fails unavailable call.commit
                (redeem_body env call reg client code redirect_uri verifier t) t (kept refl refl)
                (λ new answer e h.
                  Exchanged-Changed code redirect_uri verifier t new answer
                    (redeem_body-ok code redirect_uri verifier t new answer e h)))
      ]

  -- The transaction of an exchange.
  abbrev exchange_run : String → String → String → Tables → Result Refusal TokenAnswer × Tables
  exchange_run code redirect_uri verifier t =
      transact call.begin_fails unavailable call.commit
        (redeem_body env call reg client code redirect_uri verifier t) t

  -- A successful exchange.
  pub redeem-returns :
      (code redirect_uri verifier : String) (t : Tables) (answer : TokenAnswer)
      → (redeem env call reg client code redirect_uri verifier t).0 ≡ returns answer
      → Exchanged code redirect_uri verifier t
          (redeem env call reg client code redirect_uri verifier t).1
          answer
  unfolding redeem
  redeem-returns code redirect_uri verifier t answer h = by_answer _ refl
    where
      by_answer :
          (a : Result Refusal TokenAnswer)
          → (exchange_run code redirect_uri verifier t).0 ≡ a
          → Exchanged code redirect_uri verifier t
              (redeem env call reg client code redirect_uri verifier t).1
              answer
      by_answer (err x) q = absurd (ground arith)
      by_answer (ok x) q =
          let (new, e, body, table) =
            transact-eq-ok call.begin_fails unavailable call.commit
              (redeem_body env call reg client code redirect_uri verifier t) t x q in
          let made : (redeem env call reg client code redirect_uri verifier t).1 ≡ new =
            ground arith in
          let same : x ≡ answer = ground arith in
          rw made (rw same at (redeem_body-ok code redirect_uri verifier t new x e body))

-- An exchange reads codes and tokens only.
pub authenticate-Exchanged :
    (env : Env) (call : ExchangeCall) (reg : Registry) (client : Client)
    (code redirect_uri verifier : String) (t t' new : Tables) (answer : TokenAnswer)
    → (t'.codes ≡ t.codes) × (t'.tokens ≡ t.tokens)
    → Exchanged env call reg client code redirect_uri verifier t' new answer
    → Exchanged env call reg client code redirect_uri verifier t new answer
authenticate-Exchanged env call reg client code redirect_uri verifier t t' new answer (a, b) x =
    record {
      c = x.c;
      s = x.s;
      m = x.m;
      aud = x.aud;
      found = rw (← a) x.found;
      allowed = x.allowed;
      audience_found = x.audience_found;
      fresh = rw (← b) x.fresh;
      codes = rw (← a) x.codes;
      tokens = rw (← b) x.tokens;
    }
