-- ===== src/OAuth/Safety.antt =====
-- What the token endpoint promises: a code is used once, by the client and with the verifier that it
-- is bound to, and a revoked token opens nothing.
use complicatedauth_backend.Prelude.{
  ℕ, ◌+◌, ◌*◌, ◌≡◌, ◌≢◌, ◌<◌, refl, true, List, [], ◌∷◌, ◌++◌, none, some, String, eq_iff, arith,
}
use complicatedauth_backend.Table.{get}
use complicatedauth_backend.Table.Laws.{get-update}
use complicatedauth_backend.Duration.{minute}
use complicatedauth_backend.OAuth.Tables.{
  Code, code_keyed, Member, Subject, Token, token_keyed, Registry, Tables,
}
use complicatedauth_backend.OAuth.Client.{
  returns, Body, Client, parse_oauth_form, single_form_value, authenticate_oauth_client,
}
use complicatedauth_backend.OAuth.Exchange.{
  Env, ExchangeCall, TokenAnswer, oauth_token, load_code, is_redeemable, is_open, consume,
  token_row, duration_or,
}
use complicatedauth_backend.OAuth.Exchanges.{Exchanged}
use complicatedauth_backend.OAuth.Calls.{oauth_token-returns}
use complicatedauth_backend.OAuth.Steps.{Call, run, IsUsed, run-IsUsed}

load_code-get :
    (reg : Registry) (hash : List ℕ) (codes : List Code) (c : Code) (s : Subject) (m : Member)
    → load_code reg hash codes ≡ some (c, s, m)
    → get hash codes ≡ some c
unfolding load_code
load_code-get reg hash codes c s m h = ground arith

exchange_uses :
    (env : Env) (call : ExchangeCall) (reg : Registry) (client : Client)
    (code redirect_uri verifier : String) (t new : Tables) (answer : TokenAnswer)
    → Exchanged env call reg client code redirect_uri verifier t new answer
    → IsUsed (env.session_hash code) new
exchange_uses env call reg client code redirect_uri verifier t new answer x =
    let held = load_code-get reg (env.session_hash code) t.codes x.c x.s x.m x.found in
    let opened : is_open x.c.uid x.c ≡ true = unfold is_redeemable in ground arith in
    (
      consume call.now x.c,
      ground (
        arith,
        get-update (is_open x.c.uid) (consume call.now) (env.session_hash code) t.codes (λ y. refl),
      ),
      refl,
    )

spent_code :
    (env : Env) (call : ExchangeCall) (reg : Registry) (client : Client)
    (code redirect_uri verifier : String) (t new : Tables) (answer : TokenAnswer)
    → Exchanged env call reg client code redirect_uri verifier t new answer
    → IsUsed (env.session_hash code) t
    → ⊥
unfolding is_redeemable
spent_code env call reg client code redirect_uri verifier t new answer x (c, held, used) =
    let same : c ≡ x.c =
      ground (arith, load_code-get reg (env.session_hash code) t.codes x.c x.s x.m x.found) in
    let allowed = x.allowed in ground (arith, same)

-- A code is used once: after a token request that succeeds, and whatever is called and registered
-- since, no token request with the same code succeeds.
pub code_is_used_once :
    (env : Env) (call : ExchangeCall) (reg : Registry) (body : Body)
    (form : List (String × List String)) (t : Tables) (answer : TokenAnswer)
    → parse_oauth_form body ≡ returns form
    → (oauth_token env call reg body t).0 ≡ returns answer
    → (cs : List Call) (call' : ExchangeCall) (reg' : Registry) (body' : Body)
      (form' : List (String × List String)) (answer' : TokenAnswer)
    → parse_oauth_form body' ≡ returns form'
    → single_form_value form' "code" ≡ single_form_value form "code"
    → (oauth_token env call' reg' body' (run env (oauth_token env call reg body t).1 cs)).0
      ≢ returns answer'
code_is_used_once env call reg body form t answer p h cs call' reg' body' form' answer' p' same h' =
    let first = oauth_token-returns env reg call body form t answer p h in
    let used =
      exchange_uses env call reg first.client (single_form_value form "code") _ _ t
        (oauth_token env call reg body t).1 answer first.exchange in
    let again =
      oauth_token-returns env reg' call' body' form'
        (run env (oauth_token env call reg body t).1 cs) answer' p' h' in
    spent_code env call' reg' again.client _ _ _ _ _ answer' again.exchange
      (rw same (run-IsUsed env _ cs (oauth_token env call reg body t).1 used))

-- What a token request that succeeds has checked and made: the code was issued to the authenticated
-- client for the redirect URI that is sent, was neither used nor expired, and the verifier sent
-- hashes to its challenge; the new token row is the code's, for the member, the scopes and the
-- resource server that were approved, and ends with the configured lifetime.
pub token_matches_code :
    (env : Env) (call : ExchangeCall) (reg : Registry) (body : Body)
    (form : List (String × List String)) (t : Tables) (answer : TokenAnswer)
    → parse_oauth_form body ≡ returns form
    → (oauth_token env call reg body t).0 ≡ returns answer
    → (c : Code) × (row : Token) × (client : Client) × (get
          (env.session_hash (single_form_value form "code"))
          t.codes
        ≡ some c)
      × ((authenticate_oauth_client call.client reg form t).0 ≡ returns client)
      × (c.application_uid ≡ client.uid)
      × (c.redirect_uri ≡ single_form_value form "redirect_uri")
      × (c.code_challenge ≡ env.challenge_of (single_form_value form "code_verifier"))
      × (c.consumed_at ≡ none)
      × (call.checked_at < c.expires_at)
      × ((oauth_token env call reg body t).1.tokens ≡ t.tokens ++ row ∷ [])
      × (row.token_hash ≡ env.session_hash answer.access_token)
      × (row.application_uid ≡ client.uid)
      × (row.member_uid ≡ c.member_uid)
      × (row.scopes ≡ c.scopes)
      × (row.resource_server_uid ≡ c.resource_server_uid)
      × (row.expires_at ≡ call.now + duration_or env.access_token_ttl (10 * minute))
token_matches_code env call reg body form t answer p h =
    let made = oauth_token-returns env reg call body form t answer p h in
    let x = made.exchange in
    let allowed = x.allowed in
    (
      x.c,
      token_row env call x.c x.s answer.access_token,
      made.client,
      load_code-get reg _ t.codes x.c x.s x.m x.found,
      made.authenticated,
      unfold is_redeemable in ground arith,
      unfold is_redeemable in grind (arith, eq_iff),
      unfold is_redeemable in grind (arith, eq_iff),
      unfold is_redeemable in ground arith,
      unfold is_redeemable in ground arith,
      x.tokens,
      unfold token_row in refl,
      unfold token_row in unfold is_redeemable in ground arith,
      unfold token_row in refl,
      unfold token_row in refl,
      unfold token_row in refl,
      unfold token_row in refl,
    )
