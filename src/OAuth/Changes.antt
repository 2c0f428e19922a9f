-- ===== src/OAuth/Changes.antt =====
-- What a call of the authorization server does to codes and tokens.
use complicatedauth_backend.Prelude.{ℕ, ◌≡◌, ◌∙◌, String, Bool, List, [], ◌∷◌, ◌++◌, none, arith}
use complicatedauth_backend.Table.{get, update}
use complicatedauth_backend.OAuth.Tables.{code_keyed, Token, token_keyed, Registry, Tables}
use complicatedauth_backend.OAuth.Client.{ClientCall, authenticate_oauth_client, check_secret}
use complicatedauth_backend.OAuth.Exchange.{is_open, consume}
use complicatedauth_backend.OAuth.Access.{revoke_token}

-- Client authentication touches secrets only.
pub authenticate_keeps :
    (call : ClientCall) (reg : Registry) (form : List (String × List String)) (t : Tables)
    → ((authenticate_oauth_client call reg form t).1.codes ≡ t.codes)
      × ((authenticate_oauth_client call reg form t).1.tokens ≡ t.tokens)
unfolding authenticate_oauth_client check_secret
authenticate_keeps call reg form t = (ground arith, ground arith)

-- What a call does to codes and tokens: nothing, an exchange, or a revocation.
pub data Changed (t t' : Tables) : Type 0 where
  kept : t'.codes ≡ t.codes → t'.tokens ≡ t.tokens → Changed t t'
  exchanged :
      (uid now : ℕ) (row : Token)
      → get row.token_hash t.tokens ≡ none
      → t'.codes ≡ update (is_open uid) (consume now) t.codes
      → t'.tokens ≡ t.tokens ++ row ∷ []
      → Changed t t'
  revoked_where :
      (p : Token → Bool) (now : ℕ)
      → t'.codes ≡ t.codes
      → t'.tokens ≡ update p (revoke_token now) t.tokens
      → Changed t t'

-- A change of the tables that a change of secrets has come before.
pub authenticate-Changed :
    (t t' new : Tables)
    → (t'.codes ≡ t.codes) × (t'.tokens ≡ t.tokens)
    → Changed t' new
    → Changed t new
authenticate-Changed t t' new (a, b) (kept c d) = kept (c ∙ a) (d ∙ b)
authenticate-Changed t t' new (a, b) (exchanged uid now row f c d) =
    exchanged uid now row (rw (← b) f) (rw (← a) c) (rw (← b) d)
authenticate-Changed t t' new (a, b) (revoked_where p now c d) =
    revoked_where p now (c ∙ a) (rw (← b) d)
