-- ===== src/OAuth/Steps.antt =====
-- Sequences of calls of the authorization server, and what no call undoes.
use complicatedauth_backend.Prelude.{
  ℕ, ◌≡◌, refl, Bool, true, List, [], ◌∷◌, some, arith, inl, inr, Bool-cases, if◌then◌else◌,
}
use complicatedauth_backend.Table.{get}
use complicatedauth_backend.Table.Laws.{get-update, get-append}
use complicatedauth_backend.Cleanup.{is_some}
use complicatedauth_backend.Db.{Outcome}
use complicatedauth_backend.OAuth.Tables.{Code, code_keyed, Token, token_keyed, Registry, Tables}
use complicatedauth_backend.OAuth.Client.{Body, ClientCall}
use complicatedauth_backend.OAuth.Exchange.{Env, ExchangeCall, oauth_token, is_open, consume}
use complicatedauth_backend.OAuth.Access.{
  Principal, oauth_revoke, revoke_oauth_consent, revoke_token,
}
use complicatedauth_backend.OAuth.Changes.{Changed, kept, exchanged, revoked_where}
use complicatedauth_backend.OAuth.Calls.{
  oauth_token-Changed, oauth_revoke-Changed, revoke_oauth_consent-Changed,
}

-- The calls that change codes and tokens, each with what administrators have registered by then.
pub data Call : Type 0 where
  exchanges : ExchangeCall → Registry → Body → Call
  revokes : ClientCall → Outcome → ℕ → Registry → Body → Call
  revokes_consent : Bool → Bool → Bool → Bool → Outcome → Principal → ℕ → ℕ → Call

unfoldable pub step : Env → Tables → Call → Tables
step env t (exchanges call reg body) = (oauth_token env call reg body t).1
step env t (revokes call exec now reg body) = (oauth_revoke env call exec now reg body t).1
step env t (revokes_consent b c f a commit p uid now) =
    (revoke_oauth_consent b c f a commit p uid now t).1

unfoldable pub run : Env → Tables → List Call → Tables
run env t [] = t
run env t (c ∷ cs) = run env (step env t c) cs

step-Changed : (env : Env) (t : Tables) (c : Call) → Changed t (step env t c)
unfolding step
step-Changed env t (exchanges call reg body) = oauth_token-Changed env reg call body t
step-Changed env t (revokes call exec now reg body) =
    oauth_revoke-Changed env reg call exec now body t
step-Changed env t (revokes_consent b c f a commit p uid now) =
    revoke_oauth_consent-Changed b c f a commit p uid now t

-- A code that has been used.
abbrev pub IsUsed : List ℕ → Tables → Type 0
IsUsed hash t = (c : Code) × (get hash t.codes ≡ some c) × (is_some c.consumed_at ≡ true)

-- A token that has been revoked.
abbrev pub IsRevoked : List ℕ → Tables → Type 0
IsRevoked hash t = (x : Token) × (get hash t.tokens ≡ some x) × (is_some x.revoked_at ≡ true)

Changed-IsUsed : (hash : List ℕ) (t new : Tables) → Changed t new → IsUsed hash t → IsUsed hash new
Changed-IsUsed hash t new (kept a b) (c, found, used) = (c, rw a found, used)
Changed-IsUsed hash t new (exchanged uid now row f a b) (c, found, used) =
    (c, ground (arith, get-update (is_open uid) (consume now) hash t.codes (λ x. refl)), used)
Changed-IsUsed hash t new (revoked_where p now a b) (c, found, used) = (c, rw a found, used)

still_revoked :
    (p : Token → Bool) (now : ℕ) (x : Token)
    → is_some x.revoked_at ≡ true
    → is_some (if p x then revoke_token now x else x).revoked_at ≡ true
still_revoked p now x h = elim (Bool-cases (p x)) [ inl e ↦ rw e (ground arith) | inr e ↦ rw e h ]

Changed-IsRevoked :
    (hash : List ℕ) (t new : Tables) → Changed t new → IsRevoked hash t → IsRevoked hash new
Changed-IsRevoked hash t new (kept a b) (x, found, gone) = (x, rw b found, gone)
Changed-IsRevoked hash t new (exchanged uid now row f a b) (x, found, gone) =
    (x, ground (arith, get-append hash t.tokens (row ∷ [])), gone)
Changed-IsRevoked hash t new (revoked_where p now a b) (x, found, gone) = (
  if p x then revoke_token now x else x,
  ground (arith, get-update p (revoke_token now) hash t.tokens (λ y. refl)),
  still_revoked p now x gone,
)

pub run-IsUsed :
    (env : Env) (hash : List ℕ) (cs : List Call) (t : Tables)
    → IsUsed hash t
    → IsUsed hash (run env t cs)
unfolding run
run-IsUsed env hash [] t u = u
run-IsUsed env hash (c ∷ cs) t u =
    run-IsUsed env hash cs (step env t c)
      (Changed-IsUsed hash t (step env t c) (step-Changed env t c) u)

pub run-IsRevoked :
    (env : Env) (hash : List ℕ) (cs : List Call) (t : Tables)
    → IsRevoked hash t
    → IsRevoked hash (run env t cs)
unfolding run
run-IsRevoked env hash [] t u = u
run-IsRevoked env hash (c ∷ cs) t u =
    run-IsRevoked env hash cs (step env t c)
      (Changed-IsRevoked hash t (step env t c) (step-Changed env t c) u)
