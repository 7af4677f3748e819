-- ===== src/Agent/Cache/Vouched.antt =====
-- Where the credentials of the cache come from.
use vm_authn_scope.Prelude.{
  ℕ, ◌≡◌, ◌⊎◌, inl, inr, refl, ap, ◌∙◌, sym, some, Option-cases, Bool-cases, ◌==◌, text_eq,
  ==-eq-true,
}
use vm_authn_scope.Prelude.Result.{Result, ok, err, Result-cases}
use vm_authn_scope.Prelude.Io.{continue, pure, ◌>>◌}
use vm_authn_scope.Prelude.Text.{Text}
use vm_authn_scope.Prelude.Dict.{Dict, lookup}
use vm_authn_scope.Prelude.Errors.{Error}
use vm_authn_scope.X509.{X509}
use vm_authn_scope.Ca.Rcgen.{Rcgen}
use vm_authn_scope.Agent.Config.{AgentConfig}
use vm_authn_scope.Agent.Kernel.{Trace}
use vm_authn_scope.Agent.Request.{
  X509Credentials, CachedCredential, AgentState, World, request_cert_on_demand,
}
use vm_authn_scope.Agent.Request.Origin.{Origin, request-eq-ok}
use vm_authn_scope.Agent.Request.Port.{request-cache}
use vm_authn_scope.Agent.Cache.{is_fresh, remember, fetch, get_or_fetch_credentials}
use vm_authn_scope.Agent.Cache.Fresh.{recorded, fetch_lem}

-- The host answered a certificate request of the agent for the identity with these credentials,
-- and their key is the one made for the request.
abbrev pub Vouched : (rc : Rcgen) → World rc → AgentConfig → Text → X509Credentials → Type 0
Vouched rc w config identity creds = (t : Trace) × Origin rc w config identity (w.generated t) creds

-- That is so of everything in the cache, under the identity it stands under.
abbrev pub IsVouched : (rc : Rcgen) → World rc → AgentConfig → Dict CachedCredential → Type 0
IsVouched rc w config cache =
    (identity : Text) (cached : CachedCredential)
    → lookup identity cache ≡ some cached
    → Vouched rc w config identity cached.credentials

module _ (rc : Rcgen) (xp : X509) (w : World rc) (config : AgentConfig) where
  get_or_fetch-cases :
      (identity : Text) (s : AgentState)
      → ((cached : CachedCredential) × (lookup identity s.cache ≡ some cached)
          × (get_or_fetch_credentials rc xp w config identity s ≡ (ok cached.credentials, s)))
        ⊎ (get_or_fetch_credentials rc xp w config identity s ≡ fetch rc xp w config identity s)
  unfolding get_or_fetch_credentials
  get_or_fetch-cases identity s = elim (Option-cases (lookup identity s.cache)) [
    | inl missing ↦ inr (rw missing refl)
    | inr (cached, found) ↦ elim (Bool-cases (is_fresh rc xp w config cached s.trace)) [
      | inl fresh ↦ inl (cached, found, rw found (rw fresh refl))
      | inr stale ↦ inr (rw found (rw stale refl))
    ]
  ]

  -- What one request does to the cache: nothing, or one entry of what was issued.
  recorded-Vouched :
      (identity : Text) (s : AgentState) (now : ℕ)
      → IsVouched rc w config s.cache
      → (j : Text) (cached : CachedCredential)
      → recorded (request_cert_on_demand rc w config identity s).0 identity now j (lookup j s.cache)
        ≡ some cached
      → Vouched rc w config j cached.credentials
  recorded-Vouched identity s now vouched j cached found =
      elim (Result-cases (request_cert_on_demand rc w config identity s).0) [
        | inr (e, fails) ↦ vouched j cached (rw fails at found)
        | inl (creds, got) ↦ elim (Bool-cases (identity == j)) [
          | inr other ↦ vouched j cached (rw other at (rw got at found))
          | inl here ↦
              let same : record { credentials = creds; fetched_at = now } ≡ cached =
                cc (rw here at (rw got at found)) in
              let at_j : identity ≡ j = ==-eq-true identity j here in
              rw (← at_j) (rw (← same) (s.trace, request-eq-ok rc w config identity s got))
        ]
      ]

  fetch-Vouched :
      (identity : Text) (s : AgentState)
      → IsVouched rc w config s.cache
      → IsVouched rc w config (fetch rc xp w config identity s).1.cache
  fetch-Vouched identity s vouched j cached found =
      let (result, log, held, entries) = fetch_lem rc xp w config identity s in
      recorded-Vouched identity s _ vouched j cached (sym (entries j) ∙ found)

  fetch-workloads :
      (identity : Text) (s : AgentState)
      → (fetch rc xp w config identity s).1.workloads ≡ s.workloads
  unfolding fetch remember
  fetch-workloads identity s =
      go (request_cert_on_demand rc w config identity s) (request-cache rc w config identity s).1
    where
      go :
          (p : Result Error X509Credentials × AgentState)
          → p.1.workloads ≡ s.workloads
          → (continue (λ creds. remember rc xp w config identity creds >> pure creds) p).1.workloads
            ≡ s.workloads
      go (ok creds, s') same = same
      go (err e, s') same = same

  -- The invariant of the cache.
  pub get_or_fetch-Vouched :
      (identity : Text) (s : AgentState)
      → IsVouched rc w config s.cache
      → IsVouched rc w config (get_or_fetch_credentials rc xp w config identity s).1.cache
  get_or_fetch-Vouched identity s vouched = elim (get_or_fetch-cases identity s) [
    | inl (cached, found, same) ↦ rw same vouched
    | inr same ↦ rw same (fetch-Vouched identity s vouched)
  ]

  pub get_or_fetch-eq-ok :
      (identity : Text) (s : AgentState) {creds : X509Credentials}
      → IsVouched rc w config s.cache
      → (get_or_fetch_credentials rc xp w config identity s).0 ≡ ok creds
      → Vouched rc w config identity creds
  get_or_fetch-eq-ok identity s {creds} vouched got = elim (get_or_fetch-cases identity s) [
    | inl (cached, found, same) ↦
        let here : cached.credentials ≡ creds = cc (same, got) in
        rw (← here) (vouched identity cached found)
    | inr same ↦ (
      s.trace,
      request-eq-ok rc w config identity s
          (sym ((fetch_lem rc xp w config identity s).0) ∙ (sym (ap (λ p. p.0) same) ∙ got)),
    )
  ]

  pub get_or_fetch-workloads :
      (identity : Text) (s : AgentState)
      → (get_or_fetch_credentials rc xp w config identity s).1.workloads ≡ s.workloads
  get_or_fetch-workloads identity s = elim (get_or_fetch-cases identity s) [
    | inl (cached, found, same) ↦ rw same refl
    | inr same ↦ rw same (fetch-workloads identity s)
  ]
