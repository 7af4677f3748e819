-- ===== src/Agent/Cache/Fresh.antt =====
-- When the cache answers, and what it holds afterwards.
use vm_authn_scope.Prelude.{
  ℕ, sym, ◌∙◌, ◌+◌, ◌*◌, ◌/◌, ap, ◌-◌, ◌<◌, ◌≡◌, refl, false, Option, some, if◌then◌else◌, ◌==◌,
  text_eq, arith, Option-cases, inl, inr,
}
use vm_authn_scope.Prelude.Result.{Result, ok, err, Result-cases}
use vm_authn_scope.Prelude.Io.{continue, pure, ◌>>◌}
use vm_authn_scope.Prelude.Int.{ℤ, pos, negsuc, pos_part, neg_part, ltb_ℤ, as_u64, ◌-ℤ◌}
use vm_authn_scope.Prelude.Text.{Text}
use vm_authn_scope.Prelude.Dict.{lookup, lookup-insert}
use vm_authn_scope.Prelude.Errors.{Bytes, Error}
use vm_authn_scope.X509.{X509}
use vm_authn_scope.Ca.Rcgen.{Rcgen}
use vm_authn_scope.Agent.Config.{AgentConfig}
use vm_authn_scope.Agent.Kernel.{Trace}
use vm_authn_scope.Agent.Request.{
  X509Credentials, CachedCredential, AgentState, World, request_cert_on_demand,
}
use vm_authn_scope.Agent.Request.Port.{request-cache}
use vm_authn_scope.Agent.Cache.{
  rotation_threshold, get_cert_validity_seconds, is_fresh, remember, fetch,
  get_or_fetch_credentials,
}

module _ (xp : X509) where
  abbrev cert_lifetime : Result Text xp.Cert → ℕ
  cert_lifetime (err e) = 600
  cert_lifetime (ok x509) =
      pos_part (xp.not_after x509)
      + neg_part (xp.not_before x509)
      - (pos_part (xp.not_before x509) + neg_part (xp.not_after x509))

  abbrev pem_lifetime : Result Text Bytes → ℕ
  pem_lifetime (err e) = 600
  pem_lifetime (ok pem) = cert_lifetime (xp.parse_x509_certificate pem)

  -- The seconds for which a certificate is valid, and 600 if it cannot be read.
  abbrev pub lifetime : Text → ℕ
  lifetime cert_pem = pem_lifetime (xp.parse_x509_pem cert_pem)

span :
    (a b : ℤ)
    → (if ltb_ℤ a b then as_u64 (b -ℤ a) else 0)
      ≡ pos_part b + neg_part a - (pos_part a + neg_part b)
span (pos a) (pos b) = ground arith
span (pos a) (negsuc b) = ground arith
span (negsuc a) (pos b) = ground arith
span (negsuc a) (negsuc b) = ground arith

-- A new certificate is due after half of that.
rotation_threshold-lifetime :
    (xp : X509) (cert_pem : Text)
    → rotation_threshold xp cert_pem ≡ lifetime xp cert_pem / 2 * 1000000000
unfolding rotation_threshold get_cert_validity_seconds
rotation_threshold-lifetime xp cert_pem = elim (Result-cases (xp.parse_x509_pem cert_pem)) [
  | inr (e, fails) ↦ rw fails refl
  | inl (pem, read) ↦ elim (Result-cases (xp.parse_x509_certificate pem)) [
    | inr (e, fails) ↦ rw read (rw fails refl)
    | inl (x509, parsed) ↦
        rw read
          (rw parsed (ap (λ s. s / 2 * 1000000000) (span (xp.not_before x509) (xp.not_after x509))))
  ]
]

-- Credentials that are younger than half the validity of their certificate, in nanoseconds.
abbrev pub IsYoung : (rc : Rcgen) → X509 → World rc → CachedCredential → Trace → Type 0
IsYoung rc xp w cached t =
    w.kernel.clock t - cached.fetched_at < lifetime xp cached.credentials.cert_pem / 2 * 1000000000

-- What stands in the cache under `j` after a request for `identity`.
abbrev pub recorded :
    Result Error X509Credentials
    → Text
    → ℕ
    → Text
    → Option CachedCredential
    → Option CachedCredential
recorded (ok c) identity now j old =
    if identity == j then some (record { credentials = c; fetched_at = now }) else old
recorded (err e) identity now j old = old

kept :
    (identity : Text) (c : X509Credentials) (now : ℕ) (old : Option CachedCredential)
    → recorded (ok c) identity now identity old
      ≡ some (record { credentials = c; fetched_at = now })
kept identity c now old = ground arith

module _ (rc : Rcgen) (xp : X509) (w : World rc) (config : AgentConfig) where
  -- Young credentials are returned as they are, and the state of the agent does not change.
  get_or_fetch_young :
      (identity : Text) (cached : CachedCredential) (s : AgentState)
      → lookup identity s.cache ≡ some cached
      → IsYoung rc xp w cached s.trace
      → get_or_fetch_credentials rc xp w config identity s ≡ (ok cached.credentials, s)
  unfolding get_or_fetch_credentials
  get_or_fetch_young identity cached s found young =
      ground (arith, found, rotation_threshold-lifetime xp cached.credentials.cert_pem)

  pub fetch_lem :
      (identity : Text) (s : AgentState)
      → let (r, s') = request_cert_on_demand rc w config identity s in
        let (r', s'') = fetch rc xp w config identity s in
        (r' ≡ r)
        × (s''.trace ≡ s'.trace)
        × (s''.listening ≡ s'.listening)
        × ((j : Text)
            → lookup j s''.cache
              ≡ recorded r identity (w.kernel.clock s'.trace) j (lookup j s.cache))
  unfolding fetch remember
  fetch_lem identity s =
      go (request_cert_on_demand rc w config identity s) (request-cache rc w config identity s).0
    where
      go :
          (p : Result Error X509Credentials × AgentState)
          → p.1.cache ≡ s.cache
          → let (r', s'') =
              continue (λ creds. remember rc xp w config identity creds >> pure creds) p in
            (r' ≡ p.0)
            × (s''.trace ≡ p.1.trace)
            × (s''.listening ≡ p.1.listening)
            × ((j : Text)
                → lookup j s''.cache
                  ≡ recorded p.0 identity (w.kernel.clock p.1.trace) j (lookup j s.cache))
      go (ok c, s') same = (
        refl,
        refl,
        refl,
        λ j. ground (
          arith,
          same,
          lookup-insert j identity
              (record { credentials = c; fetched_at = w.kernel.clock s'.trace }) s'.cache,
        ),
      )
      go (err e, s') same = (refl, refl, refl, λ j. ground (arith, same))

  -- If the cache has no young credentials for an identity, get_or_fetch_credentials returns
  -- what request_cert_on_demand does, with the same calls and the same listener; on success
  -- the cache has the credentials with the time of their arrival under the identity, and
  -- every other entry, and on failure each entry, is unchanged.
  pub get_or_fetch_request :
      (identity : Text) (s : AgentState)
      → ((cached : CachedCredential)
          → lookup identity s.cache ≡ some cached
          → ¬ (IsYoung rc xp w cached s.trace))
      → let (r, s') = request_cert_on_demand rc w config identity s in
        let (r', s'') = get_or_fetch_credentials rc xp w config identity s in
        (r' ≡ r)
        × (s''.trace ≡ s'.trace)
        × (s''.listening ≡ s'.listening)
        × ((j : Text)
            → lookup j s''.cache
              ≡ recorded r identity (w.kernel.clock s'.trace) j (lookup j s.cache))
  unfolding get_or_fetch_credentials
  get_or_fetch_request identity s old = elim (Option-cases (lookup identity s.cache)) [
    | inl missing ↦ rw missing (fetch_lem identity s)
    | inr (cached, found) ↦
        let stale : is_fresh rc xp w config cached s.trace ≡ false =
          ground
            (arith, old cached found, rotation_threshold-lifetime xp cached.credentials.cert_pem) in
        rw found (rw stale (fetch_lem identity s))
  ]

  -- If the cache has no young credentials for an identity and get_or_fetch_credentials
  -- returns some, then for as long as less time has passed since than half the seconds
  -- between the two dates of their certificate, rounded down (half of 600 if it cannot be
  -- read, and none if the dates are the wrong way round), a further call returns the same
  -- credentials and changes nothing.
  pub get_or_fetch_again :
      (identity : Text) (s : AgentState) (creds : X509Credentials) (later : Trace)
      → ((cached : CachedCredential)
          → lookup identity s.cache ≡ some cached
          → ¬ (IsYoung rc xp w cached s.trace))
      → (get_or_fetch_credentials rc xp w config identity s).0 ≡ ok creds
      → let s' = (get_or_fetch_credentials rc xp w config identity s).1 in
        w.kernel.clock later - w.kernel.clock s'.trace < lifetime xp creds.cert_pem / 2 * 1000000000
        → get_or_fetch_credentials rc xp w config identity (record s' { trace = later })
          ≡ (ok creds, record s' { trace = later })
  get_or_fetch_again identity s creds later old got young =
      let s' = (get_or_fetch_credentials rc xp w config identity s).1 in
      let (result, log, held, entries) = get_or_fetch_request identity s old in
      let fetched = sym result ∙ got in
      let found = (rw fetched at entries identity) ∙ kept identity creds _ _ in
      get_or_fetch_young identity
        (record { credentials = creds; fetched_at = w.kernel.clock s'.trace })
        (record s' { trace = later }) (rw (← log) at found) young
