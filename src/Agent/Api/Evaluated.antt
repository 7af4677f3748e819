-- ===== src/Agent/Api/Evaluated.antt =====
-- What a peer makes of the credentials that a process was given.
use vm_authn_scope.Prelude.{ℕ, ◌≡◌, refl, ap, ◌∙◌, some, All, All-mono}
use vm_authn_scope.Prelude.Result.{Result, ok, map_err, map_err-eq-ok, >>=-eq-ok}
use vm_authn_scope.Prelude.Text.{Text}
use vm_authn_scope.Prelude.Errors.{message}
use vm_authn_scope.Ca.Rcgen.{Rcgen, CertParams, CsrParams}
use vm_authn_scope.Ca.Authority.{CertificateAuthority}
use vm_authn_scope.X509.{X509}
use vm_authn_scope.Evaluator.{from_cert_pem, first_name}
use vm_authn_scope.Evaluator.Issued.{common_names, Interop, Authentic, from_cert_pem-sign_csr}
use vm_authn_scope.Server.Config.{HostConfig}
use vm_authn_scope.Agent.Config.{AgentConfig}
use vm_authn_scope.Agent.Csr.{GeneratedCsr, csr_params, generate_csr}
use vm_authn_scope.Agent.Kernel.{Trace}
use vm_authn_scope.Agent.Match.Hosted.{HasDistinct}
use vm_authn_scope.Agent.Request.{X509Credentials, AgentState, World}
use vm_authn_scope.Agent.Startup.{run_agent}
use vm_authn_scope.Agent.Api.{Api, opened, Reach}
use vm_authn_scope.Agent.Api.Disclosed.{Disclosure, IsServed, IsServed-mono}
use vm_authn_scope.Agent.Api.Hosted.{Connected, Issued, IsEntitled, run_agent-IsEntitled}

-- A signing request is read back with the common names it was made for.
pub record CsrReads (rc : Rcgen) : Type 0 where
  pub reads :
      (params : CertParams rc.Ia5) (key : rc.Key) (pem : Text)
      → rc.csr_to_pem params key ≡ ok pem
      → (csr : CsrParams rc.PublicKey rc.Ia5) × (rc.csr_from_pem pem ≡ ok csr)
        × (common_names csr.params.distinguished_name ≡ common_names params.distinguished_name)

module _ (rc : Rcgen) where
  generate_csr-eq-ok :
      (generated : Result Text rc.Key) (identity : Text) {csr : GeneratedCsr}
      → generate_csr rc generated identity ≡ ok csr
      → (key : rc.Key) × (rc.csr_to_pem (csr_params rc identity) key ≡ ok csr.csr_pem)
  unfolding generate_csr
  generate_csr-eq-ok generated identity e =
      let (key, made, later) = >>=-eq-ok (map_err message generated) _ e in
      let (pem, written, done) =
        >>=-eq-ok (map_err message (rc.csr_to_pem (csr_params rc identity) key)) _ later in
      (
        key,
        map_err-eq-ok message (rc.csr_to_pem (csr_params rc identity) key) written
            ∙ ap ok (cc (done)),
      )

  csr_params-named :
      (identity : Text)
      → first_name (common_names (csr_params rc identity).distinguished_name) ≡ some identity
  unfolding csr_params common_names first_name
  csr_params-named identity = refl

-- The evaluator takes the certificate, with the authority's, for one of the identity.
abbrev pub IsEvaluated : X509 → Disclosure
IsEvaluated xp users proc identity creds =
    from_cert_pem xp creds.cert_pem creds.ca_cert_pem ≡ ok (record { identity = identity })

module _ (rc : Rcgen) (xp : X509) (w : World rc) (config : AgentConfig) (host_config : HostConfig)
    (made : CertificateAuthority) (peer_cid : ℕ) (interop : Interop rc xp) where
  Issued-from_cert_pem :
      (identity : Text) (creds : X509Credentials)
      → Authentic rc xp interop made
      → CsrReads rc
      → Issued rc xp w config host_config made peer_cid identity creds
      → from_cert_pem xp creds.cert_pem creds.ca_cert_pem ≡ ok (record { identity = identity })
  Issued-from_cert_pem identity creds authentic law issued =
      let (key, written) =
        generate_csr-eq-ok rc (w.generated issued.made_at) identity issued.generated in
      let (csr, read, names) = law.reads (csr_params rc identity) key issued.csr.csr_pem written in
      let a = issued.authorised in
      let same : issued.csr.csr_pem ≡ a.csr_pem = cc (a.is_request) in
      rw issued.same_ca (
        from_cert_pem-sign_csr rc xp interop made authentic issued.now _ csr (rw same at read)
          (rw names (csr_params-named rc identity)) a.signed)

  -- If the kernel hands each request of the agent to the host's handle_connection, at some
  -- time and from one CID, and hands back all that it writes, serde_json reads back what it
  -- writes, the entries of a map in any order, and writes less than 4 GiB, the identities of
  -- the VM are distinct, the libraries agree on certificates, a signing request is read back
  -- with the common names that it was made for, and the authority's certificate is that of
  -- its key, then in every state that the Workload API of a started agent reaches, the
  -- credentials that a connection that ended was sent, if any, are such that the evaluator,
  -- given their certificate and that of their authority, returns the identity that
  -- match_workload returns for the process with the peer's credentials, as /proc showed it
  -- under the peer's process id when the connection ran.
  pub run_agent-IsEvaluated :
      (t : Trace) (agent : AgentState) (api : Api)
      → Authentic rc xp interop made
      → CsrReads rc
      → Connected rc xp w config host_config made peer_cid
      → HasDistinct host_config peer_cid config.vm_name
      → (run_agent rc w config t).0 ≡ ok agent
      → Reach rc xp w config (opened agent) api
      → All (IsServed (IsEvaluated xp) agent.workloads) api.ended
  run_agent-IsEvaluated t agent api authentic law net distinct started reached =
      All-mono _ _ api.ended
        (IsServed-mono (IsEntitled rc xp w config host_config made peer_cid) (IsEvaluated xp)
          agent.workloads
          (λ users proc identity creds matched (selected, issued).
            Issued-from_cert_pem identity creds authentic law issued))
        (run_agent-IsEntitled rc xp w config host_config made peer_cid t agent api net distinct
          started reached)
