-- ===== src/Agent/Request/Origin.antt =====
-- Where the credentials that a request returns come from.
use vm_authn_scope.Prelude.{ℕ, ◌≡◌, arith}
use vm_authn_scope.Prelude.Result.{Result, ok, map_err, map_err-eq-ok}
use vm_authn_scope.Prelude.Io.{continue-eq-ok, on_err}
use vm_authn_scope.Prelude.Text.{Text}
use vm_authn_scope.Prelude.Errors.{context}
use vm_authn_scope.Proto.Wire.{
  cert_request, AgentResponse, handshake_ok, cert_ok, error, protocol_version,
}
use vm_authn_scope.Ca.Rcgen.{Rcgen}
use vm_authn_scope.Agent.Config.{AgentConfig}
use vm_authn_scope.Agent.Csr.{GeneratedCsr, generate_csr}
use vm_authn_scope.Agent.Kernel.{Trace}
use vm_authn_scope.Agent.Exchange.{bind_listener}
use vm_authn_scope.Agent.Request.{
  X509Credentials, AgentState, World, ask, on_trace, dial, release, secure, dial_context,
  rebind_context, credentials_from, after_answer, on_stream, dial_and_ask, request_cert_on_demand,
}

credentials_from-eq-ok :
    (identity key_pem : Text) (resp : AgentResponse) {c : X509Credentials}
    → credentials_from identity key_pem resp ≡ ok c
    → (resp ≡ cert_ok c.cert_pem c.ca_cert_pem) × (c.key_pem ≡ key_pem)
unfolding credentials_from
credentials_from-eq-ok identity key_pem (cert_ok cert_pem ca_cert_pem) e = ground (arith, e)
credentials_from-eq-ok identity key_pem (error msg) e = absurd (cc)
credentials_from-eq-ok identity key_pem (handshake_ok workloads) e = absurd (cc)

module _ (rc : Rcgen) (w : World rc) (config : AgentConfig) where
  -- A certificate was asked for with a signing request, and this is the host's answer.
  pub record Origin (identity : Text) (generated : Result _ rc.Key) (c : X509Credentials)
      : Type 0 where
    pub csr : GeneratedCsr
    pub fd : ℕ
    pub at_dial : Trace
    pub fresh : generate_csr rc generated identity ≡ ok csr
    pub own_key : c.key_pem ≡ csr.key_pem
    pub answered :
        (ask rc w config fd
          (cert_request protocol_version config.vm_name identity csr.csr_pem)
          at_dial).0
        ≡ ok (cert_ok c.cert_pem c.ca_cert_pem)

  after_answer-eq-ok :
      (identity key_pem : Text) (resp : AgentResponse) (s : AgentState) {c : X509Credentials}
      → (after_answer rc w config identity key_pem resp s).0 ≡ ok c
      → (resp ≡ cert_ok c.cert_pem c.ca_cert_pem) × (c.key_pem ≡ key_pem)
  unfolding after_answer secure
  after_answer-eq-ok identity key_pem resp s e =
      let (u, bound, e1) =
        continue-eq-ok _ (on_trace (bind_listener w.kernel config.client_port rebind_context) s)
          e in
      credentials_from-eq-ok identity key_pem resp e1

  -- If request_cert_on_demand returns credentials, their key is that of the signing request
  -- generated for the identity, and their certificates are the host's answer to a certificate
  -- request with the agent's VM name, that identity and that signing request.
  pub request-eq-ok :
      (identity : Text) (s : AgentState) {c : X509Credentials}
      → (request_cert_on_demand rc w config identity s).0 ≡ ok c
      → Origin identity (w.generated s.trace) c
  unfolding request_cert_on_demand dial_and_ask on_stream release
  request-eq-ok identity s e =
      let (csr, made, e1) =
        continue-eq-ok _ (map_err _ (generate_csr rc (w.generated s.trace) identity), s) e in
      let s1 = (release config.client_port s).1 in
      let (fd, dialled, e3) =
        continue-eq-ok _ (on_err (context dial_context) (on_trace (dial rc w config)) s1) e1 in
      let t2 = (dial rc w config s1.trace).1 in
      let (resp, asked, e4) =
        continue-eq-ok _
          (on_trace
            (ask rc w config fd (cert_request protocol_version config.vm_name identity csr.csr_pem))
            (record s1 { trace = t2 }))
          e3 in
      let (same, own_key) = after_answer-eq-ok identity csr.key_pem resp _ e4 in
      record {
        csr = csr;
        fd = fd;
        at_dial = t2;
        fresh = map_err-eq-ok _ (generate_csr rc (w.generated s.trace) identity) made;
        own_key = own_key;
        answered = rw same at asked;
      }
