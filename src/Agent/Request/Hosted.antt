-- ===== src/Agent/Request/Hosted.antt =====
-- The agent's request and the host's policy together.
use vm_authn_scope.Prelude.{ℕ, ◌+◌, ◌≤◌, ◌≡◌, ◌∷◌, length}
use vm_authn_scope.Prelude.Result.{ok}
use vm_authn_scope.Prelude.Text.{Text, lit}
use vm_authn_scope.Prelude.Errors.{Bytes}
use vm_authn_scope.Proto.Wire.{AgentRequest, cert_request, protocol_version}
use vm_authn_scope.Proto.Codec.Frame.{frame}
use vm_authn_scope.Ca.Rcgen.{Rcgen}
use vm_authn_scope.Ca.Authority.{CertificateAuthority}
use vm_authn_scope.Server.Config.{HostConfig}
use vm_authn_scope.Server.Handler.Answer.{answer}
use vm_authn_scope.Server.Handler.Answer.Authorised.{Authorised, answer-cert_ok_iff}
use vm_authn_scope.Agent.Config.{AgentConfig}
use vm_authn_scope.Agent.Csr.{GeneratedCsr, generate_csr}
use vm_authn_scope.Agent.Kernel.{Trace, sent}
use vm_authn_scope.Agent.Exchange.Hosted.{Carries, host, exchange-answer}
use vm_authn_scope.Agent.Request.{X509Credentials, AgentState, World, request_cert_on_demand}
use vm_authn_scope.Agent.Request.Origin.{request-eq-ok}

module _ (rc : Rcgen) (w : World rc) (config : AgentConfig) (host_config : HostConfig)
    (made : CertificateAuthority) (now peer_cid room : ℕ) where
  -- Whenever the frame of a message is written to a stream, there is room and the host answers.
  pub record Wired (payload : Bytes) : Type 0 where
    pub wide : (t : Trace) → length payload + 4 ≤ w.kernel.room t
    pub hands :
        (fd : ℕ) (t : Trace)
        → w.kernel.reply (sent fd (frame payload) ∷ t) (frame payload)
          ≡ host rc w.io_text w.request_json w.response_json host_config made now peer_cid room
              (frame payload)

  -- If the kernel hands each request that the agent writes to the host's handle_connection
  -- and hands back what that writes, the signing request of the identity is made, the
  -- certificate request and the host's answer to it are encoded to at most 4 MiB, read back
  -- and have room, and request_cert_on_demand returns credentials, then their certificate was
  -- authorised: issued by sign_csr for that signing request, under a policy that lists the
  -- identity under the agent's VM name and that VM under the CID the host sees; their
  -- authority's certificate is the host's, and their key that of the signing request.
  pub request-Authorised :
      (identity : Text) (s : AgentState) (g : GeneratedCsr) (c : X509Credentials)
      (payload reply : Bytes)
      → generate_csr rc (w.generated s.trace) identity ≡ ok g
      → Carries w.request_json
          (cert_request protocol_version config.vm_name identity g.csr_pem)
          payload
      → Carries w.response_json
          (answer rc w.io_text host_config made now peer_cid
            (cert_request protocol_version config.vm_name identity g.csr_pem))
          reply
      → length reply + 4 ≤ room
      → Wired payload
      → (request_cert_on_demand rc w config identity s).0 ≡ ok c
      → Authorised rc w.io_text host_config made now peer_cid
          (cert_request protocol_version config.vm_name identity g.csr_pem)
          c.cert_pem
        × (c.ca_cert_pem ≡ made.cert_pem)
        × (c.key_pem ≡ g.key_pem)
  request-Authorised identity s g c payload reply generated asked answered fits wired e =
      let origin = request-eq-ok rc w config identity s e in
      let same : origin.csr ≡ g = cc (origin.fresh, generated) in
      let got = rw same at origin.answered in
      let req : AgentRequest = cert_request protocol_version config.vm_name identity g.csr_pem in
      let exchanged =
        exchange-answer rc w.io_text w.request_json w.response_json host_config made now peer_cid
          w.kernel origin.fd (lit "sending CertRequest") (lit "receiving AgentResponse") req payload
          reply room origin.at_dial asked answered (wired.wide origin.at_dial) fits
          (wired.hands origin.fd origin.at_dial) in
      let (authorised, ca) =
        (answer-cert_ok_iff rc w.io_text host_config made now peer_cid req c.cert_pem
            c.ca_cert_pem).0
          (cc (got, exchanged)) in
      (authorised, ca, cc (origin.own_key, same))
