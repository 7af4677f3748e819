-- ===== src/Agent/Request/Served.antt =====
-- The agent's request over a kernel that grants each call, and the host's policy.
use vm_authn_scope.Prelude.{ℕ, ◌+◌, ◌≤◌, ◌≡◌, ◌↔◌, ◌∙◌, ap, length, arith}
use vm_authn_scope.Prelude.Io.{continue}
use vm_authn_scope.Prelude.Result.{Result, ok}
use vm_authn_scope.Prelude.Text.{Text, lit}
use vm_authn_scope.Prelude.Errors.{Bytes, Error}
use vm_authn_scope.Proto.Wire.{AgentRequest, AgentResponse, cert_request, cert_ok, protocol_version}
use vm_authn_scope.Ca.Rcgen.{Rcgen}
use vm_authn_scope.Ca.Authority.{CertificateAuthority}
use vm_authn_scope.Server.Config.{HostConfig}
use vm_authn_scope.Server.Handler.Answer.{answer}
use vm_authn_scope.Server.Handler.Answer.Authorised.{Authorised, answer-cert_ok_iff}
use vm_authn_scope.Agent.Config.{AgentConfig}
use vm_authn_scope.Agent.Csr.{GeneratedCsr, generate_csr}
use vm_authn_scope.Agent.Kernel.{Trace}
use vm_authn_scope.Agent.Dial.{host_cid}
use vm_authn_scope.Agent.Dial.Granted.{Granted, connect-Granted}
use vm_authn_scope.Agent.Exchange.Granted.{bind_listener-Granted}
use vm_authn_scope.Agent.Exchange.Hosted.{Carries, exchange-answer}
use vm_authn_scope.Agent.Request.{
  X509Credentials, AgentState, World, rebind_context, ask, release, secure, credentials_from,
  after_answer, on_stream, dial_and_ask, request_cert_on_demand,
}
use vm_authn_scope.Agent.Request.Port.{released}
use vm_authn_scope.Agent.Request.Hosted.{Wired, request-Authorised}

module _ (rc : Rcgen) (w : World rc) (config : AgentConfig) where
  after_answer-Granted :
      (identity key_pem cert_pem ca_cert_pem : Text) (granted : Granted w.kernel) (s : AgentState)
      → (after_answer rc w config identity key_pem (cert_ok cert_pem ca_cert_pem) s).0
        ≡ ok (record { cert_pem = cert_pem; key_pem = key_pem; ca_cert_pem = ca_cert_pem })
  unfolding after_answer secure credentials_from
  after_answer-Granted identity key_pem cert_pem ca_cert_pem granted s =
      ground
        (arith, bind_listener-Granted w.kernel config.client_port rebind_context granted s.trace)

  on_stream-Granted :
      (identity : Text) (g : GeneratedCsr) (fd : ℕ) (cert_pem ca_cert_pem : Text)
      (granted : Granted w.kernel) (s : AgentState)
      → (ask rc w config fd
          (cert_request protocol_version config.vm_name identity g.csr_pem)
          s.trace).0
        ≡ ok (cert_ok cert_pem ca_cert_pem)
      → (on_stream rc w config identity g fd s).0
        ≡ ok (record { cert_pem = cert_pem; key_pem = g.key_pem; ca_cert_pem = ca_cert_pem })
  unfolding on_stream
  on_stream-Granted identity g fd cert_pem ca_cert_pem granted s = go (ask rc w config fd _ s.trace)
    where
      go :
          (p : Result Error AgentResponse × Trace)
          → p.0 ≡ ok (cert_ok cert_pem ca_cert_pem)
          → (continue
              (after_answer rc w config identity g.key_pem)
              (p.0, record s { trace = p.1 })).0
            ≡ ok (record { cert_pem = cert_pem; key_pem = g.key_pem; ca_cert_pem = ca_cert_pem })
      go (r, t) e = ground (
        arith,
        e,
        after_answer-Granted identity g.key_pem cert_pem ca_cert_pem granted
            (record s { trace = t }),
      )

  dial_and_ask-Granted :
      (identity : Text) (g : GeneratedCsr) (cert_pem ca_cert_pem : Text)
      (granted : Granted w.kernel) (s : AgentState)
      → ((fd : ℕ) (t : Trace)
          → (ask rc w config fd
              (cert_request protocol_version config.vm_name identity g.csr_pem)
              t).0
            ≡ ok (cert_ok cert_pem ca_cert_pem))
      → (dial_and_ask rc w config identity g s).0
        ≡ ok (record { cert_pem = cert_pem; key_pem = g.key_pem; ca_cert_pem = ca_cert_pem })
  unfolding dial_and_ask release
  dial_and_ask-Granted identity g cert_pem ca_cert_pem granted s asked =
      let (fd, t, e) =
        connect-Granted w.io_text w.kernel (host_cid w.env) config.server_port config.client_port
          granted (released rc w config s).trace in
      ground (
        arith,
        e,
        on_stream-Granted identity g fd cert_pem ca_cert_pem granted
            (record (released rc w config s) { trace = t }) (asked fd t),
      )

module _ (rc : Rcgen) (w : World rc) (config : AgentConfig) (host_config : HostConfig)
    (made : CertificateAuthority) (now peer_cid room : ℕ) where
  -- If the kernel grants each call of the agent, hands each request that it writes to the
  -- host's handle_connection and hands back what that writes, the signing request of the
  -- identity is made, and the certificate request and the host's answer to it are encoded to
  -- at most 4 MiB, read back and have room, then request_cert_on_demand returns credentials
  -- exactly if their certificate is authorised (issued by sign_csr for that signing request,
  -- under a policy that lists the identity under the agent's VM name and that VM under the
  -- CID the host sees), the certificate of their authority is the host's, and their key is
  -- that of the signing request.
  pub request_iff :
      (identity : Text) (s : AgentState) (g : GeneratedCsr) (c : X509Credentials)
      (payload reply : Bytes)
      → Granted w.kernel
      → generate_csr rc (w.generated s.trace) identity ≡ ok g
      → Carries w.request_json
          (cert_request protocol_version config.vm_name identity g.csr_pem)
          payload
      → Carries w.response_json
          (answer rc w.io_text host_config made now peer_cid
            (cert_request protocol_version config.vm_name identity g.csr_pem))
          reply
      → length reply + 4 ≤ room
      → Wired rc w config host_config made now peer_cid room payload
      → (request_cert_on_demand rc w config identity s).0 ≡ ok c
        ↔ Authorised rc w.io_text host_config made now peer_cid
            (cert_request protocol_version config.vm_name identity g.csr_pem)
            c.cert_pem
          × (c.ca_cert_pem ≡ made.cert_pem)
          × (c.key_pem ≡ g.key_pem)
  unfolding request_cert_on_demand
  request_iff identity s g c payload reply granted generated asked answered fits wired = (
    request-Authorised rc w config host_config made now peer_cid room identity s g c payload reply
        generated asked answered fits wired,
    λ (authorised, ca, key).
        let req : AgentRequest = cert_request protocol_version config.vm_name identity g.csr_pem in
        let found =
          (answer-cert_ok_iff rc w.io_text host_config made now peer_cid req c.cert_pem
              c.ca_cert_pem).1
            (authorised, ca) in
        let served =
          dial_and_ask-Granted rc w config identity g c.cert_pem c.ca_cert_pem granted s (λ fd t.
            exchange-answer rc w.io_text w.request_json w.response_json host_config made now
              peer_cid w.kernel fd (lit "sending CertRequest") (lit "receiving AgentResponse") req
              payload reply room t asked answered (wired.wide t) fits (wired.hands fd t)
            ∙ ap ok found) in
        ground (arith, generated, served, key),
  )
