-- ===== src/Agent/Api/Hosted.antt =====
-- The whole system: processes, the agent with its Workload API, and the host.
use vm_authn_scope.Prelude.{ℕ, ◌≡◌, some, inl, inr, All, All-mono}
use vm_authn_scope.Prelude.Result.{ok}
use vm_authn_scope.Prelude.Text.{Text, lit}
use vm_authn_scope.Prelude.Dict.{Dict}
use vm_authn_scope.Proto.Wire.{
  cert_request, handshake, WorkloadConfig, handshake_ok, protocol_version,
}
use vm_authn_scope.Proto.Codec.Lawful.{Lawful}
use vm_authn_scope.Proto.Codec.Reordered.{Alike-cert_ok, Alike-handshake_ok, Readable}
use vm_authn_scope.Ca.Rcgen.{Rcgen}
use vm_authn_scope.Ca.Authority.{CertificateAuthority}
use vm_authn_scope.X509.{X509}
use vm_authn_scope.Server.Config.{HostConfig}
use vm_authn_scope.Server.Handler.Answer.Authorised.{Authorised, answer-cert_ok_iff}
use vm_authn_scope.Server.Handler.Answer.Written.{Allowed}
use vm_authn_scope.Agent.Config.{AgentConfig}
use vm_authn_scope.Agent.Csr.{GeneratedCsr, generate_csr}
use vm_authn_scope.Agent.Kernel.{Trace}
use vm_authn_scope.Agent.Exchange.Allowed.{Transport, exchange-Answers}
use vm_authn_scope.Agent.Match.{Users, Process, match_workload}
use vm_authn_scope.Agent.Match.Hosted.{Selected, HasDistinct, handshake-Selected}
use vm_authn_scope.Agent.Request.{X509Credentials, AgentState, World}
use vm_authn_scope.Agent.Cache.Vouched.{Vouched}
use vm_authn_scope.Agent.Startup.{run_agent, greet}
use vm_authn_scope.Agent.Startup.Cost.{run_agent-eq-ok}
use vm_authn_scope.Agent.Api.{Api, opened, Reach}
use vm_authn_scope.Agent.Api.Disclosed.{Disclosure, IsServed, IsServed-mono}
use vm_authn_scope.Agent.Api.Served.{run_agent-IsSafe}

module _ (rc : Rcgen) (xp : X509) (w : World rc) (config : AgentConfig) (host_config : HostConfig)
    (made : CertificateAuthority) (peer_cid : ℕ) where
  -- The host's authority signed the certificate at some time, on the grounds of its policy, for a
  -- signing request of the agent, whose key comes with it.
  pub record Issued (identity : Text) (creds : X509Credentials) : Type 0 where
    pub now : ℕ
    pub made_at : Trace
    pub csr : GeneratedCsr
    pub generated : generate_csr rc (w.generated made_at) identity ≡ ok csr
    pub authorised :
        Authorised rc w.io_text host_config made now peer_cid
          (cert_request protocol_version config.vm_name identity csr.csr_pem)
          creds.cert_pem
    pub same_ca : creds.ca_cert_pem ≡ made.cert_pem
    pub own_key : creds.key_pem ≡ csr.key_pem

  -- A process with what the host wants of the identity, and credentials that the host issued.
  abbrev pub IsEntitled : Disclosure
  IsEntitled users proc identity creds =
      Selected host_config peer_cid config.vm_name users proc identity × Issued identity creds

  -- The libraries read back what they write, and the kernel connects the agent to the host.
  pub record Connected : Type 0 where
    pub requests : Lawful w.request_json
    pub responses : Readable w.response_json
    pub transport :
        Transport rc w.io_text w.request_json w.response_json host_config made peer_cid w.kernel

  Vouched-Issued :
      (identity : Text) (creds : X509Credentials)
      → Connected
      → Vouched rc w config identity creds
      → Issued identity creds
  unfolding Allowed
  Vouched-Issued identity creds net (t, origin) =
      elim (exchange-Answers rc w.io_text w.request_json w.response_json host_config made peer_cid
        w.kernel origin.fd (lit "sending CertRequest") (lit "receiving AgentResponse")
        (cert_request protocol_version config.vm_name identity origin.csr.csr_pem) origin.at_dial _
        net.transport net.requests net.responses origin.answered) [
          | inl alike ↦
              let (authorised, same_ca) =
                (answer-cert_ok_iff rc w.io_text host_config made
                    (net.transport.time origin.at_dial) peer_cid
                    (cert_request protocol_version config.vm_name identity origin.csr.csr_pem)
                    creds.cert_pem creds.ca_cert_pem).0
                  (Alike-cert_ok _ creds.cert_pem creds.ca_cert_pem alike) in
              record {
                now = net.transport.time origin.at_dial;
                made_at = t;
                csr = origin.csr;
                generated = origin.fresh;
                authorised = authorised;
                same_ca = same_ca;
                own_key = origin.own_key;
              }
          | inr (msg, wrong) ↦ absurd (cc (wrong))
        ]

  greet-Selected :
      (fd : ℕ) (t : Trace) (workloads : Dict WorkloadConfig) (users : Users) (proc : Process)
      (identity : Text)
      → Connected
      → HasDistinct host_config peer_cid config.vm_name
      → (greet rc w config fd t).0 ≡ ok (handshake_ok workloads)
      → match_workload users proc workloads ≡ some identity
      → Selected host_config peer_cid config.vm_name users proc identity
  unfolding Allowed
  greet-Selected fd t workloads users proc identity net distinct greeted matched =
      elim (exchange-Answers rc w.io_text w.request_json w.response_json host_config made peer_cid
        w.kernel fd (lit "sending handshake request") (lit "receiving handshake response")
        (handshake protocol_version config.vm_name) t _ net.transport net.requests net.responses
        greeted) [
          | inl alike ↦
              let (ws, answered, nodup, same) = Alike-handshake_ok _ workloads alike in
              handshake-Selected host_config peer_cid config.vm_name rc w.io_text made
                (net.transport.time t) users proc identity ws workloads distinct answered nodup same
                matched
          | inr (msg, wrong) ↦ absurd (cc (wrong))
        ]

  -- If the kernel hands each request of the agent to the host's handle_connection, at some
  -- time and from one CID, and hands back all that it writes, serde_json reads back what it
  -- writes, the entries of a map in any order, and writes less than 4 GiB, the identities of
  -- the VM are distinct, and the start of the agent succeeds, then in every state that its
  -- Workload API reaches, each connection that ended was sent nothing, or one response as far
  -- as there was room, which is an error or credentials of an identity such that the host
  -- lists that identity under the agent's VM name, whose CID is that of the agent, the
  -- process with the peer's credentials, as /proc showed it under the peer's process id when
  -- the connection ran, has what the identity's selector in the host's configuration wants,
  -- sign_csr issued the certificate for that identity with the host's authority on the
  -- grounds of its policy, and the key is that of the signing request.
  pub run_agent-IsEntitled :
      (t : Trace) (agent : AgentState) (api : Api)
      → Connected
      → HasDistinct host_config peer_cid config.vm_name
      → (run_agent rc w config t).0 ≡ ok agent
      → Reach rc xp w config (opened agent) api
      → All (IsServed IsEntitled agent.workloads) api.ended
  run_agent-IsEntitled t agent api net distinct started reached =
      let (listening, empty, (fd, at, greeted)) = run_agent-eq-ok rc w config t started in
      let safe = run_agent-IsSafe rc xp w config t agent api started reached in
      All-mono _ _ api.ended
        (IsServed-mono _ IsEntitled agent.workloads (λ users proc identity creds matched vouched. (
          greet-Selected fd at agent.workloads users proc identity net distinct greeted matched,
          Vouched-Issued identity creds net vouched,
        )))
        safe.ended_served
