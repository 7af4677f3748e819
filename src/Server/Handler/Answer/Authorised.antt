-- ===== src/Server/Handler/Answer/Authorised.antt =====
-- Who gets a certificate, and what a handshake hands out.
use mathlib.Core.Path.{subst}
use vm_authn_scope.Prelude.{ℕ, ◌≡◌, ◌↔◌, refl, Option, none, some, arith, nat_eq}
use vm_authn_scope.Prelude.Result.{ok}
use vm_authn_scope.Prelude.Text.{Text}
use vm_authn_scope.Prelude.Dict.{lookup}
use vm_authn_scope.Prelude.Errors.{IoError}
use vm_authn_scope.Proto.Wire.{AgentRequest, handshake, cert_request, cert_ok, protocol_version}
use vm_authn_scope.Ca.Rcgen.{Rcgen}
use vm_authn_scope.Ca.Authority.{CertificateAuthority}
use vm_authn_scope.Ca.Signing.{sign_csr}
use vm_authn_scope.Server.Config.{HostConfig, VmEntry, IdentityPolicy}
use vm_authn_scope.Server.Policy.{PolicyDecision, resolve, ttl_seconds}
use vm_authn_scope.Server.Policy.Resolved.{resolve_iff}
use vm_authn_scope.Server.Handler.{signing_request}
use vm_authn_scope.Server.Handler.Answer.{answer, answer_policy, answer_signed}

module _ (rc : Rcgen) (io_text : IoError → Text) (config : HostConfig) (made : CertificateAuthority)
    (now peer_cid : ℕ) where
  -- The grounds on which a certificate is issued.
  pub record Authorised (req : AgentRequest) (cert_pem : Text) : Type 0 where
    pub vm_name : Text
    pub identity : Text
    pub csr_pem : Text
    pub entry : VmEntry
    pub policy : IdentityPolicy
    pub is_request : req ≡ cert_request protocol_version vm_name identity csr_pem
    pub registered : lookup vm_name config.vms ≡ some entry
    pub from_vm : entry.vm_cid ≡ peer_cid
    pub listed : lookup identity entry.identities ≡ some policy
    pub signed :
        sign_csr rc made now (record {
          csr_pem = csr_pem;
          identity = identity;
          vm_name = vm_name;
          cid = peer_cid;
          ip = entry.ip;
          validity_seconds = ttl_seconds policy.ttl_minutes;
        })
        ≡ ok cert_pem

  -- The part of the decision behind the policy lookup.
  answer_policy-cert_ok :
      (vm_name identity csr_pem : Text) (o : Option PolicyDecision) (cert_pem ca_cert_pem : Text)
      → (answer_policy rc io_text config made now peer_cid vm_name identity csr_pem o
          ≡ cert_ok cert_pem ca_cert_pem)
      → (d : PolicyDecision) × (o ≡ some d)
        × (d.vm_cid ≡ peer_cid)
        × (sign_csr rc made now (signing_request peer_cid d identity csr_pem) ≡ ok cert_pem)
        × (ca_cert_pem ≡ made.cert_pem)
  unfolding answer_policy answer_signed
  answer_policy-cert_ok vm_name identity csr_pem none cert_pem ca_cert_pem e = absurd (ground arith)
  answer_policy-cert_ok vm_name identity csr_pem (some d) cert_pem ca_cert_pem e =
      (d, refl, ground arith, ground arith, ground arith)

  answer-Authorised :
      (req : AgentRequest) (cert_pem ca_cert_pem : Text)
      → answer rc io_text config made now peer_cid req ≡ cert_ok cert_pem ca_cert_pem
      → Authorised req cert_pem × (ca_cert_pem ≡ made.cert_pem)
  unfolding answer
  answer-Authorised (handshake version vm_name) cert_pem ca_cert_pem e = absurd (ground arith)
  answer-Authorised (cert_request version vm_name identity csr_pem) cert_pem ca_cert_pem e =
      let right : version ≡ protocol_version = ground arith in
      let (d, found, from_vm, signed, same) =
        answer_policy-cert_ok vm_name identity csr_pem (resolve config vm_name identity) cert_pem
          ca_cert_pem (ground arith) in
      let r = (resolve_iff config vm_name identity d).0 found in
      (
        record {
          vm_name = vm_name;
          identity = identity;
          csr_pem = csr_pem;
          entry = r.entry;
          policy = r.policy;
          is_request = rw right;
          registered = r.registered;
          from_vm = cc (from_vm, r.decision);
          listed = r.listed;
          signed =
              subst
                (λ d.
                  sign_csr rc made now (signing_request peer_cid d identity csr_pem) ≡ ok cert_pem)
                r.decision signed;
        },
        same,
      )

  -- The answer is a certificate exactly if the request is a certificate request of the right
  -- version, its VM is registered with the CID of the peer, its identity is listed under that
  -- VM, and sign_csr returns the certificate for the request's CSR with the address and
  -- validity of the policy; the certificate of the authority comes with it.
  pub answer-cert_ok_iff :
      (req : AgentRequest) (cert_pem ca_cert_pem : Text)
      → (answer rc io_text config made now peer_cid req ≡ cert_ok cert_pem ca_cert_pem)
        ↔ (Authorised req cert_pem × (ca_cert_pem ≡ made.cert_pem))
  unfolding answer answer_policy answer_signed
  answer-cert_ok_iff req cert_pem ca_cert_pem = (
    answer-Authorised req cert_pem ca_cert_pem,
    λ (a, same).
        let found = (resolve_iff config a.vm_name a.identity _).1 (record {
          entry = a.entry;
          policy = a.policy;
          registered = a.registered;
          listed = a.listed;
          decision = refl;
        }) in
        rw a.is_request (rw found (ground (arith, a.signed, a.from_vm, same))),
  )
