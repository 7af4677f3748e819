-- ===== src/Server/Handler/Answer/Collected.antt =====
-- The entries of the map that a handshake hands out.
use mathlib.Core.List.{Mem, mem-cons, not-mem-nil}
use mathlib.Core.Logic.Or
use mathlib.Core.Path.{subst}
use vm_authn_scope.Prelude.{
  ℕ, ◌≡◌, refl, ap, ◌∙◌, Option, none, some, [], ◌∷◌, arith, Option-cases, inl, inr, text_eq,
  Bool-cases, ◌!=◌, nat_eq,
}
use vm_authn_scope.Prelude.Result.{Result, ok, err, Result-cases}
use vm_authn_scope.Prelude.Text.{Text}
use vm_authn_scope.Prelude.Dict.{Dict, lookup, insert, NodupKeys, insert-NodupKeys}
use vm_authn_scope.Prelude.Errors.{IoError}
use vm_authn_scope.Proto.Wire.{
  AgentRequest, cert_request, handshake, handshake_ok, WorkloadConfig, protocol_version,
}
use vm_authn_scope.Ca.Rcgen.{Rcgen}
use vm_authn_scope.Ca.Authority.{CertificateAuthority}
use vm_authn_scope.Server.Config.{HostConfig, VmEntry, IdentityPolicy, parse_selector}
use vm_authn_scope.Server.Handler.{add_workload, collect_workloads, workload_of}
use vm_authn_scope.Server.Handler.Answer.{
  answer, answer_vm, answer_workloads, answer_policy, answer_signed,
}
use vm_authn_scope.Proto.Codec.Reordered.{HasMap}
use vm_authn_scope.Ca.Errors.{CaError}
use vm_authn_scope.Server.Policy.{PolicyDecision}
use vm_authn_scope.Server.Handler.Answer.Handshake.{granted}

WorkloadConfig_IsSet : IsSet (Option WorkloadConfig)
WorkloadConfig_IsSet = hlevel

-- With distinct keys, an entry is what its key is looked up as.
pub Mem-lookup :
    (name : Text) (config : WorkloadConfig) (ws : Dict WorkloadConfig)
    → NodupKeys ws
    → Mem (name, config) ws
    → lookup name ws ≡ some config
unfolding lookup
Mem-lookup name config [] u m = absurd (not-mem-nil m)
Mem-lookup name config ((k, c) ∷ ws) (fresh, u) m =
    Or.elim (WorkloadConfig_IsSet _ _) (mem-cons.0 m)
      (λ e. ground (arith, ap (λ p. p.0) e, ap (λ p. p.1) e))
      (λ later. ground (arith, fresh, Mem-lookup name config ws u later))

pub collect-NodupKeys :
    (d : Dict IdentityPolicy) (acc : Dict WorkloadConfig) {ws : Dict WorkloadConfig}
    → NodupKeys acc
    → collect_workloads d acc ≡ ok ws
    → NodupKeys ws
unfolding collect_workloads add_workload
collect-NodupKeys [] acc {ws} u e = let same : acc ≡ ws = cc (e) in subst NodupKeys same u
collect-NodupKeys ((k, policy) ∷ d) acc u e = elim (Result-cases (parse_selector policy)) [
  | inl (selector, parsed) ↦
      collect-NodupKeys d (insert k (workload_of selector policy) acc)
        (insert-NodupKeys k (workload_of selector policy) acc u) (rw parsed at e)
  | inr (x, fails) ↦ absurd (cc (rw fails at e))
]

pub granted-eq-some :
    (o : Option IdentityPolicy) {config : WorkloadConfig}
    → granted o ≡ some config
    → (policy : IdentityPolicy) × (o ≡ some policy) × (parse_selector policy ≡ ok config.selector)
granted-eq-some none e = absurd (cc (e))
granted-eq-some (some policy) {config} e = elim (Result-cases (parse_selector policy)) [
  | inl (selector, parsed) ↦
      let same : workload_of selector policy ≡ config = cc (rw parsed at e) in
      (policy, refl, parsed ∙ ap ok (ap (λ (c : WorkloadConfig). c.selector) same))
  | inr (x, fails) ↦ absurd (cc (rw fails at e))
]

module _ (rc : Rcgen) (io_text : IoError → Text) (config : HostConfig) (made : CertificateAuthority)
    (now peer_cid : ℕ) (vm_name : Text) where
  pub answer_handshake-eq :
      (ws : Dict WorkloadConfig)
      → answer rc io_text config made now peer_cid (handshake protocol_version vm_name)
        ≡ handshake_ok ws
      → (entry : VmEntry) × (lookup vm_name config.vms ≡ some entry)
        × (entry.vm_cid ≡ peer_cid)
        × (collect_workloads entry.identities [] ≡ ok ws)
  unfolding answer answer_vm answer_workloads
  answer_handshake-eq ws e = elim (Option-cases (lookup vm_name config.vms)) [
    | inl unknown ↦ absurd (ground (arith, unknown))
    | inr (entry, found) ↦ (entry, found, ground (arith, found), ground (arith, found))
  ]

  answer_vm-HasMap :
      (o : Option VmEntry) → HasMap (answer_vm rc io_text config made now peer_cid vm_name o)
  unfolding answer_vm answer_workloads
  answer_vm-HasMap none = tt
  answer_vm-HasMap (some entry) = elim (Bool-cases (entry.vm_cid != peer_cid)) [
    | inl other ↦ rw other tt
    | inr same ↦ elim (Result-cases (collect_workloads entry.identities [])) [
      | inl (ws, collected) ↦
          rw same (rw collected (collect-NodupKeys entry.identities [] tt collected))
      | inr (msg, fails) ↦ rw same (rw fails tt)
    ]
  ]

module _ (rc : Rcgen) (io_text : IoError → Text) (config : HostConfig) (made : CertificateAuthority)
    (now peer_cid : ℕ) where
  answer_signed-HasMap :
      (r : Result CaError Text) → HasMap (answer_signed rc io_text config made now peer_cid r)
  unfolding answer_signed
  answer_signed-HasMap (ok cert_pem) = tt
  answer_signed-HasMap (err e) = tt

  answer_policy-HasMap :
      (vm_name identity csr_pem : Text) (o : Option PolicyDecision)
      → HasMap (answer_policy rc io_text config made now peer_cid vm_name identity csr_pem o)
  unfolding answer_policy
  answer_policy-HasMap vm_name identity csr_pem none = tt
  answer_policy-HasMap vm_name identity csr_pem (some d) =
      elim (Bool-cases (d.vm_cid != peer_cid)) [
        | inl other ↦ rw other tt
        | inr same ↦ rw same (answer_signed-HasMap _)
      ]

  -- The workloads of an answer are a map.
  pub answer-HasMap : (req : AgentRequest) → HasMap (answer rc io_text config made now peer_cid req)
  unfolding answer
  answer-HasMap (handshake version vm_name) = elim (Bool-cases (version != protocol_version)) [
    | inl other ↦ rw other tt
    | inr same ↦
        rw same
          (answer_vm-HasMap rc io_text config made now peer_cid vm_name (lookup vm_name config.vms))
  ]
  answer-HasMap (cert_request version vm_name identity csr_pem) =
      elim (Bool-cases (version != protocol_version)) [
        | inl other ↦ rw other tt
        | inr same ↦ rw same (answer_policy-HasMap vm_name identity csr_pem _)
      ]
