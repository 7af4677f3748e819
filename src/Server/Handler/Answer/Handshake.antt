-- ===== src/Server/Handler/Answer/Handshake.antt =====
-- What a handshake hands out.
use vm_authn_scope.Prelude.{
  ℕ, ◌≡◌, refl, ◌∙◌, Option, none, some, [], ◌∷◌, arith, All, Option-cases, inl, inr, nat_eq,
  text_eq,
}
use vm_authn_scope.Prelude.Result.{Result, ok, err}
use vm_authn_scope.Prelude.Text.{Text}
use vm_authn_scope.Prelude.Dict.{Dict, lookup, insert, NodupKeys, lookup-insert, lookup-All}
use vm_authn_scope.Prelude.Errors.{IoError}
use vm_authn_scope.Proto.Wire.{
  AgentRequest, handshake, cert_request, handshake_ok, WorkloadConfig, SelectorConfig,
  protocol_version,
}
use vm_authn_scope.Ca.Rcgen.{Rcgen}
use vm_authn_scope.Ca.Authority.{CertificateAuthority}
use vm_authn_scope.Server.Config.{HostConfig, VmEntry, IdentityPolicy, parse_selector}
use vm_authn_scope.Server.Config.Load.{Parses, AllParse, SelectorsParse}
use vm_authn_scope.Server.Handler.{add_workload, collect_workloads, workload_of}
use vm_authn_scope.Server.Handler.Answer.{
  answer, answer_vm, answer_policy, answer_workloads, answer_signed,
}

abbrev pub granted_as : IdentityPolicy → Result Text SelectorConfig → Option WorkloadConfig
granted_as policy (ok selector) = some (workload_of selector policy)
granted_as policy (err e) = none

-- What an agent is told of an identity: its selector and its validity, if it is listed.
abbrev pub granted : Option IdentityPolicy → Option WorkloadConfig
granted none = none
granted (some policy) = granted_as policy (parse_selector policy)

abbrev pub or_else : Option IdentityPolicy → Option WorkloadConfig → Option WorkloadConfig
or_else none old = old
or_else (some policy) old = granted (some policy)

pub lookup-collect :
    (d : Dict IdentityPolicy) (acc : Dict WorkloadConfig) (name : Text) {ws : Dict WorkloadConfig}
    → NodupKeys d
    → collect_workloads d acc ≡ ok ws
    → lookup name ws ≡ or_else (lookup name d) (lookup name acc)
unfolding collect_workloads add_workload lookup
lookup-collect [] acc name u e = ground arith
lookup-collect ((k, policy) ∷ d) acc name {ws} (fresh, u) e =
    go (parse_selector policy) refl (λ acc'. lookup-collect d acc' name u)
  where
    go :
        (r : Result Text SelectorConfig)
        → parse_selector policy ≡ r
        → ((acc' : Dict WorkloadConfig)
            → collect_workloads d acc' ≡ ok ws
            → lookup name ws ≡ or_else (lookup name d) (lookup name acc'))
        → lookup name ws ≡ or_else (lookup name ((k, policy) ∷ d)) (lookup name acc)
    go (err x) parsed ih = absurd (ground (arith, parsed, e))
    go (ok selector) parsed ih =
        let later : collect_workloads d (insert k (workload_of selector policy) acc) ≡ ok ws =
          ground (arith, parsed, e) in
        ground
          (arith, parsed, fresh, ih _ later, lookup-insert name k (workload_of selector policy) acc)

collect_total :
    (d : Dict IdentityPolicy) (acc : Dict WorkloadConfig)
    → All (λ (e : Text × IdentityPolicy). Parses e.1) d
    → (ws : Dict WorkloadConfig) × (collect_workloads d acc ≡ ok ws)
unfolding collect_workloads add_workload
collect_total [] acc h = (acc, refl)
collect_total ((k, policy) ∷ d) acc ((selector, parsed), h) =
    let (ws, e) = collect_total d (insert k (workload_of selector policy) acc) h in
    (ws, rw parsed e)

module _ (rc : Rcgen) (io_text : IoError → Text) (config : HostConfig) (made : CertificateAuthority)
    (now peer_cid : ℕ) where
  -- Where all selectors of the configuration can be parsed, a handshake of the right version
  -- from the CID of a registered VM whose identities are distinct is answered with a map that
  -- has, for each name, the parsed selector and the validity of the identity listed under
  -- that VM, and nothing for a name that is not listed.
  pub answer_handshake :
      (vm_name : Text) (entry : VmEntry)
      → SelectorsParse config.vms
      → lookup vm_name config.vms ≡ some entry
      → entry.vm_cid ≡ peer_cid
      → NodupKeys entry.identities
      → (workloads : Dict WorkloadConfig) × (answer rc io_text config made now peer_cid
            (handshake protocol_version vm_name)
          ≡ handshake_ok workloads)
        × ((name : Text) → lookup name workloads ≡ granted (lookup name entry.identities))
  unfolding answer answer_vm answer_workloads
  answer_handshake vm_name entry parses registered from_vm u =
      let (ws, collected) =
        collect_total entry.identities []
          (lookup-All AllParse vm_name config.vms parses registered) in
      (
        ws,
        ground (arith, registered, from_vm, collected),
        λ name. lookup-collect entry.identities [] name u collected ∙ unfold lookup in ground arith,
      )

  -- If the answer is a list of workloads then the request is a handshake of the right version
  -- for a registered VM whose CID is that of the peer.
  pub answer-handshake_ok :
      (req : AgentRequest) (workloads : Dict WorkloadConfig)
      → answer rc io_text config made now peer_cid req ≡ handshake_ok workloads
      → (vm_name : Text) × (entry : VmEntry) × (req ≡ handshake protocol_version vm_name)
        × (lookup vm_name config.vms ≡ some entry)
        × (entry.vm_cid ≡ peer_cid)
  unfolding answer answer_vm answer_policy answer_signed
  answer-handshake_ok (handshake version vm_name) workloads e =
      elim (Option-cases (lookup vm_name config.vms)) [
        | inl unknown ↦ absurd (ground (arith, unknown))
        | inr (entry, found) ↦ (vm_name, entry, ground (arith, found), found, ground (arith, found))
      ]
  answer-handshake_ok (cert_request version vm_name identity csr_pem) workloads e =
      absurd (ground arith)
