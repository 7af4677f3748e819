-- ===== src/Agent/Match/Hosted.antt =====
-- The handshake and the agent's matching together: what is known of a process that is matched with
-- one of the workloads of a handshake.

use vm_authn_scope.Prelude.{ℕ, ◌≡◌, true, some, [], arith, text_eq}
use vm_authn_scope.Prelude.Result.{ok}
use vm_authn_scope.Prelude.Text.{Text}
use vm_authn_scope.Prelude.Dict.{Dict, lookup, NodupKeys}
use vm_authn_scope.Prelude.Errors.{IoError}
use vm_authn_scope.Proto.Wire.{
  handshake, handshake_ok, WorkloadConfig, SelectorConfig, protocol_version,
}
use vm_authn_scope.Ca.Rcgen.{Rcgen}
use vm_authn_scope.Ca.Authority.{CertificateAuthority}
use vm_authn_scope.Server.Config.{HostConfig, VmEntry, IdentityPolicy, parse_selector}
use vm_authn_scope.Server.Handler.Answer.{answer}
use vm_authn_scope.Server.Handler.Answer.Collected.{
  Mem-lookup, granted-eq-some, answer_handshake-eq,
}
use vm_authn_scope.Server.Handler.Answer.Handshake.{granted, lookup-collect}
use vm_authn_scope.Agent.Match.{Users, Process, match_workload}
use vm_authn_scope.Agent.Match.Fits.{fits}
use vm_authn_scope.Agent.Match.Best.{match_workload-best}

module _ (config : HostConfig) (peer_cid : ℕ) (vm_name : Text) where
  -- The host lists the identity under the VM, whose CID is that of the peer, and the process has
  -- what the identity's selector wants.
  pub record Selected (users : Users) (proc : Process) (identity : Text) : Type 0 where
    pub entry : VmEntry
    pub policy : IdentityPolicy
    pub selector : SelectorConfig
    pub registered : lookup vm_name config.vms ≡ some entry
    pub from_vm : entry.vm_cid ≡ peer_cid
    pub listed : lookup identity entry.identities ≡ some policy
    pub parsed : parse_selector policy ≡ ok selector
    pub has : fits users proc selector ≡ true

  -- `HashMap`s have distinct keys.
  abbrev pub HasDistinct : Type 0
  HasDistinct =
      (entry : VmEntry) → lookup vm_name config.vms ≡ some entry → NodupKeys entry.identities

  pub handshake-Selected :
      (rc : Rcgen) (io_text : IoError → Text) (made : CertificateAuthority) (now : ℕ)
      (users : Users) (proc : Process) (identity : Text) (ws read : Dict WorkloadConfig)
      → HasDistinct
      → answer rc io_text config made now peer_cid (handshake protocol_version vm_name)
        ≡ handshake_ok ws
      → NodupKeys read
      → ((name : Text) → lookup name read ≡ lookup name ws)
      → match_workload users proc read ≡ some identity
      → Selected users proc identity
  unfolding lookup
  handshake-Selected rc io_text made now users proc identity ws read distinct answered nodup same
        matched =
      let (entry, registered, from_vm, collected) =
        answer_handshake-eq rc io_text config made now peer_cid vm_name ws answered in
      let (c, mem, has, above) = match_workload-best users proc read matched in
      let found = Mem-lookup identity c read nodup mem in
      let told =
        lookup-collect entry.identities [] identity (distinct entry registered) collected in
      let grant : granted (lookup identity entry.identities) ≡ some c =
        ground (arith, told, same identity, found) in
      let (policy, listed, parsed) = granted-eq-some (lookup identity entry.identities) grant in
      record {
        entry = entry;
        policy = policy;
        selector = c.selector;
        registered = registered;
        from_vm = from_vm;
        listed = listed;
        parsed = parsed;
        has = has;
      }
