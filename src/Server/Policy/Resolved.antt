-- ===== src/Server/Policy/Resolved.antt =====
-- When a VM and an identity are authorised.
use vm_authn_scope.Prelude.{◌≡◌, ◌↔◌, refl, Option, none, some}
use vm_authn_scope.Prelude.Text.{Text}
use vm_authn_scope.Prelude.Dict.{lookup}
use vm_authn_scope.Server.Config.{HostConfig, VmEntry, IdentityPolicy}
use vm_authn_scope.Server.Policy.{PolicyDecision, decide, resolve_in, resolve, ttl_seconds}

-- A decision comes from the entry of the VM and the policy of the identity under it.
pub record Resolved (config : HostConfig) (vm_name identity : Text) (d : PolicyDecision)
    : Type 0 where
  pub entry : VmEntry
  pub policy : IdentityPolicy
  pub registered : lookup vm_name config.vms ≡ some entry
  pub listed : lookup identity entry.identities ≡ some policy
  pub decision : d ≡ record {
    vm_name = vm_name;
    vm_cid = entry.vm_cid;
    ip = entry.ip;
    validity_seconds = ttl_seconds policy.ttl_minutes;
  }

decide-Resolved :
    (config : HostConfig) (vm_name identity : Text) (entry : VmEntry) (o : Option IdentityPolicy)
    {d : PolicyDecision}
    → lookup vm_name config.vms ≡ some entry
    → lookup identity entry.identities ≡ o
    → decide vm_name entry o ≡ some d
    → Resolved config vm_name identity d
unfolding decide
decide-Resolved config vm_name identity entry none r l e = absurd (cc)
decide-Resolved config vm_name identity entry (some policy) r l e = record {
  entry = entry;
  policy = policy;
  registered = r;
  listed = l;
  decision = cc;
}

resolve_in-Resolved :
    (config : HostConfig) (vm_name identity : Text) (o : Option VmEntry) {d : PolicyDecision}
    → lookup vm_name config.vms ≡ o
    → resolve_in vm_name identity o ≡ some d
    → Resolved config vm_name identity d
unfolding resolve_in
resolve_in-Resolved config vm_name identity none r e = absurd (cc)
resolve_in-Resolved config vm_name identity (some entry) r e =
    decide-Resolved config vm_name identity entry (lookup identity entry.identities) r refl e

-- resolve returns a decision exactly if the VM is registered and the identity listed under it,
-- and the decision has the CID and address of the VM and the validity of the identity.
pub resolve_iff :
    (config : HostConfig) (vm_name identity : Text) (d : PolicyDecision)
    → (resolve config vm_name identity ≡ some d) ↔ Resolved config vm_name identity d
unfolding resolve
resolve_iff config vm_name identity d = (
  resolve_in-Resolved config vm_name identity (lookup vm_name config.vms) refl,
  λ r. unfold resolve_in decide in rw (r.registered, r.listed, r.decision),
)
