-- ===== src/Server/Policy.antt =====
-- apps/rust-apps/authn-scope-server/src/policy.rs: `resolve`.
pub mod Resolved
use vm_authn_scope.Prelude.{
  ℕ, suc, ◌*◌, ◌%◌, ◌^◌, ◌≤◌, ◌<◌, ◌≡◌, ◌↔◌, refl, Option, none, some, arith,
}
use vm_authn_scope.Prelude.Text.{Text}
use vm_authn_scope.Prelude.Dict.{Dict, lookup}
use vm_authn_scope.Server.Config.{HostConfig, VmEntry, IdentityPolicy}

pub record PolicyDecision : Type 0 where
  pub vm_name : Text
  pub vm_cid : ℕ
  pub ip : Option Text
  pub validity_seconds : ℕ

-- `policy.ttl_minutes * 60` in `u32`, which wraps around in a release build.
unfoldable pub ttl_seconds : ℕ → ℕ
ttl_seconds minutes = minutes * 60 % 2 ^ 32

decide : Text → VmEntry → Option IdentityPolicy → Option PolicyDecision
decide vm_name entry none = none
decide vm_name entry (some policy) = some (record {
  vm_name = vm_name;
  vm_cid = entry.vm_cid;
  ip = entry.ip;
  validity_seconds = ttl_seconds policy.ttl_minutes;
})

resolve_in : Text → Text → Option VmEntry → Option PolicyDecision
resolve_in vm_name identity none = none
resolve_in vm_name identity (some entry) = decide vm_name entry (lookup identity entry.identities)

unfoldable pub resolve : HostConfig → Text → Text → Option PolicyDecision
unfolding decide resolve_in
resolve config vm_name identity = resolve_in vm_name identity (lookup vm_name config.vms)

-- The validity in seconds is sixty times the minutes exactly up to 71582788 minutes, and less
-- than that for more.
pub ttl_seconds_exact :
    (minutes : ℕ)
    → ((ttl_seconds minutes ≡ minutes * 60) ↔ (minutes ≤ 71582788))
      × ((ttl_seconds minutes < minutes * 60) ↔ (71582788 < minutes))
unfolding ttl_seconds
ttl_seconds_exact minutes =
    ((λ h. omega arith, λ h. omega arith), (λ h. omega arith, λ h. omega arith))
