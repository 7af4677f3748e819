-- ===== src/Server/Config/Load.antt =====
-- Which configuration files are accepted.
use vm_authn_scope.Prelude.{◌<◌, [], ◌∷◌, ◌≡◌, ◌↔◌, refl, arith, Bool-cases, inl, inr, leb, All}
use vm_authn_scope.Prelude.Result.{Result, ok, map_err, ◌>>=◌, >>=-eq-ok, map_err-eq-ok}
use vm_authn_scope.Prelude.Errors.{IoError, io, json}
use vm_authn_scope.Prelude.Text.{Text}
use vm_authn_scope.Prelude.Dict.{Dict}
use vm_authn_scope.Proto.Wire.{SelectorConfig}
use vm_authn_scope.Server.Config.{
  IdentityPolicy, VmEntry, HostConfig, parse_selector, check_identities, check_vms, validate,
  from_file,
}

-- The selector of a policy can be parsed.
abbrev pub Parses : IdentityPolicy → Type 0
Parses policy = (c : SelectorConfig) × (parse_selector policy ≡ ok c)

abbrev pub AllParse : VmEntry → Type 0
AllParse vm = All (λ (e : Text × IdentityPolicy). Parses e.1) vm.identities

abbrev pub SelectorsParse : Dict VmEntry → Type 0
SelectorsParse = All (λ (e : Text × VmEntry). AllParse e.1)

check_identities_iff :
    (vm_name : Text) (d : Dict IdentityPolicy)
    → (check_identities vm_name d ≡ ok tt) ↔ All (λ (e : Text × IdentityPolicy). Parses e.1) d
unfolding check_identities
check_identities_iff vm_name [] = (λ _. tt, λ _. refl)
check_identities_iff vm_name ((name, policy) ∷ d) =
    let (sound, complete) = check_identities_iff vm_name d in
    (
      λ h.
          let (c, parsed, rest) = >>=-eq-ok (map_err _ (parse_selector policy)) _ h in
          ((c, map_err-eq-ok _ (parse_selector policy) parsed), sound rest),
      λ h. rw h.0.1 (complete h.1),
    )

check_vms_iff : (d : Dict VmEntry) → (check_vms d ≡ ok tt) ↔ SelectorsParse d
unfolding check_vms
check_vms_iff [] = (λ _. tt, λ _. refl)
check_vms_iff ((name, vm) ∷ d) =
    let (sound, complete) = check_vms_iff d in
    let (sound_vm, complete_vm) = check_identities_iff name vm.identities in
    (
      λ h.
          let (u, checked, rest) = >>=-eq-ok (check_identities name vm.identities) _ h in
          (sound_vm checked, sound rest),
      λ h. rw (complete_vm h.0) (complete h.1),
    )

validate_iff :
    (c cfg : HostConfig)
    → (validate c ≡ ok cfg) ↔ ((c ≡ cfg) × (c.server_port < 1000) × SelectorsParse c.vms)
unfolding validate
validate_iff c cfg = (
  λ h. elim (Bool-cases (leb 1000 c.server_port)) [
    | inl high ↦ absurd (cc (high, h))
    | inr low ↦
        let (u, checked, done) =
          >>=-eq-ok (check_vms c.vms) (λ _. ok c)
            (let k : (check_vms c.vms >>= λ _. ok c) ≡ ok cfg = rw low at h in k) in
        (cc done, ground arith, (check_vms_iff c.vms).0 checked)
  ],
  λ (same, low, parses). rw ((check_vms_iff c.vms).1 parses) (ground arith),
)

-- HostConfig::from_file returns a configuration exactly if the file can be read and decodes to
-- it, its port is below 1000, and the selectors of all identities of all VMs can be parsed.
pub from_file_iff :
    (read : Text → Result IoError Text) (from_str : Text → Result Text HostConfig) (path : Text)
    (cfg : HostConfig)
    → (from_file read from_str path ≡ ok cfg) ↔ (
        ((text : Text) × (read path ≡ ok text) × (from_str text ≡ ok cfg))
        × (cfg.server_port < 1000)
        × SelectorsParse cfg.vms)
unfolding from_file
from_file_iff read from_str path cfg = (
  λ h.
      let (text, reads, later) = >>=-eq-ok (map_err io (read path)) _ h in
      let (c, decodes, valid) = >>=-eq-ok (map_err json (from_str text)) _ later in
      let (same, low, parses) = (validate_iff c cfg).0 valid in
      (
        (
          text,
          map_err-eq-ok io (read path) reads,
          cc (map_err-eq-ok json (from_str text) decodes, same),
        ),
        rw (← same) low,
        rw (← same) parses,
      ),
  λ ((text, reads, decodes), low, parses).
      rw (reads, decodes) ((validate_iff cfg cfg).1 (refl, low, parses)),
)
