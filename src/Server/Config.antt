-- ===== src/Server/Config.antt =====
-- apps/rust-apps/authn-scope-server/src/config.rs: the host configuration and the selectors in it.
-- The file system and `serde_json` are parameters of `from_file`.
pub mod Selector
pub mod RoundTrip
pub mod Load
use vm_authn_scope.Prelude.{
  ℕ, Bool, true, false, ◌&&◌, ◌||◌, Option, none, some, List, [], ◌∷◌, ◌++◌, leb, if◌then◌else◌,
  ◌==◌, text_eq, text_dec,
}
use vm_authn_scope.Prelude.Result.{Result, ok, err, ◌>>=◌, map_err}
use vm_authn_scope.Prelude.Errors.{IoError, Error, io, json, message}
use vm_authn_scope.Prelude.Text.{Text, lit, trim, split, splitn, show, is_some, is_none}
use vm_authn_scope.Prelude.Dict.{Dict}
use vm_authn_scope.Proto.Wire.{
  UnixSelector, SystemdSelector, SelectorConfig, default_unix, default_systemd,
}

pub record IdentityPolicy : Type 0 where
  pub selector : Text
  pub ttl_minutes : ℕ

pub record VmEntry : Type 0 where
  pub vm_cid : ℕ
  pub ip : Option Text
  pub identities : Dict IdentityPolicy

pub record HostConfig : Type 0 where
  pub ca_cert_path : Text
  pub ca_key_path : Text
  pub server_port : ℕ
  pub vms : Dict VmEntry
  pub peer_port : ℕ

-- The variables of the loop in `parse_selector`.
pub record Parsing : Type 0 where
  pub unix : UnixSelector
  pub systemd : SystemdSelector
  pub has_unix : Bool
  pub has_systemd : Bool

abbrev pub start : Parsing
start = record {
  unix = default_unix;
  systemd = default_systemd;
  has_unix = false;
  has_systemd = false;
}

unfoldable pub invalid_component : Text → Text
invalid_component part = lit "Invalid selector component: '" ++ (part ++ lit "'")

unfoldable pub unknown_component : Text → Text
unknown_component part = lit "Unknown selector component: '" ++ (part ++ lit "'")

unfoldable pub bin_unattached : Text
bin_unattached =
    lit
      "if bin-path is specified then it must be attached to a user:group (both unix:user and unix:group must be present)"

-- The five fields that a component can set.
pub data Field : Type 0 where
  unix_user unix_group unix_bin systemd_unitname systemd_unitpath : Field

-- `match (domain, key)`
field : Text → Text → Option Field
field domain key =
    if domain == lit "unix" && key == lit "user"
    then some unix_user
    else if domain == lit "unix" && key == lit "group"
    then some unix_group
    else if domain == lit "unix" && key == lit "bin"
    then some unix_bin
    else if domain == lit "systemd" && key == lit "unitname"
    then some systemd_unitname
    else if domain == lit "systemd" && key == lit "unitpath"
    then some systemd_unitpath
    else none

-- The arms of that match.
pub assign : Field → Text → Parsing → Parsing
assign unix_user value p =
    let u = p.unix in record p { unix = record u { user = some value }; has_unix = true }
assign unix_group value p =
    let u = p.unix in record p { unix = record u { group = some value }; has_unix = true }
assign unix_bin value p =
    let u = p.unix in record p { unix = record u { bin_path = some value }; has_unix = true }
assign systemd_unitname value p =
    let s = p.systemd in
    record p { systemd = record s { unitname = some value }; has_systemd = true }
assign systemd_unitpath value p =
    let s = p.systemd in
    record p { systemd = record s { unitpath = some value }; has_systemd = true }

assign_known : Text → Option Field → Text → Parsing → Result Text Parsing
assign_known part none value p = err (unknown_component part)
assign_known part (some f) value p = ok (assign f value p)

subparts : Text → List Text → Parsing → Result Text Parsing
subparts part (domain ∷ key ∷ value ∷ _) p = assign_known part (field domain key) value p
subparts part _ p = err (invalid_component part)

-- One round of the loop.
pub component : Text → Parsing → Result Text Parsing
unfolding subparts assign_known
component raw p =
    let part = trim raw in if part == [] then ok p else subparts part (splitn 3 b':' part) p

components : List Text → Parsing → Result Text Parsing
components [] p = ok p
components (raw ∷ rest) p = do p' ← component raw p; components rest p'

-- The test behind the loop, and the result.
finish : Parsing → Result Text SelectorConfig
finish p =
    if is_some p.unix.bin_path && (is_none p.unix.user || is_none p.unix.group)
    then err bin_unattached
    else ok (record {
      unix = if p.has_unix then some p.unix else none;
      systemd = if p.has_systemd then some p.systemd else none;
    })

unfoldable pub parse_text : Text → Result Text SelectorConfig
unfolding components component finish field assign
parse_text s = do p ← components (split b',' s) start; finish p

abbrev pub parse_selector : IdentityPolicy → Result Text SelectorConfig
parse_selector policy = parse_text policy.selector

unfoldable pub selector_error : Text → Text → Text → Text
selector_error vm_name workload_name e =
    lit "VM '"
    ++ (vm_name ++ (lit "' workload '" ++ (workload_name ++ (lit "' selector error: " ++ e))))

-- "server_port must be less than 1000, got {}"
unfoldable pub port_error : ℕ → Text
port_error port = lit "server_port must be less than 1000, got " ++ show port

-- The two nested loops over all selectors.
check_identities : Text → Dict IdentityPolicy → Result Error (Unit {0})
check_identities vm_name [] = ok tt
check_identities vm_name ((workload_name, policy) ∷ rest) = do
  _ ← map_err (λ e. message (selector_error vm_name workload_name e)) (parse_selector policy)
  check_identities vm_name rest

check_vms : Dict VmEntry → Result Error (Unit {0})
check_vms [] = ok tt
check_vms ((vm_name, vm) ∷ rest) = do _ ← check_identities vm_name vm.identities; check_vms rest

-- The tests that `from_file` makes on a decoded configuration.
validate : HostConfig → Result Error HostConfig
validate cfg = do
  _ ← (if leb 1000 cfg.server_port then err (message (port_error cfg.server_port)) else ok tt)
  _ ← check_vms cfg.vms
  ok cfg

-- `HostConfig::from_file`: `read` is `std::fs::read_to_string`, `from_str` is `serde_json`'s.
unfoldable pub from_file :
    (Text → Result IoError Text) → (Text → Result Text HostConfig) → Text → Result Error HostConfig
unfolding check_identities check_vms validate
from_file read from_str path = do
  text ← map_err io (read path)
  cfg ← map_err json (from_str text)
  validate cfg
