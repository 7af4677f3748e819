-- ===== src/Proto/Wire.antt =====
-- libs/rust-libs/authn-scope-proto/src/wire.rs: the messages between agent and host.
use vm_authn_scope.Prelude.{ℕ, Option, none}
use vm_authn_scope.Prelude.Text.{Text}
use vm_authn_scope.Prelude.Dict.{Dict}

abbrev pub protocol_version : ℕ
protocol_version = 1

pub data AgentRequest : Type 0 where
  -- version, vm_name
  handshake : ℕ → Text → AgentRequest
  -- version, vm_name, identity, csr_pem
  cert_request : ℕ → Text → Text → Text → AgentRequest

pub record UnixSelector : Type 0 where
  pub user : Option Text
  pub group : Option Text
  pub bin_path : Option Text

pub record SystemdSelector : Type 0 where
  pub unitpath : Option Text
  pub unitname : Option Text

abbrev pub default_unix : UnixSelector
default_unix = record { user = none; group = none; bin_path = none }

abbrev pub default_systemd : SystemdSelector
default_systemd = record { unitpath = none; unitname = none }

pub record SelectorConfig : Type 0 where
  pub unix : Option UnixSelector
  pub systemd : Option SystemdSelector

pub record WorkloadConfig : Type 0 where
  pub selector : SelectorConfig
  pub validity_seconds : ℕ

pub data AgentResponse : Type 0 where
  handshake_ok : Dict WorkloadConfig → AgentResponse
  -- cert_pem, ca_cert_pem
  cert_ok : Text → Text → AgentResponse
  error : Text → AgentResponse
