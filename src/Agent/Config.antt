-- ===== src/Agent/Config.antt =====
-- apps/rust-apps/authn-scope-agent/src/config.rs: the configuration of the agent.
use vm_authn_scope.Prelude.{ℕ, Option, leb, if◌then◌else◌}
use vm_authn_scope.Prelude.Result.{Result, ok, err, map_err, ◌>>=◌}
use vm_authn_scope.Prelude.Text.{Text}
use vm_authn_scope.Prelude.Errors.{IoError, Error, io, json, message}
use vm_authn_scope.Server.Config.{port_error}

pub record AgentConfig : Type 0 where
  pub vm_name : Text
  pub server_port : ℕ
  pub client_port : ℕ
  pub workload_api_socket : Option Text

-- `AgentConfig::from_file`: `read` is `std::fs::read_to_string`, `from_str` is `serde_json`'s.
unfoldable pub from_file :
    (Text → Result IoError Text)
    → (Text → Result Text AgentConfig)
    → Text
    → Result Error AgentConfig
from_file read from_str path = do
  text ← map_err io (read path)
  cfg ← map_err json (from_str text)
  if leb 1000 cfg.server_port then err (message (port_error cfg.server_port)) else ok cfg
