-- ===== src/Agent/Main.antt =====
-- apps/rust-apps/authn-scope-agent/src/main.rs, and of src/client.rs the end of `run_agent`, which
-- starts the Workload API in a task of its own. The error of `main` is the exit code of the process.
-- What clap makes of the arguments is a parameter, an exit code where it ends the process.
pub mod Up
use vm_authn_scope.Prelude.{ℕ, Option, none, some, if◌then◌else◌, ◌!=◌, nat_eq}
use vm_authn_scope.Prelude.Result.{Result, ok, err}
use vm_authn_scope.Prelude.Io.{Io, pure, fail, lift, relabel, ◌>>=◌}
use vm_authn_scope.Prelude.Text.{Text}
use vm_authn_scope.Prelude.Errors.{Error}
use vm_authn_scope.Ca.Files.{Fs, read_to_string}
use vm_authn_scope.Ca.Rcgen.{Rcgen}
use vm_authn_scope.Agent.Config.{AgentConfig, from_file}
use vm_authn_scope.Agent.Kernel.{Trace}
use vm_authn_scope.Agent.Request.{AgentState, World}
use vm_authn_scope.Agent.Startup.{run_agent}
use vm_authn_scope.Agent.Api.{Api, opened, open_socket}

-- The files and the log of the calls to the system.
pub record Machine : Type 0 where
  pub files : Fs
  pub trace : Trace

-- The agent in its endless loop, and the Workload API if it is served.
pub record Running : Type 0 where
  pub config : AgentConfig
  pub agent : AgentState
  pub api : Option Api

-- An error of the task is only logged.
unfoldable pub api_from : AgentState → Result Error (Unit {0}) → Option Api
api_from agent (ok u) = some (opened agent)
api_from agent (err e) = none

pub launch_at : AgentState → Option Text → Fs → Option Api × Fs
launch_at agent none fs = (none, fs)
launch_at agent (some path) fs = let (r, fs') = open_socket path fs in (api_from agent r, fs')

-- The third part of `run_agent`.
unfoldable pub launch : AgentConfig → AgentState → Io Machine ℕ Running
unfolding launch_at api_from
launch config agent m =
    let (api, fs) = launch_at agent config.workload_api_socket m.files in
    (ok (record { config = config; agent = agent; api = api }), record m { files = fs })

module _ (rc : Rcgen) (w : World rc) where
  unfoldable pub start_agent : AgentConfig → Io Machine ℕ AgentState
  start_agent config m =
      let (r, t) = run_agent rc w config m.trace in (relabel (λ _. 1) r, record m { trace = t })

  module _ (from_str : Text → Result Text AgentConfig) where
    unfoldable pub load_config : Text → Io Machine ℕ AgentConfig
    load_config path m =
        (relabel (λ _. 1) (from_file (λ p. (read_to_string p m.files).0) from_str path), m)

    serve : Text → Io Machine ℕ Running
    unfolding load_config start_agent
    serve path = do config ← load_config path; agent ← start_agent config; launch config agent

    -- `parsed` is the path of the configuration.
    unfoldable pub main : ℕ → Result ℕ Text → Io Machine ℕ Running
    unfolding serve
    main uid parsed = if uid != 0 then fail 1 else do path ← lift parsed; serve path
