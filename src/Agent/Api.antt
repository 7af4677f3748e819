-- ===== src/Agent/Api.antt =====
-- apps/rust-apps/authn-scope-agent/src/client.rs: `run_workload_api`, its socket and its accept
-- loop. A task waits for the lock on the workloads, which one task at a time holds to its end; so a
-- step of the server is a connection that comes in or a task that runs.
pub mod Socket
pub mod Served
pub mod Hosted
pub mod Evaluated
pub mod Disclosed
use vm_authn_scope.Prelude.{ℕ, List, [], ◌∷◌, ◌++◌, ◌≡◌}
use vm_authn_scope.Prelude.Result.{Result, ok, err}
use vm_authn_scope.Prelude.Io.{Io, on_err, ignoring, ◌>>=◌, ◌>>◌}
use vm_authn_scope.Prelude.Text.{Text}
use vm_authn_scope.Prelude.Errors.{IoError, Error, io}
use vm_authn_scope.Proto.Codec.{Stream}
use vm_authn_scope.Ca.Files.{Fs, remove_file, create_parent_dir, bind_socket, set_permissions}
use vm_authn_scope.Ca.Rcgen.{Rcgen}
use vm_authn_scope.X509.{X509}
use vm_authn_scope.Agent.Config.{AgentConfig}
use vm_authn_scope.Agent.Kernel.{passed}
use vm_authn_scope.Agent.Request.{AgentState, World}
use vm_authn_scope.Agent.Conn.{PeerCred, Surroundings, Conn, handle_workload_conn}

-- From the start to the loop.
unfoldable pub open_socket : Text → Io Fs Error (Unit {0})
open_socket path = do
  ignoring (remove_file path)
  ignoring (create_parent_dir path)
  on_err io (bind_socket path)
  on_err io (set_permissions path 0o666)

-- A connection that was accepted: what `peer_cred` returns, and the stream.
pub record Task : Type 0 where
  pub peer_cred : Result IoError PeerCred
  pub stream : Stream

-- A task that came to its end, with its stream as it was then, and what it was handled with.
pub record Ended : Type 0 where
  pub task : Task
  pub around : Surroundings

pub record Api : Type 0 where
  pub agent : AgentState
  pub waiting : List Task
  pub ended : List Ended

-- The server in front of its first round.
abbrev pub opened : AgentState → Api
opened agent = record { agent = agent; waiting = []; ended = [] }

-- Time in which nothing happens; the kernel's clock goes by the log.
abbrev pub let_pass : ℕ → Api → Api
let_pass nanoseconds api =
    let a = api.agent in record api { agent = record a { trace = passed nanoseconds ∷ a.trace } }

module _ (rc : Rcgen) (xp : X509) (w : World rc) (config : AgentConfig) where
  -- `let cred = stream.peer_cred()?` and what follows. The error is only logged.
  unfoldable pub run_task : Surroundings → Task → AgentState → Conn
  run_task around task agent = elim (task.peer_cred) [
    | err e ↦ record { agent = agent; stream = task.stream }
    | ok cred ↦
        (handle_workload_conn rc xp w config around cred
          (record { agent = agent; stream = task.stream })).1
  ]

  -- The state behind one task.
  unfoldable pub end_task : Surroundings → Task → List Task → Api → Api
  end_task around task others api =
      let c = run_task around task api.agent in
      record {
        agent = c.agent;
        waiting = others;
        ended = record { task = record task { stream = c.stream }; around = around } ∷ api.ended;
      }

  -- Any task may be the next to run; what is found under /proc may differ from one to the next.
  pub data Step : Api → Api → Type 0 where
    accepted :
        (api : Api) (task : Task)
        → task.stream.outgoing ≡ []
        → Step api (record api { waiting = api.waiting ++ task ∷ [] })
    accept_failed : (api : Api) (e : IoError) → Step api api
    waited : (api : Api) (nanoseconds : ℕ) → Step api (let_pass nanoseconds api)
    ran :
        (api : Api) (around : Surroundings) (before after : List Task) (task : Task)
        → api.waiting ≡ before ++ task ∷ after
        → Step api (end_task around task (before ++ after) api)

  pub data Reach (start : Api) : Api → Type 0 where
    here : Reach start start
    next : {api api' : Api} → Reach start api → Step api api' → Reach start api'
