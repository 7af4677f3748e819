-- ===== src/Server/Listener.antt =====
-- apps/rust-apps/authn-scope-server/src/listener.rs: the accept loop, over the results that
-- `accept` returns in turn. Each connection that is let through gets a task of its own.
pub mod Served
use vm_authn_scope.Prelude.{ℕ, List, [], ◌∷◌, if◌then◌else◌, ◌!=◌, nat_eq}
use vm_authn_scope.Prelude.Result.{Result, ok, err, ◌>>=◌, map_err}
use vm_authn_scope.Prelude.Errors.{IoError, Error, io}
use vm_authn_scope.Prelude.Text.{Text}
use vm_authn_scope.Proto.Wire.{AgentRequest, AgentResponse}
use vm_authn_scope.Proto.Codec.{Json, Stream}
use vm_authn_scope.Ca.Rcgen.{Rcgen}
use vm_authn_scope.Ca.Authority.{CertificateAuthority}
use vm_authn_scope.Server.Config.{HostConfig}
use vm_authn_scope.Server.Handler.{handle_connection}

pub data Accept : Type 0 where
  -- the stream, the peer's CID and the peer's port
  connection : Stream → ℕ → ℕ → Accept
  accept_error : IoError → Accept

-- A task: the stream and the CID that `handle_connection` is called with.
pub record Task : Type 0 where
  pub stream : Stream
  pub peer_cid : ℕ

-- A connection from another port is dropped, and a failed accept is only logged.
accept_one : ℕ → Accept → List Task → List Task
accept_one port (connection stream cid peer_port) rest =
    if peer_port != port then rest else record { stream = stream; peer_cid = cid } ∷ rest
accept_one port (accept_error e) rest = rest

accept_loop : HostConfig → List Accept → List Task
unfolding accept_one
accept_loop config [] = []
accept_loop config (a ∷ rest) = accept_one config.peer_port a (accept_loop config rest)

-- `run_listener`: the tasks spawned while these results came in, if the port could be bound.
unfoldable pub run_listener :
    (ℕ → Result IoError (Unit {0})) → HostConfig → List Accept → Result Error (List Task)
unfolding accept_loop
run_listener bind config accepts =
    map_err io (bind config.server_port) >>= λ _. ok (accept_loop config accepts)

module _ (rc : Rcgen) (io_text : IoError → Text) (request_json : Json AgentRequest)
    (response_json : Json AgentResponse) where
  -- The stream behind the task that `tokio::spawn` is given.
  unfoldable pub spawned : HostConfig → CertificateAuthority → ℕ → Task → Stream
  spawned config made now t =
      handle_connection rc io_text request_json response_json config made now t.peer_cid t.stream
