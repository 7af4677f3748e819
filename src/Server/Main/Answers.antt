-- ===== src/Server/Main/Answers.antt =====
-- The daemon from its command line to what it writes to an agent.
use mathlib.Core.List.{Mem}
use vm_authn_scope.Prelude.{ℕ, ◌+◌, ◌-◌, ◌^◌, ◌≤◌, ◌<◌, ◌≡◌, List, ◌++◌, length}
use vm_authn_scope.Prelude.Result.{Result, ok}
use vm_authn_scope.Prelude.Text.{Text}
use vm_authn_scope.Prelude.Errors.{Bytes, IoError}
use vm_authn_scope.Proto.Wire.{AgentRequest, AgentResponse}
use vm_authn_scope.Proto.Codec.{Json, Stream, max_msg_bytes}
use vm_authn_scope.Proto.Codec.Frame.{frame}
use vm_authn_scope.Ca.Files.{Fs, read_to_string}
use vm_authn_scope.Ca.Rcgen.{Rcgen}
use vm_authn_scope.Server.Config.{HostConfig, from_file}
use vm_authn_scope.Server.Handler.Answer.{answer, handle_connection-answer}
use vm_authn_scope.Server.Listener.{Accept, connection, Task, spawned}
use vm_authn_scope.Server.Listener.Served.{task, run_listener-Mem}
use vm_authn_scope.Server.Main.{Cli, Serving, open_authority, main}
use vm_authn_scope.Server.Main.Serves.{main_iff}

module _ (rc : Rcgen) (io_text : IoError → Text) (request_json : Json AgentRequest)
    (response_json : Json AgentResponse) (from_str : Text → Result Text HostConfig) (uid : ℕ)
    (cli : Cli) (generated : Result Text rc.Key) (bind : ℕ → Result IoError (Unit {0}))
    (accepts : List Accept) (fs fs' : Fs) (serving : Serving) where
  -- If the daemon comes to serve and accept returned a stream with a CID and the port of
  -- agents, on which a request of at most 4 MiB that decodes arrives whole, and the answer
  -- encodes to under 4 GiB and has room on the stream, then its configuration is that of the
  -- file it was started with, its authority the one that was generated or loaded at the
  -- start, and one of its tasks consumes the frame of the request, writes exactly one frame,
  -- that of the answer which the description answer gives to that CID under that
  -- configuration and authority, and leaves what stands behind the request unread.
  pub main-answer :
      (req : AgentRequest) (payload reply rest : Bytes) (s : Stream) (cid now : ℕ)
      → main rc from_str uid (ok cli) generated bind accepts fs ≡ (ok serving, fs')
      → Mem
          (connection (record s { incoming = frame payload ++ rest }) cid serving.config.peer_port)
          accepts
      → request_json.from_slice payload ≡ ok req
      → length payload ≤ max_msg_bytes
      → response_json.to_vec (answer rc io_text serving.config serving.authority now cid req)
        ≡ ok reply
      → length reply < 2 ^ 32
      → length reply + 4 ≤ s.room
      → (from_file (λ p. (read_to_string p fs).0) from_str cli.config ≡ ok serving.config)
        × (open_authority rc generated cli.genkey serving.config fs ≡ (ok serving.authority, fs'))
        × ((t : Task) × Mem t serving.tasks
            × (spawned rc io_text request_json response_json serving.config serving.authority now t
                ≡ record {
                  incoming = rest;
                  outgoing = s.outgoing ++ frame reply;
                  room = s.room - (length reply + 4);
                }))
  unfolding spawned
  main-answer req payload reply rest s cid now served came decodes small encodes short fits =
      let (root, (cli', is_cli, started)) =
        (main_iff rc from_str uid (ok cli) generated bind accepts fs fs' serving).0 served in
      let same : cli' ≡ cli = cc (is_cli) in
      let whole : Stream = record s { incoming = frame payload ++ rest } in
      (
        rw same at started.configured,
        rw same at started.opened,
        (
          task whole cid,
          (run_listener-Mem bind serving.config accepts serving.tasks whole cid started.listening).1
              came,
          handle_connection-answer rc io_text request_json response_json serving.config
              serving.authority now cid req payload reply rest s decodes small encodes short fits,
        ),
      )
