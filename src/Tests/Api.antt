-- ===== src/Tests/Api.antt =====
-- The Workload API of a running agent at concrete inputs.
use vm_authn_scope.Prelude.{
  ℕ, ◌<◌, ◌≡◌, ◌≢◌, ◌↔◌, refl, true, ◌++◌, ap, none, some, [], ◌∷◌, ◌==◌, text_eq, length, arith,
  if◌then◌else◌, text_dec, ℕ_discrete,
}
use vm_authn_scope.Prelude.Result.{Result, ok}
use vm_authn_scope.Prelude.Text.{Text, lit}
use vm_authn_scope.Proto.Wire.{AgentResponse, handshake_ok, cert_ok}
use vm_authn_scope.Proto.Codec.{
  Json, from_be_bytes, read_exact, recv_json, send_json, to_be_bytes, write_all,
}
use vm_authn_scope.Ca.Files.{
  Fs, read_to_string, remove_file, create_parent_dir, bind_socket, set_permissions,
}
use vm_authn_scope.Agent.Exchange.{bind_listener, exchange}
use vm_authn_scope.Agent.Dial.{connect_with_local_port}
use vm_authn_scope.Agent.Request.{World, AgentState}
use vm_authn_scope.Agent.Startup.{perform_handshake, workloads_from, run_agent}
use vm_authn_scope.Agent.Api.{
  Task, Api, opened, open_socket, end_task, Reach, here, next, accepted, waited, ran, let_pass,
}
use vm_authn_scope.Agent.Api.Socket.{CanOpen, shared_socket, open_socket_iff}
use vm_authn_scope.Agent.Api.Served.{IsSafe, run_agent-IsSafe}
use vm_authn_scope.Agent.Config.{AgentConfig, from_file}
use vm_authn_scope.Agent.Main.{Machine, Running, load_config, start_agent, launch, main}
use vm_authn_scope.Agent.Main.Up.{HasApi, main-Up}
use vm_authn_scope.Tests.World.{rcgen, x509, vm_a, world, empty_stream, agent_config}
use vm_authn_scope.Tests.Workload.{around, cred, workloads}

abbrev socket_path : Text
socket_path = lit "/run/s"

-- A stale socket is there.
abbrev stale_fs : Fs
stale_fs = record {
  file = λ path. if path == socket_path then some (record { content = []; mode = 0o755 }) else none;
  refuses = λ call. none;
  new_mode = 0o644;
  socket_mode = 0o755;
}

other_path : lit "/run/other" ≢ socket_path
other_path e = omega (arith, ap (λ (t : Text). length t) e)

open_socket_iff_example :
    let (r, fs') = open_socket socket_path stale_fs in
    (((r ≡ ok tt) × (fs'.file socket_path ≡ some shared_socket)) ↔ CanOpen socket_path stale_fs)
    × (fs'.file (lit "/run/other") ≡ none)
unfolding text_dec ℕ_discrete
open_socket_iff_example = open_socket_iff socket_path (lit "/run/other") stale_fs other_path

-- A host that answers a handshake with the workloads, and a signing request with itself.
abbrev host_json : Json AgentResponse
host_json = record {
  to_vec = λ resp. ok [];
  from_slice = λ payload.
      if payload == vm_a
      then ok (handshake_ok workloads)
      else ok (cert_ok payload (lit "authn-scope-ca"));
}

abbrev friendly : World rcgen
friendly = record world { response_json = host_json }

abbrev started : AgentState
started = record {
  cache = [];
  listening = true;
  workloads = workloads;
  trace = (run_agent rcgen friendly agent_config []).1;
}

-- A process that sends one line.
abbrev caller : Task
caller = record {
  peer_cred = ok cred;
  stream = record empty_stream { incoming = lit "f" ++ b'\n' ∷ [] };
}

abbrev called : Api
called = let_pass 5 (record { agent = started; waiting = caller ∷ []; ended = [] })

abbrev answered : Api
answered = end_task rcgen x509 friendly agent_config around caller [] called

reached : Reach rcgen x509 friendly agent_config (opened started) answered
reached =
    next (next (next here (accepted (opened started) caller refl)) (waited _ 5))
      (ran called around [] [] caller refl)

run_agent-IsSafe_example : IsSafe rcgen x509 friendly agent_config workloads answered
unfolding run_agent perform_handshake connect_with_local_port exchange send_json write_all
    to_be_bytes recv_json read_exact from_be_bytes workloads_from bind_listener text_dec ℕ_discrete
run_agent-IsSafe_example =
    run_agent-IsSafe rcgen x509 friendly agent_config [] started answered refl reached

abbrev config_path : Text
config_path = lit "agent.json"

abbrev api_config : AgentConfig
api_config = record agent_config { workload_api_socket = some socket_path }

abbrev decode_config : Text → Result Text AgentConfig
decode_config text = ok api_config

-- A guest with nothing but its configuration.
abbrev machine : Machine
machine = record {
  files = record stale_fs {
    file = λ path.
        if path == config_path then some (record { content = lit "json"; mode = 0o644 }) else none;
  };
  trace = [];
}

abbrev api_agent : AgentState
api_agent = record started { trace = (run_agent rcgen friendly api_config []).1 }

abbrev running : Running
running = record { config = api_config; agent = api_agent; api = some (opened api_agent) }

abbrev up_machine : Machine
up_machine = (main rcgen friendly decode_config 0 (ok config_path) machine).1

runs : main rcgen friendly decode_config 0 (ok config_path) machine ≡ (ok running, up_machine)
unfolding main ℕ_discrete from_file read_to_string text_dec run_agent perform_handshake
    connect_with_local_port exchange send_json write_all to_be_bytes recv_json read_exact
    from_be_bytes workloads_from bind_listener launch load_config start_agent open_socket
    remove_file create_parent_dir bind_socket set_permissions
runs = refl

abbrev root : ℕ
root = 0

main-Up_example :
    (root ≡ 0)
    × (900 < 1000)
    × (running.agent.listening ≡ true)
    × ((running.api ≡ some (opened running.agent)) ↔ HasApi running.config machine.files)
main-Up_example =
    main-Up rcgen friendly decode_config 0 (ok config_path) machine up_machine running runs
