-- ===== src/Tests/System.antt =====
-- Processes, agent and host together at concrete inputs.
use vm_authn_scope.Tests.Encoding.{
  request_json, response_json, requests-Lawful, responses-Readable, short, encode_request,
  decode_request, workloads_dec, encode_workloads, encode_response, decode_response,
}
use vm_authn_scope.Prelude.{◌≡◌, refl, true, [], ◌∷◌, ◌++◌, All, arith, text_dec, ℕ_discrete}
use vm_authn_scope.Prelude.Result.{ok}
use vm_authn_scope.Prelude.Text.{lit}
use vm_authn_scope.Prelude.Dict.{lookup, NodupKeys}
use vm_authn_scope.Prelude.Errors.{Bytes}
use vm_authn_scope.Proto.Wire.{AgentRequest, handshake, handshake_ok}
use vm_authn_scope.Proto.Codec.Lawful.{frame_room}
use vm_authn_scope.Server.Config.{VmEntry}
use vm_authn_scope.Agent.Exchange.Hosted.{host}
use vm_authn_scope.Agent.Exchange.Allowed.{Transport, Answers, exchange-Answers}
use vm_authn_scope.Agent.Match.Hosted.{HasDistinct}
use vm_authn_scope.Agent.Request.{World, AgentState}
use vm_authn_scope.Agent.Startup.{run_agent}
use vm_authn_scope.Agent.Api.{Task, Ended, Api, opened, end_task, Reach, here, next, accepted, ran}
use vm_authn_scope.Agent.Api.Disclosed.{IsServed}
use vm_authn_scope.Agent.Api.Hosted.{Connected, IsEntitled, run_agent-IsEntitled}
use vm_authn_scope.Agent.Startup.{perform_handshake, workloads_from}
use vm_authn_scope.Agent.Dial.{connect_with_local_port}
use vm_authn_scope.Agent.Exchange.{exchange, bind_listener}
use vm_authn_scope.Proto.Codec.{
  send_json, write_all, to_be_bytes, recv_json, read_exact, from_be_bytes,
}
use vm_authn_scope.Server.Handler.{handle_connection, collect_workloads}
use vm_authn_scope.Server.Config.{parse_text}
use vm_authn_scope.Server.Policy.{ttl_seconds}
use vm_authn_scope.Prelude.Text.{split, trim, splitn}
use vm_authn_scope.Prelude.Dict.{insert}
use vm_authn_scope.Prelude.{List, option_nat_dec, option_text_dec}
use vm_authn_scope.Prelude.Utf8.{is_utf8}
use vm_authn_scope.Agent.Api.{run_task}
use vm_authn_scope.Agent.Conn.{handle_workload_conn, observe, read_line}
use vm_authn_scope.Agent.Match.{match_workload}
use vm_authn_scope.Agent.Cache.{get_or_fetch_credentials}
use vm_authn_scope.Agent.Request.{request_cert_on_demand}
use vm_authn_scope.Agent.Csr.{generate_csr, csr_params}
use vm_authn_scope.Agent.Dial.{host_cid}
use vm_authn_scope.Server.Policy.{resolve}
use vm_authn_scope.Ca.Signing.{sign_csr}
use vm_authn_scope.Ca.Authority.{rcgen_cert, key_pair}
use mathlib.Core.Path.{subst}
use vm_authn_scope.Agent.Api.Evaluated.{CsrReads, IsEvaluated, run_agent-IsEvaluated}
use vm_authn_scope.Evaluator.Issued.{common_names}
use vm_authn_scope.Tests.Ca.{interop, authentic, subject-common_names}
use vm_authn_scope.Tests.World.{
  rcgen, x509, made, vm_a, web, kernel, world, io_text, agent_config, empty_stream,
}
use vm_authn_scope.Tests.Server.{host_config, al_workloads, entry_a}
use vm_authn_scope.Tests.Workload.{around, cred}

abbrev net : World rcgen
net = record world {
  request_json = request_json;
  response_json = response_json;
  kernel = record kernel {
    reply = λ t bytes.
        host rcgen io_text request_json response_json host_config made 100 3 frame_room bytes;
  };
}

transport : Transport rcgen io_text request_json response_json host_config made 3 net.kernel
transport = record {
  time = λ t. 100;
  room = frame_room;
  wide = omega arith;
  hands = λ fd t bytes. refl;
}

connected : Connected rcgen x509 net agent_config host_config made 3
connected = record {
  requests = requests-Lawful;
  responses = responses-Readable;
  transport = transport;
}

distinct : HasDistinct host_config 3 vm_a
unfolding lookup text_dec ℕ_discrete
distinct entry found =
    let same : entry_a ≡ entry = cc (found) in
    subst (λ (e : VmEntry). NodupKeys e.identities) same (refl, tt)

abbrev started : AgentState
started = record {
  cache = [];
  listening = true;
  workloads = al_workloads;
  trace = (run_agent rcgen net agent_config []).1;
}

starts : (run_agent rcgen net agent_config []).0 ≡ ok started
unfolding run_agent perform_handshake connect_with_local_port exchange send_json short
    encode_request write_all to_be_bytes recv_json read_exact host handle_connection from_be_bytes
    decode_request ℕ_discrete lookup text_dec bind_listener workloads_from split parse_text
    collect_workloads insert trim splitn ttl_seconds decode_response encode_response
    encode_workloads workloads_dec transport
starts = refl

-- A process that sends one line.
abbrev caller : Task
caller = record {
  peer_cred = ok cred;
  stream = record empty_stream { incoming = lit "f" ++ b'\n' ∷ [] };
}

abbrev called : Api
called = record { agent = started; waiting = caller ∷ []; ended = [] }

abbrev answered : Api
answered = end_task rcgen x509 net agent_config around caller [] called

reached : Reach rcgen x509 net agent_config (opened started) answered
reached =
    next (next here (accepted (opened started) caller refl)) (ran called around [] [] caller refl)

run_agent-IsEntitled_example :
    All
      (IsServed (IsEntitled rcgen x509 net agent_config host_config made 3) al_workloads)
      answered.ended
run_agent-IsEntitled_example =
    run_agent-IsEntitled rcgen x509 net agent_config host_config made 3 [] started answered
      connected distinct starts reached

outgoings : List Ended → List Bytes
outgoings [] = []
outgoings (end ∷ ends) = end.task.stream.outgoing ∷ outgoings ends

-- The connection is sent a certificate and a line feed.
disclosed : outgoings answered.ended ≡ (web ++ b'\n' ∷ []) ∷ []
unfolding run_agent perform_handshake connect_with_local_port exchange send_json short
    encode_request write_all to_be_bytes recv_json read_exact host handle_connection from_be_bytes
    decode_request ℕ_discrete lookup text_dec bind_listener workloads_from split parse_text
    collect_workloads insert trim splitn ttl_seconds decode_response encode_response
    encode_workloads workloads_dec end_task run_task handle_workload_conn match_workload observe
    option_nat_dec option_text_dec read_line is_utf8 get_or_fetch_credentials request_cert_on_demand
    generate_csr csr_params host_cid resolve sign_csr rcgen_cert key_pair outgoings
disclosed = refl

abbrev greeting : AgentRequest
greeting = handshake 1 vm_a

exchange-Answers_example :
    Answers rcgen io_text request_json response_json host_config made 3 net.kernel 100 greeting
      (handshake_ok al_workloads)
unfolding exchange send_json short encode_request write_all to_be_bytes recv_json read_exact host
    handle_connection from_be_bytes decode_request ℕ_discrete lookup text_dec split parse_text
    collect_workloads insert trim splitn ttl_seconds decode_response encode_response
    encode_workloads workloads_dec transport
exchange-Answers_example =
    exchange-Answers rcgen io_text request_json response_json host_config made 3 net.kernel 3
      (lit "sending") (lit "receiving") greeting [] (handshake_ok al_workloads) transport
      requests-Lawful responses-Readable refl

csr_reads : CsrReads rcgen
unfolding common_names
csr_reads = record {
  reads = λ params key pem h. (_, refl, subject-common_names params.distinguished_name h);
}

run_agent-IsEvaluated_example : All (IsServed (IsEvaluated x509) al_workloads) answered.ended
run_agent-IsEvaluated_example =
    run_agent-IsEvaluated rcgen x509 net agent_config host_config made 3 interop [] started answered
      authentic csr_reads connected distinct starts reached
