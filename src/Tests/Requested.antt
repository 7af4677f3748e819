-- ===== src/Tests/Requested.antt =====
-- A request of the agent over a kernel that grants each call and hands it to the host.
use vm_authn_scope.Prelude.{◌≡◌, ◌↔◌, refl, arith, true, [], ℕ_discrete, text_dec}
use vm_authn_scope.Prelude.Result.{ok}
use vm_authn_scope.Prelude.Text.{lit}
use vm_authn_scope.Prelude.Dict.{lookup}
use vm_authn_scope.Proto.Wire.{cert_request}
use vm_authn_scope.Proto.Codec.{
  send_json, write_all, to_be_bytes, from_be_bytes, recv_json, read_exact,
}
use vm_authn_scope.Ca.Authority.{rcgen_cert, key_pair}
use vm_authn_scope.Ca.Signing.{sign_csr}
use vm_authn_scope.Server.Handler.{handle_connection}
use vm_authn_scope.Server.Handler.Answer.{answer}
use vm_authn_scope.Server.Handler.Answer.Authorised.{Authorised}
use vm_authn_scope.Server.Policy.{resolve, ttl_seconds}
use vm_authn_scope.Agent.Csr.{GeneratedCsr, csr_params, generate_csr}
use vm_authn_scope.Agent.Dial.{connect_with_local_port, host_cid}
use vm_authn_scope.Agent.Dial.Granted.{Granted}
use vm_authn_scope.Agent.Exchange.{exchange, bind_listener}
use vm_authn_scope.Agent.Exchange.Hosted.{host, Carries}
use vm_authn_scope.Agent.Request.{request_cert_on_demand, World, X509Credentials, AgentState}
use vm_authn_scope.Agent.Request.Hosted.{Wired}
use vm_authn_scope.Agent.Request.Served.{request_iff}
use vm_authn_scope.Tests.World.{
  rcgen, made, vm_a, web, world, request_json, response_json, io_text, agent_config,
}
use vm_authn_scope.Tests.Server.{host_config, wired}

abbrev hosted : World rcgen
hosted = record world { kernel = wired }

abbrev idle : AgentState
idle = record { cache = []; listening = true; workloads = []; trace = [] }

abbrev signing : GeneratedCsr
signing = record { key_pem = lit "key"; csr_pem = web }

abbrev served : X509Credentials
served = record { cert_pem = web; key_pem = lit "key"; ca_cert_pem = made.cert_pem }

grants : Granted hosted.kernel
grants = record {
  socket = λ t. (3, refl);
  binds = λ t. refl;
  connects = λ t. refl;
  registers = λ t. refl;
  listens = λ t. refl;
}

asked : Carries request_json (cert_request 1 vm_a web web) web
asked = record { encodes = refl; decodes = refl; small = omega arith }

answered :
    Carries response_json
      (answer rcgen io_text host_config made 100 3 (cert_request 1 vm_a web web))
      web
unfolding answer ℕ_discrete resolve lookup text_dec sign_csr rcgen_cert
answered = record { encodes = refl; decodes = refl; small = omega arith }

connected : Wired rcgen hosted agent_config host_config made 100 3 1000 web
connected = record { wide = λ t. omega arith; hands = λ fd t. refl }

request_iff_example :
    ((request_cert_on_demand rcgen hosted agent_config web idle).0 ≡ ok served) ↔ (
      Authorised rcgen io_text host_config made 100 3 (cert_request 1 vm_a web web) web
      × (made.cert_pem ≡ made.cert_pem)
      × (lit "key" ≡ lit "key"))
unfolding generate_csr
request_iff_example =
    request_iff rcgen hosted agent_config host_config made 100 3 1000 web idle signing served web
      web grants refl asked answered (omega arith) connected

-- The request returns the credentials.
obtained : (request_cert_on_demand rcgen hosted agent_config web idle).0 ≡ ok served
unfolding generate_csr csr_params request_cert_on_demand connect_with_local_port host_cid exchange
    bind_listener send_json write_all to_be_bytes recv_json read_exact host handle_connection
    from_be_bytes ℕ_discrete resolve lookup text_dec sign_csr rcgen_cert key_pair ttl_seconds
obtained = refl
