-- ===== src/Tests/Workload.antt =====
-- The start of the agent and the Workload API at concrete inputs.
use vm_authn_scope.Prelude.Utf8.{is_utf8}
use vm_authn_scope.Agent.Cache.{
  get_cert_validity_seconds, get_or_fetch_credentials, rotation_threshold,
}
use vm_authn_scope.Prelude.{◌++◌}
use vm_authn_scope.Prelude.Text.{lines, split, contains}
use vm_authn_scope.Agent.Match.{Process}
use vm_authn_scope.Prelude.{
  All, ◌≢◌, option_nat_dec, text_dec, ℕ_discrete, ◌≡◌, refl, true, none, some, [], ◌∷◌, arith,
}
use vm_authn_scope.Prelude.Result.{Result, ok}
use vm_authn_scope.Prelude.Text.{Text, lit}
use vm_authn_scope.Prelude.Dict.{lookup, Dict}
use vm_authn_scope.Prelude.Errors.{Bytes}
use vm_authn_scope.Proto.Wire.{AgentResponse, handshake_ok, WorkloadConfig}
use vm_authn_scope.Proto.Codec.{Json}
use vm_authn_scope.Agent.Match.{match_workload, Users}
use vm_authn_scope.Agent.Dial.Rounds.{Spent}
use vm_authn_scope.Agent.Request.{World, X509Credentials, AgentState}
use vm_authn_scope.Agent.Startup.{run_agent}
use vm_authn_scope.Agent.Startup.Cost.{run_agent-Spent}
use vm_authn_scope.Agent.Conn.{observe, WorkloadResponse, success, error, PeerCred, Surroundings}
use vm_authn_scope.Agent.Conn.Peer.{IsPeer, observe-IsPeer}
use vm_authn_scope.Workload.{fetch_credentials}
use vm_authn_scope.Workload.Served.{agent_answers, fetch_credentials-served}
use vm_authn_scope.Tests.World.{rcgen, x509, web, world, empty_stream, agent_config}

run_agent-Spent_example : Spent 3 0 176 24500 [] (run_agent rcgen world agent_config []).1
run_agent-Spent_example = run_agent-Spent rcgen world agent_config 3 []

-- A host that answers every request with one workload.
abbrev by_user : WorkloadConfig
by_user = record {
  selector = record {
    unix = some (record { user = some (lit "al"); group = none; bin_path = none });
    systemd = none;
  };
  validity_seconds = 300;
}

abbrev pub workloads : Dict WorkloadConfig
workloads = (web, by_user) ∷ []

abbrev welcome_json : Json AgentResponse
welcome_json = record {
  to_vec = λ resp. ok [];
  from_slice = λ payload. ok (handshake_ok workloads);
}

abbrev welcome : World rcgen
welcome = record world { response_json = welcome_json }

abbrev started : AgentState
started = record {
  cache = [];
  listening = true;
  workloads = workloads;
  trace = (run_agent rcgen welcome agent_config []).1;
}

abbrev users : Users
users = record { uid_of = λ name. some 1000; gid_of = λ name. some 100 }

abbrev answer_bytes : WorkloadResponse → Result Text Bytes
answer_bytes (success creds) = ok creds.cert_pem
answer_bytes (error msg) = ok msg

abbrev credentials : X509Credentials
credentials = record {
  cert_pem = lit "web";
  key_pem = lit "key";
  ca_cert_pem = lit "authn-scope-ca";
}

abbrev pub around : Surroundings
around = record {
  users = users;
  read_link = λ path. some (lit "/bin/x");
  read_to_string = λ path. none;
  request_json = record {
    to_vec = λ req. ok req.req_type;
    from_slice = λ bytes. ok (record { req_type = lit "fetch" });
  };
  response_json = record { to_vec = answer_bytes; from_slice = λ bytes. ok (success credentials) };
  debug = λ text. text;
  read_ahead = 0;
}

abbrev pub cred : PeerCred
cred = record { uid = 1000; gid = 100; pid = 7 }

abbrev agent : AgentState
agent = record {
  cache = (web, record { credentials = credentials; fetched_at = 2 }) ∷ [];
  listening = true;
  workloads = workloads;
  trace = [];
}

-- A service, under /proc.
abbrev in_service : Surroundings
in_service = record around {
  read_to_string = λ path. some (lit "0::/init" ++ b'\n' ∷ lit "1:x:/system/web.service");
}

abbrev seen : Process
seen = record {
  uid = 1000;
  gid = 100;
  bin_path = some (lit "/bin/x");
  unitpath = some (lit "/system/web.service");
  unitname = some (lit "web.service");
}

observe-IsPeer_example : IsPeer in_service cred seen
unfolding observe lines split contains text_dec ℕ_discrete
observe-IsPeer_example = observe-IsPeer in_service cred

no_feed : All (λ b. b ≢ b'\n') (lit "fetch")
no_feed = omega arith

no_feed_web : All (λ b. b ≢ b'\n') web
no_feed_web = omega arith

fetch_credentials-served_example :
    (fetch_credentials around.request_json around.response_json
      (agent_answers rcgen x509 world agent_config around cred agent 1000)
      (record { socket_path = lit "/run/agent"; cached = none })
      (ok tt)
      empty_stream).0
    ≡ ok credentials
unfolding match_workload option_nat_dec ℕ_discrete observe get_or_fetch_credentials lookup text_dec
    rotation_threshold get_cert_validity_seconds is_utf8
fetch_credentials-served_example =
    fetch_credentials-served rcgen x509 world agent_config around
      (record { socket_path = lit "/run/agent"; cached = none }) cred web (lit "fetch") web agent
      agent 1000 empty_stream credentials
      (record { encodes = refl; whole = no_feed; utf8 = refl; decodes = refl })
      (record { encodes = refl; whole = no_feed_web; utf8 = refl; decodes = refl }) refl refl refl
      (omega arith) (omega arith)
