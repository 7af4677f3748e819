-- ===== src/Tests/Agent.antt =====
-- The agent at concrete inputs.
use vm_authn_scope.Proto.Codec.{
  from_be_bytes, read_exact, recv_json, send_json, to_be_bytes, write_all,
}
use mathlib.Core.List.{Mem, mem-cons_self, mem-cons_of_mem}
use vm_authn_scope.Prelude.{
  option_nat_dec, option_text_dec, text_dec, ℕ_discrete, ◌≡◌, ◌↔◌, ◌⊎◌, inl, refl, sym, ◌∙◌, true,
  false, none, some, [], ◌∷◌, arith,
}
use vm_authn_scope.Prelude.Result.{ok, err}
use vm_authn_scope.Prelude.Text.{Text, lit}
use vm_authn_scope.Prelude.Dict.{Dict, lookup}
use vm_authn_scope.Prelude.Errors.{message, context, broken_pipe}
use vm_authn_scope.Proto.Wire.{WorkloadConfig}
use vm_authn_scope.Agent.Match.{Users, Process, match_workload}
use vm_authn_scope.Agent.Match.Fits.{fits, specificity}
use vm_authn_scope.Agent.Match.Best.{NoneAbove, match_workload-best}
use vm_authn_scope.Agent.Match.Order.{All-Mem, match_workload-order, match_workload_tie}
use vm_authn_scope.Agent.Kernel.{Kernel, passed}
use vm_authn_scope.Agent.Dial.{connect_failed, connect_with_local_port}
use vm_authn_scope.Agent.Dial.Rounds.{held, Spent, connect_with_local_port-Spent}
use vm_authn_scope.Agent.Exchange.{exchange, bind_listener}
use vm_authn_scope.Agent.Csr.{generate_csr}
use vm_authn_scope.Agent.Request.{
  World, X509Credentials, AgentState, request_cert_on_demand, dial_context,
}
use vm_authn_scope.Agent.Request.Port.{Even, request-Even, request-listening, request_unsecured}
use vm_authn_scope.Agent.Cache.{get_or_fetch_credentials}
use vm_authn_scope.Agent.Cache.Fresh.{recorded, get_or_fetch_again, get_or_fetch_request}
use vm_authn_scope.Tests.World.{rcgen, x509, web, world, kernel, io_text, agent_config}

abbrev users : Users
users = record { uid_of = λ name. some 1000; gid_of = λ name. some 100 }

abbrev process : Process
process = record {
  uid = 1000;
  gid = 100;
  bin_path = some (lit "/bin/x");
  unitpath = none;
  unitname = none;
}

abbrev by_user : WorkloadConfig
by_user = record {
  selector = record {
    unix = some (record { user = some (lit "al"); group = none; bin_path = none });
    systemd = none;
  };
  validity_seconds = 300;
}

abbrev by_group : WorkloadConfig
by_group = record {
  selector = record {
    unix = some (record { user = none; group = some (lit "staff"); bin_path = none });
    systemd = none;
  };
  validity_seconds = 300;
}

abbrev by_bin : WorkloadConfig
by_bin = record {
  selector = record {
    unix = some (record { user = some (lit "al"); group = none; bin_path = some (lit "/bin/x") });
    systemd = none;
  };
  validity_seconds = 300;
}

abbrev workloads : Dict WorkloadConfig
workloads = (lit "u", by_user) ∷ (lit "b", by_bin) ∷ []

match_workload-best_example :
    (config : WorkloadConfig) × Mem (lit "b", config) workloads
    × (fits users process config.selector ≡ true)
    × NoneAbove users process (specificity config.selector) workloads
unfolding match_workload option_nat_dec ℕ_discrete option_text_dec text_dec
match_workload-best_example = match_workload-best users process workloads refl

match_workload_tie_example :
    (match_workload users process ((lit "u", by_user) ∷ (lit "g", by_group) ∷ []) ≡ some (lit "u"))
    × (match_workload users process ((lit "g", by_group) ∷ (lit "u", by_user) ∷ [])
        ≡ some (lit "g"))
unfolding fits specificity option_nat_dec ℕ_discrete
match_workload_tie_example =
    match_workload_tie users process (lit "u") (lit "g") by_user by_group refl refl refl

connect_with_local_port-Spent_example :
    let r = connect_with_local_port io_text kernel 2 900 901 [] in
    Spent 3 (held 3 r.0) 11 1000 [] r.1
connect_with_local_port-Spent_example = connect_with_local_port-Spent io_text kernel 2 900 901 3 []

abbrev idle : AgentState
idle = record { cache = []; listening = true; workloads = workloads; trace = [] }

request-Even_example :
    Even 3 idle.trace (request_cert_on_demand rcgen world agent_config web idle).1.trace
request-Even_example = request-Even rcgen world agent_config 3 web idle

abbrev web_credentials : X509Credentials
web_credentials = record {
  cert_pem = lit "web";
  key_pem = lit "key";
  ca_cert_pem = lit "authn-scope-ca";
}

abbrev young : AgentState
young = record {
  cache = (web, record { credentials = web_credentials; fetched_at = 2 }) ∷ [];
  listening = true;
  workloads = workloads;
  trace = [];
}

get_or_fetch_request_example :
    let (r, s') = request_cert_on_demand rcgen world agent_config web idle in
    let (r', s'') = get_or_fetch_credentials rcgen x509 world agent_config web idle in
    (r' ≡ r)
    × (s''.trace ≡ s'.trace)
    × (s''.listening ≡ s'.listening)
    × ((j : Text)
        → lookup j s''.cache ≡ recorded r web (world.kernel.clock s'.trace) j (lookup j idle.cache))
unfolding lookup
get_or_fetch_request_example =
    get_or_fetch_request rcgen x509 world agent_config web idle (λ cached found. absurd (cc found))

-- A workload's name in either order of two that do not tie.
abbrev swapped : Dict WorkloadConfig
swapped = (lit "b", by_bin) ∷ (lit "u", by_user) ∷ []

abbrev served : X509Credentials
served = record { cert_pem = lit "web"; key_pem = lit "key"; ca_cert_pem = lit "authn-scope-ca" }

fetched : (get_or_fetch_credentials rcgen x509 world agent_config web idle).0 ≡ ok served
unfolding get_or_fetch_credentials lookup request_cert_on_demand generate_csr
    connect_with_local_port exchange send_json write_all to_be_bytes recv_json read_exact
    from_be_bytes bind_listener
fetched = refl

get_or_fetch_again_example :
    let s' = (get_or_fetch_credentials rcgen x509 world agent_config web idle).1 in
    get_or_fetch_credentials rcgen x509 world agent_config web
      (record s' { trace = passed 7 ∷ s'.trace })
    ≡ (ok served, record s' { trace = passed 7 ∷ s'.trace })
unfolding lookup
get_or_fetch_again_example =
    get_or_fetch_again rcgen x509 world agent_config web idle served
      (passed 7 ∷ (get_or_fetch_credentials rcgen x509 world agent_config web idle).1.trace)
      (λ cached found. absurd (cc found)) fetched (omega arith)

request-listening_example :
    (request_cert_on_demand rcgen world agent_config web idle).1.listening ≡ true
unfolding request_cert_on_demand generate_csr connect_with_local_port exchange send_json write_all
    to_be_bytes recv_json read_exact from_be_bytes bind_listener
request-listening_example = request-listening rcgen world agent_config web idle served refl

-- A kernel whose host does not answer.
abbrev unreachable : Kernel
unreachable = record kernel { connect = λ t. err broken_pipe }

abbrev lonely : World rcgen
lonely = record world { kernel = unreachable }

request_unsecured_example :
    let (r, s') = request_cert_on_demand rcgen lonely agent_config web idle in
    ((r ≡ err (context dial_context (message (lit "vsock connect failed: io error"))))
      ⊎ (r ≡ err (message (lit "vsock connect failed: io error"))))
    × (s'.listening ≡ false)
unfolding connect_with_local_port generate_csr connect_failed
request_unsecured_example =
    request_unsecured rcgen lonely agent_config web idle
      (record { key_pem = lit "key"; csr_pem = web })
      (message (lit "vsock connect failed: io error")) refl (inl refl)

abbrev one : Dict WorkloadConfig
one = (lit "u", by_user) ∷ []

abbrev twice : Dict WorkloadConfig
twice = (lit "u", by_user) ∷ (lit "u", by_user) ∷ []

one_same : (e : Text × WorkloadConfig) → Mem e one ↔ Mem e twice
one_same e = (
  λ m. mem-cons_of_mem _ m,
  λ m.
      All-Mem (λ (x : Text × WorkloadConfig). Mem x one) (λ x. hlevel) twice
        (mem-cons_self, (mem-cons_self, tt)) m,
)

one_named : (e : Text × WorkloadConfig) → Mem e one → e.0 ≡ lit "u"
one_named e m =
    All-Mem (λ (x : Text × WorkloadConfig). x.0 ≡ lit "u") (λ x. hlevel) one (refl, tt) m

match_workload-order_example : match_workload users process one ≡ match_workload users process twice
match_workload-order_example =
    match_workload-order users process one twice one_same
      (λ n n' c c' m m' good good' equal. one_named (n, c) m ∙ sym (one_named (n', c') m'))
