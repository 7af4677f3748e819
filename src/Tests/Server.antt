-- ===== src/Tests/Server.antt =====
-- The server at concrete inputs.
use vm_authn_scope.Ca.Authority.{rcgen_cert}
use vm_authn_scope.Ca.Signing.{sign_csr}
use vm_authn_scope.Prelude.{
  text_dec, ℕ_discrete, ◌+◌, ◌-◌, ◌*◌, ◌≤◌, ◌<◌, ◌≡◌, ◌↔◌, inl, refl, none, some, [], ◌∷◌, ◌++◌,
  arith,
}
use vm_authn_scope.Prelude.Result.{Result, ok}
use vm_authn_scope.Prelude.Text.{split, splitn, trim, Text, lit, trim_start}
use vm_authn_scope.Prelude.Dict.{Dict, lookup}
use vm_authn_scope.Prelude.Errors.{Bytes, io, unexpected_eof, to_string}
use vm_authn_scope.Proto.Wire.{
  AgentRequest, cert_request, handshake, handshake_ok, cert_ok, WorkloadConfig, SelectorConfig,
  protocol_version,
}
use vm_authn_scope.Proto.Codec.{recv_json, read_exact}
use vm_authn_scope.Proto.Codec.Frame.{frame}
use vm_authn_scope.Server.Config.{HostConfig, VmEntry, IdentityPolicy, parse_text}
use vm_authn_scope.Server.Config.Selector.{IsValid, parse_text-IsValid}
use vm_authn_scope.Server.Config.RoundTrip.Component.{IsTidy}
use vm_authn_scope.Server.Config.RoundTrip.{write_selector, parse_text-write_selector}
use vm_authn_scope.Server.Policy.{PolicyDecision, ttl_seconds, resolve, ttl_seconds_exact}
use vm_authn_scope.Server.Handler.{handle_connection}
use vm_authn_scope.Server.Handler.Answer.{
  answer, handle_connection-answer, handle_connection_malformed,
}
use vm_authn_scope.Server.Handler.Answer.Authorised.{Authorised, answer-cert_ok_iff}
use vm_authn_scope.Server.Handler.Answer.Handshake.{granted, answer_handshake}
use vm_authn_scope.Agent.Kernel.{Kernel}
use vm_authn_scope.Agent.Exchange.Hosted.{host}
use vm_authn_scope.Tests.World.{
  kernel, rcgen, made, vm_a, web, request_json, response_json, io_text, empty_stream,
}

abbrev pub web_policy : IdentityPolicy
web_policy = record { selector = lit "unix:user:al"; ttl_minutes = 5 }

abbrev pub entry_a : VmEntry
entry_a = record { vm_cid = 3; ip = none; identities = (web, web_policy) ∷ [] }

abbrev pub host_config : HostConfig
host_config = record {
  ca_cert_path = lit "c";
  ca_key_path = lit "key";
  server_port = 900;
  vms = (vm_a, entry_a) ∷ [];
  peer_port = 901;
}

abbrev pub al_selector : SelectorConfig
al_selector = record {
  unix = some (record { user = some (lit "al"); group = none; bin_path = none });
  systemd = none;
}

al_parsed : parse_text (lit "unix:user:al") ≡ ok al_selector
unfolding parse_text split ℕ_discrete text_dec trim splitn
al_parsed = refl

parse_text-IsValid_example : IsValid al_selector
parse_text-IsValid_example = parse_text-IsValid (lit "unix:user:al") al_parsed

al-IsValid : IsValid al_selector
al-IsValid = record { unix = (inl (cc), inl refl); systemd = tt }

al-IsTidy : IsTidy (lit "al")
unfolding trim_start ℕ_discrete
al-IsTidy = record { no_comma = omega arith; trimmed = refl }

parse_text-write_selector_example : parse_text (write_selector al_selector) ≡ ok al_selector
parse_text-write_selector_example =
    parse_text-write_selector al_selector al-IsValid (al-IsTidy, tt, tt) tt

abbrev pub decode_config : Text → Result Text HostConfig
decode_config text = ok host_config

ttl_seconds_exact_example :
    ((ttl_seconds 71582789 ≡ 71582789 * 60) ↔ (71582789 ≤ 71582788))
    × ((ttl_seconds 71582789 < 71582789 * 60) ↔ (71582788 < 71582789))
ttl_seconds_exact_example = ttl_seconds_exact 71582789

abbrev web_decision : PolicyDecision
web_decision = record { vm_name = vm_a; vm_cid = 3; ip = none; validity_seconds = 300 }

abbrev web_request : AgentRequest
web_request = cert_request 1 vm_a web (lit "someone")

answer-cert_ok_iff_example :
    (answer rcgen io_text host_config made 100 3 web_request
      ≡ cert_ok (lit "someone") made.cert_pem)
    ↔ (Authorised rcgen io_text host_config made 100 3 web_request (lit "someone")
        × (made.cert_pem ≡ made.cert_pem))
answer-cert_ok_iff_example =
    answer-cert_ok_iff rcgen io_text host_config made 100 3 web_request (lit "someone")
      made.cert_pem

handle_connection-answer_example :
    handle_connection rcgen io_text request_json response_json host_config made 100 3
      (record empty_stream { incoming = frame (lit "someone") ++ 7 ∷ [] })
    ≡ record { incoming = 7 ∷ []; outgoing = [] ++ frame (lit "someone"); room = 1000 - (7 + 4) }
unfolding answer ℕ_discrete resolve lookup text_dec sign_csr rcgen_cert
handle_connection-answer_example =
    handle_connection-answer rcgen io_text request_json response_json host_config made 100 3
      web_request (lit "someone") (lit "someone") (7 ∷ []) empty_stream refl (omega arith) refl
      (omega arith) (omega arith)

handle_connection_malformed_example :
    handle_connection rcgen io_text request_json response_json host_config made 100 3 empty_stream
    ≡ record empty_stream { outgoing = [] ++ frame (lit "io error"); room = 1000 - (8 + 4) }
unfolding recv_json read_exact to_string
handle_connection_malformed_example =
    handle_connection_malformed rcgen io_text request_json response_json host_config made 100 3
      (io unexpected_eof) (lit "io error") empty_stream empty_stream refl refl (omega arith)
      (omega arith)

abbrev pub al_workloads : Dict WorkloadConfig
al_workloads = (web, record { selector = al_selector; validity_seconds = 300 }) ∷ []

answer_handshake_example :
    (workloads : Dict WorkloadConfig) × (answer rcgen io_text host_config made 100 3
        (handshake protocol_version vm_a)
      ≡ handshake_ok workloads)
    × ((name : Text) → lookup name workloads ≡ granted (lookup name entry_a.identities))
unfolding lookup text_dec ℕ_discrete
answer_handshake_example =
    answer_handshake rcgen io_text host_config made 100 3 vm_a entry_a
      (((al_selector, al_parsed), tt), tt) refl refl (refl, tt)

-- A kernel that hands what is written to the host.
abbrev pub to_host : Bytes → Bytes
to_host = host rcgen io_text request_json response_json host_config made 100 3 1000

abbrev pub wired : Kernel
wired = record kernel { reply = λ t written. to_host written }
