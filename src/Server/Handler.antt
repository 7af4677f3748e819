-- ===== src/Server/Handler.antt =====
-- apps/rust-apps/authn-scope-server/src/handler.rs: one connection, from request to response.
-- `serde_json`, the certificate library, the time and the texts of I/O errors are parameters.
pub mod Answer
use vm_authn_scope.Prelude.{ℕ, Option, none, some, List, [], ◌∷◌, ◌++◌, if◌then◌else◌, ◌!=◌, nat_eq}
use vm_authn_scope.Prelude.Result.{Result, ok, err}
use vm_authn_scope.Prelude.Io.{Io, pure, fail, ◌>>=◌}
use vm_authn_scope.Prelude.Text.{Text, lit, show}
use vm_authn_scope.Prelude.Dict.{Dict, lookup, insert}
use vm_authn_scope.Prelude.Errors.{IoError, Error, message, to_string}
use vm_authn_scope.Proto.Wire.{
  AgentRequest, handshake, cert_request, AgentResponse, handshake_ok, cert_ok, error,
  WorkloadConfig, SelectorConfig, protocol_version,
}
use vm_authn_scope.Proto.Codec.{Json, Stream, send_json, recv_json}
use vm_authn_scope.Ca.Errors
use vm_authn_scope.Ca.Errors.{CaError}
use vm_authn_scope.Ca.Rcgen.{Rcgen}
use vm_authn_scope.Ca.Authority.{CertificateAuthority}
use vm_authn_scope.Ca.Signing.{SigningRequest, sign_csr}
use vm_authn_scope.Server.Config.{HostConfig, VmEntry, IdentityPolicy, parse_selector}
use vm_authn_scope.Server.Policy.{PolicyDecision, ttl_seconds, resolve}

-- The messages, as the code formats them.
unfoldable pub bad_version : ℕ → Text
bad_version version =
    lit "unsupported protocol version "
    ++ (show version ++ (lit " (expected " ++ (show protocol_version ++ lit ")")))

unfoldable pub not_registered : Text → Text
not_registered vm_name = lit "VM '" ++ (vm_name ++ lit "' not registered in host config")

unfoldable pub wrong_cid : ℕ → ℕ → Text
wrong_cid expected got =
    lit "CID verification failed: expected "
    ++ (show expected ++ (lit ", got peer CID " ++ show got))

unfoldable pub bad_selector : Text → Text → Text
bad_selector name e = lit "failed to parse selector for workload '" ++ (name ++ (lit "': " ++ e))

unfoldable pub not_authorised : Text → Text → Text
not_authorised vm_name identity =
    lit "VM '" ++ (vm_name ++ (lit "' / identity '" ++ (identity ++ lit "' not authorised")))

unfoldable pub cid_failed : Text
cid_failed = lit "CID verification failed"

unfoldable pub signing_failed : Text → Text
signing_failed e = lit "signing failed: " ++ e

-- The loop over the identities of a VM; the error is the message that is sent.
abbrev pub workload_of : SelectorConfig → IdentityPolicy → WorkloadConfig
workload_of selector policy = record {
  selector = selector;
  validity_seconds = ttl_seconds policy.ttl_minutes;
}

add_workload :
    Text
    → IdentityPolicy
    → Dict WorkloadConfig
    → Result Text SelectorConfig
    → Result Text (Dict WorkloadConfig)
add_workload name policy workloads (err e) = err (bad_selector name e)
add_workload name policy workloads (ok selector) =
    ok (insert name (workload_of selector policy) workloads)

abbrev and_then : {A B : Type 0} → Result Text A → (A → Result Text B) → Result Text B
and_then (ok a) f = f a
and_then (err e) f = err e

unfoldable pub collect_workloads :
    Dict IdentityPolicy → Dict WorkloadConfig → Result Text (Dict WorkloadConfig)
unfolding add_workload
collect_workloads [] workloads = ok workloads
collect_workloads ((name, policy) ∷ rest) workloads =
    and_then (add_workload name policy workloads (parse_selector policy)) (collect_workloads rest)

-- What the handler asks to be signed.
abbrev pub signing_request : ℕ → PolicyDecision → Text → Text → SigningRequest
signing_request peer_cid decision identity csr_pem = record {
  csr_pem = csr_pem;
  identity = identity;
  vm_name = decision.vm_name;
  cid = peer_cid;
  ip = decision.ip;
  validity_seconds = decision.validity_seconds;
}

module _ (rc : Rcgen) (io_text : IoError → Text) (request_json : Json AgentRequest)
    (response_json : Json AgentResponse) (config : HostConfig) (made : CertificateAuthority)
    (now peer_cid : ℕ) where
  respond : AgentResponse → Io Stream Error (Unit {0})
  respond = send_json response_json

  send_workloads : Result Text (Dict WorkloadConfig) → Io Stream Error (Unit {0})
  send_workloads (err msg) = respond (error msg)
  send_workloads (ok workloads) = respond (handshake_ok workloads)

  shake : Text → Option VmEntry → Io Stream Error (Unit {0})
  shake vm_name none = respond (error (not_registered vm_name))
  shake vm_name (some entry) =
      if entry.vm_cid != peer_cid
      then respond (error (wrong_cid entry.vm_cid peer_cid))
      else send_workloads (collect_workloads entry.identities [])

  send_cert : Result CaError Text → Io Stream Error (Unit {0})
  send_cert (err e) = fail (message (signing_failed (Errors.to_string io_text e)))
  send_cert (ok cert_pem) = respond (cert_ok cert_pem made.cert_pem)

  certify : Text → Text → Text → Option PolicyDecision → Io Stream Error (Unit {0})
  certify vm_name identity csr_pem none = respond (error (not_authorised vm_name identity))
  certify vm_name identity csr_pem (some decision) =
      if decision.vm_cid != peer_cid
      then fail (message cid_failed)
      else send_cert (sign_csr rc made now (signing_request peer_cid decision identity csr_pem))

  handle_request : AgentRequest → Io Stream Error (Unit {0})
  handle_request (handshake version vm_name) =
      if version != protocol_version
      then respond (error (bad_version version))
      else shake vm_name (lookup vm_name config.vms)
  handle_request (cert_request version vm_name identity csr_pem) =
      if version != protocol_version
      then respond (error (bad_version version))
      else certify vm_name identity csr_pem (resolve config vm_name identity)

  handle_inner : Io Stream Error (Unit {0})
  unfolding handle_request
  handle_inner = do req ← recv_json request_json; handle_request req

  report : Result Error (Unit {0}) × Stream → Stream
  report (ok _, s) = s
  report (err e, s) = (send_json response_json (error (to_string io_text e)) s).1

  unfoldable pub handle_connection : Stream → Stream
  unfolding report handle_inner respond send_workloads shake send_cert certify
  handle_connection s = report (handle_inner s)
