-- ===== src/Server/Handler/Answer.antt =====
-- The response to a request, as one decision, and that a connection writes just that.
pub mod Authorised
pub mod Handshake
pub mod Written
pub mod Collected
use vm_authn_scope.Prelude.{
  ℕ, ◌+◌, ◌-◌, ◌^◌, ◌≤◌, ◌<◌, ◌≡◌, ◌↔◌, ◌≢◌, refl, ap, ◌∙◌, Option, none, some, List, [], ◌∷◌, ◌++◌,
  arith, length, if◌then◌else◌, ◌!=◌, nat_eq,
}
use vm_authn_scope.Prelude.Result.{Result, ok, err, map_err}
use vm_authn_scope.Prelude.Text.{Text}
use vm_authn_scope.Prelude.Dict.{Dict, lookup}
use vm_authn_scope.Prelude.Errors.{Bytes, IoError, Error, json, message, to_string}
use vm_authn_scope.Proto.Wire.{
  AgentRequest, handshake, cert_request, AgentResponse, handshake_ok, cert_ok, error,
  WorkloadConfig, protocol_version,
}
use vm_authn_scope.Proto.Codec.{Json, Stream, max_msg_bytes, send_json, recv_json}
use vm_authn_scope.Proto.Codec.Frame.{frame, send_json-frame, recv_json-frame}
use vm_authn_scope.Ca.Errors
use vm_authn_scope.Ca.Errors.{CaError}
use vm_authn_scope.Ca.Rcgen.{Rcgen}
use vm_authn_scope.Ca.Authority.{CertificateAuthority}
use vm_authn_scope.Ca.Signing.{SigningRequest, sign_csr}
use vm_authn_scope.Server.Config.{HostConfig, VmEntry, IdentityPolicy}
use vm_authn_scope.Server.Policy.{PolicyDecision, resolve}
use vm_authn_scope.Server.Handler.{
  bad_version, not_registered, wrong_cid, not_authorised, cid_failed, signing_failed,
  collect_workloads, respond, send_workloads, shake, signing_request, send_cert, certify,
  handle_request, report, handle_inner, handle_connection,
}

module _ (rc : Rcgen) (io_text : IoError → Text) (config : HostConfig) (made : CertificateAuthority)
    (now peer_cid : ℕ) where
  answer_workloads : Result Text (Dict WorkloadConfig) → AgentResponse
  answer_workloads (ok workloads) = handshake_ok workloads
  answer_workloads (err msg) = error msg

  answer_vm : Text → Option VmEntry → AgentResponse
  answer_vm vm_name none = error (not_registered vm_name)
  answer_vm vm_name (some entry) =
      if entry.vm_cid != peer_cid
      then error (wrong_cid entry.vm_cid peer_cid)
      else answer_workloads (collect_workloads entry.identities [])

  answer_signed : Result CaError Text → AgentResponse
  answer_signed (ok cert_pem) = cert_ok cert_pem made.cert_pem
  answer_signed (err e) = error (signing_failed (Errors.to_string io_text e))

  answer_policy : Text → Text → Text → Option PolicyDecision → AgentResponse
  answer_policy vm_name identity csr_pem none = error (not_authorised vm_name identity)
  answer_policy vm_name identity csr_pem (some decision) =
      if decision.vm_cid != peer_cid
      then error cid_failed
      else answer_signed (sign_csr rc made now (signing_request peer_cid decision identity csr_pem))

  -- The first test that fails decides.
  unfoldable pub answer : AgentRequest → AgentResponse
  unfolding answer_workloads answer_vm answer_signed answer_policy
  answer (handshake version vm_name) =
      if version != protocol_version
      then error (bad_version version)
      else answer_vm vm_name (lookup vm_name config.vms)
  answer (cert_request version vm_name identity csr_pem) =
      if version != protocol_version
      then error (bad_version version)
      else answer_policy vm_name identity csr_pem (resolve config vm_name identity)

module _ (rc : Rcgen) (io_text : IoError → Text) (request_json : Json AgentRequest)
    (response_json : Json AgentResponse) (config : HostConfig) (made : CertificateAuthority)
    (now peer_cid : ℕ) where
  handle_request-answer :
      (req : AgentRequest) (s : Stream) {t : Stream}
      → send_json response_json (answer rc io_text config made now peer_cid req) s ≡ (ok tt, t)
      → report rc io_text request_json response_json config made now peer_cid
          (handle_request rc io_text request_json response_json config made now peer_cid req s)
        ≡ t
  unfolding handle_request report respond send_workloads shake send_cert certify answer to_string
  handle_request-answer (handshake version vm_name) s e = ground arith
  handle_request-answer (cert_request version vm_name identity csr_pem) s e = ground arith

  -- For every request that arrives whole and decodes, if the answer encodes to under 4 GiB
  -- and the stream has room for it, handle_connection consumes the request's frame, writes
  -- exactly one frame, that of the answer which an independent description (answer) gives for
  -- the request, and leaves what stands behind the request unread.
  pub handle_connection-answer :
      (req : AgentRequest) (payload reply rest : Bytes) (s : Stream)
      → request_json.from_slice payload ≡ ok req
      → length payload ≤ max_msg_bytes
      → response_json.to_vec (answer rc io_text config made now peer_cid req) ≡ ok reply
      → length reply < 2 ^ 32
      → length reply + 4 ≤ s.room
      → handle_connection rc io_text request_json response_json config made now peer_cid
          (record s { incoming = frame payload ++ rest })
        ≡ record {
          incoming = rest;
          outgoing = s.outgoing ++ frame reply;
          room = s.room - (length reply + 4);
        }
  unfolding handle_connection handle_inner
  handle_connection-answer req payload reply rest s decodes small encodes short fits =
      rw (recv_json-frame request_json payload rest s small, decodes)
        (handle_request-answer req _
          (send_json-frame response_json _ reply (record s { incoming = rest }) encodes short fits))

  -- If no request can be received, handle_connection writes exactly one frame, an error
  -- response with the error's text, provided that it encodes to under 4 GiB and the stream
  -- has room for it.
  pub handle_connection_malformed :
      (e : Error) (reply : Bytes) (s t : Stream)
      → recv_json request_json s ≡ (err e, t)
      → response_json.to_vec (error (to_string io_text e)) ≡ ok reply
      → length reply < 2 ^ 32
      → length reply + 4 ≤ t.room
      → handle_connection rc io_text request_json response_json config made now peer_cid s
        ≡ record t { outgoing = t.outgoing ++ frame reply; room = t.room - (length reply + 4) }
  unfolding handle_connection handle_inner report
  handle_connection_malformed e reply s t received encodes short fits =
      rw received (ap (λ r. r.1) (send_json-frame response_json _ reply t encodes short fits))
