-- ===== src/Server/Handler/Answer/Written.antt =====
-- What a connection writes, whatever is asked: nothing, or one frame with the answer or an error.
use vm_authn_scope.Prelude.{
  ℕ, ◌^◌, ◌≤◌, ◌<◌, ◌≡◌, ◌⊎◌, inl, inr, refl, ◌∙◌, [], arith, length, nat_eq,
}
use vm_authn_scope.Prelude.Result.{Result, ok, err}
use vm_authn_scope.Prelude.Text.{Text}
use vm_authn_scope.Prelude.Errors.{Bytes, IoError, Error, to_string}
use vm_authn_scope.Proto.Wire.{AgentRequest, handshake, cert_request, AgentResponse, error}
use vm_authn_scope.Proto.Codec.{Json, Stream, send_json, recv_json}
use vm_authn_scope.Proto.Codec.Frame.{frame, recv_json-Takes}
use vm_authn_scope.Proto.Codec.Lawful.{IsBounded, frame_room, send_json-cases, recv_json-eq-ok}
use vm_authn_scope.Prelude.Io.{continue}
use vm_authn_scope.Ca.Rcgen.{Rcgen}
use vm_authn_scope.Ca.Authority.{CertificateAuthority}
use vm_authn_scope.Server.Config.{HostConfig}
use vm_authn_scope.Server.Handler.{
  respond, send_workloads, shake, send_cert, certify, handle_request, report, handle_inner,
  handle_connection,
}
use vm_authn_scope.Server.Handler.Answer.{answer, handle_request-answer}

-- Nothing, or the frame of one response of a kind.
pub data Wrote (j : Json AgentResponse) (P : AgentResponse → Type 0) : Bytes → Type 0 where
  silent : Wrote j P []
  framed :
      (resp : AgentResponse) (payload : Bytes)
      → P resp
      → j.to_vec resp ≡ ok payload
      → length payload < 2 ^ 32
      → Wrote j P (frame payload)

send_json-Wrote :
    (j : Json AgentResponse) (P : AgentResponse → Type 0) (resp : AgentResponse) (s : Stream)
    → IsBounded j
    → frame_room ≤ s.room
    → s.outgoing ≡ []
    → P resp
    → Wrote j P (send_json j resp s).1.outgoing
send_json-Wrote j P resp s law room empty due = elim (send_json-cases j resp s law room) [
  | inl (payload, encodes, short, sent) ↦ rw sent (rw empty (framed resp payload due encodes short))
  | inr (e, fails) ↦ rw fails (rw empty silent)
]

module _ (rc : Rcgen) (io_text : IoError → Text) (request_json : Json AgentRequest)
    (response_json : Json AgentResponse) (config : HostConfig) (made : CertificateAuthority)
    (now peer_cid : ℕ) where
  handle_request_unencoded :
      (req : AgentRequest) (s : Stream) (x : Error)
      → send_json response_json (answer rc io_text config made now peer_cid req) s ≡ (err x, s)
      → let out =
          report rc io_text request_json response_json config made now peer_cid
            (handle_request rc io_text request_json response_json config made now peer_cid req s) in
        (out ≡ s) ⊎ (out ≡ (send_json response_json (error (to_string io_text x)) s).1)
  unfolding handle_request report respond send_workloads shake send_cert certify answer to_string
  handle_request_unencoded (handshake version vm_name) s x e = ground arith
  handle_request_unencoded (cert_request version vm_name identity csr_pem) s x e = ground arith

  -- The answer to a request, or an error.
  unfoldable pub Allowed : AgentRequest → AgentResponse → Type 0
  Allowed req resp =
      (resp ≡ answer rc io_text config made now peer_cid req) ⊎ ((msg : Text) × (resp ≡ error msg))

  handle_request-Wrote :
      (req : AgentRequest) (s : Stream)
      → IsBounded response_json
      → frame_room ≤ s.room
      → s.outgoing ≡ []
      → Wrote response_json
          (Allowed req)
          (report rc io_text request_json response_json config made now peer_cid (
            handle_request rc io_text request_json response_json config made now peer_cid req
              s)).outgoing
  unfolding Allowed
  handle_request-Wrote req s law room empty =
      elim (send_json-cases response_json (answer rc io_text config made now peer_cid req) s law
        room) [
          | inl (payload, encodes, short, sent) ↦
              rw
                (handle_request-answer rc io_text request_json response_json config made now
                  peer_cid req s sent)
                (rw empty (framed _ payload (inl refl) encodes short))
          | inr (x, fails) ↦ elim (handle_request_unencoded req s x fails) [
            | inl same ↦ rw same (rw empty silent)
            | inr reported ↦ rw reported (
                send_json-Wrote response_json (Allowed req) (error (to_string io_text x)) s law room
                  empty (inr (to_string io_text x, refl)))
          ]
        ]

  received-Wrote :
      (req : AgentRequest) (p : Result Error AgentRequest × Stream)
      → IsBounded response_json
      → frame_room ≤ p.1.room
      → p.1.outgoing ≡ []
      → ((r : AgentRequest) → p.0 ≡ ok r → r ≡ req)
      → Wrote response_json
          (Allowed req)
          (report rc io_text request_json response_json config made now peer_cid (
            continue
              (handle_request rc io_text request_json response_json config made now peer_cid)
              p)).outgoing
  unfolding report Allowed
  received-Wrote req (ok r, s) law room empty same =
      rw (same r refl) (handle_request-Wrote req s law room empty)
  received-Wrote req (err e, s) law room empty same =
      send_json-Wrote response_json (Allowed req) (error (to_string io_text e)) s law room empty
        (inr (to_string io_text e, refl))

  -- If a request arrives whole and decodes and there is room, handle_connection writes nothing, or
  -- one frame with the answer to the request or an error.
  pub handle_connection-Wrote :
      (req : AgentRequest) (payload : Bytes) (s : Stream)
      → IsBounded response_json
      → frame_room ≤ s.room
      → s.outgoing ≡ []
      → request_json.from_slice payload ≡ ok req
      → length payload < 2 ^ 32
      → Wrote response_json
          (Allowed req)
          (handle_connection rc io_text request_json response_json config made now peer_cid
            (record s { incoming = frame payload })).outgoing
  unfolding handle_connection handle_inner
  handle_connection-Wrote req payload s law room empty decodes short =
      let taken = recv_json-Takes request_json (record s { incoming = frame payload }) in
      received-Wrote req (recv_json request_json (record s { incoming = frame payload })) law
        (rw taken.same_room room) (taken.same_outgoing ∙ empty)
        (λ r got. cc (recv_json-eq-ok request_json payload s short got, decodes))
