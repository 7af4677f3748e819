-- ===== src/Agent/Exchange/Hosted.antt =====
-- The agent and the host together: an exchange of the agent over a kernel that hands what was
-- written to the server's `handle_connection`, and what that writes back.
use vm_authn_scope.Prelude.{ℕ, ◌+◌, ◌-◌, ◌≤◌, ◌≡◌, ap, [], ◌∷◌, append-nil, length, arith}
use vm_authn_scope.Prelude.Result.{ok}
use vm_authn_scope.Prelude.Text.{Text}
use vm_authn_scope.Prelude.Errors.{Bytes, IoError}
use vm_authn_scope.Proto.Wire.{AgentRequest, AgentResponse}
use vm_authn_scope.Proto.Codec.{Json, Stream, max_msg_bytes}
use vm_authn_scope.Proto.Codec.Frame.{frame, send_json-frame, recv_json-frame}
use vm_authn_scope.Ca.Rcgen.{Rcgen}
use vm_authn_scope.Ca.Authority.{CertificateAuthority}
use vm_authn_scope.Server.Config.{HostConfig}
use vm_authn_scope.Server.Handler.{handle_connection}
use vm_authn_scope.Server.Handler.Answer.{answer, handle_connection-answer}
use vm_authn_scope.Agent.Kernel.{Kernel, Trace, sent}
use vm_authn_scope.Agent.Exchange.{exchange, after_send, receive}

-- A message that arrives: how it is encoded, and that it is read back.
pub record Carries {T : Type 0} (j : Json T) (v : T) (bytes : Bytes) : Type 0 where
  pub encodes : j.to_vec v ≡ ok bytes
  pub decodes : j.from_slice bytes ≡ ok v
  pub small : length bytes ≤ max_msg_bytes

module _ (rc : Rcgen) (io_text : IoError → Text) (request_json : Json AgentRequest)
    (response_json : Json AgentResponse) (config : HostConfig) (made : CertificateAuthority)
    (now peer_cid : ℕ) where
  -- The host at the other end of a stream, with so much room for its answer.
  unfoldable pub host : ℕ → Bytes → Bytes
  host room bytes =
      (handle_connection rc io_text request_json response_json config made now peer_cid
        (record { incoming = bytes; outgoing = []; room = room })).outgoing

  host-answer :
      (req : AgentRequest) (payload reply : Bytes) (room : ℕ)
      → Carries request_json req payload
      → Carries response_json (answer rc io_text config made now peer_cid req) reply
      → length reply + 4 ≤ room
      → host room (frame payload) ≡ frame reply
  unfolding host
  host-answer req payload reply room asked answered fits =
      let e =
        handle_connection-answer rc io_text request_json response_json config made now peer_cid req
          payload reply [] (record { incoming = []; outgoing = []; room = room }) asked.decodes
          asked.small answered.encodes (omega (arith, answered.small)) fits in
      ap (λ (s : Stream). s.outgoing) (rw (append-nil (frame payload)) at e)

  -- If the kernel hands what an exchange of the agent writes to the host's handle_connection
  -- and hands back what that writes, and the request and the host's answer to it are encoded
  -- to at most 4 MiB, read back and have room, then the exchange returns the host's answer to
  -- the request.
  pub exchange-answer :
      (k : Kernel) (fd : ℕ) (sending receiving : Text) (req : AgentRequest) (payload reply : Bytes)
      (room : ℕ) (t : Trace)
      → Carries request_json req payload
      → Carries response_json (answer rc io_text config made now peer_cid req) reply
      → length payload + 4 ≤ k.room t
      → length reply + 4 ≤ room
      → k.reply (sent fd (frame payload) ∷ t) (frame payload) ≡ host room (frame payload)
      → (exchange request_json response_json k fd sending receiving req t).0
        ≡ ok (answer rc io_text config made now peer_cid req)
  unfolding exchange after_send receive
  exchange-answer k fd sending receiving req payload reply room t asked answered wide fits wired =
      ground (
        arith,
        send_json-frame request_json req payload
            (record { incoming = []; outgoing = []; room = k.room t }) asked.encodes
            (omega (arith, asked.small)) wide,
        wired,
        host-answer req payload reply room asked answered fits,
        append-nil (frame reply),
        recv_json-frame response_json reply []
            (record {
              incoming = [];
              outgoing = frame payload;
              room = k.room t - (length payload + 4);
            })
            answered.small,
        answered.decodes,
      )
