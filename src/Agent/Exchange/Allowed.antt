-- ===== src/Agent/Exchange/Allowed.antt =====
-- The agent and the host together, whatever the sizes of the messages: a response that the agent
-- receives is the host's answer to its request, or an error.
use vm_authn_scope.Prelude.{ℕ, ◌<◌, ◌^◌, length, ◌≤◌, ◌≡◌, refl, [], ◌∷◌, ◌⊎◌, inl, inr}
use vm_authn_scope.Prelude.Result.{Result, ok, err}
use vm_authn_scope.Prelude.Io.{relabel-eq-ok}
use vm_authn_scope.Prelude.Text.{Text}
use vm_authn_scope.Prelude.Errors.{Bytes, IoError, Error, context}
use vm_authn_scope.Proto.Wire.{AgentRequest, AgentResponse, error}
use vm_authn_scope.Proto.Codec.{Json, Stream, send_json, recv_json}
use vm_authn_scope.Proto.Codec.Frame.{frame}
use vm_authn_scope.Proto.Codec.Lawful.{
  Lawful, frame_room, send_json-eq-ok, recv_json-eq-ok, recv_json_empty,
}
use vm_authn_scope.Proto.Codec.Reordered.{Alike, Readable}
use vm_authn_scope.Server.Handler.Answer.{answer}
use vm_authn_scope.Server.Handler.Answer.Collected.{answer-HasMap}
use vm_authn_scope.Ca.Rcgen.{Rcgen}
use vm_authn_scope.Ca.Authority.{CertificateAuthority}
use vm_authn_scope.Server.Config.{HostConfig}
use vm_authn_scope.Server.Handler.Answer.Written.{
  Wrote, silent, framed, Allowed, handle_connection-Wrote,
}
use vm_authn_scope.Agent.Kernel.{Kernel, Trace, sent}
use vm_authn_scope.Agent.Exchange.{exchange, after_send, receive, fresh_stream}
use vm_authn_scope.Agent.Exchange.Hosted.{host}

module _ (rc : Rcgen) (io_text : IoError → Text) (request_json : Json AgentRequest)
    (response_json : Json AgentResponse) (config : HostConfig) (made : CertificateAuthority)
    (peer_cid : ℕ) (k : Kernel) where
  -- The kernel hands what the agent writes to the host, which sees it under one CID and answers at
  -- some time, and hands back what the host writes.
  pub record Transport : Type 0 where
    pub time : Trace → ℕ
    pub room : ℕ
    pub wide : frame_room ≤ room
    pub hands :
        (fd : ℕ) (t : Trace) (bytes : Bytes)
        → k.reply (sent fd bytes ∷ t) bytes
          ≡ host rc io_text request_json response_json config made (time t) peer_cid room bytes

  -- The host's answer to a request, the workloads in any order, or an error.
  abbrev pub Answers : ℕ → AgentRequest → AgentResponse → Type 0
  Answers now req resp =
      Alike (answer rc io_text config made now peer_cid req) resp
      ⊎ ((msg : Text) × (resp ≡ error msg))

  read-Answers :
      (now : ℕ) (req : AgentRequest) (r resp : AgentResponse) (payload : Bytes)
      → Readable response_json
      → Allowed rc io_text request_json response_json config made now peer_cid req r
      → response_json.to_vec r ≡ ok payload
      → response_json.from_slice payload ≡ ok resp
      → Answers now req resp
  unfolding Allowed
  read-Answers now req r resp payload law (inl is_answer) encodes decodes =
      let (v, read, alike) =
        law.reads (answer rc io_text config made now peer_cid req) payload
          (answer-HasMap rc io_text config made now peer_cid req) (rw is_answer at encodes) in
      let same : v ≡ resp = cc (read, decodes) in inl (rw (← same) alike)
  read-Answers now req r resp payload law (inr (msg, is_error)) encodes decodes =
      let (v, read, alike) = law.reads (error msg) payload tt (rw is_error at encodes) in
      inr (msg, cc (read, decodes, alike))

  received-Answers :
      (now : ℕ) (req : AgentRequest) (bytes : Bytes) (s : Stream) {resp : AgentResponse}
      → Readable response_json
      → Wrote response_json
          (Allowed rc io_text request_json response_json config made now peer_cid req)
          bytes
      → (recv_json response_json (record s { incoming = bytes })).0 ≡ ok resp
      → Answers now req resp
  received-Answers now req bytes s law silent got = absurd (recv_json_empty response_json s got)
  received-Answers now req bytes s {resp} law (framed r payload allowed encodes short) got =
      read-Answers now req r resp payload law allowed encodes
        (recv_json-eq-ok response_json payload s short got)

  after_send-Answers :
      (fd : ℕ) (sending receiving : Text) (req : AgentRequest) (t : Trace)
      (p : Result Error (Unit {0}) × Stream) {resp : AgentResponse}
      → Lawful request_json
      → Readable response_json
      → (wired : Transport)
      → (p.0 ≡ ok tt
          → (payload : Bytes) × (request_json.from_slice payload ≡ ok req)
            × (length payload < 2 ^ 32)
            × (p.1.outgoing ≡ frame payload))
      → (after_send request_json response_json k fd sending receiving p t).0 ≡ ok resp
      → Answers (wired.time t) req resp
  unfolding after_send receive host
  after_send-Answers fd sending receiving req t (err e, s) lr la wired out got = absurd (cc (got))
  after_send-Answers fd sending receiving req t (ok u, s) lr la wired out got =
      let (payload, decodes, short, written) = out refl in
      let received =
        relabel-eq-ok (context receiving)
          (recv_json response_json
            (record s { incoming = k.reply (sent fd s.outgoing ∷ t) s.outgoing })).0
          got in
      received-Answers (wired.time t) req _ s la
        (rw (wired.hands fd t s.outgoing) (
          rw written (
            handle_connection-Wrote rc io_text request_json response_json config made (wired.time t)
              peer_cid req payload (record { incoming = []; outgoing = []; room = wired.room })
              la.bounded wired.wide refl decodes short)))
        received

  -- If the kernel hands each request of the agent to the host's handle_connection, at some
  -- time and from one CID, and hands back all that it writes, serde_json reads back what it
  -- writes, the entries of a map in any order, and writes less than 4 GiB, then whatever an
  -- exchange of the agent returns, for messages of any size, is the answer that the
  -- description answer gives for its request at that time, the workloads of a handshake in
  -- any order, or an error response.
  pub exchange-Answers :
      (fd : ℕ) (sending receiving : Text) (req : AgentRequest) (t : Trace) (resp : AgentResponse)
      (wired : Transport)
      → Lawful request_json
      → Readable response_json
      → (exchange request_json response_json k fd sending receiving req t).0 ≡ ok resp
      → Answers (wired.time t) req resp
  unfolding exchange
  exchange-Answers fd sending receiving req t resp wired lr la got =
      after_send-Answers fd sending receiving req t
        (send_json request_json req (fresh_stream request_json response_json k t)) lr la wired
        (λ sent_ok.
          let (payload, encodes, short, written) =
            send_json-eq-ok request_json req (fresh_stream request_json response_json k t)
              lr.bounded sent_ok in
          (payload, lr.reads req payload encodes, short, written))
        got
