-- ===== src/Agent/Request/Port.antt =====
-- The client port around a request, and the descriptors.
use vm_authn_scope.Prelude.{ℕ, ◌+◌, true, false, ◌≡◌, ◌⊎◌, inl, inr, refl, arith}
use vm_authn_scope.Prelude.Result.{Result, ok, err, map_err}
use vm_authn_scope.Prelude.Text.{Text}
use vm_authn_scope.Prelude.Errors.{Error, context}
use vm_authn_scope.Proto.Wire.{cert_request, AgentResponse, protocol_version}
use vm_authn_scope.Ca.Rcgen.{Rcgen}
use vm_authn_scope.Agent.Config.{AgentConfig}
use vm_authn_scope.Agent.Csr.{GeneratedCsr, generate_csr}
use vm_authn_scope.Agent.Kernel.{sleeps, Trace, hit, socket_calls, opens, closes}
use vm_authn_scope.Prelude.Io.{continue, relabel}
use vm_authn_scope.Agent.Dial.Rounds.{held, connect_with_local_port-Spent}
use vm_authn_scope.Agent.Exchange.Calls.{exchange-closes, bind_listener-Waits}
use vm_authn_scope.Agent.Request.{
  X509Credentials, AgentState, World, csr_context, dial_context, dial, ask, release, secure,
  rebind_context, after_answer, on_stream, dial_and_ask, request_cert_on_demand,
}

-- The descriptor `d` is open as many times after as before.
pub record Even (d : ℕ) (t t' : Trace) : Type 0 where
  pub balance : opens d t' + closes d t ≡ opens d t + closes d t'

module _ (rc : Rcgen) (w : World rc) (config : AgentConfig) where
  dial_and_ask-listening :
      (identity : Text) (g : GeneratedCsr) (s : AgentState) {c : X509Credentials}
      → (dial_and_ask rc w config identity g s).0 ≡ ok c
      → (dial_and_ask rc w config identity g s).1.listening ≡ true
  unfolding dial_and_ask on_stream after_answer release secure
  dial_and_ask-listening identity g s e = ground arith

  after_answer-Even :
      (d : ℕ) (identity key_pem : Text) (resp : AgentResponse) (s : AgentState)
      → Even d s.trace (after_answer rc w config identity key_pem resp s).1.trace
  unfolding after_answer secure
  after_answer-Even d identity key_pem resp s = record {
    balance =
        ground (arith, bind_listener-Waits w.kernel config.client_port d rebind_context s.trace);
  }

  -- The stream that was dialled is closed.
  on_stream-closes :
      (d : ℕ) (identity : Text) (g : GeneratedCsr) (fd : ℕ) (s : AgentState)
      → let t' = (on_stream rc w config identity g fd s).1.trace in
        opens d t' + closes d s.trace + hit d fd ≡ opens d s.trace + closes d t'
  unfolding on_stream
  on_stream-closes d identity g fd s =
      go (ask rc w config fd _ s.trace)
        (exchange-closes w.request_json w.response_json w.kernel d fd _ _ _ s.trace)
    where
      go :
          (p : Result Error AgentResponse × Trace)
          → (opens d p.1 ≡ opens d s.trace)
            × (closes d p.1 ≡ closes d s.trace + hit d fd)
            × (socket_calls p.1 ≡ socket_calls s.trace)
            × (sleeps p.1 ≡ sleeps s.trace)
          → let t' =
              (continue
                (after_answer rc w config identity g.key_pem)
                (p.0, record s { trace = p.1 })).1.trace in
            opens d t' + closes d s.trace + hit d fd ≡ opens d s.trace + closes d t'
      go (ok resp, t) h =
          omega (arith, after_answer-Even d identity g.key_pem resp (record s { trace = t }))
      go (err e, t) h = omega arith

  -- The state in which the agent dials.
  abbrev pub released : AgentState → AgentState
  released s = (release config.client_port s).1

  released-Even : (d : ℕ) (s : AgentState) → Even d s.trace (released s).trace
  unfolding release
  released-Even d s = record { balance = ground arith }

  -- What follows the call that dials.
  abbrev after_dial :
      Text
      → GeneratedCsr
      → AgentState
      → Result Error ℕ × Trace
      → Result Error X509Credentials × AgentState
  after_dial identity g s (r, t) =
      continue (on_stream rc w config identity g)
        (relabel (context dial_context) r, record s { trace = t })

  after_dial-Even :
      (d : ℕ) (identity : Text) (g : GeneratedCsr) (s : AgentState) (p : Result Error ℕ × Trace)
      → opens d p.1 + closes d s.trace ≡ opens d s.trace + closes d p.1 + held d p.0
      → Even d s.trace (after_dial identity g s p).1.trace
  after_dial-Even d identity g s (ok fd, t) h = record {
    balance = omega (arith, on_stream-closes d identity g fd (record s { trace = t }));
  }
  after_dial-Even d identity g s (err e, t) h = record { balance = omega arith }

  dial_and_ask-Even :
      (d : ℕ) (identity : Text) (g : GeneratedCsr) (s : AgentState)
      → Even d s.trace (dial_and_ask rc w config identity g s).1.trace
  unfolding dial_and_ask release
  dial_and_ask-Even d identity g s =
      let r = released s in
      record {
        balance = omega (
          arith,
          released-Even d s,
          after_dial-Even d identity g r (dial rc w config r.trace)
              (connect_with_local_port-Spent w.io_text w.kernel _ config.server_port
                config.client_port d r.trace).balance,
        );
      }

  -- For each descriptor: whatever the calls to the system return and whatever arrives before
  -- the end of a stream, request_cert_on_demand closes the stream of the descriptor as many
  -- times as it opens it.
  pub request-Even :
      (d : ℕ) (identity : Text) (s : AgentState)
      → Even d s.trace (request_cert_on_demand rc w config identity s).1.trace
  unfolding request_cert_on_demand
  request-Even d identity s = go (generate_csr rc (w.generated s.trace) identity)
    where
      go :
          (r : Result Error GeneratedCsr)
          → let p =
              continue
                (dial_and_ask rc w config identity)
                (map_err (context (csr_context identity)) r, s) in
            Even d s.trace p.1.trace
      go (ok g) = dial_and_ask-Even d identity g s
      go (err e) = record { balance = refl }

  -- If request_cert_on_demand returns credentials, the client port is held by a listener
  -- behind it.
  pub request-listening :
      (identity : Text) (s : AgentState) (c : X509Credentials)
      → (request_cert_on_demand rc w config identity s).0 ≡ ok c
      → (request_cert_on_demand rc w config identity s).1.listening ≡ true
  unfolding request_cert_on_demand
  request-listening identity s c h = go (generate_csr rc (w.generated s.trace) identity) h
    where
      go :
          (r : Result Error GeneratedCsr)
          → let p =
              continue
                (dial_and_ask rc w config identity)
                (map_err (context (csr_context identity)) r, s) in
            p.0 ≡ ok c → p.1.listening ≡ true
      go (ok g) e = dial_and_ask-listening identity g s e
      go (err x) e = absurd (cc)

  -- The dial fails with an error, or the exchange on the stream that was dialled does.
  abbrev pub Unanswered : Text → GeneratedCsr → Error → AgentState → Type 0
  Unanswered identity g e s =
      let (r, t) = dial rc w config (released s).trace in
      let req = cert_request protocol_version config.vm_name identity g.csr_pem in
      (r ≡ err e) ⊎ ((fd : ℕ) × (r ≡ ok fd) × ((ask rc w config fd req t).0 ≡ err e))

  -- If a signing request is made and the dial fails, or the exchange on the dialled stream
  -- does, request_cert_on_demand fails with that error, possibly in the dial's context, and
  -- leaves the client port without a listener, also if there was one before.
  pub request_unsecured :
      (identity : Text) (s : AgentState) (g : GeneratedCsr) (e : Error)
      → generate_csr rc (w.generated s.trace) identity ≡ ok g
      → Unanswered identity g e s
      → let (r, s') = request_cert_on_demand rc w config identity s in
        ((r ≡ err (context dial_context e)) ⊎ (r ≡ err e)) × (s'.listening ≡ false)
  unfolding request_cert_on_demand dial_and_ask on_stream release
  request_unsecured identity s g e made (inl h) =
      (inl (ground (arith, made, h)), ground (arith, made, h))
  request_unsecured identity s g e made (inr (fd, h, h')) =
      (inr (ground (arith, made, h, h')), ground (arith, made, h, h'))

  dial_and_ask-cache :
      (identity : Text) (g : GeneratedCsr) (s : AgentState)
      → ((dial_and_ask rc w config identity g s).1.cache ≡ s.cache)
        × ((dial_and_ask rc w config identity g s).1.workloads ≡ s.workloads)
  unfolding dial_and_ask on_stream after_answer release secure
  dial_and_ask-cache identity g s = ground arith

  -- A request leaves cache and workloads alone.
  pub request-cache :
      (identity : Text) (s : AgentState)
      → ((request_cert_on_demand rc w config identity s).1.cache ≡ s.cache)
        × ((request_cert_on_demand rc w config identity s).1.workloads ≡ s.workloads)
  unfolding request_cert_on_demand
  request-cache identity s = go (generate_csr rc (w.generated s.trace) identity)
    where
      go :
          (r : Result Error GeneratedCsr)
          → let p =
              continue
                (dial_and_ask rc w config identity)
                (map_err (context (csr_context identity)) r, s) in
            (p.1.cache ≡ s.cache) × (p.1.workloads ≡ s.workloads)
      go (ok g) = dial_and_ask-cache identity g s
      go (err x) = (refl, refl)
