-- ===== src/Agent/Startup/Cost.antt =====
-- What the start of the agent costs, and the state it leads to.
use vm_authn_scope.Prelude.{ℕ, zero, suc, ◌+◌, ◌*◌, ◌≡◌, true, [], ◌∷◌, arith}
use vm_authn_scope.Prelude.Result.{Result, ok, err}
use vm_authn_scope.Prelude.Io.{continue, continue-eq-ok, pure, ◌>>◌}
use vm_authn_scope.Prelude.Errors.{Error}
use vm_authn_scope.Prelude.Dict.{Dict}
use vm_authn_scope.Proto.Wire.{AgentResponse, handshake_ok, cert_ok, error, WorkloadConfig}
use vm_authn_scope.Ca.Rcgen.{Rcgen}
use vm_authn_scope.Agent.Config.{AgentConfig}
use vm_authn_scope.Agent.Kernel.{Trace, hit, opens, closes, socket_calls, sleeps, slept}
use vm_authn_scope.Agent.Exchange.{bind_listener}
use vm_authn_scope.Agent.Exchange.Calls.{exchange-closes, bind_listener-Waits}
use vm_authn_scope.Agent.Dial.Rounds.{held, Spent, connect_with_local_port-Spent}
use vm_authn_scope.Agent.Dial.{host_cid}
use vm_authn_scope.Agent.Request.{AgentState, World, dial}
use vm_authn_scope.Agent.Startup.{
  secure_context, workloads_from, dialled_or, dial_rounds, greet, perform_handshake, secured,
  start_from, run_agent,
}

module _ (rc : Rcgen) (w : World rc) (config : AgentConfig) (d : ℕ) where
  dial-Spent : (t : Trace) → let r = dial rc w config t in Spent d (held d r.0) 11 1000 t r.1
  dial-Spent t =
      connect_with_local_port-Spent w.io_text w.kernel (host_cid w.env) config.server_port
        config.client_port d t

  dialled_or-Spent :
      (again : Error → Trace → Result Error ℕ × Trace) (sockets ms : ℕ) (p : Result Error ℕ × Trace)
      (t : Trace)
      → Spent d (held d p.0) 11 1000 t p.1
      → ((e : Error) (t' : Trace) → Spent d (held d (again e t').0) sockets ms t' (again e t').1)
      → let r = dialled_or rc w config again p in
        Spent d (held d r.0) (sockets + 11) (ms + 1000) t r.1
  unfolding dialled_or
  dialled_or-Spent again sockets ms (ok fd, t') t s next = omega (arith, s)
  dialled_or-Spent again sockets ms (err e, t') t s next = omega (arith, s, next e t')

  dial_rounds-Spent :
      (left : ℕ) (t : Trace)
      → let r = dial_rounds rc w config left t in
        Spent d (held d r.0) (left * 11 + 11) (left * 1500 + 1000) t r.1
  unfolding dial_rounds
  dial_rounds-Spent zero t =
      dialled_or-Spent _ 0 0 (dial rc w config t) t (dial-Spent t) (λ e t'. omega arith)
  dial_rounds-Spent (suc left) t = omega (
    arith,
    dialled_or-Spent (λ e t'. dial_rounds rc w config left (slept 500 ∷ t')) (left * 11 + 11)
        (left * 1500 + 1500) (dial rc w config t) t (dial-Spent t)
        (λ e t'. omega (arith, dial_rounds-Spent left (slept 500 ∷ t'))),
  )

  greeted-Spent :
      (p : Result Error ℕ × Trace) (t : Trace)
      → Spent d (held d p.0) 176 23500 t p.1
      → let r =
          continue
            (λ fd t'. continue (λ resp t''. (workloads_from resp, t'')) (greet rc w config fd t'))
            p in
        Spent d 0 176 23500 t r.1
  greeted-Spent (err e, t') t s = omega (arith, s)
  greeted-Spent (ok fd, t') t s = go (greet rc w config fd t') (exchange-cost fd t')
    where
      exchange-cost :
          (fd : ℕ) (t' : Trace)
          → let t'' = (greet rc w config fd t').1 in
            (opens d t'' ≡ opens d t')
            × (closes d t'' ≡ closes d t' + hit d fd)
            × (socket_calls t'' ≡ socket_calls t')
            × (sleeps t'' ≡ sleeps t')
      exchange-cost fd t' = exchange-closes w.request_json w.response_json w.kernel d fd _ _ _ t'

      go :
          (q : Result Error AgentResponse × Trace)
          → (opens d q.1 ≡ opens d t')
            × (closes d q.1 ≡ closes d t' + hit d fd)
            × (socket_calls q.1 ≡ socket_calls t')
            × (sleeps q.1 ≡ sleeps t')
          → Spent d 0 176 23500 t (continue (λ resp t''. (workloads_from resp, t'')) q).1
      go (ok resp, t'') h = omega (arith, s, h)
      go (err e, t'') h = omega (arith, s, h)

  secured-Spent :
      (p : Result Error (Dict WorkloadConfig) × Trace) (t : Trace)
      → Spent d 0 176 23500 t p.1
      → let r =
          continue
            (λ workloads.
              bind_listener w.kernel config.client_port (secure_context config.client_port)
              >> pure workloads)
            p in
        Spent d 0 176 24500 t r.1
  secured-Spent (err e, t') t s = omega (arith, s)
  secured-Spent (ok ws, t') t s = ground (
    arith,
    s,
    bind_listener-Waits w.kernel config.client_port d (secure_context config.client_port) t',
  )

  -- For each descriptor: whatever the calls to the system return and whatever arrives before
  -- the end of a stream, the start of the agent makes at most 176 calls of socket, those that
  -- fail included, sleeps at most 24.5 seconds, and closes the stream of the descriptor as
  -- many times as it opens it.
  pub run_agent-Spent : (t : Trace) → Spent d 0 176 24500 t (run_agent rc w config t).1
  unfolding run_agent secured start_from perform_handshake
  run_agent-Spent t = go (secured rc w config t) (
      secured-Spent (perform_handshake rc w config t) t
        (greeted-Spent (dial_rounds rc w config 15 t) t (dial_rounds-Spent 15 t)))
    where
      go :
          (p : Result Error (Dict WorkloadConfig) × Trace)
          → Spent d 0 176 24500 t p.1
          → Spent d 0 176 24500 t (start_from rc w config p).1
      go (ok ws, t') s = s
      go (err e, t') s = s

module _ (rc : Rcgen) (w : World rc) (config : AgentConfig) where
  workloads_from-eq-ok :
      (resp : AgentResponse) {ws : Dict WorkloadConfig}
      → workloads_from resp ≡ ok ws
      → resp ≡ handshake_ok ws
  unfolding workloads_from
  workloads_from-eq-ok (handshake_ok workloads) e = cc
  workloads_from-eq-ok (cert_ok cert_pem ca_cert_pem) e = absurd (cc)
  workloads_from-eq-ok (error msg) e = absurd (cc)

  perform_handshake-eq-ok :
      (t : Trace) {ws : Dict WorkloadConfig}
      → (perform_handshake rc w config t).0 ≡ ok ws
      → (fd : ℕ) × (t' : Trace) × ((greet rc w config fd t').0 ≡ ok (handshake_ok ws))
  unfolding perform_handshake
  perform_handshake-eq-ok t e =
      let (fd, dialled, h) = continue-eq-ok _ (dial_rounds rc w config 15 t) e in
      let t' = (dial_rounds rc w config 15 t).1 in
      let (resp, greeted, h') = continue-eq-ok _ (greet rc w config fd t') h in
      (fd, t', rw (← workloads_from-eq-ok resp h') greeted)

  secured-eq-ok :
      (t : Trace) {ws : Dict WorkloadConfig}
      → (secured rc w config t).0 ≡ ok ws
      → (perform_handshake rc w config t).0 ≡ ok ws
  unfolding secured
  secured-eq-ok t e =
      let (ws, shaken, h) = continue-eq-ok _ (perform_handshake rc w config t) e in
      let (u, bound, h') =
        continue-eq-ok _
          (bind_listener w.kernel config.client_port (secure_context config.client_port) _) h in
      cc (shaken, h')

  start_from-eq-ok :
      (p : Result Error (Dict WorkloadConfig) × Trace) {s : AgentState}
      → (start_from rc w config p).0 ≡ ok s
      → (p.0 ≡ ok s.workloads) × (s.listening ≡ true) × (s.cache ≡ []) × (s.trace ≡ p.1)
  unfolding start_from
  start_from-eq-ok (ok ws, t) {s} e = ground (arith, e)
  start_from-eq-ok (err x, t) e = absurd (cc)

  -- If the start of the agent succeeds, the client port is held by a listener, the cache is
  -- empty, and the workloads are those of the response to a handshake that the agent sent on
  -- some stream.
  pub run_agent-eq-ok :
      (t : Trace) {s : AgentState}
      → (run_agent rc w config t).0 ≡ ok s
      → (s.listening ≡ true)
        × (s.cache ≡ [])
        × ((fd : ℕ) × (t' : Trace) × ((greet rc w config fd t').0 ≡ ok (handshake_ok s.workloads)))
  unfolding run_agent
  run_agent-eq-ok t {s} e =
      let (ready, listening, empty, same) = start_from-eq-ok (secured rc w config t) e in
      (listening, empty, perform_handshake-eq-ok t (secured-eq-ok t ready))
