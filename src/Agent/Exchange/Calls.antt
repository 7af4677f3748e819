-- ===== src/Agent/Exchange/Calls.antt =====
-- The descriptors behind an exchange and behind the listener's loop.
use vm_authn_scope.Prelude.{ℕ, zero, suc, ◌+◌, ◌*◌, ◌≤◌, ◌≡◌, arith, ◌∷◌}
use vm_authn_scope.Prelude.Result.{Result, ok, err}
use vm_authn_scope.Prelude.Text.{Text}
use vm_authn_scope.Prelude.Errors.{IoError, Error, io, context}
use vm_authn_scope.Proto.Wire.{AgentRequest, AgentResponse}
use vm_authn_scope.Proto.Codec.{Json, Stream}
use vm_authn_scope.Agent.Kernel.{
  Kernel, Trace, listened, slept, hit, socket_calls, opens, closes, sleeps,
}
use vm_authn_scope.Agent.Exchange.{
  Action, receive, after_send, exchange, bound_or, listen_rounds, bind_listener,
}

module _ (request_json : Json AgentRequest) (response_json : Json AgentResponse) (k : Kernel)
    (d : ℕ) where
  after_send-closes :
      (fd : ℕ) (sending receiving : Text) (p : Result Error (Unit {0}) × Stream) (t : Trace)
      → let t' = (after_send request_json response_json k fd sending receiving p t).1 in
        (opens d t' ≡ opens d t)
        × (closes d t' ≡ closes d t + hit d fd)
        × (socket_calls t' ≡ socket_calls t)
        × (sleeps t' ≡ sleeps t)
  unfolding after_send receive
  after_send-closes fd sending receiving (err e, s) t = omega arith
  after_send-closes fd sending receiving (ok u, s) t = omega arith

  -- Whatever comes back, the stream is closed, no other is opened, and there is no sleep.
  pub exchange-closes :
      (fd : ℕ) (sending receiving : Text) (req : AgentRequest) (t : Trace)
      → let t' = (exchange request_json response_json k fd sending receiving req t).1 in
        (opens d t' ≡ opens d t)
        × (closes d t' ≡ closes d t + hit d fd)
        × (socket_calls t' ≡ socket_calls t)
        × (sleeps t' ≡ sleeps t)
  unfolding exchange
  exchange-closes fd sending receiving req t = after_send-closes fd sending receiving _ t

-- A call that opens and closes no descriptor, and sleeps so long at most.
pub record Waits (d ms : ℕ) (t t' : Trace) : Type 0 where
  pub same_opens : opens d t' ≡ opens d t
  pub same_closes : closes d t' ≡ closes d t
  pub same_sockets : socket_calls t' ≡ socket_calls t
  pub short_sleep : sleeps t' ≤ sleeps t + ms

module _ (k : Kernel) (port d : ℕ) (failing : Text) where
  bound_or-Waits :
      (again : IoError → Action (Unit {0})) (ms : ℕ) (r : Result IoError (Unit {0})) (t : Trace)
      → ((e : IoError) → Waits d ms t (again e t).1)
      → Waits d ms t (bound_or k port failing again r t).1
  unfolding bound_or
  bound_or-Waits again ms (ok u) t h = omega arith
  bound_or-Waits again ms (err e) t h = h e

  listen_rounds-Waits :
      (left : ℕ) (t : Trace) → Waits d (left * 100) t (listen_rounds k port failing left t).1
  unfolding listen_rounds
  listen_rounds-Waits zero t = omega (
    arith,
    bound_or-Waits (λ e t'. (err (context failing (io e)), t')) 0 (k.listen t) (listened port ∷ t)
        (λ e. omega arith),
  )
  listen_rounds-Waits (suc left) t = omega (
    arith,
    bound_or-Waits (λ e t'. listen_rounds k port failing left (slept 100 ∷ t')) (left * 100 + 100)
        (k.listen t) (listened port ∷ t)
        (λ e. omega (arith, listen_rounds-Waits left (slept 100 ∷ listened port ∷ t))),
  )

  -- Whatever the system answers, binding the listener opens and closes no descriptor of a
  -- dialled stream and sleeps at most one second.
  pub bind_listener-Waits : (t : Trace) → Waits d 1000 t (bind_listener k port failing t).1
  unfolding bind_listener
  bind_listener-Waits t = listen_rounds-Waits 10 t
