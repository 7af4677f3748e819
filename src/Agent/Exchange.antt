-- ===== src/Agent/Exchange.antt =====
-- apps/rust-apps/authn-scope-agent/src/client.rs: one request and its response on a stream that
-- was dialled, and the loop that binds the listener on the client port.
pub mod Calls
pub mod Hosted
pub mod Allowed
pub mod Granted
use vm_authn_scope.Prelude.{ℕ, zero, suc, [], ◌∷◌}
use vm_authn_scope.Prelude.Result.{Result, ok, err}
use vm_authn_scope.Prelude.Io.{relabel}
use vm_authn_scope.Prelude.Text.{Text}
use vm_authn_scope.Prelude.Errors.{IoError, Error, io, context}
use vm_authn_scope.Proto.Wire.{AgentRequest, AgentResponse}
use vm_authn_scope.Proto.Codec.{Json, Stream, send_json, recv_json}
use vm_authn_scope.Agent.Kernel.{Kernel, Trace, closed, slept, listened, sent}

-- An action of the agent: the log comes back beside the result.
abbrev pub Action : Type 0 → Type 0
Action A = Trace → Result Error A × Trace

module _ (request_json : Json AgentRequest) (response_json : Json AgentResponse) (k : Kernel) where
  abbrev fresh_stream : Trace → Stream
  fresh_stream t = record { incoming = []; outgoing = []; room = k.room t }

  -- The stream is dropped in every case, at the latest where the function returns.
  receive : ℕ → Text → Stream → Action AgentResponse
  receive fd receiving s t =
      let s' : Stream = record s { incoming = k.reply t s.outgoing } in
      let (r, _) = recv_json response_json s' in (relabel (context receiving) r, closed fd ∷ t)

  after_send : ℕ → Text → Text → Result Error (Unit {0}) × Stream → Action AgentResponse
  after_send fd sending receiving (err e, s) t =
      (err (context sending e), closed fd ∷ sent fd s.outgoing ∷ t)
  after_send fd sending receiving (ok u, s) t = receive fd receiving s (sent fd s.outgoing ∷ t)

  -- `sending` and `receiving` are the contexts of the two errors.
  unfoldable pub exchange : ℕ → Text → Text → AgentRequest → Action AgentResponse
  unfolding after_send receive
  exchange fd sending receiving req t =
      after_send fd sending receiving (send_json request_json req (fresh_stream t)) t

-- `VsockListener::bind` with ten more attempts after the first, whatever the error; `failing` is
-- the context of the last error.
module _ (k : Kernel) (port : ℕ) (failing : Text) where
  bound_or : (IoError → Action (Unit {0})) → Result IoError (Unit {0}) → Action (Unit {0})
  bound_or again (ok u) t = (ok tt, t)
  bound_or again (err e) t = again e t

  listen_rounds : ℕ → Action (Unit {0})
  unfolding bound_or
  listen_rounds zero t =
      bound_or (λ e t'. (err (context failing (io e)), t')) (k.listen t) (listened port ∷ t)
  listen_rounds (suc left) t =
      bound_or (λ e t'. listen_rounds left (slept 100 ∷ t')) (k.listen t) (listened port ∷ t)

  unfoldable pub bind_listener : Action (Unit {0})
  unfolding listen_rounds
  bind_listener t = listen_rounds 10 t
