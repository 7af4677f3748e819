-- ===== src/Agent/Startup.antt =====
-- apps/rust-apps/authn-scope-agent/src/client.rs: `perform_handshake`, and `run_agent` up to its
-- endless sleep.
pub mod Cost
use vm_authn_scope.Prelude.{ℕ, zero, suc, true, [], ◌∷◌, ◌++◌}
use vm_authn_scope.Prelude.Result.{Result, ok, err}
use vm_authn_scope.Prelude.Io.{Io, lift, pure, relabel, ◌>>=◌, ◌>>◌}
use vm_authn_scope.Prelude.Text.{Text, lit, show}
use vm_authn_scope.Prelude.Dict.{Dict}
use vm_authn_scope.Prelude.Errors.{Error, message, context}
use vm_authn_scope.Proto.Wire.{
  handshake, AgentResponse, handshake_ok, cert_ok, error, WorkloadConfig, protocol_version,
}
use vm_authn_scope.Ca.Rcgen.{Rcgen}
use vm_authn_scope.Agent.Config.{AgentConfig}
use vm_authn_scope.Agent.Kernel.{Trace, slept}
use vm_authn_scope.Agent.Exchange.{Action, exchange, bind_listener}
use vm_authn_scope.Agent.Request.{AgentState, World, dial}

abbrev pub shake_context : Text
shake_context = lit "handshake vsock connection failed"

unfoldable pub secure_context : ℕ → Text
secure_context port =
    lit "binding persistent listener to client port " ++ (show port ++ lit " to secure it")

-- What the agent makes of the response.
unfoldable pub workloads_from : AgentResponse → Result Error (Dict WorkloadConfig)
workloads_from (handshake_ok workloads) = ok workloads
workloads_from (error msg) = err (message (lit "Handshake rejected by server: " ++ msg))
workloads_from (cert_ok cert_pem ca_cert_pem) =
    err (message (lit "Unexpected handshake response from server"))

module _ (rc : Rcgen) (w : World rc) (config : AgentConfig) where
  -- The result of one dial; `again` is what the code does after an error.
  dialled_or : (Error → Action ℕ) → Result Error ℕ × Trace → Result Error ℕ × Trace
  dialled_or again (ok fd, t) = (ok fd, t)
  dialled_or again (err e, t) = again e t

  -- The loop, with the attempts that are left after this one: fifteen at first (`attempts < 15`).
  dial_rounds : ℕ → Action ℕ
  unfolding dialled_or
  dial_rounds zero t = dialled_or (λ e t'. (err (context shake_context e), t')) (dial rc w config t)
  dial_rounds (suc left) t =
      dialled_or (λ e t'. dial_rounds left (slept 500 ∷ t')) (dial rc w config t)

  abbrev pub greet : ℕ → Action AgentResponse
  greet fd =
      exchange w.request_json w.response_json w.kernel fd (lit "sending handshake request")
        (lit "receiving handshake response") (handshake protocol_version config.vm_name)

  unfoldable pub perform_handshake : Action (Dict WorkloadConfig)
  unfolding dial_rounds
  perform_handshake = do fd ← dial_rounds 15; resp ← greet fd; lift (workloads_from resp)

  -- The workloads, once the client port is secured.
  secured : Action (Dict WorkloadConfig)
  secured = do
    workloads ← perform_handshake
    bind_listener w.kernel config.client_port (secure_context config.client_port)
    pure workloads

  start_from : Result Error (Dict WorkloadConfig) × Trace → Result Error AgentState × Trace
  start_from (ok workloads, t) =
      (ok (record { cache = []; listening = true; workloads = workloads; trace = t }), t)
  start_from (err e, t) = (err e, t)

  -- The state that the agent serves workloads with.
  unfoldable pub run_agent : Trace → Result Error AgentState × Trace
  unfolding secured start_from
  run_agent t = start_from (secured t)
