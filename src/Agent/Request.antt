-- ===== src/Agent/Request.antt =====
-- apps/rust-apps/authn-scope-agent/src/client.rs: the state of the agent, and
-- `request_cert_on_demand`. The mutexes are not modelled: the cache's is held during the whole of
-- `get_or_fetch_credentials`, so requests follow one another.
pub mod Port
pub mod Origin
pub mod Hosted
pub mod Served
use vm_authn_scope.Prelude.{ℕ, Bool, true, false, Option, [], ◌∷◌, ◌++◌, if◌then◌else◌}
use vm_authn_scope.Prelude.Result.{Result, ok, err, map_err}
use vm_authn_scope.Prelude.Io.{Io, lift, pure, on_err, ◌>>=◌, ◌>>◌}
use vm_authn_scope.Prelude.Text.{Text, lit}
use vm_authn_scope.Prelude.Dict.{Dict}
use vm_authn_scope.Prelude.Errors.{IoError, Error, message, context}
use vm_authn_scope.Proto.Wire.{
  AgentRequest, cert_request, AgentResponse, handshake_ok, cert_ok, error, WorkloadConfig,
  protocol_version,
}
use vm_authn_scope.Proto.Codec.{Json}
use vm_authn_scope.Ca.Rcgen.{Rcgen}
use vm_authn_scope.Agent.Config.{AgentConfig}
use vm_authn_scope.Agent.Csr.{GeneratedCsr, generate_csr}
use vm_authn_scope.Agent.Kernel.{Kernel, Trace, unlistened}
use vm_authn_scope.Agent.Dial.{host_cid, connect_with_local_port}
use vm_authn_scope.Agent.Exchange.{Action, exchange, bind_listener}

pub record X509Credentials : Type 0 where
  pub cert_pem : Text
  pub key_pem : Text
  pub ca_cert_pem : Text

-- `fetched_at` is in nanoseconds.
pub record CachedCredential : Type 0 where
  pub credentials : X509Credentials
  pub fetched_at : ℕ

pub record AgentState : Type 0 where
  pub cache : Dict CachedCredential
  -- whether there is a listener on the client port
  pub listening : Bool
  pub workloads : Dict WorkloadConfig
  -- the log of the calls to the system
  pub trace : Trace

-- An action on the log alone.
abbrev pub on_trace : {A : Type 0} → Action A → Io AgentState Error A
on_trace m s = let (r, t) = m s.trace in (r, record s { trace = t })

-- `*state.listener.lock().await = None`
pub release : ℕ → Io AgentState Error (Unit {0})
release port s = (
  ok tt,
  if s.listening then record s { listening = false; trace = unlistened port ∷ s.trace } else s,
)

-- `*state.listener.lock().await = Some(new_listener)`
secure : Io AgentState Error (Unit {0})
secure s = (ok tt, record s { listening = true })

unfoldable pub csr_context : Text → Text
csr_context identity = lit "CSR generation for identity '" ++ (identity ++ lit "'")

unfoldable pub rejected : Text → Text → Text
rejected identity msg = lit "Server rejected request for '" ++ (identity ++ (lit "': " ++ msg))

abbrev pub dial_context : Text
dial_context = lit "vsock connect on demand failed"

abbrev pub rebind_context : Text
rebind_context = lit "failed to re-bind port 901 listener after on-demand dial"

-- What the agent makes of the response.
credentials_from : Text → Text → AgentResponse → Result Error X509Credentials
credentials_from identity key_pem (cert_ok cert_pem ca_cert_pem) =
    ok (record { cert_pem = cert_pem; key_pem = key_pem; ca_cert_pem = ca_cert_pem })
credentials_from identity key_pem (error msg) = err (message (rejected identity msg))
credentials_from identity key_pem (handshake_ok workloads) =
    err (message (lit "Unexpected response from host CA"))

-- What the agent is run with: the libraries, the kernel, the environment variable and the keys
-- that `KeyPair::generate_for` returns.
pub record World (rc : Rcgen) : Type 0 where
  pub request_json : Json AgentRequest
  pub response_json : Json AgentResponse
  pub io_text : IoError → Text
  pub kernel : Kernel
  pub env : Option Text
  pub generated : Trace → Result Text rc.Key

module _ (rc : Rcgen) (w : World rc) (config : AgentConfig) where
  abbrev pub dial : Action ℕ
  dial =
      connect_with_local_port w.io_text w.kernel (host_cid w.env) config.server_port
        config.client_port

  abbrev pub ask : ℕ → AgentRequest → Action AgentResponse
  ask fd =
      exchange w.request_json w.response_json w.kernel fd (lit "sending CertRequest")
        (lit "receiving AgentResponse")

  -- With the response at hand and the stream dropped: the port is secured again.
  after_answer : Text → Text → AgentResponse → Io AgentState Error X509Credentials
  after_answer identity key_pem resp = do
    on_trace (bind_listener w.kernel config.client_port rebind_context)
    secure
    lift (credentials_from identity key_pem resp)

  on_stream : Text → GeneratedCsr → ℕ → Io AgentState Error X509Credentials
  on_stream identity generated fd = do
    resp ←
        on_trace (ask fd (cert_request protocol_version config.vm_name identity generated.csr_pem))
    after_answer identity generated.key_pem resp

  -- From the release of the port on.
  dial_and_ask : Text → GeneratedCsr → Io AgentState Error X509Credentials
  unfolding after_answer on_stream release secure credentials_from
  dial_and_ask identity generated = do
    release config.client_port
    fd ← on_err (context dial_context) (on_trace dial)
    on_stream identity generated fd

  unfoldable pub request_cert_on_demand : Text → Io AgentState Error X509Credentials
  unfolding dial_and_ask
  request_cert_on_demand identity s =
      (do
        generated ← lift (
            map_err (context (csr_context identity))
              (generate_csr rc (w.generated s.trace) identity))
        dial_and_ask identity generated)
        s
