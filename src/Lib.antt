-- ===== src/Lib.antt =====
-- vm-authn-scope: X.509 identities for workloads in virtual machines.
--
-- A server on the host (apps/rust-apps/authn-scope-server) holds a certificate authority
-- (libs/rust-libs/authn-scope-ca) and a configuration of VMs and the identities that may run in
-- each. An agent in every guest (apps/rust-apps/authn-scope-agent) connects over vsock from a
-- privileged port, shakes hands to learn the selectors of its workloads, and serves a socket on
-- which a process asks for credentials. The agent finds the workload that the process belongs to,
-- answers from its cache or makes a signing request and sends it to the host. The host checks port,
-- CID and policy and signs. A client library (libs/rust-libs/authn-scope-workload) asks the agent. A peer checks a certificate with the evaluator
-- (libs/rust-libs/authn-scope-evaluator). Agent and host speak JSON in frames
-- (libs/rust-libs/authn-scope-proto).
--
-- The modules and the code that they model:
--   Prelude        results, state, texts, maps, UTF-8 (Utf8), integers (Int) and the parser of
--                  addresses (Ip) of Rust's standard library
--   Proto          authn-scope-proto: src/wire.rs (Wire), src/codec.rs (Codec)
--   Server         authn-scope-server: src/config.rs (Config), src/policy.rs (Policy),
--                  src/handler.rs (Handler), src/listener.rs (Listener), src/main.rs (Main)
--   Ca             authn-scope-ca: src/ca.rs (Authority), src/signing.rs (Signing), src/error.rs
--                  (Errors); the file system is Ca.Files, the interface of rcgen is Ca.Rcgen
--   X509           the interface of x509_parser
--   Evaluator      authn-scope-evaluator: src/lib.rs, src/bin/authn-scope-eval-test.rs (Main)
--   Agent          authn-scope-agent: src/config.rs (Config), src/csr.rs (Csr), src/main.rs with the
--                  end of run_agent (Main), and of
--                  src/client.rs connect_with_local_port (Dial), the exchange on a stream and the
--                  loop that binds the listener (Exchange), request_cert_on_demand (Request),
--                  get_or_fetch_credentials (Cache), match_workload (Match), perform_handshake and
--                  run_agent (Startup), handle_workload_conn (Conn), run_workload_api (Api); the system
--                  is Agent.Kernel
--   Workload       authn-scope-workload: src/lib.rs, the client of the Workload API
--   TestWorkload   apps/rust-apps/workload-test-workload: src/main.rs, a workload with that client
--   Profiler       apps/rust-apps/profiler: src/main.rs
--   Tests          the parameters as concrete functions, and the theorems at concrete inputs
-- Below a module stand those with what is proved of it: Codec.Frame, Config.Selector and so on.
-- A module called Hosted puts agent and host together, Agent.Api.Hosted all of it: the processes, the
-- Workload API, the agent and the host. Agent.Api.Evaluated adds the evaluator of a peer,
-- Agent.Request.Served is a request over a kernel that grants each call, Workload.Served the client
-- with the agent at its other end, Server.Main.Answers the daemon from its command line to what an
-- agent is written, and Server.Main.Restart the daemon that is started twice.
--
-- How state and effects are modelled. A byte stream is a record of what arrives, what was written
-- and how much more is taken before it breaks; a function on it takes the stream and returns a
-- result and the stream. The agent's state is the record AgentState, with a log of its calls to the
-- system. The kernel is any function from the log to an answer, so a theorem about it holds for
-- every order of failures. File systems may refuse any call. Errors are values: anyhow's are
-- Prelude.Errors, those of the authority Ca.Errors. A log line has no effect. The mutexes of the
-- agent let requests and connections run one after the other, so they are sequences of calls.
--
-- Numbers are natural numbers; ttl_seconds writes out the wrap-around of u32, and send_json that of
-- the length. Maps are lists of entries in the order in which the code iterates them, and what
-- depends on the order is stated for each order; a map that comes back from JSON may have any order
-- (Codec.Reordered). Dates of certificates are integers.
--
-- Concurrency: a task of the Workload API waits for the lock on the workloads and holds it to its
-- end, so the server's steps are those of Agent.Api.Step, in any order: a connection comes in, or one
-- of the tasks that wait runs to its end. What is proved of the server holds in every state that
-- such steps reach. Time passes by steps of its own, which stand in the log that the clock goes by.
-- A task that ended is kept with what /proc and the libraries gave it. The daemon of the host handles each connection by itself.
--
-- Parameters, since their code is not in the repository: serde_json (Json), rcgen and rustls_pemfile
-- (Rcgen), x509_parser (X509), uzers (Users), clap, the files under /proc and the debug format of a
-- string, which needs the Unicode tables (Surroundings), the kernel, the file system's refusals, the
-- time, generated keys and the texts of I/O errors.
--
-- Every loop is structural recursion. The retries count the attempts that are left,
-- ten or fifteen as in the code. The digits of a number n are written with n + 1 rounds as fuel,
-- which is enough since each round divides by ten. The accept loop runs over the list of what
-- accept returns.
--
-- Not modelled: a peer that neither sends nor closes its stream, for which the code waits without a
-- time limit: a stream of the model is what arrives up to its end, so what is stated of a request or
-- of the start is stated of runs in which each read ends; the flush behind a message, which does nothing on vsock; logging and printing; the
-- endless sleep of the agent; directories; the times that the profiler measures; the defaults that
-- serde fills in; the Go libraries, the scripts and the Nix files.
pub mod Prelude
pub mod Proto
pub mod Server
pub mod Ca
pub mod X509
pub mod Evaluator
pub mod Agent
pub mod Workload
pub mod TestWorkload
pub mod Profiler
pub mod Tests
