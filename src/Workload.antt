-- ===== src/Workload.antt =====
-- libs/rust-libs/authn-scope-workload/src/lib.rs: the client of the Workload API. Its types of
-- requests and responses are those of the agent once more, so Agent.Conn's are used.
pub mod Served
pub mod Rotation
use vm_authn_scope.Prelude.{Bool, Option, none, some, List, [], ◌∷◌, ◌++◌}
use vm_authn_scope.Prelude.Result.{Result, ok, err, map_err}
use vm_authn_scope.Prelude.Io.{Io, fail, lift, ◌>>=◌, ◌>>◌}
use vm_authn_scope.Prelude.Text.{Text, lit}
use vm_authn_scope.Prelude.Errors.{Bytes, IoError, Error, io, json, message, context}
use vm_authn_scope.Proto.Codec.{Json, Stream, write_all}
use vm_authn_scope.Agent.Request.{X509Credentials}
use vm_authn_scope.Agent.Conn.{WorkloadRequest, WorkloadResponse, success, error, read_line}

pub record WorkloadClient : Type 0 where
  pub socket_path : Text
  pub cached : Option X509Credentials

-- `WorkloadClient::new`
abbrev pub new_client : Text → WorkloadClient
new_client socket_path = record { socket_path = socket_path; cached = none }

unfoldable pub connect_context : Text → Text
connect_context path = lit "Failed to connect to Workload API socket at " ++ path

credentials_in : WorkloadResponse → Result Error X509Credentials
credentials_in (success creds) = ok creds
credentials_in (error msg) = err (message (lit "Workload API returned error: " ++ msg))

-- The libraries, and the agent at the other end: what it sends for what was written.
module _ (request_json : Json WorkloadRequest) (response_json : Json WorkloadResponse)
    (peer : Bytes → Bytes) where
  peer_answers : Io Stream Error (Unit {0})
  peer_answers s = (ok tt, record s { incoming = peer s.outgoing })

  on_reply : Bytes → Result Error X509Credentials
  on_reply [] = err (message (lit "Workload API closed connection without sending a response"))
  on_reply (b ∷ bs) = decoded (map_err json (response_json.from_slice (b ∷ bs)))
    where
      decoded : Result Error WorkloadResponse → Result Error X509Credentials
      decoded (ok resp) = credentials_in resp
      decoded (err e) = err (context (lit "Parsing WorkloadResponse") e)

  -- `connected` is the result of `UnixStream::connect`.
  unfoldable pub fetch_credentials :
      WorkloadClient → Result IoError (Unit {0}) → Io Stream Error X509Credentials
  unfolding credentials_in peer_answers on_reply
  fetch_credentials client connected = do
    lift (map_err (λ e. context (connect_context client.socket_path) (io e)) connected)
    req_json ← lift (map_err json (request_json.to_vec (record { req_type = lit "fetch" })))
    write_all (req_json ++ b'\n' ∷ [])
    peer_answers
    line ← read_line
    lift (on_reply line)

-- One round of `start_rotation_loop`: a failure leaves the credentials that are there.
unfoldable pub rotate : Result Error X509Credentials → WorkloadClient → WorkloadClient
rotate (ok creds) client = record client { cached = some creds }
rotate (err e) client = client

-- `current_credentials`
unfoldable pub current_credentials : WorkloadClient → Option X509Credentials
current_credentials client = client.cached

-- What the client meets in one round of the loop: whether the socket can be connected to, the new
-- stream, and what the agent sends for what was written.
pub record Round : Type 0 where
  pub connected : Result IoError (Unit {0})
  pub stream : Stream
  pub peer : Bytes → Bytes

module _ (request_json : Json WorkloadRequest) (response_json : Json WorkloadResponse) where
  unfoldable pub fetch_round : WorkloadClient → Round → Result Error X509Credentials
  fetch_round client round =
      (fetch_credentials request_json response_json round.peer client round.connected
        round.stream).0

  -- `start_rotation_loop`, as far as it has come. The sleep behind a round changes nothing.
  unfoldable pub rotation_loop : List Round → WorkloadClient → WorkloadClient
  rotation_loop [] client = client
  rotation_loop (round ∷ rounds) client =
      rotation_loop rounds (rotate (fetch_round client round) client)
