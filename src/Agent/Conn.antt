-- ===== src/Agent/Conn.antt =====
-- apps/rust-apps/authn-scope-agent/src/client.rs: `handle_workload_conn`, one connection on the
-- Workload API. The files under /proc, the user database, `serde_json` and `{:?}` are parameters.
-- The lock on the workloads is held to the end, so connections follow one another.
pub mod Attested
pub mod Written
pub mod Peer
use vm_authn_scope.Prelude.{
  ℕ, Bool, Option, none, some, List, [], ◌∷◌, ◌++◌, if◌then◌else◌, ◌==◌, ◌!=◌, nat_eq, text_eq,
  drop,
}
use mathlib.Core.Option
use vm_authn_scope.Prelude.Result.{Result, ok, err, map_err}
use vm_authn_scope.Prelude.Io.{Io, pure, fail, lift, ◌>>=◌, ◌>>◌}
use vm_authn_scope.Prelude.Utf8.{is_utf8}
use vm_authn_scope.Prelude.Text.{Text, lit, show, split, last, lines, contains}
use vm_authn_scope.Prelude.Errors.{Bytes, other, Error, io, json}
use vm_authn_scope.Proto.Codec.{Json, Stream, write_all}
use vm_authn_scope.Ca.Rcgen.{Rcgen}
use vm_authn_scope.X509.{X509}
use vm_authn_scope.Agent.Config.{AgentConfig}
use vm_authn_scope.Agent.Match.{Users, Process, match_workload}
use vm_authn_scope.Agent.Request.{X509Credentials, AgentState, World}
use vm_authn_scope.Agent.Cache.{get_or_fetch_credentials}

pub record WorkloadRequest : Type 0 where
  pub req_type : Text

pub data WorkloadResponse : Type 0 where
  success : X509Credentials → WorkloadResponse
  error : Text → WorkloadResponse

-- `peer_cred`; the process id is 0 where it is not known.
pub record PeerCred : Type 0 where
  pub uid : ℕ
  pub gid : ℕ
  pub pid : ℕ

-- What a connection is handled with. A file that cannot be read is `none`.
pub record Surroundings : Type 0 where
  pub users : Users
  pub read_link : Text → Option Text
  pub read_to_string : Text → Option Text
  pub request_json : Json WorkloadRequest
  pub response_json : Json WorkloadResponse
  -- `{:?}` of a string
  pub debug : Text → Text
  -- how many of the bytes behind the line that is read had come in with it, into the 8 KiB of the
  -- `BufReader`
  pub read_ahead : ℕ

-- The agent and the stream of the connection.
pub record Conn : Type 0 where
  pub agent : AgentState
  pub stream : Stream

abbrev on_stream : {A : Type 0} → Io Stream Error A → Io Conn Error A
on_stream m c = let (r, s) = m c.stream in (r, record c { stream = s })

abbrev on_agent : {A : Type 0} → Io AgentState Error A → Io Conn Error A
on_agent m c = let (r, a) = m c.agent in (r, record c { agent = a })

-- `parts[2]`, if there is one and it contains ".service".
service_path : List Text → Option Text
service_path (_ ∷ _ ∷ path ∷ _) = if contains (lit ".service") path then some path else none
service_path _ = none

abbrev or_next : Option Text → Option Text → Option Text
or_next none next = next
or_next (some path) next = some path

-- The first line of a cgroup file that has one.
first_unit : List Text → Option Text
first_unit [] = none
first_unit (line ∷ rest) = or_next (service_path (split b':' line)) (first_unit rest)

abbrev and_then : Option Text → (Text → Option Text) → Option Text
and_then none f = none
and_then (some t) f = f t

abbrev proc_file : ℕ → Text → Text
proc_file pid name = lit "/proc/" ++ (show pid ++ name)

-- What is found out about the process at the other end.
unfoldable pub observe : Surroundings → PeerCred → Process
unfolding first_unit service_path
observe around cred =
    let unitpath =
      and_then (around.read_to_string (proc_file cred.pid (lit "/cgroup")))
        (λ content. first_unit (lines content)) in
    record {
      uid = cred.uid;
      gid = cred.gid;
      bin_path = around.read_link (proc_file cred.pid (lit "/exe"));
      unitpath = unitpath;
      unitname = and_then unitpath (λ path. last (split b'/' path));
    }

abbrev debug_option : (Text → Text) → Option Text → Text
debug_option debug none = lit "None"
debug_option debug (some t) = lit "Some(" ++ (debug t ++ lit ")")

unfoldable pub attestation_failed : (Text → Text) → Process → Text
attestation_failed debug proc =
    lit "Attestation failed: no workload selector matches UID '"
    ++ (show proc.uid
        ++ (lit "', GID '"
            ++ (show proc.gid
                ++ (lit "', bin_path '"
                    ++ (debug_option debug proc.bin_path
                        ++ (lit "', systemd unit name '"
                            ++ (debug_option debug proc.unitname ++ lit "'")))))))

unfoldable pub unsupported : Text → Text
unsupported req_type = lit "Unsupported request type: " ++ req_type

-- The bytes up to a line feed, which comes along, and those behind it.
cut_line : Bytes → Bytes × Bytes
cut_line [] = ([], [])
cut_line (b ∷ bs) =
    let (line, rest) = cut_line bs in if b == b'\n' then (b ∷ [], bs) else (b ∷ line, rest)

-- `read_line`, which wants UTF-8; the error is `InvalidData`. What stands behind the line is still to
-- be read from the reader.
unfoldable pub read_line : Io Stream Error Bytes
unfolding cut_line
read_line s =
    let (line, rest) = cut_line s.incoming in
    (if is_utf8 line then ok line else err (io (other 0)), record s { incoming = rest })

-- `into_inner`: what the reader has in its buffer is lost.
into_inner : ℕ → Io Stream Error (Unit {0})
into_inner read_ahead s = (ok tt, record s { incoming = drop read_ahead s.incoming })

module _ (rc : Rcgen) (xp : X509) (w : World rc) (config : AgentConfig)
    (around : Surroundings) where
  -- `serde_json::to_string(&resp)? + "\n"`, written.
  reply : WorkloadResponse → Io Conn Error (Unit {0})
  reply resp = do
    resp_json ← lift (map_err json (around.response_json.to_vec resp))
    on_stream (write_all (resp_json ++ b'\n' ∷ []))

  -- A response on the stream that the reader gives back.
  reply_inner : WorkloadResponse → Io Conn Error (Unit {0})
  unfolding into_inner
  reply_inner resp = do on_stream (into_inner around.read_ahead); reply resp

  serve : Text → WorkloadRequest → Io Conn Error (Unit {0})
  serve identity_name req =
      if req.req_type != lit "fetch" then reply_inner (error (unsupported req.req_type)) else do
        creds ← on_agent (get_or_fetch_credentials rc xp w config identity_name)
        reply_inner (success creds)

  on_line : Text → Bytes → Io Conn Error (Unit {0})
  on_line identity_name [] = pure tt
  on_line identity_name (b ∷ bs) = do
    req ← lift (map_err json (around.request_json.from_slice (b ∷ bs)))
    serve identity_name req

  attested : Process → Option Text → Io Conn Error (Unit {0})
  attested proc none = reply (error (attestation_failed around.debug proc))
  attested proc (some identity_name) = do line ← on_stream (read_line); on_line identity_name line

  unfoldable pub handle_workload_conn : PeerCred → Io Conn Error (Unit {0})
  unfolding attested on_line serve reply reply_inner
  handle_workload_conn cred c =
      let proc = observe around cred in
      attested proc (match_workload around.users proc c.agent.workloads) c
