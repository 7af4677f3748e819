-- ===== src/Workload/Served.antt =====
-- A client whose peer is the agent's `handle_workload_conn`.
use vm_authn_scope.Prelude.{
  ℕ, ◌+◌, ◌-◌, ◌≤◌, ◌≡◌, ◌≢◌, arith, true, some, [], ◌∷◌, ◌++◌, All, length, length-append,
}
use vm_authn_scope.Prelude.Result.{Result, ok}
use vm_authn_scope.Prelude.Utf8.{is_utf8}
use vm_authn_scope.Prelude.Text.{Text, lit}
use vm_authn_scope.Prelude.Errors.{Bytes}
use vm_authn_scope.Proto.Codec.{Stream, write_all}
use vm_authn_scope.Ca.Rcgen.{Rcgen}
use vm_authn_scope.X509.{X509}
use vm_authn_scope.Agent.Config.{AgentConfig}
use vm_authn_scope.Agent.Match.{match_workload}
use vm_authn_scope.Agent.Request.{X509Credentials, AgentState, World}
use vm_authn_scope.Agent.Cache.{get_or_fetch_credentials}
use vm_authn_scope.Agent.Conn.{success, PeerCred, Surroundings, observe, handle_workload_conn}
use vm_authn_scope.Agent.Conn.Attested.{handle_workload_conn_fetch, read_line-append}
use vm_authn_scope.Workload.{
  WorkloadClient, credentials_in, peer_answers, on_reply, fetch_credentials,
}

module _ (rc : Rcgen) (xp : X509) (w : World rc) (config : AgentConfig)
    (around : Surroundings) where
  -- What the agent writes to a process for what it reads.
  unfoldable pub agent_answers : PeerCred → AgentState → ℕ → Bytes → Bytes
  agent_answers cred a room bytes =
      (handle_workload_conn rc xp w config around cred (record {
        agent = a;
        stream = record { incoming = bytes; outgoing = []; room = room };
      })).1.stream.outgoing

  -- A text on one line that is read back.
  pub record OneLine {T : Type 0} (encoded : Result Text Bytes) (decode : Bytes → Result Text T)
      (v : T) (line : Bytes) : Type 0 where
    pub encodes : encoded ≡ ok line
    pub whole : All (λ b. b ≢ b'\n') line
    pub utf8 : is_utf8 (line ++ b'\n' ∷ []) ≡ true
    pub decodes : decode (line ++ b'\n' ∷ []) ≡ ok v

  on_reply-append :
      (peer : Bytes → Bytes) (line : Bytes) (creds : X509Credentials)
      → around.response_json.from_slice (line ++ b'\n' ∷ []) ≡ ok (success creds)
      → on_reply around.request_json around.response_json peer (line ++ b'\n' ∷ []) ≡ ok creds
  unfolding on_reply credentials_in
  on_reply-append peer [] creds e = ground (arith, e)
  on_reply-append peer (b ∷ line) creds e = ground (arith, e)

  -- If a client's peer is the agent's handle_workload_conn, request and response are written
  -- on one line, read back and have room, the client's process is matched with a workload and
  -- that workload's credentials are got, then fetch_credentials on a new connection returns
  -- those credentials.
  pub fetch_credentials-served :
      (client : WorkloadClient) (cred : PeerCred) (identity : Text) (line out : Bytes)
      (a a' : AgentState) (room : ℕ) (s : Stream) (creds : X509Credentials)
      → OneLine
          (around.request_json.to_vec (record { req_type = lit "fetch" }))
          around.request_json.from_slice
          (record { req_type = lit "fetch" })
          line
      → OneLine
          (around.response_json.to_vec (success creds))
          around.response_json.from_slice
          (success creds)
          out
      → match_workload around.users (observe around cred) a.workloads ≡ some identity
      → get_or_fetch_credentials rc xp w config identity a ≡ (ok creds, a')
      → s.outgoing ≡ []
      → length line + 1 ≤ s.room
      → length out + 1 ≤ room
      → (fetch_credentials around.request_json around.response_json
          (agent_answers cred a room)
          client
          (ok tt)
          s).0
        ≡ ok creds
  unfolding fetch_credentials peer_answers agent_answers write_all
  fetch_credentials-served client cred identity line out a a' room s creds asked answered found gets
        clean wide fits =
      ground (
        arith,
        asked.encodes,
        clean,
        length-append line (b'\n' ∷ []),
        handle_workload_conn_fetch rc xp w config around cred identity line [] out a a'
            (record { incoming = []; outgoing = []; room = room }) creds found asked.whole
            asked.utf8 asked.decodes gets answered.encodes fits,
        read_line-append out []
            (record {
              incoming = [];
              outgoing = line ++ b'\n' ∷ [];
              room = s.room - (length line + 1);
            })
            answered.whole answered.utf8,
        on_reply-append (agent_answers cred a room) out creds answered.decodes,
      )
