-- ===== src/Agent/Conn/Attested.antt =====
-- Who is served on the Workload API, and with what.
use vm_authn_scope.Prelude.{
  ◌+◌, ◌-◌, ◌≤◌, ◌≡◌, ◌⊎◌, inl, inr, refl, arith, true, Option, some, [], ◌∷◌, ◌++◌, length,
  length-append, All, ◌≢◌, Option-cases, Bool-cases, ◌!=◌, text_eq, text_dec, ℕ_discrete, drop,
}
use vm_authn_scope.Prelude.Result.{Result, ok, err, map_err}
use vm_authn_scope.Prelude.Io.{continue}
use vm_authn_scope.Prelude.Utf8.{is_utf8}
use vm_authn_scope.Prelude.Text.{Text, lit}
use vm_authn_scope.Prelude.Errors.{Bytes, Error, json}
use vm_authn_scope.Proto.Codec.{Stream, write_all}
use vm_authn_scope.Ca.Rcgen.{Rcgen}
use vm_authn_scope.X509.{X509}
use vm_authn_scope.Agent.Config.{AgentConfig}
use vm_authn_scope.Agent.Match.{match_workload}
use vm_authn_scope.Agent.Request.{X509Credentials, AgentState, World}
use vm_authn_scope.Agent.Cache.{get_or_fetch_credentials}
use vm_authn_scope.Agent.Conn.{
  WorkloadRequest, WorkloadResponse, success, error, PeerCred, Surroundings, Conn, observe,
  attestation_failed, unsupported, cut_line, read_line, into_inner, reply, reply_inner, serve,
  on_line, attested, handle_workload_conn,
}

cut_line-append :
    (line rest : Bytes)
    → All (λ b. b ≢ b'\n') line
    → cut_line (line ++ b'\n' ∷ rest) ≡ (line ++ b'\n' ∷ [], rest)
unfolding cut_line
cut_line-append [] rest h = ground arith
cut_line-append (b ∷ line) rest h = ground (arith, cut_line-append line rest h.1)

-- A line is read with its line feed.
pub read_line-append :
    (line rest : Bytes) (s : Stream)
    → All (λ b. b ≢ b'\n') line
    → is_utf8 (line ++ b'\n' ∷ []) ≡ true
    → read_line (record s { incoming = line ++ b'\n' ∷ rest })
      ≡ (ok (line ++ b'\n' ∷ []), record s { incoming = rest })
unfolding read_line
read_line-append line rest s whole utf8 = ground (arith, cut_line-append line rest whole, utf8)

module _ (rc : Rcgen) (xp : X509) (w : World rc) (config : AgentConfig)
    (around : Surroundings) where
  -- The credentials that a process is given, and the state of the agent behind that.
  abbrev fetched : Text → AgentState → Result Error X509Credentials × AgentState
  fetched = get_or_fetch_credentials rc xp w config

  abbrev matched : PeerCred → AgentState → Option Text
  matched cred a = match_workload around.users (observe around cred) a.workloads

  reply-agent :
      (resp : WorkloadResponse) (c : Conn) → (reply rc xp w config around resp c).1.agent ≡ c.agent
  unfolding reply
  reply-agent resp c = ground arith

  reply_inner-agent :
      (resp : WorkloadResponse) (c : Conn)
      → (reply_inner rc xp w config around resp c).1.agent ≡ c.agent
  unfolding reply_inner into_inner
  reply_inner-agent resp c = reply-agent resp _

  -- What a connection can do to the agent.
  abbrev pub Untouched : PeerCred → AgentState → AgentState → Type 0
  Untouched cred a a' =
      (a' ≡ a)
      ⊎ ((identity : Text) × (matched cred a ≡ some identity) × (a' ≡ (fetched identity a).1))

  reply-fetched :
      (p : Result Error X509Credentials × AgentState) (c : Conn)
      → (continue
          (λ creds. reply_inner rc xp w config around (success creds))
          (p.0, record c { agent = p.1 })).1.agent
        ≡ p.1
  reply-fetched (ok creds, a) c = reply_inner-agent (success creds) (record c { agent = a })
  reply-fetched (err e, a) c = refl

  -- One fetch, or none.
  abbrev AtMostOne : Text → AgentState → AgentState → Type 0
  AtMostOne identity a a' = (a' ≡ a) ⊎ (a' ≡ (fetched identity a).1)

  serve-agent :
      (identity : Text) (req : WorkloadRequest) (c : Conn)
      → AtMostOne identity c.agent (serve rc xp w config around identity req c).1.agent
  unfolding serve
  serve-agent identity req c = elim (Bool-cases (req.req_type != lit "fetch")) [
    | inl other ↦ rw other (inl (reply_inner-agent (error (unsupported req.req_type)) c))
    | inr fetch ↦ rw fetch (inr (reply-fetched (fetched identity c.agent) c))
  ]

  served-agent :
      (identity : Text) (r : Result Error WorkloadRequest) (c : Conn)
      → AtMostOne identity c.agent (continue (serve rc xp w config around identity) (r, c)).1.agent
  served-agent identity (ok req) c = serve-agent identity req c
  served-agent identity (err e) c = inl refl

  read-agent :
      (identity : Text) (p : Result Error Bytes × Stream) (c : Conn)
      → AtMostOne identity c.agent
          (continue
            (on_line rc xp w config around identity)
            (p.0, record c { stream = p.1 })).1.agent
  unfolding on_line
  read-agent identity (err e, s) c = inl refl
  read-agent identity (ok [], s) c = inl refl
  read-agent identity (ok (b ∷ bs), s) c =
      served-agent identity (map_err json (around.request_json.from_slice (b ∷ bs)))
        (record c { stream = s })

  at_most :
      (cred : PeerCred) (identity : Text) (a a' : AgentState)
      → matched cred a ≡ some identity
      → AtMostOne identity a a'
      → Untouched cred a a'
  at_most cred identity a a' found (inl same) = inl same
  at_most cred identity a a' found (inr one) = inr (identity, found, one)

  -- Whatever a client of the Workload API sends, the state of the agent behind the connection
  -- is the one before it, or the one behind one call of get_or_fetch_credentials for the
  -- workload that match_workload returns for the process of the client.
  pub handle_workload_conn-agent :
      (cred : PeerCred) (c : Conn)
      → Untouched cred c.agent (handle_workload_conn rc xp w config around cred c).1.agent
  unfolding handle_workload_conn attested
  handle_workload_conn-agent cred c = elim (Option-cases (matched cred c.agent)) [
    | inl nobody ↦
        rw nobody
          (inl (reply-agent (error (attestation_failed around.debug (observe around cred))) c))
    | inr (identity, found) ↦
        at_most cred identity c.agent _ found
          (rw found (read-agent identity (read_line c.stream) c))
  ]

  on_line-append :
      (identity : Text) (line : Bytes) (c : Conn)
      → on_line rc xp w config around identity (line ++ b'\n' ∷ []) c
        ≡ continue
            (serve rc xp w config around identity)
            (map_err json (around.request_json.from_slice (line ++ b'\n' ∷ [])), c)
  unfolding on_line
  on_line-append identity [] c = refl
  on_line-append identity (b ∷ line) c = refl

  serve_fetch :
      (identity : Text) (c : Conn) (creds : X509Credentials) (a' : AgentState)
      → get_or_fetch_credentials rc xp w config identity c.agent ≡ (ok creds, a')
      → serve rc xp w config around identity (record { req_type = lit "fetch" }) c
        ≡ reply_inner rc xp w config around (success creds) (record c { agent = a' })
  unfolding serve text_dec ℕ_discrete
  serve_fetch identity c creds a' gets = rw gets refl

  reply_fits :
      (resp : WorkloadResponse) (out : Bytes) (c : Conn)
      → around.response_json.to_vec resp ≡ ok out
      → length out + 1 ≤ c.stream.room
      → let s = c.stream in
        reply_inner rc xp w config around resp c ≡ (
          ok tt,
          record c {
            stream = record s {
              incoming = drop around.read_ahead s.incoming;
              outgoing = s.outgoing ++ (out ++ b'\n' ∷ []);
              room = s.room - (length out + 1);
            };
          },
        )
  unfolding reply_inner into_inner reply write_all
  reply_fits resp out c encodes fits = ground (arith, length-append out (b'\n' ∷ []))

  -- If a client's process is matched with a workload, its first line is UTF-8 and decodes to
  -- a fetch request, the workload's credentials are got, and the response encodes and fits,
  -- then handle_workload_conn writes just the response with those credentials and a line
  -- feed, takes that line and what was read ahead, and leaves the agent in the state behind
  -- that call.
  pub handle_workload_conn_fetch :
      (cred : PeerCred) (identity : Text) (line rest out : Bytes) (a a' : AgentState) (s : Stream)
      (creds : X509Credentials)
      → matched cred a ≡ some identity
      → All (λ b. b ≢ b'\n') line
      → is_utf8 (line ++ b'\n' ∷ []) ≡ true
      → around.request_json.from_slice (line ++ b'\n' ∷ []) ≡ ok (record { req_type = lit "fetch" })
      → get_or_fetch_credentials rc xp w config identity a ≡ (ok creds, a')
      → around.response_json.to_vec (success creds) ≡ ok out
      → length out + 1 ≤ s.room
      → handle_workload_conn rc xp w config around cred
          (record { agent = a; stream = record s { incoming = line ++ b'\n' ∷ rest } })
        ≡ (
          ok tt,
          record {
            agent = a';
            stream = record s {
              incoming = drop around.read_ahead rest;
              outgoing = s.outgoing ++ (out ++ b'\n' ∷ []);
              room = s.room - (length out + 1);
            };
          },
        )
  unfolding handle_workload_conn attested read_line
  handle_workload_conn_fetch cred identity line rest out a a' s creds found whole utf8 asks gets
        encodes fits =
      ground (
        arith,
        read_line-append line rest s whole utf8,
        on_line-append identity line (record { agent = a; stream = record s { incoming = rest } }),
        serve_fetch identity (record { agent = a; stream = record s { incoming = rest } }) creds a'
            gets,
        reply_fits (success creds) out
            (record { agent = a'; stream = record s { incoming = rest } }) encodes fits,
      )
