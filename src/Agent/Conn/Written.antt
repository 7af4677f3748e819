-- ===== src/Agent/Conn/Written.antt =====
-- What a connection on the Workload API is sent.
use vm_authn_scope.Prelude.{
  ◌≡◌, inl, inr, refl, sym, ℕ, some, [], ◌∷◌, ◌++◌, length, leb, take, append-nil, ap, ◌∙◌,
  Bool-cases, Option-cases, ◌!=◌, text_eq,
}
use vm_authn_scope.Prelude.Result.{Result, ok, err, map_err, Result-cases}
use vm_authn_scope.Prelude.Io.{continue}
use vm_authn_scope.Prelude.Text.{Text, lit}
use vm_authn_scope.Prelude.Errors.{Bytes, Error, json}
use vm_authn_scope.Proto.Codec.{Stream, write_all}
use vm_authn_scope.Ca.Rcgen.{Rcgen}
use vm_authn_scope.X509.{X509}
use vm_authn_scope.Agent.Config.{AgentConfig}
use vm_authn_scope.Agent.Match.{match_workload}
use vm_authn_scope.Agent.Request.{X509Credentials, AgentState, World}
use vm_authn_scope.Agent.Cache.{get_or_fetch_credentials}
use vm_authn_scope.Agent.Conn.{
  WorkloadRequest, WorkloadResponse, success, error, PeerCred, Surroundings, Conn, observe,
  attestation_failed, unsupported, read_line, into_inner, reply, reply_inner, serve, on_line,
  attested, handle_workload_conn,
}

take_whole : (xs : Bytes) → take (length xs) xs ≡ xs
take_whole [] = refl
take_whole (x ∷ xs) = rw (take_whole xs)

-- What is written of some bytes is a part at their front.
write_all-outgoing :
    (bytes : Bytes) (s : Stream)
    → (n : ℕ) × ((write_all bytes s).1.outgoing ≡ s.outgoing ++ take n bytes)
unfolding write_all
write_all-outgoing bytes s = elim (Bool-cases (leb (length bytes) s.room)) [
  | inl fits ↦ (length bytes, rw fits (rw (take_whole bytes) refl))
  | inr short ↦ (s.room, rw short refl)
]

module _ (around : Surroundings) where
  -- Nothing was written, or one response in JSON with a line feed, as far as there was room.
  pub data Says (P : WorkloadResponse → Type 0) : Bytes → Type 0 where
    nothing : Says P []
    response :
        (resp : WorkloadResponse) (out : Bytes) (n : ℕ)
        → P resp
        → around.response_json.to_vec resp ≡ ok out
        → Says P (take n (out ++ b'\n' ∷ []))

module _ (rc : Rcgen) (xp : X509) (w : World rc) (config : AgentConfig)
    (around : Surroundings) where
  -- A response that the process may be sent: an error, or the credentials that were got for the
  -- workload that it is matched with.
  unfoldable pub Due : PeerCred → AgentState → WorkloadResponse → Type 0
  Due cred a (error msg) = Unit
  Due cred a (success creds) =
      (identity : Text) × (match_workload around.users (observe around cred) a.workloads
        ≡ some identity)
      × ((get_or_fetch_credentials rc xp w config identity a).0 ≡ ok creds)

  unfoldable pub Adds : (WorkloadResponse → Type 0) → Stream → Stream → Type 0
  Adds P s s' = (x : Bytes) × (s'.outgoing ≡ s.outgoing ++ x) × Says around P x

  module _ (P : WorkloadResponse → Type 0) where
    Adds-nothing : (s s' : Stream) → s'.outgoing ≡ s.outgoing → Adds P s s'
    unfolding Adds
    Adds-nothing s s' same = ([], same ∙ sym (append-nil s.outgoing), nothing)

    reply-Adds :
        (resp : WorkloadResponse) (c : Conn)
        → P resp
        → Adds P c.stream (reply rc xp w config around resp c).1.stream
    unfolding Adds reply
    reply-Adds resp c due = elim (Result-cases (around.response_json.to_vec resp)) [
      | inl (out, encodes) ↦
          let (n, wrote) = write_all-outgoing (out ++ b'\n' ∷ []) c.stream in
          (take n (out ++ b'\n' ∷ []), rw encodes wrote, response resp out n due encodes)
      | inr (e, fails) ↦ rw fails (Adds-nothing c.stream c.stream refl)
    ]

    reply_inner-Adds :
        (resp : WorkloadResponse) (c : Conn)
        → P resp
        → Adds P c.stream (reply_inner rc xp w config around resp c).1.stream
    unfolding Adds reply_inner into_inner
    reply_inner-Adds resp c due = reply-Adds resp _ due

    fetched-Adds :
        (p : Result Error X509Credentials × AgentState) (c : Conn)
        → ((creds : X509Credentials) → p.0 ≡ ok creds → P (success creds))
        → Adds P c.stream
            (continue
              (λ creds. reply_inner rc xp w config around (success creds))
              (p.0, record c { agent = p.1 })).1.stream
    fetched-Adds (ok creds, a) c due =
        reply_inner-Adds (success creds) (record c { agent = a }) (due creds refl)
    fetched-Adds (err e, a) c due = Adds-nothing c.stream c.stream refl

    serve-Adds :
        (identity : Text) (req : WorkloadRequest) (c : Conn)
        → ((msg : Text) → P (error msg))
        → ((creds : X509Credentials)
            → (get_or_fetch_credentials rc xp w config identity c.agent).0 ≡ ok creds
            → P (success creds))
        → Adds P c.stream (serve rc xp w config around identity req c).1.stream
    unfolding serve
    serve-Adds identity req c errors due = elim (Bool-cases (req.req_type != lit "fetch")) [
      | inl other ↦ rw other (reply_inner-Adds (error (unsupported req.req_type)) c (errors _))
      | inr fetch ↦
          rw fetch (fetched-Adds (get_or_fetch_credentials rc xp w config identity c.agent) c due)
    ]

    served-Adds :
        (identity : Text) (r : Result Error WorkloadRequest) (c : Conn)
        → ((msg : Text) → P (error msg))
        → ((creds : X509Credentials)
            → (get_or_fetch_credentials rc xp w config identity c.agent).0 ≡ ok creds
            → P (success creds))
        → Adds P c.stream (continue (serve rc xp w config around identity) (r, c)).1.stream
    served-Adds identity (ok req) c errors due = serve-Adds identity req c errors due
    served-Adds identity (err e) c errors due = Adds-nothing c.stream c.stream refl

    read-Adds :
        (identity : Text) (p : Result Error Bytes × Stream) (c : Conn)
        → p.1.outgoing ≡ c.stream.outgoing
        → ((msg : Text) → P (error msg))
        → ((creds : X509Credentials)
            → (get_or_fetch_credentials rc xp w config identity c.agent).0 ≡ ok creds
            → P (success creds))
        → Adds P c.stream
            (continue
              (on_line rc xp w config around identity)
              (p.0, record c { stream = p.1 })).1.stream
    unfolding on_line Adds
    read-Adds identity (err e, s) c same errors due = Adds-nothing c.stream s same
    read-Adds identity (ok [], s) c same errors due = Adds-nothing c.stream s same
    read-Adds identity (ok (b ∷ bs), s) c same errors due =
        let (x, adds, says) =
          served-Adds identity (map_err json (around.request_json.from_slice (b ∷ bs)))
            (record c { stream = s }) errors due in
        (x, adds ∙ ap (λ (o : Bytes). o ++ x) same, says)

  read_line-outgoing : (s : Stream) → (read_line s).1.outgoing ≡ s.outgoing
  unfolding read_line
  read_line-outgoing s = refl

  pub handle_workload_conn-Adds :
      (cred : PeerCred) (c : Conn)
      → Adds
          (Due cred c.agent)
          c.stream
          (handle_workload_conn rc xp w config around cred c).1.stream
  unfolding handle_workload_conn attested Due
  handle_workload_conn-Adds cred c =
      elim (Option-cases (match_workload around.users (observe around cred) c.agent.workloads)) [
        | inl nobody ↦ rw nobody (
            reply-Adds (Due cred c.agent)
              (error (attestation_failed around.debug (observe around cred))) c tt)
        | inr (identity, found) ↦ rw found (
            read-Adds (Due cred c.agent) identity (read_line c.stream) c
              (read_line-outgoing c.stream) (λ msg. tt) (λ creds got. (identity, found, got)))
      ]
