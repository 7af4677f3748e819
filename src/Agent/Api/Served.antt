-- ===== src/Agent/Api/Served.antt =====
-- What the Workload API gives away, and to whom.
use vm_authn_scope.Prelude.{
  ◌≡◌, inl, inr, refl, ap, ◌∙◌, [], ◌∷◌, ◌++◌, All, All-append, All-middle,
}
use vm_authn_scope.Prelude.Result.{ok, Result-cases}
use vm_authn_scope.Prelude.Dict.{Dict, lookup}
use vm_authn_scope.Prelude.Errors.{Bytes}
use vm_authn_scope.Proto.Wire.{WorkloadConfig}
use vm_authn_scope.Ca.Rcgen.{Rcgen}
use vm_authn_scope.X509.{X509}
use vm_authn_scope.Agent.Config.{AgentConfig}
use vm_authn_scope.Agent.Kernel.{Trace}
use vm_authn_scope.Agent.Startup.{run_agent}
use vm_authn_scope.Agent.Startup.Cost.{run_agent-eq-ok}
use vm_authn_scope.Agent.Request.{AgentState, World}
use vm_authn_scope.Agent.Cache.Vouched.{
  Vouched, IsVouched, get_or_fetch-Vouched, get_or_fetch-eq-ok, get_or_fetch-workloads,
}
use vm_authn_scope.Agent.Conn.{WorkloadResponse, success, error, PeerCred, Surroundings, observe}
use vm_authn_scope.Agent.Conn.Attested.{Untouched, handle_workload_conn-agent}
use vm_authn_scope.Agent.Conn.Written.{Due, Adds, handle_workload_conn-Adds}
use vm_authn_scope.Agent.Conn.Peer.{observe-IsPeer}
use vm_authn_scope.Agent.Api.Disclosed.{Disclosure, Rightful, Says-mono, IsServed, unknown, known}
use vm_authn_scope.Agent.Api.{
  Task, Api, opened, run_task, end_task, Step, accepted, accept_failed, waited, ran, Reach, here,
  next,
}

module _ (rc : Rcgen) (xp : X509) (w : World rc) (config : AgentConfig)
    (workloads : Dict WorkloadConfig) where
  abbrev pub IsVouchedFor : Disclosure
  IsVouchedFor users proc = Vouched rc w config

  pub record IsSafe (api : Api) : Type 0 where
    pub same_workloads : api.agent.workloads ≡ workloads
    pub cache_vouched : IsVouched rc w config api.agent.cache
    pub waiting_silent : All (λ (t : Task). t.stream.outgoing ≡ []) api.waiting
    pub ended_served : All (IsServed IsVouchedFor workloads) api.ended

  -- A response that was due is a rightful one.
  Due-Rightful :
      (around : Surroundings) (cred : PeerCred) (a : AgentState) (resp : WorkloadResponse)
      → a.workloads ≡ workloads
      → IsVouched rc w config a.cache
      → Due rc xp w config around cred a resp
      → Rightful IsVouchedFor workloads around cred resp
  unfolding Rightful Due
  Due-Rightful around cred a (error msg) same vouched due = tt
  Due-Rightful around cred a (success creds) same vouched (identity, found, got) = (
    observe around cred,
    observe-IsPeer around cred,
    identity,
    rw (← same) found,
    get_or_fetch-eq-ok rc xp w config identity a vouched got,
  )

  Untouched-agent :
      (around : Surroundings) (cred : PeerCred) (a a' : AgentState)
      → a.workloads ≡ workloads
      → IsVouched rc w config a.cache
      → Untouched rc xp w config around cred a a'
      → (a'.workloads ≡ workloads) × IsVouched rc w config a'.cache
  Untouched-agent around cred a a' same vouched (inl e) = (rw e same, rw e vouched)
  Untouched-agent around cred a a' same vouched (inr (identity, found, e)) = (
    rw e (get_or_fetch-workloads rc xp w config identity a ∙ same),
    rw e (get_or_fetch-Vouched rc xp w config identity a vouched),
  )

  run_task-agent :
      (around : Surroundings) (task : Task) (a : AgentState)
      → a.workloads ≡ workloads
      → IsVouched rc w config a.cache
      → let a' = (run_task rc xp w config around task a).agent in
        (a'.workloads ≡ workloads) × IsVouched rc w config a'.cache
  unfolding run_task
  run_task-agent around task a same vouched = elim (Result-cases task.peer_cred) [
    | inr (e, fails) ↦ rw fails (same, vouched)
    | inl (cred, is_known) ↦ rw is_known (
        Untouched-agent around cred a _ same vouched (
          handle_workload_conn-agent rc xp w config around cred
            (record { agent = a; stream = task.stream })))
  ]

  end_task-IsServed :
      (around : Surroundings) (task : Task) (a : AgentState)
      → a.workloads ≡ workloads
      → IsVouched rc w config a.cache
      → task.stream.outgoing ≡ []
      → IsServed IsVouchedFor workloads (record {
        task = record task { stream = (run_task rc xp w config around task a).stream };
        around = around;
      })
  unfolding run_task Adds
  end_task-IsServed around task a same vouched silent = elim (Result-cases task.peer_cred) [
    | inr (e, fails) ↦ unknown _ e fails (rw fails silent)
    | inl (cred, is_known) ↦
        let (x, adds, says) =
          handle_workload_conn-Adds rc xp w config around cred
            (record { agent = a; stream = task.stream }) in
        known _ cred is_known (
          rw is_known (
            rw (adds ∙ ap (λ (o : Bytes). o ++ x) silent)
              (Says-mono around _ _ (λ resp. Due-Rightful around cred a resp same vouched) says)))
  ]

  Step-IsSafe : {api api' : Api} → Step rc xp w config api api' → IsSafe api → IsSafe api'
  unfolding end_task
  Step-IsSafe (accepted api task silent) safe = record {
    same_workloads = safe.same_workloads;
    cache_vouched = safe.cache_vouched;
    waiting_silent = All-append _ api.waiting (task ∷ []) safe.waiting_silent (silent, tt);
    ended_served = safe.ended_served;
  }
  Step-IsSafe (accept_failed api e) safe = safe
  Step-IsSafe (waited api nanoseconds) safe = record {
    same_workloads = safe.same_workloads;
    cache_vouched = safe.cache_vouched;
    waiting_silent = safe.waiting_silent;
    ended_served = safe.ended_served;
  }
  Step-IsSafe (ran api around before after task waits) safe =
      let (silent, others) = All-middle _ before task after (rw waits at safe.waiting_silent) in
      let (same, vouched) =
        run_task-agent around task api.agent safe.same_workloads safe.cache_vouched in
      record {
        same_workloads = same;
        cache_vouched = vouched;
        waiting_silent = others;
        ended_served = (
          end_task-IsServed around task api.agent safe.same_workloads safe.cache_vouched silent,
          safe.ended_served,
        );
      }

  Reach-IsSafe : {start api : Api} → IsSafe start → Reach rc xp w config start api → IsSafe api
  Reach-IsSafe safe here = safe
  Reach-IsSafe safe (next before step) = Step-IsSafe step (Reach-IsSafe safe before)

module _ (rc : Rcgen) (xp : X509) (w : World rc) (config : AgentConfig) where
  -- If the start of the agent succeeds, then in every state that its Workload API reaches,
  -- whatever connections come in, fail or run in whatever order, however much time passes
  -- between them and whatever they send, the workloads are those of the handshake; every
  -- credential in the cache is the host's answer to a certificate request for the identity it
  -- stands under, with the key made for that request; a connection that has not run was sent
  -- nothing; and one that ended was sent nothing, or one response as far as there was room,
  -- which is an error or credentials of that kind for the identity that match_workload
  -- returns for the process with the peer's credentials, as /proc showed it under the peer's
  -- process id when the connection ran.
  pub run_agent-IsSafe :
      (t : Trace) (agent : AgentState) (api : Api)
      → (run_agent rc w config t).0 ≡ ok agent
      → Reach rc xp w config (opened agent) api
      → IsSafe rc xp w config agent.workloads api
  unfolding lookup
  run_agent-IsSafe t agent api started reached =
      let (listening, empty, greeted) = run_agent-eq-ok rc w config t started in
      Reach-IsSafe rc xp w config agent.workloads
        (record {
          same_workloads = refl;
          cache_vouched = λ identity cached found. absurd (cc (rw empty at found));
          waiting_silent = tt;
          ended_served = tt;
        })
        reached
