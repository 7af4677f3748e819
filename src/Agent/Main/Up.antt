-- ===== src/Agent/Main/Up.antt =====
-- An agent that runs, and its Workload API.
use vm_authn_scope.Prelude.{
  ℕ, ◌<◌, ◌≡◌, ◌↔◌, refl, ap, sym, true, none, some, inl, inr, Bool-cases, leb, ◌!=◌, nat_eq,
  !=-eq-false, arith, Option,
}
use vm_authn_scope.Prelude.Result.{Result, ok, Result-cases, map_err, >>=-eq-ok}
use vm_authn_scope.Prelude.Io.{continue-eq, relabel, relabel-eq-ok}
use vm_authn_scope.Prelude.Text.{Text}
use vm_authn_scope.Prelude.Errors.{IoError, io, json}
use vm_authn_scope.Ca.Files.{Fs, read_to_string}
use vm_authn_scope.Ca.Rcgen.{Rcgen}
use vm_authn_scope.Agent.Config.{AgentConfig, from_file}
use vm_authn_scope.Agent.Request.{AgentState, World}
use vm_authn_scope.Agent.Startup.{run_agent}
use vm_authn_scope.Agent.Startup.Cost.{run_agent-eq-ok}
use vm_authn_scope.Agent.Api.{opened, open_socket}
use vm_authn_scope.Agent.Api.Socket.{CanOpen, open_socket-ok, open_socket-eq-ok}
use vm_authn_scope.Agent.Main.{
  Machine, Running, api_from, launch_at, launch, load_config, start_agent, serve, main,
}

-- The configuration names a socket, and it can be opened.
abbrev pub HasApi : AgentConfig → Fs → Type 0
HasApi config fs = (path : Text) × (config.workload_api_socket ≡ some path) × CanOpen path fs

from_file-low :
    (read : Text → Result IoError Text) (from_str : Text → Result Text AgentConfig) (path : Text)
    {config : AgentConfig}
    → from_file read from_str path ≡ ok config
    → config.server_port < 1000
unfolding from_file
from_file-low read from_str path {config} h =
    let (text, reads, later) = >>=-eq-ok (map_err io (read path)) _ h in
    let (c, decodes, last) = >>=-eq-ok (map_err json (from_str text)) _ later in
    elim (Bool-cases (leb 1000 c.server_port)) [
      | inl high ↦ absurd (cc (rw high at last))
      | inr low ↦ let same : c ≡ config = cc (rw low at last) in rw (← same) (ground (arith, low))
    ]

launch_at-some :
    (agent : AgentState) (socket : Option Text) (fs : Fs)
    → ((launch_at agent socket fs).0 ≡ some (opened agent))
      ↔ ((path : Text) × (socket ≡ some path) × CanOpen path fs)
unfolding launch_at api_from
launch_at-some agent none fs = (λ h. absurd (cc), λ (path, h, can). absurd (cc))
launch_at-some agent (some path) fs = (
  λ h. elim (Result-cases (open_socket path fs).0) [
    | inl (u, opens) ↦ (path, refl, open_socket-eq-ok path fs opens)
    | inr (e, fails) ↦ absurd (cc (rw fails at h))
  ],
  λ (other, names, can).
      let same : path ≡ other = cc (names) in
      let opens = (open_socket-ok path fs (rw same can)).0 in rw opens refl,
)

module _ (rc : Rcgen) (w : World rc) (from_str : Text → Result Text AgentConfig) (uid : ℕ)
    (parsed : Result ℕ Text) (m m' : Machine) (running : Running) where
  pub record Started (path : Text) : Type 0 where
    pub configured : from_file (λ p. (read_to_string p m.files).0) from_str path ≡ ok running.config
    pub agreed : (run_agent rc w running.config m.trace).0 ≡ ok running.agent
    pub launched :
        (running.api, m'.files) ≡ launch_at running.agent running.config.workload_api_socket m.files
    pub logged : m'.trace ≡ (run_agent rc w running.config m.trace).1

  serve-Started : (path : Text) → serve rc w from_str path m ≡ (ok running, m') → Started path
  unfolding serve load_config start_agent launch
  serve-Started path served =
      let read : Result ℕ AgentConfig × Machine =
        (relabel (λ _. 1) (from_file (λ p. (read_to_string p m.files).0) from_str path), m) in
      let (config, configured, later) = continue-eq _ read served in
      let (agent, agreed, last) = continue-eq _ (start_agent rc w config m) later in
      let m1 : Machine = (start_agent rc w config m).1 in
      let launched : launch config agent m1 ≡ (ok running, m') = last in
      let same : record {
        config = config;
        agent = agent;
        api = (launch_at agent config.workload_api_socket m.files).0;
      }
          ≡ running =
        cc (launched) in
      let behind : (launch config agent m1).1 ≡ m' = ap (λ p. p.1) launched in
      rw (← same) (record {
        configured =
            relabel-eq-ok _ (from_file (λ p. (read_to_string p m.files).0) from_str path)
              configured;
        agreed = relabel-eq-ok _ (run_agent rc w config m.trace).0 agreed;
        launched =
            ap (λ f. ((launch_at agent config.workload_api_socket m.files).0, f))
              (sym (ap (λ (x : Machine). x.files) behind));
        logged = sym (ap (λ (x : Machine). x.trace) behind);
      })

  IsStarted : Type 0
  IsStarted = (uid ≡ 0) × ((path : Text) × (parsed ≡ ok path) × Started path)

  main-IsStarted : main rc w from_str uid parsed m ≡ (ok running, m') → IsStarted
  unfolding main IsStarted
  main-IsStarted served = elim (Bool-cases (uid != 0)) [
    | inl other ↦ absurd (cc (rw other at served))
    | inr root ↦
        let (path, is_path, later) = continue-eq _ (parsed, m) (rw root at served) in
        (!=-eq-false uid 0 root, (path, is_path, serve-Started path later))
  ]

  -- If the agent comes to its endless loop then it runs as root, the port of the server is
  -- below 1000, the client port is held by a listener, and the Workload API is served exactly
  -- if the configuration names a socket, the system grants its bind and the change of its
  -- mode, and the path is free or can be freed.
  pub main-Up :
      main rc w from_str uid parsed m ≡ (ok running, m')
      → (uid ≡ 0)
        × (running.config.server_port < 1000)
        × (running.agent.listening ≡ true)
        × ((running.api ≡ some (opened running.agent)) ↔ HasApi running.config m.files)
  unfolding IsStarted
  main-Up served =
      let (root, (path, is_path, started)) = main-IsStarted served in
      let (listening, empty, greeted) =
        run_agent-eq-ok rc w running.config m.trace started.agreed in
      (
        root,
        from_file-low _ from_str path started.configured,
        listening,
        rw (ap (λ p. p.0) started.launched)
            (launch_at-some running.agent running.config.workload_api_socket m.files),
      )
