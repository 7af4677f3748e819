-- ===== src/Server/Main/Serves.antt =====
-- When the daemon comes to serve, and whom.
use mathlib.Core.List.{Mem}
use vm_authn_scope.Prelude.{
  ℕ, ◌<◌, ◌≡◌, ◌↔◌, refl, List, inl, inr, Bool-cases, ◌!=◌, nat_eq, !=-eq-false, ℕ_discrete,
}
use vm_authn_scope.Prelude.Result.{Result, ok}
use vm_authn_scope.Prelude.Io.{continue-eq, relabel, relabel-eq-ok}
use vm_authn_scope.Prelude.Text.{Text}
use vm_authn_scope.Prelude.Errors.{IoError}
use vm_authn_scope.Proto.Codec.{Stream}
use vm_authn_scope.Ca.Files.{Fs, read_to_string}
use vm_authn_scope.Ca.Rcgen.{Rcgen}
use vm_authn_scope.Server.Config.{HostConfig, from_file}
use vm_authn_scope.Server.Config.Load.{SelectorsParse, from_file_iff}
use vm_authn_scope.Server.Listener.{Accept, connection, run_listener}
use vm_authn_scope.Server.Listener.Served.{task, run_listener-Mem}
use vm_authn_scope.Server.Main.{Cli, Serving, exit_1, load_config, open_authority, serve, main}

module _ (rc : Rcgen) (from_str : Text → Result Text HostConfig) (generated : Result Text rc.Key)
    (bind : ℕ → Result IoError (Unit {0})) (accepts : List Accept) (fs : Fs) where
  -- What happened between the command line and the accept loop.
  pub record Started (cli : Cli) (serving : Serving) (fs' : Fs) : Type 0 where
    pub configured :
        from_file (λ p. (read_to_string p fs).0) from_str cli.config ≡ ok serving.config
    pub opened :
        open_authority rc generated cli.genkey serving.config fs ≡ (ok serving.authority, fs')
    pub listening : run_listener bind serving.config accepts ≡ ok serving.tasks

  serve-Started :
      (cli : Cli) (serving : Serving) (fs' : Fs)
      → serve rc from_str generated bind accepts cli fs ≡ (ok serving, fs')
      → Started cli serving fs'
  unfolding serve load_config
  serve-Started cli serving fs' served =
      let read : Result ℕ HostConfig × Fs =
        (relabel exit_1 (from_file (λ p. (read_to_string p fs).0) from_str cli.config), fs) in
      let (cfg, configured, later) = continue-eq _ read served in
      let (made, opened, last) =
        continue-eq _ (open_authority rc generated cli.genkey cfg fs) later in
      let fs1 : Fs = (open_authority rc generated cli.genkey cfg fs).1 in
      let (tasks, listening, done) =
        continue-eq _ (relabel exit_1 (run_listener bind cfg accepts), fs1) last in
      let same : record { config = cfg; authority = made; tasks = tasks } ≡ serving = cc (done) in
      let behind : fs1 ≡ fs' = cc (done) in
      let opens : open_authority rc generated cli.genkey cfg fs ≡ (ok made, fs') =
        cc (opened, behind) in
      rw (← same) (record {
        configured =
            relabel-eq-ok exit_1 (from_file (λ p. (read_to_string p fs).0) from_str cli.config)
              configured;
        opened = opens;
        listening = relabel-eq-ok exit_1 (run_listener bind cfg accepts) listening;
      })

  Started-serve :
      (cli : Cli) (serving : Serving) (fs' : Fs)
      → Started cli serving fs'
      → serve rc from_str generated bind accepts cli fs ≡ (ok serving, fs')
  unfolding serve load_config
  Started-serve cli serving fs' started =
      rw (started.configured, started.opened, started.listening) refl

module _ (rc : Rcgen) (from_str : Text → Result Text HostConfig) (uid : ℕ) (parsed : Result ℕ Cli)
    (generated : Result Text rc.Key) (bind : ℕ → Result IoError (Unit {0})) (accepts : List Accept)
    (fs fs' : Fs) (serving : Serving) where
  abbrev IsStarted : Type 0
  IsStarted =
      (uid ≡ 0)
      × ((cli : Cli) × (parsed ≡ ok cli)
          × Started rc from_str generated bind accepts fs cli serving fs')

  pub main_iff :
      (main rc from_str uid parsed generated bind accepts fs ≡ (ok serving, fs')) ↔ IsStarted
  unfolding main ℕ_discrete
  main_iff = (
    λ served. elim (Bool-cases (uid != 0)) [
      | inl other ↦ absurd (cc (rw other at served))
      | inr root ↦
          let (cli, is_cli, later) = continue-eq _ (parsed, fs) (rw root at served) in
          (
            !=-eq-false uid 0 root,
            (
              cli,
              is_cli,
              serve-Started rc from_str generated bind accepts fs cli serving fs' later,
            ),
          )
    ],
    λ (root, (cli, is_cli, started)).
        rw (root, is_cli)
          (Started-serve rc from_str generated bind accepts fs cli serving fs' started),
  )

  -- If the daemon comes to serve then it runs as root, its port is below 1000, the selectors
  -- of its configuration can all be parsed, and a task is run for a stream and a CID exactly
  -- if accept returned that stream with that CID and the port of agents.
  pub main-Serves :
      (stream : Stream) (cid : ℕ)
      → main rc from_str uid parsed generated bind accepts fs ≡ (ok serving, fs')
      → (uid ≡ 0)
        × (serving.config.server_port < 1000)
        × SelectorsParse serving.config.vms
        × (Mem (task stream cid) serving.tasks
            ↔ Mem (connection stream cid serving.config.peer_port) accepts)
  main-Serves stream cid served =
      let (root, (cli, is_cli, started)) = main_iff.0 served in
      let (decoded, low, parse) =
        (from_file_iff (λ p. (read_to_string p fs).0) from_str cli.config serving.config).0
          started.configured in
      (
        root,
        low,
        parse,
        run_listener-Mem bind serving.config accepts serving.tasks stream cid started.listening,
      )
