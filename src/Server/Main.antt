-- ===== src/Server/Main.antt =====
-- apps/rust-apps/authn-scope-server/src/main.rs: the daemon from its start to the accept loop. The
-- error of a function here is the exit code of the process. What clap makes of the arguments is a
-- parameter, an exit code where it ends the process.
pub mod Restart
pub mod Serves
pub mod Answers
use vm_authn_scope.Prelude.{ℕ, List, Bool, if◌then◌else◌, ◌!=◌, nat_eq, false}
use vm_authn_scope.Prelude.Result.{Result, ok, err}
use vm_authn_scope.Prelude.Io.{Io, pure, fail, lift, relabel, on_err, ◌>>=◌}
use vm_authn_scope.Prelude.Text.{Text}
use vm_authn_scope.Prelude.Errors.{IoError}
use vm_authn_scope.Ca.Files.{Fs, read_to_string}
use vm_authn_scope.Ca.Rcgen.{Rcgen}
use vm_authn_scope.Ca.Authority.{CertificateAuthority, init, load}
use vm_authn_scope.Server.Config.{HostConfig, from_file}
use vm_authn_scope.Server.Listener.{Accept, Task, run_listener}

pub record Cli : Type 0 where
  pub config : Text
  pub genkey : Bool

-- What the tasks share, and the tasks.
pub record Serving : Type 0 where
  pub config : HostConfig
  pub authority : CertificateAuthority
  pub tasks : List Task

-- `process::exit(1)`, behind a line in the log.
abbrev pub exit_1 : {E : Type 0} → E → ℕ
exit_1 e = 1

module _ (rc : Rcgen) where
  -- `generated` is what `KeyPair::generate_for` returns.
  unfoldable pub open_authority :
      Result Text rc.Key → Bool → HostConfig → Io Fs ℕ CertificateAuthority
  open_authority generated genkey cfg = on_err exit_1 (
      if genkey
      then init rc generated cfg.ca_cert_path cfg.ca_key_path false
      else load rc cfg.ca_cert_path cfg.ca_key_path)

  module _ (from_str : Text → Result Text HostConfig) where
    unfoldable pub load_config : Text → Io Fs ℕ HostConfig
    load_config path fs =
        (relabel exit_1 (from_file (λ p. (read_to_string p fs).0) from_str path), fs)

    -- From the command line on.
    serve :
        Result Text rc.Key → (ℕ → Result IoError (Unit {0})) → List Accept → Cli → Io Fs ℕ Serving
    unfolding load_config open_authority
    serve generated bind accepts cli = do
      cfg ← load_config cli.config
      made ← open_authority generated cli.genkey cfg
      tasks ← lift (relabel exit_1 (run_listener bind cfg accepts))
      pure (record { config = cfg; authority = made; tasks = tasks })

    -- `getuid`, `Cli::parse`, the new key, the port and the connections come from outside.
    unfoldable pub main :
        ℕ
        → Result ℕ Cli
        → Result Text rc.Key
        → (ℕ → Result IoError (Unit {0}))
        → List Accept
        → Io Fs ℕ Serving
    unfolding serve
    main uid parsed generated bind accepts =
        if uid != 0 then fail 1 else do cli ← lift parsed; serve generated bind accepts cli
