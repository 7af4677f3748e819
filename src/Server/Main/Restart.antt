-- ===== src/Server/Main/Restart.antt =====
-- A daemon that is started with `--genkey` and then without it.
use vm_authn_scope.Prelude.{ℕ, ◌≡◌, ◌≢◌, ◌∙◌, refl, List, true, false, arith, none}
use vm_authn_scope.Prelude.Result.{Result, ok}
use vm_authn_scope.Prelude.Io.{relabel-eq}
use vm_authn_scope.Prelude.Text.{Text}
use vm_authn_scope.Prelude.Errors.{IoError}
use vm_authn_scope.Ca.Files.{Fs, read, read_to_string}
use vm_authn_scope.Ca.Rcgen.{Rcgen, PemRoundTrips}
use vm_authn_scope.Ca.Authority.{CertificateAuthority, ca_params, init}
use vm_authn_scope.Ca.Authority.Stored.{IsStored, init-load}
use vm_authn_scope.Server.Config.{HostConfig, from_file}
use vm_authn_scope.Server.Listener.{Accept, Task, run_listener}
use vm_authn_scope.Server.Main.{Serving, exit_1, open_authority, main}
use vm_authn_scope.Server.Main.Serves.{main_iff}

from_file-read :
    (a b : Text → Result IoError Text) (from_str : Text → Result Text HostConfig) (path : Text)
    → a path ≡ b path
    → from_file a from_str path ≡ from_file b from_str path
unfolding from_file
from_file-read a b from_str path same = rw same refl

-- A file that is neither the certificate's nor the key's is read as before.
IsStored-read :
    (cert_path key_path path : Text) (made : CertificateAuthority) (s t : Fs)
    → path ≢ cert_path
    → path ≢ key_path
    → IsStored cert_path key_path made s t
    → (read_to_string path t).0 ≡ (read_to_string path s).0
unfolding read_to_string
IsStored-read cert_path key_path path made s t other_cert other_key stored =
    ground (arith, stored.others path, stored.same_refuses (read path))

-- If the daemon is started with --genkey and comes to serve, the paths of its configuration,
-- its certificate and its key are distinct, the new key and certificate are read back from PEM
-- and the system lets both files be read, then the daemon that is started without --genkey on
-- the files left behind, whatever other key could be generated, serves with the same
-- configuration and authority, provided that it can bind its port, and changes no file.
pub main_restart :
    (rc : Rcgen) (from_str : Text → Result Text HostConfig) (path : Text) (k : rc.Key)
    (c : rc.Certificate) (bind bind' : ℕ → Result IoError (Unit {0})) (accepts later : List Accept)
    (fs fs' : Fs) (serving : Serving) (generated : Result Text rc.Key) (tasks : List Task)
    → let cfg = serving.config in
      cfg.ca_cert_path ≢ cfg.ca_key_path
      → path ≢ cfg.ca_cert_path
      → path ≢ cfg.ca_key_path
      → rc.self_signed (ca_params rc) k ≡ ok c
      → PemRoundTrips rc k c
      → fs.refuses (read cfg.ca_cert_path) ≡ none
      → fs.refuses (read cfg.ca_key_path) ≡ none
      → main rc from_str 0 (ok (record { config = path; genkey = true })) (ok k) bind accepts fs
        ≡ (ok serving, fs')
      → run_listener bind' cfg later ≡ ok tasks
      → main rc from_str 0 (ok (record { config = path; genkey = false })) generated bind' later fs'
        ≡ (ok (record serving { tasks = tasks }), fs')
unfolding open_authority
main_restart rc from_str path k c bind bind' accepts later fs fs' serving generated tasks distinct
      other_cert other_key signed round cert_readable key_readable served listens =
    let cfg = serving.config in
    let (root, (cli, is_cli, started)) =
      (main_iff rc from_str 0 (ok (record { config = path; genkey = true })) (ok k) bind accepts fs
          fs' serving).0
        served in
    let same : record { config = path; genkey = true } ≡ cli = cc (is_cli) in
    let opened = rw (← same) at started.opened in
    let configured = rw (← same) at started.configured in
    let (stored, loads) =
      init-load rc cfg.ca_cert_path cfg.ca_key_path distinct k c fs signed round cert_readable
        key_readable
        (relabel-eq exit_1 (init rc (ok k) cfg.ca_cert_path cfg.ca_key_path false fs) opened) in
    (main_iff rc from_str 0 (ok (record { config = path; genkey = false })) generated bind' later
        fs' fs' (record serving { tasks = tasks })).1
      (
        refl,
        (
          record { config = path; genkey = false },
          refl,
          record {
            configured =
                from_file-read _ _ from_str path (
                  IsStored-read cfg.ca_cert_path cfg.ca_key_path path serving.authority fs fs'
                    other_cert other_key stored)
                ∙ configured;
            opened = rw loads refl;
            listening = listens;
          },
        ),
      )
