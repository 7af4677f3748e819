-- ===== src/TestWorkload.antt =====
-- apps/rust-apps/workload-test-workload/src/main.rs: a workload that fetches credentials, and with
-- `--test-rotation` once more after 32 seconds. The error of a function is the exit code.
pub mod Passed
use vm_authn_scope.Prelude.{
  ℕ, Option, none, some, Bool, true, false, ◌||◌, List, [], ◌∷◌, ◌++◌, if◌then◌else◌, ◌==◌, text_eq,
}
use mathlib.Core.Option
use vm_authn_scope.Prelude.Result.{Result, ok, err}
use vm_authn_scope.Prelude.Io.{Io, pure, fail, lift, relabel, on_err, ◌>>=◌, ◌>>◌}
use vm_authn_scope.Prelude.Text.{Text, lit, first}
use vm_authn_scope.Prelude.Errors.{Error}
use vm_authn_scope.Proto.Codec.{Json}
use vm_authn_scope.Ca.Files.{Fs, write_file}
use vm_authn_scope.Agent.Request.{X509Credentials}
use vm_authn_scope.Agent.Conn.{WorkloadRequest, WorkloadResponse}
use vm_authn_scope.Workload.{Round, new_client, fetch_round}

abbrev pub flag : Text
flag = lit "--test-rotation"

abbrev pub passed_path : Text
passed_path = lit "/tmp/rotation-passed"

-- "/tmp/workload-{}-{}.pem"
abbrev pub pem_path : Text → Text → Text
pem_path kind username = lit "/tmp/workload-" ++ (kind ++ (lit "-" ++ (username ++ lit ".pem")))

-- `args.get(1)` and its default
unfoldable pub socket_path : List Text → Text
socket_path (_ ∷ path ∷ _) = path
socket_path _ = lit "/run/authn-scope/workload.sock"

-- `args.iter().any(...)`
unfoldable pub has_flag : List Text → Bool
has_flag [] = false
has_flag (arg ∷ args) = arg == flag || has_flag args

-- `?` in `main`: the error is printed and the exit code is 1.
abbrev pub or_exit : {E A : Type 0} → Result E A → Io Fs ℕ A
or_exit r = lift (relabel (λ _. 1) r)

pub save_file : Text → Text → Io Fs ℕ (Unit {0})
save_file path text = on_err (λ _. 1) (write_file path text)

-- The three files for the test's script.
unfoldable pub save : Text → X509Credentials → Io Fs ℕ (Unit {0})
unfolding save_file
save username creds = do
  save_file (pem_path (lit "cert") username) creds.cert_pem
  save_file (pem_path (lit "key") username) creds.key_pem
  save_file (pem_path (lit "ca") username) creds.ca_cert_pem

-- What the first fetch returns, and the second, behind the sleep.
unfoldable pub rotation_test :
    Text → Result Error X509Credentials → Result Error X509Credentials → Io Fs ℕ (Unit {0})
rotation_test username first_fetch second_fetch = do
  creds1 ← or_exit first_fetch
  save username creds1
  creds2 ← or_exit second_fetch
  if creds1.cert_pem == creds2.cert_pem then fail 1 else save_file passed_path (lit "1")

unfoldable pub fetch_once : Text → Result Error X509Credentials → Io Fs ℕ (Unit {0})
fetch_once username fetched = do creds ← or_exit fetched; save username creds

module _ (request_json : Json WorkloadRequest) (response_json : Json WorkloadResponse) where
  -- The arguments, the variable USER, and what the client meets at its two fetches.
  unfoldable pub main : List Text → Option Text → Round → Round → Io Fs ℕ (Unit {0})
  main args user round1 round2 =
      let client = new_client (socket_path args) in
      let username = Option.get_or user (lit "unknown") in
      let fetched = fetch_round request_json response_json client round1 in
      if has_flag args
      then rotation_test username fetched (fetch_round request_json response_json client round2)
      else fetch_once username fetched
