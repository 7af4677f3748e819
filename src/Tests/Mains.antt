-- ===== src/Tests/Mains.antt =====
-- The command lines at concrete inputs.
use mathlib.Core.List.{Mem, mem-cons_self}
use vm_authn_scope.Prelude.{
  ℕ, ◌+◌, ◌-◌, ◌++◌, ◌<◌, ◌≡◌, ◌≢◌, ◌↔◌, refl, ap, true, false, none, some, List, [], ◌∷◌, ◌==◌,
  text_eq, length, arith, if◌then◌else◌, text_dec, ℕ_discrete,
}
use vm_authn_scope.Prelude.Result.{Result, ok, err}
use vm_authn_scope.Prelude.Text.{Text, lit, split, trim, splitn}
use vm_authn_scope.Prelude.Errors.{IoError}
use vm_authn_scope.Ca.Files.{Fs, read_to_string, create_parent_dir, write_file, set_permissions}
use vm_authn_scope.Ca.Authority.{init, ca_params, rcgen_cert}
use vm_authn_scope.Ca.Signing.{sign_csr}
use vm_authn_scope.Prelude.Dict.{lookup}
use vm_authn_scope.Server.Policy.{resolve}
use vm_authn_scope.Server.Handler.Answer.{answer}
use vm_authn_scope.Proto.Codec.Frame.{frame}
use vm_authn_scope.Proto.Wire.{cert_request}
use vm_authn_scope.Server.Config.{from_file, parse_text}
use vm_authn_scope.Server.Config.Load.{SelectorsParse}
use vm_authn_scope.Server.Listener.{Accept, connection, run_listener, Task, spawned}
use vm_authn_scope.Server.Listener.Served.{task}
use vm_authn_scope.Server.Main.{main as server_main, Serving, open_authority}
use vm_authn_scope.Server.Main.Answers.{main-answer}
use vm_authn_scope.Server.Main.Serves.{main-Serves}
use vm_authn_scope.Server.Main.Restart.{main_restart}
use vm_authn_scope.Tests.World.{
  rcgen, made, empty_stream, vm_a, web, io_text, request_json, response_json,
}
use vm_authn_scope.Tests.Server.{host_config, decode_config}

abbrev config_path : Text
config_path = lit "host.json"

-- A host with nothing but its configuration.
abbrev host_fs : Fs
host_fs = record {
  file = λ path.
      if path == config_path then some (record { content = lit "json"; mode = 0o644 }) else none;
  refuses = λ call. none;
  new_mode = 0o644;
  socket_mode = 0o755;
}

abbrev bind : ℕ → Result IoError (Unit {0})
bind port = ok tt

abbrev accepts : List Accept
accepts = connection empty_stream 3 901 ∷ connection empty_stream 3 902 ∷ []

abbrev serving : Serving
serving = record { config = host_config; authority = made; tasks = task empty_stream 3 ∷ [] }

abbrev served_fs : Fs
served_fs =
    (server_main rcgen decode_config 0 (ok (record { config = config_path; genkey = true })) (ok 3)
      bind accepts host_fs).1

serves :
    server_main rcgen decode_config 0
      (ok (record { config = config_path; genkey = true }))
      (ok 3)
      bind
      accepts
      host_fs
    ≡ (ok serving, served_fs)
unfolding server_main from_file read_to_string init ca_params create_parent_dir write_file
    set_permissions run_listener parse_text split trim splitn text_dec ℕ_discrete
serves = refl

abbrev root : ℕ
root = 0

main-Serves_example :
    (root ≡ 0)
    × (900 < 1000)
    × SelectorsParse host_config.vms
    × (Mem (task empty_stream 3) serving.tasks ↔ Mem (connection empty_stream 3 901) accepts)
main-Serves_example =
    main-Serves rcgen decode_config 0 (ok (record { config = config_path; genkey = true })) (ok 3)
      bind accepts host_fs served_fs serving empty_stream 3 serves

shorter : (a b : Text) → length a < length b → b ≢ a
shorter a b h e = omega (arith, h, ap (λ (t : Text). length t) e)

longer : (a b : Text) → length a < length b → a ≢ b
longer a b h e = omega (arith, h, ap (λ (t : Text). length t) e)

main_restart_example :
    server_main rcgen decode_config 0
      (ok (record { config = config_path; genkey = false }))
      (err (lit "no entropy"))
      bind
      []
      served_fs
    ≡ (ok (record serving { tasks = [] }), served_fs)
unfolding run_listener ca_params
main_restart_example =
    main_restart rcgen decode_config config_path 3 (lit "authn-scope-ca") bind bind accepts []
      host_fs served_fs serving (err (lit "no entropy")) []
      (longer (lit "c") (lit "key") (omega arith)) (shorter (lit "c") config_path (omega arith))
      (shorter (lit "key") config_path (omega arith)) refl (record { key = refl; cert = refl }) refl
      refl serves refl

-- An agent that asks for a certificate, and a byte behind its request.
abbrev asking : List Accept
asking = connection (record empty_stream { incoming = frame web ++ 7 ∷ [] }) 3 901 ∷ []

abbrev asked : Serving
asked = record serving {
  tasks = task (record empty_stream { incoming = frame web ++ 7 ∷ [] }) 3 ∷ [];
}

starts :
    server_main rcgen decode_config 0
      (ok (record { config = config_path; genkey = true }))
      (ok 3)
      bind
      asking
      host_fs
    ≡ (ok asked, served_fs)
unfolding server_main from_file read_to_string init ca_params create_parent_dir write_file
    set_permissions run_listener parse_text split trim splitn text_dec ℕ_discrete
starts = refl

main-answer_example :
    (from_file (λ p. (read_to_string p host_fs).0) decode_config config_path ≡ ok host_config)
    × (open_authority rcgen (ok 3) true host_config host_fs ≡ (ok made, served_fs))
    × ((t : Task) × Mem t asked.tasks
        × (spawned rcgen io_text request_json response_json host_config made 100 t ≡ record {
          incoming = 7 ∷ [];
          outgoing = [] ++ frame web;
          room = 1000 - (length web + 4);
        }))
unfolding answer ℕ_discrete resolve lookup text_dec sign_csr rcgen_cert
main-answer_example =
    main-answer rcgen io_text request_json response_json decode_config 0
      (record { config = config_path; genkey = true }) (ok 3) bind asking host_fs served_fs asked
      (cert_request 1 vm_a web web) web web (7 ∷ []) empty_stream 3 100 starts mem-cons_self refl
      (omega arith) refl (omega arith) (omega arith)
