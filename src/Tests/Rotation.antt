-- ===== src/Tests/Rotation.antt =====
-- The client's rotation and the test workload at concrete inputs.
use vm_authn_scope.Prelude.{◌≡◌, ◌↔◌, refl, none, some, [], ◌∷◌, All, text_dec, ℕ_discrete}
use vm_authn_scope.Prelude.Result.{ok, err}
use vm_authn_scope.Prelude.Text.{lit}
use vm_authn_scope.Prelude.Utf8.{is_utf8}
use vm_authn_scope.Prelude.Errors.{not_found}
use vm_authn_scope.Proto.Codec.{write_all}
use vm_authn_scope.Ca.Files.{Fs}
use vm_authn_scope.Ca.Authority.Stored.{content_of}
use vm_authn_scope.Agent.Conn.{WorkloadRequest, WorkloadResponse, success, read_line}
use vm_authn_scope.Proto.Codec.{Json}
use vm_authn_scope.Agent.Request.{X509Credentials}
use vm_authn_scope.Workload.{
  WorkloadClient, Round, new_client, fetch_credentials, fetch_round, rotation_loop,
  current_credentials,
}
use vm_authn_scope.Workload.Rotation.{Fails, rotation_loop-latest, rotation_loop-none}
use vm_authn_scope.TestWorkload.{passed_path, socket_path, has_flag, main}
use vm_authn_scope.TestWorkload.Passed.{Rotates, main_rotation_iff}
use vm_authn_scope.Tests.World.{empty_stream}
use vm_authn_scope.Tests.Workload.{around}

abbrev request_json : Json WorkloadRequest
request_json = around.request_json

-- The response's line is the certificate.
abbrev response_json : Json WorkloadResponse
response_json = record {
  to_vec = λ resp. ok [];
  from_slice = λ line.
      ok (success (record { cert_pem = line; key_pem = lit "key"; ca_cert_pem = lit "ca" }));
}

abbrev served : Round
served = record { connected = ok tt; stream = empty_stream; peer = λ bytes. lit "a\n" }

abbrev served_next : Round
served_next = record { connected = ok tt; stream = empty_stream; peer = λ bytes. lit "b\n" }

abbrev refused : Round
refused = record { connected = err not_found; stream = empty_stream; peer = λ bytes. [] }

abbrev client : WorkloadClient
client = new_client (lit "/run/s")

abbrev second : X509Credentials
second = record { cert_pem = lit "b\n"; key_pem = lit "key"; ca_cert_pem = lit "ca" }

refused-Fails : Fails request_json response_json client refused
unfolding fetch_round fetch_credentials
refused-Fails = (_, refl)

rotation_loop-latest_example :
    current_credentials (
      rotation_loop request_json response_json
        (served ∷ refused ∷ served_next ∷ refused ∷ [])
        client)
    ≡ some second
unfolding fetch_round fetch_credentials write_all is_utf8 ℕ_discrete read_line
rotation_loop-latest_example =
    rotation_loop-latest request_json response_json client (served ∷ refused ∷ []) (refused ∷ [])
      served_next second refl (refused-Fails, tt)

rotation_loop-none_example :
    (current_credentials (rotation_loop request_json response_json (refused ∷ []) client) ≡ none)
    ↔ ((current_credentials client ≡ none)
        × All (Fails request_json response_json client) (refused ∷ []))
rotation_loop-none_example = rotation_loop-none request_json response_json client (refused ∷ [])

abbrev tmp_fs : Fs
tmp_fs = record {
  file = λ path. none;
  refuses = λ call. none;
  new_mode = 0o644;
  socket_mode = 0o755;
}

main_rotation_iff_example :
    let (r, fs') =
      main request_json response_json
        (lit "test" ∷ lit "/run/s" ∷ lit "--test-rotation" ∷ [])
        (some (lit "al"))
        served
        served_next
        tmp_fs in
    ((r ≡ ok tt) × (content_of (fs'.file passed_path) ≡ some (lit "1")))
    ↔ Rotates
        (fetch_round request_json response_json client served)
        (fetch_round request_json response_json client served_next)
unfolding socket_path has_flag text_dec ℕ_discrete
main_rotation_iff_example =
    main_rotation_iff request_json response_json
      (lit "test" ∷ lit "/run/s" ∷ lit "--test-rotation" ∷ []) (some (lit "al")) served served_next
      tmp_fs refl (λ path. refl)
