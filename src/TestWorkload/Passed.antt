-- ===== src/TestWorkload/Passed.antt =====
-- When the test of rotation passes.
use vm_authn_scope.Prelude.{
  ◌≡◌, ◌≢◌, ◌↔◌, refl, ap, true, false, none, some, Option, List, Bool-cases, inl, inr, ◌==◌,
  text_eq, ==-eq-false, arith,
}
use mathlib.Core.Option
use vm_authn_scope.Prelude.Result.{Result, ok}
use vm_authn_scope.Prelude.Io.{continue-eq, relabel, relabel-eq-ok}
use vm_authn_scope.Prelude.Text.{Text, lit}
use vm_authn_scope.Prelude.Errors.{Error}
use vm_authn_scope.Proto.Codec.{Json}
use vm_authn_scope.Ca.Files.{Fs, write, write_file, put}
use vm_authn_scope.Ca.Authority.Stored.{content_of}
use vm_authn_scope.Agent.Request.{X509Credentials}
use vm_authn_scope.Agent.Conn.{WorkloadRequest, WorkloadResponse}
use vm_authn_scope.Workload.{Round, new_client, fetch_round}
use vm_authn_scope.TestWorkload.{
  passed_path, has_flag, socket_path, pem_path, save_file, save, rotation_test, main,
}

save_file-content :
    (path text : Text) (fs fs' : Fs)
    → save_file path text fs ≡ (ok tt, fs')
    → content_of (fs'.file path) ≡ some text
unfolding save_file write_file put
save_file-content path text fs fs' h = ground arith

-- The system refuses no write.
abbrev pub CanWrite : Fs → Type 0
CanWrite fs = (path : Text) → fs.refuses (write path) ≡ none

save_file-CanWrite :
    (path text : Text) (fs : Fs)
    → CanWrite fs
    → ((save_file path text fs).0 ≡ ok tt) × CanWrite (save_file path text fs).1
unfolding save_file write_file
save_file-CanWrite path text fs can = (ground (arith, can path), λ p. ground (arith, can p))

save-CanWrite :
    (username : Text) (creds : X509Credentials) (fs : Fs)
    → CanWrite fs
    → ((save username creds fs).0 ≡ ok tt) × CanWrite (save username creds fs).1
unfolding save
save-CanWrite username creds fs can =
    let (saved1, can1) =
      save_file-CanWrite (pem_path (lit "cert") username) creds.cert_pem fs can in
    let fs1 : Fs = (save_file (pem_path (lit "cert") username) creds.cert_pem fs).1 in
    let (saved2, can2) =
      save_file-CanWrite (pem_path (lit "key") username) creds.key_pem fs1 can1 in
    let fs2 : Fs = (save_file (pem_path (lit "key") username) creds.key_pem fs1).1 in
    let (saved3, can3) =
      save_file-CanWrite (pem_path (lit "ca") username) creds.ca_cert_pem fs2 can2 in
    (rw (saved1, saved2, saved3) refl, λ p. rw (saved1, saved2) (can3 p))

-- Both fetches return credentials, with certificates that differ.
abbrev pub Rotates : Result Error X509Credentials → Result Error X509Credentials → Type 0
Rotates first second =
    (creds1 creds2 : X509Credentials) × (first ≡ ok creds1)
    × (second ≡ ok creds2)
    × (creds1.cert_pem ≢ creds2.cert_pem)

rotation_test-Rotates :
    (username : Text) (first second : Result Error X509Credentials) (fs fs' : Fs)
    → rotation_test username first second fs ≡ (ok tt, fs')
    → Rotates first second × (content_of (fs'.file passed_path) ≡ some (lit "1"))
unfolding rotation_test
rotation_test-Rotates username first second fs fs' h =
    let (creds1, fetched1, h1) = continue-eq _ (relabel (λ _. 1) first, fs) h in
    let (u, saved, h2) = continue-eq _ (save username creds1 fs) h1 in
    let fs1 : Fs = (save username creds1 fs).1 in
    let (creds2, fetched2, h3) = continue-eq _ (relabel (λ _. 1) second, fs1) h2 in
    elim (Bool-cases (creds1.cert_pem == creds2.cert_pem)) [
      | inl same ↦ absurd (cc (rw same at h3))
      | inr differ ↦ (
        (
          creds1,
          creds2,
          relabel-eq-ok _ first fetched1,
          relabel-eq-ok _ second fetched2,
          ==-eq-false creds1.cert_pem creds2.cert_pem differ,
        ),
        save_file-content passed_path (lit "1") fs1 fs' (rw differ at h3),
      )
    ]

Rotates-rotation_test :
    (username : Text) (first second : Result Error X509Credentials) (fs : Fs)
    → CanWrite fs
    → Rotates first second
    → (rotation_test username first second fs).0 ≡ ok tt
unfolding rotation_test
Rotates-rotation_test username first second fs can (creds1, creds2, fetched1, fetched2, differ) =
    let (saved, still) = save-CanWrite username creds1 fs can in
    let other : (creds1.cert_pem == creds2.cert_pem) ≡ false = ground (arith, differ) in
    rw (fetched1, saved, fetched2, other)
      (save_file-CanWrite passed_path (lit "1") (save username creds1 fs).1 still).0

module _ (request_json : Json WorkloadRequest) (response_json : Json WorkloadResponse) where
  -- With --test-rotation among its arguments and every write granted, the test workload exits
  -- with 0 and has written the file that says so exactly if both fetches return credentials
  -- and their certificates differ.
  pub main_rotation_iff :
      (args : List Text) (user : Option Text) (round1 round2 : Round) (fs : Fs)
      → has_flag args ≡ true
      → CanWrite fs
      → let (r, fs') = main request_json response_json args user round1 round2 fs in
        let client = new_client (socket_path args) in
        ((r ≡ ok tt) × (content_of (fs'.file passed_path) ≡ some (lit "1")))
        ↔ Rotates
            (fetch_round request_json response_json client round1)
            (fetch_round request_json response_json client round2)
  unfolding main
  main_rotation_iff args user round1 round2 fs flagged can =
      let username = Option.get_or user (lit "unknown") in
      let first = fetch_round request_json response_json (new_client (socket_path args)) round1 in
      let second = fetch_round request_json response_json (new_client (socket_path args)) round2 in
      let p = rotation_test username first second fs in
      let passes = rotation_test-Rotates username first second fs p.1 in
      rw flagged (
        λ (done, written). (passes (ap (λ r. (r, p.1)) done)).0,
        λ rotates.
            let done = Rotates-rotation_test username first second fs can rotates in
            (done, (passes (ap (λ r. (r, p.1)) done)).1),
      )
