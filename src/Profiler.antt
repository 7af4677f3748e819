-- ===== src/Profiler.antt =====
-- apps/rust-apps/profiler/src/main.rs: the memory of the process in /proc/self/status, and the
-- rounds of signing. The error of a function is the exit code; times and printing are left out.
pub mod Status
use vm_authn_scope.Prelude.{
  ℕ, zero, suc, ◌^◌, Option, none, some, true, List, [], ◌∷◌, ◌++◌, if◌then◌else◌,
}
use vm_authn_scope.Prelude.Result.{Result, ok, err}
use vm_authn_scope.Prelude.Io.{Io, pure, lift, relabel, on_err, ignoring, ◌>>=◌, ◌>>◌}
use vm_authn_scope.Prelude.Text.{Text, lit, show, lines, words, strip_prefix, is_some, parse_u64}
use vm_authn_scope.Ca.Files.{Fs, remove_file}
use vm_authn_scope.Ca.Rcgen.{Rcgen, CertParams, dns_name, no_ca}
use vm_authn_scope.Ca.Authority.{CertificateAuthority, init}
use vm_authn_scope.Ca.Signing.{SigningRequest, sign_csr}

-- `parts[1].parse().ok()`, and where there is no such part the loop goes on.
second_or : List Text → Option ℕ → Option ℕ
second_or (_ ∷ number ∷ _) later = parse_u64 number
second_or _ later = later

-- The first line with the prefix and two parts decides.
unfoldable pub kb_in : Text → List Text → Option ℕ
unfolding second_or
kb_in prefix [] = none
kb_in prefix (line ∷ rest) =
    let later = kb_in prefix rest in
    if is_some (strip_prefix prefix line) then second_or (words line) later else later

kb_of : Text → Option Text → Option ℕ
kb_of prefix none = none
kb_of prefix (some status) = kb_in prefix (lines status)

-- `get_rss_kb` and `get_vsize_kb`; a file that cannot be read is `none`.
unfoldable pub get_rss_kb : (Text → Option Text) → Option ℕ
unfolding kb_of
get_rss_kb read = kb_of (lit "VmRSS:") (read (lit "/proc/self/status"))

unfoldable pub get_vsize_kb : (Text → Option Text) → Option ℕ
unfolding kb_of
get_vsize_kb read = kb_of (lit "VmSize:") (read (lit "/proc/self/status"))

abbrev pub cert_path : Text
cert_path = lit "/tmp/profile-ca-cert.pem"

abbrev pub key_path : Text
key_path = lit "/tmp/profile-ca-key.pem"

-- "service-{}", which is no address, so it is a DNS name.
abbrev pub service : ℕ → Text
service i = lit "service-" ++ show i

-- `?` in `main`
abbrev or_exit : {E A : Type 0} → Result E A → Io Fs ℕ A
or_exit r = lift (relabel (λ _. 1) r)

module _ (rc : Rcgen) where
  service_params : rc.Ia5 → CertParams rc.Ia5
  service_params name =
      let base = rc.default_params in
      record base { subject_alt_names = dns_name name ∷ []; is_ca = no_ca }

  service_request : ℕ → Text → SigningRequest
  service_request i csr_pem = record {
    csr_pem = csr_pem;
    identity = service i;
    vm_name = lit "test-vm";
    cid = 3;
    ip = some (lit "127.0.0.1");
    validity_seconds = 3600;
  }

  -- One round: `generated` is what `KeyPair::generate` returns, and `now` the time of signing.
  sign_service : CertificateAuthority → ℕ → Result Text rc.Key → ℕ → Io Fs ℕ Text
  unfolding service_params service_request
  sign_service made i generated now = do
    key ← or_exit generated
    name ← or_exit (rc.ia5_string (service i))
    csr_pem ← or_exit (rc.csr_to_pem (service_params name) key)
    or_exit (sign_csr rc made now (service_request i csr_pem))

  -- The rounds that are left, from round `i` on.
  sign_services :
      (ℕ → Result Text rc.Key) → (ℕ → ℕ) → CertificateAuthority → ℕ → ℕ → Io Fs ℕ (Unit {0})
  unfolding sign_service
  sign_services generated now made zero i s = (ok tt, s)
  sign_services generated now made (suc left) i s =
      (do sign_service made i (generated i) (now i); sign_services generated now made left (suc i))
        s

  unfoldable pub main : Result Text rc.Key → (ℕ → Result Text rc.Key) → (ℕ → ℕ) → Io Fs ℕ (Unit {0})
  unfolding sign_services
  main ca_generated generated now = do
    ignoring (remove_file cert_path)
    ignoring (remove_file key_path)
    made ← on_err (λ _. 1) (init rc ca_generated cert_path key_path true)
    sign_services generated now made 200 0
    ignoring (remove_file cert_path)
    ignoring (remove_file key_path)
