-- ===== src/Ca/Authority.antt =====
-- libs/rust-libs/authn-scope-ca/src/ca.rs: `CertificateAuthority`.
pub mod Stored
use vm_authn_scope.Prelude.{Bool, ◌&&◌, Option, none, some, [], ◌∷◌, if◌then◌else◌}
use vm_authn_scope.Prelude.Result.{Result, ok, map_err, ok_or, ◌>>=◌ as bind}
use vm_authn_scope.Prelude.Io.{Io, pure, lift, on_err, ignoring, ◌>>=◌, ◌>>◌}
use vm_authn_scope.Prelude.Text.{Text, lit, first}
use vm_authn_scope.Prelude.Errors.{Bytes}
use vm_authn_scope.Ca.Errors.{
  CaError, key_not_found, cert_not_found, key_parse_failed, cert_parse_failed, rcgen_error, io,
}
use vm_authn_scope.Ca.Files.{
  Fs, exists, read_to_string, remove_file, create_parent_dir, write_file, set_permissions,
}
use vm_authn_scope.Ca.Rcgen.{
  Rcgen, CertParams, common_name, organization_name, digital_signature, key_cert_sign, crl_sign,
  authority,
}

pub record CertificateAuthority : Type 0 where
  pub key_pem : Text
  pub cert_pem : Text
  pub cert_der : Bytes
  pub key_der : Bytes

-- `set_mode_600`, with `?` taking the error to `CaError::Io`.
set_mode_600 : Text → Io Fs CaError (Unit {0})
set_mode_600 path = on_err io (set_permissions path 0o600)

module _ (rc : Rcgen) where
  -- The first CERTIFICATE block.
  abbrev and_then_ok : Option (Option Bytes) → Option Bytes
  and_then_ok none = none
  and_then_ok (some r) = r

  pem_to_der : Text → Option Bytes
  pem_to_der pem = and_then_ok (first (rc.certs pem))

  unfoldable pub load : Text → Text → Io Fs CaError CertificateAuthority
  unfolding pem_to_der
  load cert_path key_path = do
    cert_pem ← on_err (cert_not_found cert_path) (read_to_string cert_path)
    key_pem ← on_err (key_not_found key_path) (read_to_string key_path)
    key_pair ← lift (map_err key_parse_failed (rc.key_from_pem key_pem))
    cert_der ←
        lift (ok_or (cert_parse_failed (lit "no CERTIFICATE block found")) (pem_to_der cert_pem))
    pure (record {
      key_pem = key_pem;
      cert_pem = cert_pem;
      cert_der = cert_der;
      key_der = rc.key_to_der key_pair;
    })

  -- The parameters of the root certificate.
  unfoldable pub ca_params : CertParams rc.Ia5
  ca_params =
      let base = rc.default_params in
      record base {
        distinguished_name =
            (common_name, lit "authn-scope-ca") ∷ (organization_name, lit "authn-scope") ∷ [];
        is_ca = authority 1;
        key_usages = key_cert_sign ∷ crl_sign ∷ digital_signature ∷ [];
        not_before = rc.date_time_ymd 2024 1 1;
        not_after = rc.date_time_ymd 2034 1 1;
      }

  -- `if path.exists() { let _ = fs::remove_file(path); }`
  remove_existing : Text → Io Fs CaError (Unit {0})
  remove_existing path fs = if exists path fs then ignoring (remove_file path) fs else (ok tt, fs)

  -- The files are written: the certificate, then the key, then the mode of the key.
  store : Text → Text → CertificateAuthority → Io Fs CaError (Unit {0})
  unfolding set_mode_600
  store cert_path key_path made = do
    on_err io (create_parent_dir cert_path)
    on_err io (create_parent_dir key_path)
    on_err io (write_file cert_path made.cert_pem)
    on_err io (write_file key_path made.key_pem)
    set_mode_600 key_path

  made_from : rc.Key → rc.Certificate → CertificateAuthority
  made_from key_pair cert = record {
    key_pem = rc.key_to_pem key_pair;
    cert_pem = rc.cert_to_pem cert;
    cert_der = rc.cert_to_der cert;
    key_der = rc.key_to_der key_pair;
  }

  -- `init` behind its early return. `generated` is what `KeyPair::generate_for` returns.
  generate : Result Text rc.Key → Text → Text → Bool → Io Fs CaError CertificateAuthority
  unfolding store made_from ca_params remove_existing
  generate generated cert_path key_path idempotent = do
    (if idempotent then pure tt else (do remove_existing cert_path; remove_existing key_path))
    key_pair ← lift (map_err rcgen_error generated)
    cert ← lift (map_err rcgen_error (rc.self_signed ca_params key_pair))
    store cert_path key_path (made_from key_pair cert)
    pure (made_from key_pair cert)

  unfoldable pub init : Result Text rc.Key → Text → Text → Bool → Io Fs CaError CertificateAuthority
  unfolding generate
  init generated cert_path key_path idempotent fs =
      if idempotent && (exists cert_path fs && exists key_path fs)
      then load cert_path key_path fs
      else generate generated cert_path key_path idempotent fs

  -- `key_pair` and `rcgen_cert`
  unfoldable pub key_pair : CertificateAuthority → Result CaError rc.Key
  key_pair made = map_err key_parse_failed (rc.key_from_pem made.key_pem)

  issuer_from : CertParams rc.Ia5 → rc.Key → Result CaError rc.Certificate
  issuer_from params key = map_err rcgen_error (rc.self_signed params key)

  unfoldable pub rcgen_cert : CertificateAuthority → Result CaError rc.Certificate
  unfolding key_pair issuer_from
  rcgen_cert made = bind (key_pair made) (λ key.
      bind (map_err cert_parse_failed (rc.params_from_ca_cert_pem made.cert_pem))
        (λ params. issuer_from params key))
