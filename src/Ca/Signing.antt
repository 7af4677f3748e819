-- ===== src/Ca/Signing.antt =====
-- libs/rust-libs/authn-scope-ca/src/signing.rs: `sign_csr`. The time is an argument.
pub mod Issued
use vm_authn_scope.Prelude.{ℕ, ◌+◌, Option, none, some, [], ◌∷◌, ◌++◌}
use vm_authn_scope.Prelude.Result.{Result, ok, map_err, ◌>>=◌}
use vm_authn_scope.Prelude.Ip.{parse_ip}
use vm_authn_scope.Prelude.Text.{Text, lit}
use vm_authn_scope.Prelude.{List}
use vm_authn_scope.Ca.Errors.{CaError, cert_parse_failed, rcgen_error}
use vm_authn_scope.Ca.Rcgen.{
  Rcgen, CsrParams, SanType, dns_name, ip_address, digital_signature, server_auth, client_auth,
}
use vm_authn_scope.Ca.Authority.{CertificateAuthority, rcgen_cert, key_pair}

pub record SigningRequest : Type 0 where
  pub csr_pem : Text
  pub identity : Text
  pub vm_name : Text
  pub cid : ℕ
  pub ip : Option Text
  pub validity_seconds : ℕ

unfoldable pub invalid_ip : Text → Text → Text
invalid_ip ip_str e = lit "invalid IP address '" ++ (ip_str ++ (lit "': " ++ e))

module _ (rc : Rcgen) where
  abbrev pub Sans : Type 0
  Sans = List (SanType rc.Ia5)

  -- `if let Some(ref ip_str) = req.ip { … sans.push(…) }`
  push_ip : Option Text → Sans → Result CaError Sans
  push_ip none sans = ok sans
  push_ip (some ip_str) sans = do
    ip_addr ← map_err (λ e. cert_parse_failed (invalid_ip ip_str e)) (parse_ip ip_str)
    ok (sans ++ ip_address ip_addr ∷ [])

  -- What the code sets in the parameters of the request, and nothing else.
  abbrev pub leaf_params :
      CsrParams rc.PublicKey rc.Ia5 → Sans → ℕ → ℕ → CsrParams rc.PublicKey rc.Ia5
  leaf_params csr sans now validity_seconds =
      let base = csr.params in
      record csr {
        params = record base {
          key_usages = digital_signature ∷ [];
          extended_key_usages = server_auth ∷ client_auth ∷ [];
          subject_alt_names = sans;
          not_before = now;
          not_after = now + validity_seconds;
        };
      }

  unfoldable pub sign_csr : CertificateAuthority → ℕ → SigningRequest → Result CaError Text
  unfolding push_ip
  sign_csr made now req = do
    csr ← map_err rcgen_error (rc.csr_from_pem req.csr_pem)
    dns ← map_err cert_parse_failed (rc.ia5_string req.identity)
    sans ← push_ip req.ip (dns_name dns ∷ [])
    ca_cert ← rcgen_cert rc made
    ca_kp ← key_pair rc made
    leaf ←
        map_err rcgen_error
          (rc.signed_by (leaf_params csr sans now req.validity_seconds) ca_cert ca_kp)
    ok (rc.cert_to_pem leaf)
