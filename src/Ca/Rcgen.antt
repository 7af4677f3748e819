-- ===== src/Ca/Rcgen.antt =====
-- The interface of `rcgen` and `rustls_pemfile`, which are not part of this
-- repository: types and calls, and what the program relies on as named laws.
use vm_authn_scope.Prelude.{ℕ, ◌≡◌, Option, some, List, [], ◌∷◌}
use vm_authn_scope.Prelude.Result.{Result, ok}
use vm_authn_scope.Prelude.Ip.{IpAddr}
use vm_authn_scope.Prelude.Text.{Text}
use vm_authn_scope.Prelude.Errors.{Bytes}

pub data DnType : Type 0 where
  common_name organization_name : DnType

pub data KeyUsage : Type 0 where
  digital_signature key_cert_sign crl_sign : KeyUsage

pub data ExtendedKeyUsage : Type 0 where
  server_auth client_auth : ExtendedKeyUsage

-- `IsCa`; a constrained authority has a path length.
pub data IsCa : Type 0 where
  no_ca : IsCa
  authority : ℕ → IsCa

pub data SanType (Ia5 : Type 0) : Type 0 where
  dns_name : Ia5 → SanType Ia5
  ip_address : IpAddr → SanType Ia5

-- `CertificateParams`, as far as the program sets it. Times are seconds since the epoch.
pub record CertParams (Ia5 : Type 0) : Type 0 where
  pub distinguished_name : List (DnType × Text)
  pub is_ca : IsCa
  pub key_usages : List KeyUsage
  pub extended_key_usages : List ExtendedKeyUsage
  pub subject_alt_names : List (SanType Ia5)
  pub not_before : ℕ
  pub not_after : ℕ

-- `CertificateSigningRequestParams`
pub record CsrParams (PublicKey Ia5 : Type 0) : Type 0 where
  pub params : CertParams Ia5
  pub public_key : PublicKey

pub record Rcgen : Type 1 where
  pub Key : Type 0
  pub PublicKey : Type 0
  pub Certificate : Type 0
  pub Ia5 : Type 0
  pub public_key : Key → PublicKey
  pub key_from_pem : Text → Result Text Key
  pub key_to_pem : Key → Text
  pub key_to_der : Key → Bytes
  pub default_params : CertParams Ia5
  pub date_time_ymd : ℕ → ℕ → ℕ → ℕ
  pub csr_from_pem : Text → Result Text (CsrParams PublicKey Ia5)
  pub csr_to_pem : CertParams Ia5 → Key → Result Text Text
  pub params_from_ca_cert_pem : Text → Result Text (CertParams Ia5)
  pub self_signed : CertParams Ia5 → Key → Result Text Certificate
  pub signed_by : CsrParams PublicKey Ia5 → Certificate → Key → Result Text Certificate
  pub cert_to_pem : Certificate → Text
  pub cert_to_der : Certificate → Bytes
  -- `Ia5String::try_from`
  pub ia5_string : Text → Result Text Ia5
  -- `rustls_pemfile::certs`; a block that is malformed is `none`.
  pub certs : Text → List (Option Bytes)

-- A key, and a certificate, written as PEM are read back.
pub record PemRoundTrips (rc : Rcgen) (k : rc.Key) (c : rc.Certificate) : Type 0 where
  pub key : rc.key_from_pem (rc.key_to_pem k) ≡ ok k
  pub cert : rc.certs (rc.cert_to_pem c) ≡ some (rc.cert_to_der c) ∷ []
