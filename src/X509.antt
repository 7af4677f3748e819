-- ===== src/X509.antt =====
-- The interface of `x509_parser`, which is not part of this repository. Times are seconds from the
-- epoch, and may lie in front of it.
use vm_authn_scope.Prelude.{Option, List}
use vm_authn_scope.Prelude.Int.{ℤ}
use vm_authn_scope.Prelude.Result.{Result}
use vm_authn_scope.Prelude.Text.{Text}
use vm_authn_scope.Prelude.Errors.{Bytes}

pub record X509 : Type 1 where
  pub Cert : Type 0
  pub PublicKey : Type 0
  -- The contents of the first PEM block.
  pub parse_x509_pem : Text → Result Text Bytes
  pub parse_x509_certificate : Bytes → Result Text Cert
  pub public_key : Cert → PublicKey
  pub verify_signature : Cert → PublicKey → Result Text (Unit {0})
  -- The common names of the subject; one that is no string is `none`.
  pub common_names : Cert → List (Option Text)
  pub not_before : Cert → ℤ
  pub not_after : Cert → ℤ
