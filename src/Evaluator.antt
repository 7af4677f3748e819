-- ===== src/Evaluator.antt =====
-- libs/rust-libs/authn-scope-evaluator/src/lib.rs: `Evaluator::from_cert_pem`, over `x509_parser`.
pub mod Accepted
pub mod Issued
pub mod Main
use vm_authn_scope.Prelude.{Option, none, some, ◌++◌, List}
use vm_authn_scope.Prelude.Result.{Result, ok, err, map_err, ok_or, ◌>>=◌}
use vm_authn_scope.Prelude.Text.{Text, lit, first}
use vm_authn_scope.X509.{X509}

pub data EvalError : Type 0 where
  x509_parse : Text → EvalError
  signature_verification : Text → EvalError

pub record Evaluator : Type 0 where
  pub identity : Text

abbrev joined : Option (Option Text) → Option Text
joined none = none
joined (some cn) = cn

-- `.next().and_then(|cn| cn.as_str().ok())`
unfoldable pub first_name : List (Option Text) → Option Text
first_name names = joined (first names)

module _ (xp : X509) where
  read_cert : Text → Text → Text → Result EvalError xp.Cert
  read_cert pem_failed cert_failed pem = do
    contents ← map_err (λ e. x509_parse (pem_failed ++ e)) (xp.parse_x509_pem pem)
    map_err (λ e. x509_parse (cert_failed ++ e)) (xp.parse_x509_certificate contents)

  read_ca : Text → Result EvalError xp.Cert
  unfolding read_cert
  read_ca = read_cert (lit "CA PEM parse failed: ") (lit "CA cert parse failed: ")

  read_peer : Text → Result EvalError xp.Cert
  unfolding read_cert
  read_peer = read_cert (lit "Peer PEM parse failed: ") (lit "Peer cert parse failed: ")

  abbrev unverified : Text → EvalError
  unverified e = signature_verification (lit "Signature verification failed: " ++ e)

  abbrev nameless : EvalError
  nameless = x509_parse (lit "Subject Common Name (CN) is missing")

  -- The authority's certificate is read first.
  unfoldable pub from_cert_pem : Text → Text → Result EvalError Evaluator
  unfolding read_ca read_peer
  from_cert_pem peer_cert_pem ca_cert_pem = do
    ca_cert ← read_ca ca_cert_pem
    peer_cert ← read_peer peer_cert_pem
    _ ← map_err unverified (xp.verify_signature peer_cert (xp.public_key ca_cert))
    identity ← ok_or nameless (first_name (xp.common_names peer_cert))
    ok (record { identity = identity })
