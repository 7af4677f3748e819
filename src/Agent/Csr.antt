-- ===== src/Agent/Csr.antt =====
-- apps/rust-apps/authn-scope-agent/src/csr.rs: a key and the signing request for an identity.
use vm_authn_scope.Prelude.{[], ◌∷◌}
use vm_authn_scope.Prelude.Result.{Result, ok, map_err, ◌>>=◌}
use vm_authn_scope.Prelude.Text.{Text, lit}
use vm_authn_scope.Prelude.Errors.{Error, message}
use vm_authn_scope.Ca.Rcgen.{Rcgen, CertParams, common_name, organization_name}

pub record GeneratedCsr : Type 0 where
  pub key_pem : Text
  pub csr_pem : Text

module _ (rc : Rcgen) where
  unfoldable pub csr_params : Text → CertParams rc.Ia5
  csr_params identity_name =
      let base = rc.default_params in
      record base {
        distinguished_name =
            (common_name, identity_name) ∷ (organization_name, lit "authn-scope") ∷ [];
      }

  -- `generated` is what `KeyPair::generate_for` returns.
  unfoldable pub generate_csr : Result Text rc.Key → Text → Result Error GeneratedCsr
  unfolding csr_params
  generate_csr generated identity_name = do
    key ← map_err message generated
    csr_pem ← map_err message (rc.csr_to_pem (csr_params identity_name) key)
    ok (record { key_pem = rc.key_to_pem key; csr_pem = csr_pem })
