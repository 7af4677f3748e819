-- ===== src/Evaluator/Issued.antt =====
-- What the evaluator makes of a certificate that `sign_csr` issued.
use vm_authn_scope.Prelude.{ℕ, Option, some, List, [], ◌∷◌, ◌≡◌, sym}
use vm_authn_scope.Prelude.Result.{ok}
use vm_authn_scope.Prelude.Text.{Text}
use vm_authn_scope.Ca.Rcgen.{Rcgen, CsrParams, DnType, common_name, organization_name}
use vm_authn_scope.Ca.Authority.{CertificateAuthority}
use vm_authn_scope.Ca.Signing.{SigningRequest, sign_csr}
use vm_authn_scope.Ca.Signing.Issued.{sign_csr-Issued}
use vm_authn_scope.X509.{X509}
use vm_authn_scope.Evaluator.{from_cert_pem, first_name}
use vm_authn_scope.Evaluator.Accepted.{Holds, from_cert_pem_iff}

-- The common names of a distinguished name, as a parser lists them.
unfoldable pub common_names : List (DnType × Text) → List (Option Text)
common_names [] = []
common_names ((common_name, text) ∷ rest) = some text ∷ common_names rest
common_names ((organization_name, text) ∷ rest) = common_names rest

module _ (rc : Rcgen) (xp : X509) where
  -- A certificate that one library signs is read by the other with the subject it was given, and
  -- verifies under the key that signed it.
  pub record Interop : Type 0 where
    pub key_of : rc.PublicKey → xp.PublicKey
    pub reads :
        (csr : CsrParams rc.PublicKey rc.Ia5) (issuer : rc.Certificate) (key : rc.Key)
        (leaf : rc.Certificate)
        → rc.signed_by csr issuer key ≡ ok leaf
        → (cert : xp.Cert) × Holds xp (rc.cert_to_pem leaf) cert
          × (xp.verify_signature cert (key_of (rc.public_key key)) ≡ ok tt)
          × (xp.common_names cert ≡ common_names csr.params.distinguished_name)

  -- The certificate of an authority is that of its key.
  pub record Authentic (interop : Interop) (made : CertificateAuthority) : Type 0 where
    pub key : rc.Key
    pub cert : xp.Cert
    pub key_read : rc.key_from_pem made.key_pem ≡ ok key
    pub cert_read : Holds xp made.cert_pem cert
    pub same_key : xp.public_key cert ≡ interop.key_of (rc.public_key key)

  -- If the libraries agree on certificates and the authority's certificate is that of its
  -- key, the evaluator gives a certificate that sign_csr returns the first common name of the
  -- signing request, whatever identity the policy approved.
  pub from_cert_pem-sign_csr :
      (interop : Interop) (made : CertificateAuthority) (authentic : Authentic interop made)
      (now : ℕ) (req : SigningRequest) (csr : CsrParams rc.PublicKey rc.Ia5) {pem subject : Text}
      → rc.csr_from_pem req.csr_pem ≡ ok csr
      → first_name (common_names csr.params.distinguished_name) ≡ some subject
      → sign_csr rc made now req ≡ ok pem
      → from_cert_pem xp pem made.cert_pem ≡ ok (record { identity = subject })
  from_cert_pem-sign_csr interop made authentic now req csr {pem} {subject} from_request
        subject_named e =
      let issued = sign_csr-Issued rc made now req e in
      let same_csr : issued.csr ≡ csr = cc (issued.from_request, from_request) in
      let same_key : issued.key ≡ authentic.key =
        cc (issued.key_of_authority, authentic.key_read) in
      let (cert, held, verifies, names) =
        interop.reads _ issued.issuer issued.key issued.leaf issued.signed in
      (from_cert_pem_iff xp pem made.cert_pem subject).1 (record {
        ca_cert = authentic.cert;
        peer_cert = cert;
        ca_read = authentic.cert_read;
        peer_read = rw (issued.written) held;
        verifies = rw (authentic.same_key) (rw (sym same_key) verifies);
        named = rw (names) (rw (same_csr) subject_named);
      })
