-- ===== src/Ca/Signing/Issued.antt =====
-- What a certificate that was issued says.
use vm_authn_scope.Prelude.{ap, sym, ◌↔◌, ℕ, ◌+◌, Option, none, some, [], ◌∷◌, ◌≡◌}
use vm_authn_scope.Prelude.Result.{ok, map_err->>=, >>=-eq-ok, map_err-eq-ok}
use vm_authn_scope.Prelude.Ip.{IpAddr, parse_ip}
use vm_authn_scope.Prelude.Text.{Text}
use vm_authn_scope.Ca.Errors.{cert_parse_failed, rcgen_error}
use vm_authn_scope.Ca.Rcgen.{
  Rcgen, CertParams, CsrParams, dns_name, ip_address, digital_signature, server_auth, client_auth,
}
use vm_authn_scope.Ca.Authority.{CertificateAuthority, rcgen_cert, key_pair}
use vm_authn_scope.Ca.Signing.{SigningRequest, Sans, push_ip, leaf_params, sign_csr}

module _ (rc : Rcgen) where
  -- The alternative names: the identity, and the address if there is one.
  abbrev pub SansFor : Text → Option Text → Sans rc → Type 0
  SansFor identity none sans =
      (dns : rc.Ia5) × (rc.ia5_string identity ≡ ok dns) × (sans ≡ dns_name dns ∷ [])
  SansFor identity (some ip_str) sans =
      (dns : rc.Ia5) × (rc.ia5_string identity ≡ ok dns)
      × (ip : IpAddr) × (parse_ip ip_str ≡ ok ip)
      × (sans ≡ dns_name dns ∷ ip_address ip ∷ [])

  -- What is signed: the public key, the subject and the constraints of the signing request, with
  -- these names, for signatures and both ends of TLS, from now for so many seconds.
  abbrev pub leaf_of :
      CsrParams rc.PublicKey rc.Ia5 → Sans rc → ℕ → ℕ → CsrParams rc.PublicKey rc.Ia5
  leaf_of csr sans now seconds = record {
    params = record {
      distinguished_name = csr.params.distinguished_name;
      is_ca = csr.params.is_ca;
      key_usages = digital_signature ∷ [];
      extended_key_usages = server_auth ∷ client_auth ∷ [];
      subject_alt_names = sans;
      not_before = now;
      not_after = now + seconds;
    };
    public_key = csr.public_key;
  }

  -- How a certificate came to be signed.
  pub record Issued (made : CertificateAuthority) (now : ℕ) (req : SigningRequest) (pem : Text)
      : Type 0 where
    pub csr : CsrParams rc.PublicKey rc.Ia5
    pub sans : Sans rc
    pub key : rc.Key
    pub issuer : rc.Certificate
    pub leaf : rc.Certificate
    pub from_request : rc.csr_from_pem req.csr_pem ≡ ok csr
    pub names : SansFor req.identity req.ip sans
    pub ca_params : CertParams rc.Ia5
    pub ca_params_of_authority : rc.params_from_ca_cert_pem made.cert_pem ≡ ok ca_params
    pub issuer_of_authority : rc.self_signed ca_params key ≡ ok issuer
    pub key_of_authority : rc.key_from_pem made.key_pem ≡ ok key
    pub signed : rc.signed_by (leaf_of csr sans now req.validity_seconds) issuer key ≡ ok leaf
    pub written : pem ≡ rc.cert_to_pem leaf

  push_ip-SansFor :
      (identity : Text) (ip : Option Text) {dns : rc.Ia5} {sans : Sans rc}
      → rc.ia5_string identity ≡ ok dns
      → push_ip rc ip (dns_name dns ∷ []) ≡ ok sans
      → SansFor identity ip sans
  unfolding push_ip
  push_ip-SansFor identity none {dns} ia5 e = (dns, ia5, cc)
  push_ip-SansFor identity (some ip_str) {dns} ia5 e =
      let (ip, parsed, done) = map_err->>= _ (parse_ip ip_str) _ e in (dns, ia5, ip, parsed, cc)

  -- The issuer is the certificate of the authority, signed again with its key.
  rcgen_cert-eq-ok :
      (made : CertificateAuthority) (key : rc.Key) {issuer : rc.Certificate}
      → rc.key_from_pem made.key_pem ≡ ok key
      → rcgen_cert rc made ≡ ok issuer
      → (params : CertParams rc.Ia5) × (rc.params_from_ca_cert_pem made.cert_pem ≡ ok params)
        × (rc.self_signed params key ≡ ok issuer)
  unfolding rcgen_cert key_pair
  rcgen_cert-eq-ok made key key_of e =
      let (params, read, e') =
        map_err->>= cert_parse_failed (rc.params_from_ca_cert_pem made.cert_pem) _
          (rw key_of at e) in
      (params, read, map_err-eq-ok rcgen_error (rc.self_signed params key) e')

  -- How a certificate that was returned came about.
  pub sign_csr-Issued :
      (made : CertificateAuthority) (now : ℕ) (req : SigningRequest) {pem : Text}
      → sign_csr rc made now req ≡ ok pem
      → Issued made now req pem
  unfolding sign_csr key_pair
  sign_csr-Issued made now req e =
      let (csr, from_request, e1) = map_err->>= rcgen_error (rc.csr_from_pem req.csr_pem) _ e in
      let (dns, ia5, e2) = map_err->>= cert_parse_failed (rc.ia5_string req.identity) _ e1 in
      let (sans, names, e3) = >>=-eq-ok (push_ip rc req.ip (dns_name dns ∷ [])) _ e2 in
      let (issuer, issuer_of, e4) = >>=-eq-ok (rcgen_cert rc made) _ e3 in
      let (key, key_of, e5) = >>=-eq-ok (key_pair rc made) _ e4 in
      let (params, params_of, own) =
        rcgen_cert-eq-ok made key (map_err-eq-ok _ (rc.key_from_pem made.key_pem) key_of)
          issuer_of in
      let (leaf, signed, e6) =
        map_err->>= rcgen_error
          (rc.signed_by (leaf_params rc csr sans now req.validity_seconds) issuer key) _ e5 in
      record {
        csr = csr;
        sans = sans;
        issuer = issuer;
        key = key;
        leaf = leaf;
        from_request = from_request;
        names = push_ip-SansFor req.identity req.ip ia5 names;
        ca_params = params;
        ca_params_of_authority = params_of;
        issuer_of_authority = own;
        key_of_authority = map_err-eq-ok _ (rc.key_from_pem made.key_pem) key_of;
        signed = signed;
        written = cc;
      }

  SansFor-push_ip :
      (identity : Text) (ip : Option Text) {sans : Sans rc}
      → SansFor identity ip sans
      → (dns : rc.Ia5) × (rc.ia5_string identity ≡ ok dns)
        × (push_ip rc ip (dns_name dns ∷ []) ≡ ok sans)
  unfolding push_ip
  SansFor-push_ip identity none (dns, ia5, same) = (dns, ia5, ap ok (sym same))
  SansFor-push_ip identity (some ip_str) (dns, ia5, addr, parsed, same) =
      (dns, ia5, rw parsed (ap ok (sym same)))

  -- sign_csr returns a certificate exactly if the signing request, the key and certificate of
  -- the authority, the identity as a name and the address, if there is one, can be read, the
  -- authority's certificate is made an issuer by signing its parameters with its key, and the
  -- library signs, with that key and issuer, the public key, subject and constraints of the
  -- signing request with the names of the identity and the address, for digital signatures
  -- and both ends of TLS, valid from now for just the seconds of the request.
  pub sign_csr_iff :
      (made : CertificateAuthority) (now : ℕ) (req : SigningRequest) (pem : Text)
      → (sign_csr rc made now req ≡ ok pem) ↔ Issued made now req pem
  unfolding sign_csr key_pair rcgen_cert
  sign_csr_iff made now req pem = (
    sign_csr-Issued made now req,
    λ i.
        let (dns, ia5, pushed) = SansFor-push_ip req.identity req.ip i.names in
        rw
          (
            i.from_request, ia5, pushed, i.key_of_authority, i.ca_params_of_authority,
            i.issuer_of_authority, i.signed,
          )
          (ap ok (sym i.written)),
  )
