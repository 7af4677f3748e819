-- ===== src/Evaluator/Accepted.antt =====
-- Which certificates are accepted.
use vm_authn_scope.Prelude.{Option, none, some, ◌≡◌, ◌↔◌, ◌∙◌, ap, List}
use vm_authn_scope.Prelude.Result.{ok, ok_or, >>=-eq-ok, map_err-eq-ok, map_err->>=}
use vm_authn_scope.Prelude.Text.{Text, lit}
use vm_authn_scope.X509.{X509}
use vm_authn_scope.Evaluator.{
  first_name, read_cert, read_ca, read_peer, unverified, nameless, from_cert_pem,
}

module _ (xp : X509) where
  -- A PEM text that holds a certificate.
  abbrev pub Holds : Text → xp.Cert → Type 0
  Holds pem cert =
      (contents : List _) × (xp.parse_x509_pem pem ≡ ok contents)
      × (xp.parse_x509_certificate contents ≡ ok cert)

  -- The peer's certificate is signed with the key of the authority's and names the identity.
  pub record Verified (peer_cert_pem ca_cert_pem identity : Text) : Type 0 where
    pub ca_cert : xp.Cert
    pub peer_cert : xp.Cert
    pub ca_read : Holds ca_cert_pem ca_cert
    pub peer_read : Holds peer_cert_pem peer_cert
    pub verifies : xp.verify_signature peer_cert (xp.public_key ca_cert) ≡ ok tt
    pub named : first_name (xp.common_names peer_cert) ≡ some identity

  read_cert_iff :
      (a b pem : Text) (cert : xp.Cert) → (read_cert xp a b pem ≡ ok cert) ↔ Holds pem cert
  unfolding read_cert
  read_cert_iff a b pem cert = (
    λ h.
        let (contents, parsed, later) = map_err->>= _ (xp.parse_x509_pem pem) _ h in
        (contents, parsed, map_err-eq-ok _ (xp.parse_x509_certificate contents) later),
    λ (contents, parsed, read). rw (parsed, read),
  )

  read_ca_iff : (pem : Text) (cert : xp.Cert) → (read_ca xp pem ≡ ok cert) ↔ Holds pem cert
  unfolding read_ca
  read_ca_iff pem cert =
      read_cert_iff (lit "CA PEM parse failed: ") (lit "CA cert parse failed: ") pem cert

  read_peer_iff : (pem : Text) (cert : xp.Cert) → (read_peer xp pem ≡ ok cert) ↔ Holds pem cert
  unfolding read_peer
  read_peer_iff pem cert =
      read_cert_iff (lit "Peer PEM parse failed: ") (lit "Peer cert parse failed: ") pem cert

  ok_or-eq-ok : {E A : Type 0} (e : E) (o : Option A) {a : A} → ok_or e o ≡ ok a → o ≡ some a
  ok_or-eq-ok e none h = absurd (cc)
  ok_or-eq-ok e (some b) h = cc

  -- from_cert_pem returns an identity exactly if both certificates can be read, the peer's
  -- verifies under the key of the authority's, and the first common name of the peer's is
  -- that identity.
  pub from_cert_pem_iff :
      (peer_cert_pem ca_cert_pem identity : Text)
      → (from_cert_pem xp peer_cert_pem ca_cert_pem ≡ ok (record { identity = identity }))
        ↔ Verified peer_cert_pem ca_cert_pem identity
  unfolding from_cert_pem
  from_cert_pem_iff peer_cert_pem ca_cert_pem identity = (
    λ h.
        let (ca_cert, ca_read, h1) = >>=-eq-ok (read_ca xp ca_cert_pem) _ h in
        let (peer_cert, peer_read, h2) = >>=-eq-ok (read_peer xp peer_cert_pem) _ h1 in
        let (u, verifies, h3) =
          map_err->>= (unverified xp) (xp.verify_signature peer_cert (xp.public_key ca_cert)) _
            h2 in
        let (name, named, h4) =
          >>=-eq-ok (ok_or (nameless xp) (first_name (xp.common_names peer_cert))) _ h3 in
        let same : name ≡ identity = cc h4 in
        record {
          ca_cert = ca_cert;
          peer_cert = peer_cert;
          ca_read = (read_ca_iff ca_cert_pem ca_cert).0 ca_read;
          peer_read = (read_peer_iff peer_cert_pem peer_cert).0 peer_read;
          verifies = verifies;
          named = ok_or-eq-ok (nameless xp) _ named ∙ ap some same;
        },
    λ v.
        rw ((read_ca_iff ca_cert_pem v.ca_cert).1 v.ca_read)
          (rw ((read_peer_iff peer_cert_pem v.peer_cert).1 v.peer_read) (rw (v.verifies, v.named))),
  )
